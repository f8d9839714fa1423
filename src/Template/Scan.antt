-- ===== src/Template/Scan.antt =====
-- What a match of the expression for placeholders is, and what it consumes.
use noti.Common.{
  Bool, true, not, all, ◌≡◌, ◌≤◌, ◌<◌, refl, List, [], ◌∷◌, ◌++◌, some, arith, ◌==◌, length,
  Bool-cases, inl, inr, ap, is_empty, ◌&&◌, false,
}
use mathlib.Core.List.{append_assoc}
use noti.Text.{Text}
use noti.Template.{Piece, plain, hole, mustache, hash, run, close_hash, close_mustache, match_here}

-- the text that a piece stands for
unfoldable pub source : Piece → Text
source (plain c) = c ∷ []
source (hole mustache r) = b'{' ∷ b'{' ∷ r ++ b'}' ∷ b'}' ∷ []
source (hole hash r) = b'#' ∷ b'{' ∷ r ++ b'}' ∷ []

unfoldable pub sources : List Piece → Text
unfolding source
sources [] = []
sources (p ∷ ps) = source p ++ sources ps

-- A run between the delimiters: not empty, and without the closing unit.
abbrev pub is_run : Text → Bool
is_run r = not (is_empty r) && all (λ c. not (c == b'}')) r

-- A piece that the expression matches.
abbrev pub is_match : Piece → Bool
is_match (plain c) = false
is_match (hole o r) = is_run r

all-run : (s : Text) → all (λ c. not (c == b'}')) (run s).0 ≡ true
unfolding run
all-run [] = refl
all-run (c ∷ s) = ground (arith, all-run s)

pub append-run : (s : Text) → (run s).0 ++ (run s).1 ≡ s
unfolding run
append-run [] = refl
append-run (c ∷ s) = ground (arith, append-run s)

length-run : (s : Text) → length (run s).1 ≤ length s
unfolding run
length-run [] = omega arith
length-run (c ∷ s) = ground (arith, length-run s)

-- A match spells its piece, and consumes at least one unit.
pub record Spells (s : Text) (p : Piece) (after : Text) : Type 0 where
  pub spelled : source p ++ after ≡ s
  pub shorter : length after < length s
  pub matches : is_match p ≡ true

close_hash_inv :
    (r s : Text) {p : Piece} {after : Text}
    → close_hash r s ≡ some (p, after)
    → (p ≡ hole hash r) × (s ≡ b'}' ∷ after) × (is_empty r ≡ false)
unfolding close_hash
close_hash_inv r [] h = cc
close_hash_inv r (c ∷ s) h = ground arith

close_mustache_inv :
    (r s : Text) {p : Piece} {after : Text}
    → close_mustache r s ≡ some (p, after)
    → (p ≡ hole mustache r) × (s ≡ b'}' ∷ b'}' ∷ after) × (is_empty r ≡ false)
unfolding close_mustache
close_mustache_inv r [] h = cc
close_mustache_inv r (c ∷ []) h = cc
close_mustache_inv r (c ∷ d ∷ s) h = ground arith

source_hash :
    (r after s : Text) → r ++ b'}' ∷ after ≡ s → source (hole hash r) ++ after ≡ b'#' ∷ b'{' ∷ s
unfolding source
source_hash r after s h = simp append_assoc (rw h)

source_mustache :
    (r after s : Text)
    → r ++ b'}' ∷ b'}' ∷ after ≡ s
    → source (hole mustache r) ++ after ≡ b'{' ∷ b'{' ∷ s
unfolding source
source_mustache r after s h = simp append_assoc (rw h)

hash-Spells :
    (s : Text) {p : Piece} {after : Text}
    → close_hash (run s).0 (run s).1 ≡ some (p, after)
    → Spells (b'#' ∷ b'{' ∷ s) p after
hash-Spells s {p} {after} h =
    let (e, closed, full) = close_hash_inv (run s).0 (run s).1 h in
    record {
      spelled = rw e (source_hash (run s).0 after s (rw closed at (append-run s)));
      shorter = omega (arith, ap length closed, length-run s);
      matches = rw e (ground (arith, full, all-run s));
    }

mustache-Spells :
    (s : Text) {p : Piece} {after : Text}
    → close_mustache (run s).0 (run s).1 ≡ some (p, after)
    → Spells (b'{' ∷ b'{' ∷ s) p after
mustache-Spells s {p} {after} h =
    let (e, closed, full) = close_mustache_inv (run s).0 (run s).1 h in
    record {
      spelled = rw e (source_mustache (run s).0 after s (rw closed at (append-run s)));
      shorter = omega (arith, ap length closed, length-run s);
      matches = rw e (ground (arith, full, all-run s));
    }

pub match_here-Spells :
    (s : Text) {p : Piece} {after : Text} → match_here s ≡ some (p, after) → Spells s p after
unfolding match_here
match_here-Spells [] h = cc
match_here-Spells (a ∷ []) h = cc
match_here-Spells (a ∷ b ∷ s) {p} {after} h = elim (Bool-cases (a == b'{' && b == b'{')) [
  | inl e ↦
      let at : (a ≡ b'{') × (b ≡ b'{') = ground arith in
      rw (at.0, at.1) (mustache-Spells s (rw e at h))
  | inr e ↦ elim (Bool-cases (a == b'#' && b == b'{')) [
    | inl g ↦
        let at : (a ≡ b'#') × (b ≡ b'{') = ground arith in
        rw (at.0, at.1) (hash-Spells s (rw g at (rw e at h)))
    | inr g ↦ ground arith
  ]
]
