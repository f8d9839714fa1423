-- ===== src/Template/Matches.antt =====
-- `scan` against what a global regular expression does: from left to right, each match in turn, and a
-- unit is left over only where no match begins.
use noti.Common.{
  ℕ, zero, suc, ◌≡◌, ◌≤◌, ◌∙◌, refl, sym, ap, subst, true, not, List, [], ◌∷◌, ◌++◌, none, some,
  all, arith, ◌==◌, length, inl, inr, Option-cases,
}
use mathlib.Core.List.{append_assoc}
use noti.Text.{Text}
use noti.Template.{
  Piece, plain, hole, mustache, hash, run, close_hash, close_mustache, match_here, scan_with, scan,
}
use noti.Template.Scan.{source, is_run, is_match, match_here-Spells}

-- No match of `/\{\{\s*([^}]+?)\s*\}\}|#\{\s*([^}]+?)\s*\}/` begins at the head of the text.
abbrev pub NoMatch : Text → Type 0
NoMatch s = ¬ ((p : Piece) × (after : Text) × (is_match p ≡ true) × (source p ++ after ≡ s))

-- The pieces that global matching makes of a text.
pub data Parses : Text → List Piece → Type 0 where
  done : Parses [] []
  skipped :
      (c : ℕ) (s : Text) (ps : List Piece)
      → NoMatch (c ∷ s)
      → Parses s ps
      → Parses (c ∷ s) (plain c ∷ ps)
  matched :
      (p : Piece) (s : Text) (ps : List Piece)
      → is_match p ≡ true
      → Parses s ps
      → Parses (source p ++ s) (p ∷ ps)

run-append :
    (r t : Text) → all (λ c. not (c == b'}')) r ≡ true → run (r ++ b'}' ∷ t) ≡ (r, b'}' ∷ t)
unfolding run
run-append [] t h = refl
run-append (c ∷ r) t h = ground (arith, h, run-append r t)

match_hash :
    (r after : Text)
    → is_run r ≡ true
    → match_here (b'#' ∷ b'{' ∷ r ++ b'}' ∷ after) ≡ some (hole hash r, after)
unfolding match_here close_hash
match_hash r after h = let same = run-append r after (ground (arith, h)) in ground (arith, same, h)

match_mustache :
    (r after : Text)
    → is_run r ≡ true
    → match_here (b'{' ∷ b'{' ∷ r ++ b'}' ∷ b'}' ∷ after) ≡ some (hole mustache r, after)
unfolding match_here close_mustache
match_mustache r after h =
    let same = run-append r (b'}' ∷ after) (ground (arith, h)) in ground (arith, same, h)

-- Every match is found.
match_here-source :
    (p : Piece) (after : Text)
    → is_match p ≡ true
    → match_here (source p ++ after) ≡ some (p, after)
unfolding source
match_here-source (plain c) after h = cc
match_here-source (hole hash r) after h =
    ap (λ t. match_here (b'#' ∷ b'{' ∷ t)) (append_assoc r (b'}' ∷ []) after) ∙ match_hash r after h
match_here-source (hole mustache r) after h =
    ap (λ t. match_here (b'{' ∷ b'{' ∷ t)) (append_assoc r (b'}' ∷ b'}' ∷ []) after)
    ∙ match_mustache r after h

none-NoMatch : (s : Text) → match_here s ≡ none → NoMatch s
none-NoMatch s e (p, after, h, same) =
    let found : match_here s ≡ some (p, after) =
      ap match_here (sym same) ∙ match_here-source p after h in
    ground (arith, e, found)

scan_with-Parses : (fuel : ℕ) (s : Text) → length s ≤ fuel → Parses s (scan_with fuel s)
unfolding scan_with
scan_with-Parses zero [] h = done
scan_with-Parses zero (c ∷ s) h = absurd (omega arith)
scan_with-Parses (suc fuel) [] h = done
scan_with-Parses (suc fuel) (c ∷ s) h = elim (Option-cases (match_here (c ∷ s))) [
  | inl e ↦
      rw (e, scan_with)
        (skipped c s (scan_with fuel s) (none-NoMatch (c ∷ s) e)
          (scan_with-Parses fuel s (omega arith)))
  | inr ((p, after), e) ↦
      let m = match_here-Spells (c ∷ s) e in
      let rest = scan_with-Parses fuel after (omega (arith, m.shorter)) in
      rw (e, scan_with)
        (subst (λ t. Parses t (p ∷ scan_with fuel after)) m.spelled
          (matched p after (scan_with fuel after) m.matches rest))
]

-- The scan of a body is what global matching makes of it: in order, each match of the expression, with
-- a run that is not empty and has no closing brace, and between them the units where no match begins.
-- The loop reaches the end of the body.
pub scan-Parses : (body : Text) → Parses body (scan body)
unfolding scan
scan-Parses body = scan_with-Parses (length body) body (omega arith)
