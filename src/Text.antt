-- ===== src/Text.antt =====
-- JavaScript strings: a text is the list of its UTF-16 code units, over which the regular
-- expressions, `trim` and `replace` of the source walk.
use Prim.Native.Char.{code}
use noti.Common.{
  ℕ, String, ◌≡◌, refl, ◌↔◌, Bool, true, false, ◌&&◌, ◌||◌, List, [], ◌∷◌, arith, leb, ◌==◌,
  if◌then◌else◌, is_empty, keep, ◌++◌, all, take, drop, all-take, all-drop, keep-all, keep-append,
  take-append-drop,
}

abbrev pub Text : Type 0
Text = List ℕ

-- The code units of a literal; every literal of the source lies in the basic plane.
abbrev pub units : String → Text
units String.[] = []
units (String.◌∷◌ c s) = code c ∷ units s

unfoldable pub text_eq : Text → Text → Bool
text_eq [] [] = true
text_eq (a ∷ s) (b ∷ t) = (a == b) && text_eq s t
text_eq _ _ = false

pub text_eq_refl : (s : Text) → text_eq s s ≡ true
unfolding text_eq
text_eq_refl [] = refl
text_eq_refl (a ∷ s) = ground (arith, text_eq_refl s)

pub eq_of_text_eq : (s t : Text) → text_eq s t ≡ true → s ≡ t
unfolding text_eq
eq_of_text_eq [] [] h = refl
eq_of_text_eq [] (b ∷ t) h = cc
eq_of_text_eq (a ∷ s) [] h = cc
eq_of_text_eq (a ∷ s) (b ∷ t) h = ground (arith, eq_of_text_eq s t)

pub text_eq_iff : (s t : Text) → (text_eq s t ≡ true) ↔ (s ≡ t)
text_eq_iff s t = (eq_of_text_eq s t, λ e. rw e (text_eq_refl t))

pub text_eq_sym : (s t : Text) → text_eq s t ≡ text_eq t s
unfolding text_eq
text_eq_sym [] [] = refl
text_eq_sym [] (b ∷ t) = refl
text_eq_sym (a ∷ s) [] = refl
text_eq_sym (a ∷ s) (b ∷ t) = ground (arith, text_eq_sym s t)

-- `\s` of a regular expression, and what `trim` removes: WhiteSpace and LineTerminator
unfoldable pub is_space : ℕ → Bool
is_space c =
    (leb 9 c && leb c 13)
    || c == 32
    || c == 160
    || c == 0x1680
    || (leb 0x2000 c && leb c 0x200a)
    || c == 0x2028
    || c == 0x2029
    || c == 0x202f
    || c == 0x205f
    || c == 0x3000
    || c == 0xfeff

unfoldable pub trim_start : Text → Text
unfolding is_space
trim_start [] = []
trim_start (c ∷ s) = let rest = trim_start s in if is_space c then rest else c ∷ s

unfoldable pub trim_end : Text → Text
unfolding is_space
trim_end [] = []
trim_end (c ∷ s) = let rest = trim_end s in if is_empty rest && is_space c then [] else c ∷ rest

unfoldable pub trim : Text → Text
unfolding trim_start trim_end
trim s = trim_end (trim_start s)

-- `\d`
unfoldable pub is_digit : ℕ → Bool
is_digit c = leb 48 c && leb c 57

-- `replace(/\D/g, '')`
unfoldable pub digits_only : Text → Text
unfolding is_digit
digits_only s = keep is_digit s

-- A mark in between leaves the digits.
pub digits_around :
    (k : ℕ) (r : Text) → all is_digit r ≡ true → keep is_digit (take k r ++ b'-' ∷ drop k r) ≡ r
unfolding is_digit
digits_around k r h =
    let left = keep-all is_digit (take k r) (all-take is_digit k r h) in
    let right = keep-all is_digit (drop k r) (all-drop is_digit k r h) in
    let both : take k r ++ drop k r ≡ r = take-append-drop k r in
    rw (keep-append is_digit (take k r) (b'-' ∷ drop k r), left, right, both)
