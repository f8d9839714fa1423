-- ===== src/Template.antt =====
-- The template functions of packages/shared/src/index.ts: placeholders `{{ key }}` and `#{ key }`,
-- the variables that a body requires, rendering, and the check for missing variables.
pub mod Scan
pub mod Matches
pub mod Render
mod Tests
use noti.Common.{
  ℕ, zero, suc, ◌≡◌, Bool, true, false, not, ◌&&◌, ◌||◌, List, [], ◌∷◌, ◌++◌, Option, none, some,
  map, ◌==◌, ltb, if◌then◌else◌, is_empty, keep, any, length, Outcome, ok, err, ◌>>=◌,
}
use noti.Text.{Text, trim, text_eq, units}

-- The two alternatives of REQUIRED_VAR_REGEX.
pub data Opening : Type 0 where
  mustache hash : Opening

-- A body as the regular expression's global matching sees it: a match with the run between its
-- delimiters, or a code unit that belongs to no match.
pub data Piece : Type 0 where
  plain : ℕ → Piece
  hole : Opening → Text → Piece

-- the longest prefix without `}`, which is what `\s*([^}]+?)\s*` spans before the closing
unfoldable pub run : Text → Text × Text
run [] = ([], [])
run (c ∷ s) = let (r, after) = run s in if c == b'}' then ([], c ∷ s) else (c ∷ r, after)

unfoldable pub close_hash : Text → Text → Option (Piece × Text)
close_hash r (c ∷ after) = if c == b'}' && not (is_empty r) then some (hole hash r, after) else none
close_hash r [] = none

close_mustache : Text → Text → Option (Piece × Text)
close_mustache r (c ∷ d ∷ after) =
    if c == b'}' && d == b'}' && not (is_empty r) then some (hole mustache r, after) else none
close_mustache r _ = none

-- a match that begins at the head of the text, and what follows it
unfoldable pub match_here : Text → Option (Piece × Text)
unfolding run close_hash close_mustache
match_here (a ∷ b ∷ s) =
    let (r, after) = run s in
    if a == b'{' && b == b'{'
    then close_mustache r after
    else if a == b'#' && b == b'{'
    then close_hash r after
    else none
match_here _ = none

-- The loop of `exec` and of `replace` with the flag `g`: on from the end of a match, or by one unit.
unfoldable pub scan_with : ℕ → Text → List Piece
unfolding match_here
scan_with zero s = []
scan_with (suc fuel) [] = []
scan_with (suc fuel) (c ∷ s) = elim (match_here (c ∷ s)) [
  | none ↦ plain c ∷ scan_with fuel s
  | some (p, after) ↦ p ∷ scan_with fuel after
]

-- Every round consumes a code unit, so the length is fuel enough.
unfoldable pub scan : Text → List Piece
unfolding scan_with
scan body = scan_with (length body) body

-- `(match[1] ?? match[2] ?? '').trim()`
unfoldable pub key_of : Text → Text
unfolding trim
key_of r = trim r

-- the keys that `collectRequiredVariables` adds, in the order of the matches
unfoldable pub collected : List Piece → List Text
unfolding key_of
collected [] = []
collected (plain c ∷ ps) = collected ps
collected (hole o r ∷ ps) =
    let rest = collected ps in if is_empty (key_of r) then rest else key_of r ∷ rest

-- `sort()` without a comparator orders by UTF-16 code units.
unfoldable pub text_lt : Text → Text → Bool
text_lt s [] = false
text_lt [] (b ∷ t) = true
text_lt (a ∷ s) (b ∷ t) = ltb a b || a == b && text_lt s t

-- `[...set].sort()`: each key once, in order
unfoldable pub insert : Text → List Text → List Text
unfolding text_lt text_eq
insert k [] = k ∷ []
insert k (j ∷ ks) =
    let rest = insert k ks in
    if text_eq k j then j ∷ ks else if text_lt k j then k ∷ j ∷ ks else j ∷ rest

unfoldable pub sort_set : List Text → List Text
unfolding insert
sort_set [] = []
sort_set (k ∷ ks) = insert k (sort_set ks)

unfoldable pub extract_required_variables : Text → List Text
unfolding scan collected sort_set
extract_required_variables body = sort_set (collected (scan body))

-- The loop of `extractRequiredVariablesFromSources`; null, undefined and '' are skipped.
unfoldable pub gather : List (Option Text) → List Text
unfolding scan collected
gather [] = []
gather (none ∷ rest) = gather rest
gather (some s ∷ rest) = collected (scan s) ++ gather rest

unfoldable pub extract_required_variables_from_sources : List (Option Text) → List Text
unfolding gather sort_set
extract_required_variables_from_sources sources = sort_set (gather sources)

-- A variable's value; a number stands by the text that `String` gives it.
pub data Value : Type 0 where
  str : Text → Value
  num : Text → Value
  null undefined : Value

-- `String(value)`
abbrev pub shown : Value → Text
shown (str s) = s
shown (num s) = s
shown null = units "null"
shown undefined = units "undefined"

-- `value === undefined || value === null || value === ''`
abbrev pub is_missing : Value → Bool
is_missing (str s) = is_empty s
is_missing (num s) = false
is_missing null = true
is_missing undefined = true

abbrev pub Variables : Type 0
Variables = List (Text × Value)

unfoldable pub own : Text → Variables → Option Value
unfolding text_eq
own k [] = none
own k ((j, v) ∷ vs) = let rest = own k vs in if text_eq j k then some v else rest

-- Errors of this file, by their message: `Missing template variable: ${key}`.
pub data TemplateError : Type 0 where
  missing_template_variable : Text → TemplateError

-- What an object inherits from `Object.prototype` is the runtime's: a parameter.
module _ (inherited : Text → Option Value) where
  -- `variables[key]`, where none says that `key in variables` is false
  unfoldable pub get : Text → Variables → Option Value
  unfolding own
  get k vs = elim (own k vs) [ none ↦ inherited k | some v ↦ some v ]

  unfoldable pub is_absent : Text → Variables → Bool
  unfolding get
  is_absent k vs = elim (get k vs) [ none ↦ true | some v ↦ is_missing v ]

  unfoldable pub missing_required_variables : List Text → Variables → List Text
  unfolding is_absent
  missing_required_variables required payload = keep (λ k. is_absent k payload) required

  -- the replacements of `renderTemplate`, in the order of the matches
  unfoldable pub render_pieces : Variables → List Piece → Outcome TemplateError Text
  render_pieces vs [] = ok []
  render_pieces vs (plain c ∷ ps) = do rest ← render_pieces vs ps; ok (c ∷ rest)
  render_pieces vs (hole o r ∷ ps) =
      let rest = render_pieces vs ps in
      elim (get (key_of r) vs) [
        | none ↦ err (missing_template_variable (key_of r))
        | some v ↦ do after ← rest; ok (shown v ++ after)
      ]

  unfoldable pub render_template : Text → Variables → Outcome TemplateError Text
  unfolding scan render_pieces get key_of
  render_template body vs = render_pieces vs (scan body)
