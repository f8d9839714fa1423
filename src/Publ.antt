-- ===== src/Publ.antt =====
-- The values of Publ events in apps/api/src/message-requests/message-requests.service.ts: what counts
-- as a variable's value, how a path reads one, and the record of variables.
pub mod Parser
pub mod Pipeline
pub mod Named
pub mod Phones
pub mod Event
pub mod Accepted
mod Tests
use noti.Common.{
  Bool, true, false, not, ◌||◌, List, [], ◌∷◌, Option, none, some, if◌then◌else◌, is_empty, keep,
  map, ◌==◌,
}
use noti.Text.{Text, units, text_eq, is_space, trim}
use noti.Json.{Json, undefined, null, boolean, number, string, object, Fields, end, field}
use noti.Template.{Value, str, num, Variables}

-- `Number.isFinite(value)`, of the text that `String` gives a number
unfoldable pub is_finite : Text → Bool
unfolding text_eq
is_finite t =
    not (text_eq t (units "NaN") || text_eq t (units "Infinity") || text_eq t (units "-Infinity"))

unfoldable pub normalize_publ_variable_value : Json → Option Value
unfolding is_finite
normalize_publ_variable_value (string t) = some (str t)
normalize_publ_variable_value (number t) = if is_finite t then some (num t) else none
normalize_publ_variable_value (boolean b) = some (str (if b then units "true" else units "false"))
normalize_publ_variable_value _ = none

unfoldable pub is_missing_publ_parser_value : Json → Bool
is_missing_publ_parser_value undefined = true
is_missing_publ_parser_value null = true
is_missing_publ_parser_value (string t) = is_empty t
is_missing_publ_parser_value _ = false

-- `target[key] = value`, which an object ignores for `__proto__`; of two entries of one key the first
-- counts
unfoldable pub set_variable : Text → Value → Variables → Variables
unfolding text_eq
set_variable key value vs = if text_eq key (units "__proto__") then vs else (key, value) ∷ vs

unfoldable pub assign_publ_variable : Variables → Text → Value → Variables
unfolding set_variable trim
assign_publ_variable target key value =
    if is_empty (trim key) then target else set_variable (trim key) value target

-- `toPrimitiveRecord`, over `Object.entries`
unfoldable pub primitive_record : Fields → Variables
unfolding normalize_publ_variable_value set_variable
primitive_record end = []
primitive_record (field key value fs) =
    let rest = primitive_record fs in
    elim (normalize_publ_variable_value value) [ none ↦ rest | some v ↦ set_variable key v rest ]

-- `split('.')`
unfoldable pub split_dots : Text → List Text
split_dots [] = [] ∷ []
split_dots (c ∷ s) = elim (split_dots s) [
  | [] ↦ (c ∷ []) ∷ []
  | part ∷ parts ↦ if c == b'.' then [] ∷ part ∷ parts else (c ∷ part) ∷ parts
]

-- the names of a path
unfoldable pub path_parts : Text → List Text
unfolding split_dots trim
path_parts raw_path = keep (λ part. not (is_empty part)) (map trim (split_dots raw_path))

-- `replace(/\s+/g, '').trim()`
unfoldable pub label_to_publ_variable : Text → Text
unfolding is_space trim
label_to_publ_variable label = trim (keep (λ c. not (is_space c)) label)

unfoldable pub own_field : Text → Fields → Option Json
unfolding text_eq
own_field key end = none
own_field key (field k v fs) = let rest = own_field key fs in if text_eq k key then some v else rest

-- What an object inherits from `Object.prototype` under a name is the runtime's: a parameter.
module _ (inherited : Text → Json) where
  -- `current[part]`
  unfoldable pub property_of : Text → Fields → Json
  unfolding own_field
  property_of key fs = elim (own_field key fs) [ none ↦ inherited key | some v ↦ v ]

  -- the loop over the parts
  unfoldable pub read_parts : Json → List Text → Json
  unfolding property_of
  read_parts current [] = current
  read_parts (object fs) (part ∷ parts) = read_parts (property_of part fs) parts
  read_parts _ (part ∷ parts) = undefined

  unfoldable pub read_publ_path : Fields → Text → Json
  unfolding read_parts path_parts
  read_publ_path source raw_path = read_parts (object source) (path_parts raw_path)
