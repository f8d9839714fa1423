-- ===== src/Publ/Parser.antt =====
-- The steps of a parser pipeline that make text of one value: phones, cuts, replacements, dates,
-- amounts and templates. What the JavaScript runtime computes is given by a record.
use noti.Common.{
  ℕ, zero, suc, ◌-◌, Bool, true, false, not, ◌&&◌, ◌||◌, List, [], ◌∷◌, ◌++◌, Option, none, some,
  if◌then◌else◌, is_empty, length, take, drop, keep, ◌==◌, Outcome, ok, err,
}
use noti.Text.{Text, units, digits_only}
use noti.Json.{
  Json, undefined, null, string, number, object, Fields, as_string, lookup_field, or_else,
}
use noti.Template.{Value, str, num, Piece, plain, hole, scan, key_of}
use noti.Sms.Format.{after_prefix}
use noti.Publ.{normalize_publ_variable_value, read_publ_path}

-- the parts that `formatToParts` gives, each by its text
pub record DateParts : Type 0 where
  pub year : Text
  pub month : Text
  pub day : Text
  pub hour : Text
  pub minute : Text

-- `new Date(source)` is no date; or its parts; or the formatter throws, as for an unknown time zone.
pub data Dated : Type 0 where
  not_a_date throws : Dated
  dated : DateParts → Dated

-- What the runtime has: the properties of `Object.prototype`; `Number(text)` where it is finite;
-- `Number(value)` where it is an integer and not negative; `Intl.DateTimeFormat` of a time zone; and
-- `Intl.NumberFormat` of a locale, and of a locale and a currency, `none` where it throws; and
-- `toUpperCase`.
pub record EventRuntime : Type 0 where
  pub inherited : Text → Json
  pub number_of : Text → Option Text
  pub integer_of : Json → Option ℕ
  pub date_parts : Text → Value → Dated
  pub format_number : Text → Text → Option Text
  pub format_currency : Text → Text → Text → Option Text
  pub to_upper_case : Text → Text

-- The only exception of the steps.
pub data RangeError : Type 0 where
  range_error : RangeError

-- a value as `unknown` again
abbrev pub json_of : Value → Json
json_of (str t) = string t
json_of (num t) = number t
json_of Value.null = null
json_of Value.undefined = undefined

-- `String(value)`
abbrev pub text_of : Value → Text
text_of (str t) = t
text_of (num t) = t
text_of Value.null = units "null"
text_of Value.undefined = units "undefined"

abbrev pub starts_with : Text → Text → Bool
starts_with prefix s = elim (after_prefix prefix s) [ none ↦ false | some rest ↦ true ]

-- `typeof value === 'string' ? value : otherwise`
abbrev pub text_or : Json → Text → Text
text_or v otherwise = elim (as_string v) [ none ↦ otherwise | some t ↦ t ]

-- the first `a` digits, the next up to `b`, and the rest, between marks
abbrev pub grouped : ℕ → ℕ → Text → Text
grouped a b d = take a d ++ (b'-' ∷ take b (drop a d) ++ b'-' ∷ drop b (drop a d))

-- the three patterns of a phone, in their order
unfoldable pub phone_of : Text → Option Text
unfolding after_prefix
phone_of d =
    if starts_with (units "010") d && length d == 11
    then some (grouped 3 4 d)
    else if starts_with (units "02") d && (length d == 9 || length d == 10)
    then some (if length d == 9 then grouped 2 3 d else grouped 2 4 d)
    else if starts_with (units "0") d && (length d == 10 || length d == 11)
    then some (if length d == 10 then grouped 3 3 d else grouped 3 4 d)
    else none

unfoldable pub format_publ_phone : Json → Json
unfolding normalize_publ_variable_value digits_only phone_of
format_publ_phone value = elim (normalize_publ_variable_value value) [
  | none ↦ value
  | some source ↦ elim (phone_of (digits_only (text_of source))) [
    | none ↦ json_of source
    | some phone ↦ string phone
  ]
]

-- `split(from).join(to)` for a text that is not empty; `skip` units belong to a match
unfoldable pub replace_from : Text → Text → ℕ → Text → Text
unfolding after_prefix
replace_from from to skip [] = []
replace_from from to (suc skip) (c ∷ s) = replace_from from to skip s
replace_from from to zero (c ∷ s) = elim (starts_with from (c ∷ s)) [
  | true ↦ to ++ replace_from from to (length from - 1) s
  | false ↦ c ∷ replace_from from to 0 s
]

unfoldable pub replace_publ_value : Json → Fields → Json
unfolding normalize_publ_variable_value lookup_field as_string replace_from
replace_publ_value value step = elim (normalize_publ_variable_value value) [
  | none ↦ value
  | some source ↦
      let from = text_or (lookup_field (units "from") step) [] in
      let to = text_or (lookup_field (units "to") step) [] in
      if is_empty from then value else string (replace_from from to 0 (text_of source))
]

-- `String(Number(part))`, of two digits
abbrev unpadded : Text → Text
unpadded (c ∷ d ∷ s) = if c == b'0' then d ∷ s else c ∷ d ∷ s
unpadded t = t

-- the value of the token at the head of the text, and the units of the token behind its first
unfoldable pub token_at : DateParts → Text → Option (Text × ℕ)
unfolding after_prefix
token_at p s =
    if starts_with (units "yyyy") s
    then some (p.year, 3)
    else if starts_with (units "MM") s
    then some (p.month, 1)
    else if starts_with (units "dd") s
    then some (p.day, 1)
    else if starts_with (units "HH") s
    then some (p.hour, 1)
    else if starts_with (units "mm") s
    then some (p.minute, 1)
    else if starts_with (units "M") s
    then some (unpadded p.month, 0)
    else if starts_with (units "d") s
    then some (unpadded p.day, 0)
    else none

-- the replacements of the tokens
unfoldable pub format_tokens : DateParts → ℕ → Text → Text
unfolding token_at
format_tokens p skip [] = []
format_tokens p (suc skip) (c ∷ s) = format_tokens p skip s
format_tokens p zero (c ∷ s) = elim (token_at p (c ∷ s)) [
  | none ↦ c ∷ format_tokens p 0 s
  | some (t, skip) ↦ t ++ format_tokens p skip s
]

module _ (rt : EventRuntime) where
  unfoldable pub truncate_publ_value : Json → Fields → Json
  unfolding normalize_publ_variable_value lookup_field or_else
  truncate_publ_value value step = elim (normalize_publ_variable_value value) [
    | none ↦ value
    | some source ↦
        elim (rt.integer_of
          (or_else (lookup_field (units "maxLength") step) (lookup_field (units "length") step))) [
            | none ↦ value
            | some max ↦ string (take max (text_of source))
          ]
  ]

  unfoldable pub format_publ_date : Json → Fields → Outcome RangeError Json
  unfolding normalize_publ_variable_value lookup_field as_string format_tokens
  format_publ_date value step = elim (normalize_publ_variable_value value) [
    | none ↦ ok value
    | some source ↦
        elim (rt.date_parts (text_or (lookup_field (units "timezone") step) (units "Asia/Seoul"))
          source) [
            | not_a_date ↦ ok value
            | throws ↦ err range_error
            | dated p ↦ ok (
                string (
                  format_tokens p 0
                    (text_or (lookup_field (units "format") step) (units "yyyy년 M월 d일 HH:mm"))))
          ]
  ]

  -- the number that is formatted
  unfoldable pub amount_of : Value → Option Text
  amount_of (num t) = some t
  amount_of v = rt.number_of (keep (λ c. not (c == b',')) (text_of v))

  -- the currency of the step, or that at its path; none where it is missing or empty
  unfoldable pub currency_of : Fields → Fields → Text
  unfolding lookup_field as_string normalize_publ_variable_value read_publ_path
  currency_of step root = elim (as_string (lookup_field (units "currency") step)) [
    | some t ↦ t
    | none ↦ elim (as_string (lookup_field (units "currencyPath") step)) [
      | none ↦ []
      | some path ↦ elim (normalize_publ_variable_value (read_publ_path rt.inherited root path)) [
        | none ↦ []
        | some v ↦ text_of v
      ]
    ]
  ]

  -- `new Intl.NumberFormat(locale).format(amount)`, with what follows it
  abbrev formatted_number : Text → Text → Text → Outcome RangeError Json
  formatted_number locale amount after = elim (rt.format_number locale amount) [
    | none ↦ err range_error
    | some t ↦ ok (string (t ++ after))
  ]

  unfoldable pub format_publ_currency : Json → Fields → Fields → Outcome RangeError Json
  unfolding normalize_publ_variable_value amount_of currency_of lookup_field as_string
  format_publ_currency value step root = elim (normalize_publ_variable_value value) [
    | none ↦ ok value
    | some source ↦ elim (amount_of source) [
      | none ↦ ok value
      | some amount ↦
          let locale = text_or (lookup_field (units "locale") step) (units "ko-KR") in
          let currency = currency_of step root in
          if is_empty currency
          then formatted_number locale amount []
          else elim (rt.format_currency locale currency amount) [
            | some t ↦ ok (string t)
            | none ↦ formatted_number locale amount (b' ' ∷ currency)
          ]
    ]
  ]

  -- the value that a placeholder takes: of the local object, or else of the root
  unfoldable pub placeholder_value : Json → Fields → Text → Json
  unfolding read_publ_path
  placeholder_value (object fs) root key = elim (read_publ_path rt.inherited fs key) [
    | undefined ↦ read_publ_path rt.inherited root key
    | v ↦ v
  ]
  placeholder_value _ root key = read_publ_path rt.inherited root key

  -- the text that a placeholder takes
  unfoldable pub placeholder_text : Json → Fields → Text → Text
  unfolding placeholder_value normalize_publ_variable_value
  placeholder_text item root key =
      elim (normalize_publ_variable_value (placeholder_value item root key)) [
        | none ↦ []
        | some v ↦ text_of v
      ]

  unfoldable pub render_parser_pieces : Json → Fields → List Piece → Text
  unfolding key_of placeholder_text
  render_parser_pieces item root [] = []
  render_parser_pieces item root (plain c ∷ ps) = c ∷ render_parser_pieces item root ps
  render_parser_pieces item root (hole o r ∷ ps) =
      placeholder_text item root (key_of r) ++ render_parser_pieces item root ps

  unfoldable pub render_publ_parser_template : Text → Json → Fields → Text
  unfolding scan render_parser_pieces
  render_publ_parser_template template item root = render_parser_pieces item root (scan template)
