-- ===== src/Publ/Phones.antt =====
-- The phone format of a pipeline: it only adds marks.
use noti.Common.{
  ℕ, ◌≡◌, refl, ap, ◌∙◌, true, ◌∷◌, ◌++◌, some, all, keep, take, drop, arith, inl, inr,
  Option-cases, keep-append, keep-all, all-keep, all-take, all-drop, take-append-drop,
}
use noti.Text.{Text, is_digit, digits_only, digits_around}
use noti.Json.{Json, string, number, boolean, undefined, null, function, array, object}
use noti.Template.{Value, str}
use noti.Publ.{normalize_publ_variable_value}
use noti.Publ.Parser.{json_of, text_of, grouped, phone_of, format_publ_phone}

grouped-digits : (a b : ℕ) (d : Text) → all is_digit d ≡ true → keep is_digit (grouped a b d) ≡ d
unfolding is_digit
grouped-digits a b d h =
    let left = keep-all is_digit (take a d) (all-take is_digit a d h) in
    let right = digits_around b (drop a d) (all-drop is_digit a d h) in
    let both : take a d ++ drop a d ≡ d = take-append-drop a d in
    let rest = take b (drop a d) ++ b'-' ∷ drop b (drop a d) in
    keep-append is_digit (take a d) (b'-' ∷ rest)
    ∙ ap (λ x. x ++ keep is_digit rest) left
    ∙ ap (λ x. take a d ++ x) right
    ∙ both

phone_of-digits :
    (d phone : Text) → all is_digit d ≡ true → phone_of d ≡ some phone → keep is_digit phone ≡ d
unfolding phone_of
phone_of-digits d phone h e = ground (
  arith,
  e,
  grouped-digits 3 4 d h,
  grouped-digits 2 3 d h,
  grouped-digits 2 4 d h,
  grouped-digits 3 3 d h,
)

-- a value that was normalized is itself again
normalized_again :
    (value : Json) (source : Value)
    → normalize_publ_variable_value value ≡ some source
    → normalize_publ_variable_value (json_of source) ≡ some source
unfolding normalize_publ_variable_value
normalized_again (string t) source e = ground (arith, e)
normalized_again (number t) source e = ground (arith, e)
normalized_again (boolean b) source e = ground (arith, e)
normalized_again undefined source e = cc
normalized_again null source e = cc
normalized_again function source e = cc
normalized_again (array vs) source e = cc
normalized_again (object fs) source e = cc

-- The phone format makes of a variable's value a value with the same digits in the same order, and
-- formatting that again changes nothing.
pub format_publ_phone-digits :
    (value : Json) (source : Value)
    → normalize_publ_variable_value value ≡ some source
    → (formatted : Value) × (normalize_publ_variable_value (format_publ_phone value)
        ≡ some formatted)
      × (digits_only (text_of formatted) ≡ digits_only (text_of source))
      × (format_publ_phone (format_publ_phone value) ≡ format_publ_phone value)
unfolding format_publ_phone digits_only
format_publ_phone-digits value source e =
    let d = digits_only (text_of source) in
    elim (Option-cases (phone_of d)) [
      | inl f ↦
          let again = normalized_again value source e in
          (source, ground (arith, e, f, again), refl, ground (arith, e, f, again))
      | inr (phone, f) ↦
          let same : digits_only phone ≡ d =
            phone_of-digits d phone (all-keep is_digit (text_of source)) f in
          (str phone, ground (arith, e, f), same, ground (arith, e, f, same))
    ]
