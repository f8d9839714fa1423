-- ===== src/Sms080/OptOut.antt =====
-- The opt-out text of an approved number, against what the worker's formatter takes for an opt-out
-- line.
use noti.Common.{
  ℕ, true, false, ◌||◌, [], ◌∷◌, ◌++◌, some, is_empty, all, length, take, drop, ◌≡◌, refl, sym, ap,
  ◌∙◌, inl, inr, Bool-cases, Option-cases, arith, ◌==◌, all-append, all-take, all-drop, keep-all,
}
use noti.Text.{Text, units, is_digit, is_space, trim_start, digits_only, digits_around}
use noti.Sms.Format.{after_prefix, is_number_mark, is_sms_advertisement_opt_out_line}
use noti.Sms080.{is_080, format_080_number, Application, opt_out_text_of}

after_prefix-append : (p s rest : Text) → after_prefix p s ≡ some rest → s ≡ p ++ rest
unfolding after_prefix
after_prefix-append [] s rest h = ground (arith, h)
after_prefix-append (c ∷ p) [] rest h = cc
after_prefix-append (c ∷ p) (d ∷ s) rest h = ground (arith, after_prefix-append p s rest, h)

marks : (r : Text) → all is_digit r ≡ true → all is_number_mark r ≡ true
unfolding is_digit is_space
marks [] h = refl
marks (c ∷ r) h = ground (arith, marks r, h)

marks_around :
    (k : ℕ) (r : Text)
    → all is_digit r ≡ true
    → all is_number_mark (take k r ++ b'-' ∷ drop k r) ≡ true
unfolding is_digit is_space
marks_around k r h =
    all-append is_number_mark (take k r) (b'-' ∷ drop k r) (all-take is_number_mark k r (marks r h))
      (all-drop is_number_mark k r (marks r h))

formatted_short :
    (r : Text)
    → digits_only (units "080" ++ r) ≡ units "080" ++ r
    → (length r == 7) ≡ true
    → format_080_number (units "080" ++ r) ≡ units "080-" ++ (take 3 r ++ b'-' ∷ drop 3 r)
unfolding format_080_number
formatted_short r whole t = ground (arith, whole, t)

formatted_long :
    (r : Text)
    → digits_only (units "080" ++ r) ≡ units "080" ++ r
    → (length r == 8) ≡ true
    → format_080_number (units "080" ++ r) ≡ units "080-" ++ (take 4 r ++ b'-' ∷ drop 4 r)
unfolding format_080_number
formatted_long r whole t = ground (arith, whole, t)

-- A valid number is three digits, and the others around a mark.
format_080_number-around :
    (n : Text)
    → is_080 n ≡ true
    → (r : Text) × (k : ℕ) × (all is_digit r ≡ true)
      × (n ≡ units "080" ++ r)
      × (format_080_number n ≡ units "080-" ++ (take k r ++ b'-' ∷ drop k r))
unfolding is_080 is_digit digits_only
format_080_number-around n h = elim (Option-cases (after_prefix (units "080") n)) [
  | inl e ↦ absurd (ground (arith, e, h))
  | inr (r, e) ↦
      let same = after_prefix-append (units "080") n r e in
      let digits : all is_digit r ≡ true = ground (arith, e, h) in
      let whole : digits_only (units "080" ++ r) ≡ units "080" ++ r =
        keep-all is_digit (units "080" ++ r) digits in
      let long : (length r == 7 || length r == 8) ≡ true = ground (arith, e, h) in
      elim (Bool-cases (length r == 7)) [
        | inl t ↦ (r, 3, digits, same, ap format_080_number same ∙ formatted_short r whole t)
        | inr t ↦ (
          r,
          4,
          digits,
          same,
          ap format_080_number same ∙ formatted_long r whole (ground (arith, long, t)),
        )
      ]
]

-- The opt-out text of a valid number is a line that the formatter takes for an opt-out line, and its
-- digits are those of the number.
pub opt_out_text_of-digits :
    (a : Application) (n : Text)
    → a.unsubscribe_number ≡ some n
    → is_080 n ≡ true
    → (text : Text) × (opt_out_text_of a ≡ some text)
      × (is_sms_advertisement_opt_out_line text ≡ true)
      × (digits_only text ≡ n)
unfolding opt_out_text_of digits_only is_digit is_sms_advertisement_opt_out_line is_space trim_start
    after_prefix
opt_out_text_of-digits a n has h =
    let (r, k, digits, same, formatted) = format_080_number-around n h in
    let n-ne : is_empty n ≡ false = rw same refl in
    let middle = take k r ++ b'-' ∷ drop k r in
    let text = units "무료수신거부 080-" ++ middle in
    (
      text,
      ground (arith, has, formatted, n-ne),
      marks_around k r digits,
      rw (digits_around k r digits) (sym same),
    )
