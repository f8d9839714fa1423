-- ===== src/Requests/Phones.antt =====
-- The phones of a manual message: no two with the same digits, none lost, and at most a hundred.
use noti.Common.{
  ◌≡◌, ◌≤◌, ◌<◌, ◌⊎◌, inl, inr, refl, sym, subst, Bool, true, false, ◌||◌, List, [], ◌∷◌, Option,
  arith, ok, Bool-cases, length, is_empty, All, Some,
}
use noti.Text.{Text, text_eq, trim, digits_only, eq_of_text_eq}
use noti.Requests.{
  raw_phones, is_seen, distinct_phones, resolve_manual_recipient_phones,
  manual_message_recipient_limit,
}

-- the digits that phones are compared by
abbrev pub key_of : Text → Text
key_of raw = digits_only (trim raw)

-- No key is that of an earlier phone, or one of `seen`, and none is empty.
abbrev pub AreDistinct : List Text → List Text → Type 0
AreDistinct seen [] = Unit
AreDistinct seen (p ∷ ps) =
    (is_empty (digits_only p) ≡ false)
    × (is_seen (digits_only p) seen ≡ false)
    × AreDistinct (digits_only p ∷ seen) ps

-- The phone has no digits, or its key is that of a phone of the list or one of `seen`.
abbrev pub IsKept : List Text → List Text → Text → Type 0
IsKept seen ps raw =
    (is_empty (key_of raw) ≡ true)
    ⊎ (is_seen (key_of raw) seen ≡ true)
    ⊎ Some (λ p. digits_only p ≡ key_of raw) ps

-- The phone is one of those entered, trimmed.
abbrev pub IsEntered : List Text → Text → Type 0
IsEntered raws p = Some (λ raw. p ≡ trim raw) raws

distinct_phones-AreDistinct : (seen raws : List Text) → AreDistinct seen (distinct_phones seen raws)
unfolding distinct_phones
distinct_phones-AreDistinct seen [] = tt
distinct_phones-AreDistinct seen (raw ∷ rest) =
    let skipped = distinct_phones-AreDistinct seen rest in
    let taken = distinct_phones-AreDistinct (digits_only (trim raw) ∷ seen) rest in
    elim (Bool-cases (
      is_empty (trim raw)
      || is_empty (digits_only (trim raw))
      || is_seen (digits_only (trim raw)) seen)) [
        | inl e ↦ rw e skipped
        | inr e ↦ rw e (ground (arith, e), ground (arith, e), taken)
      ]

IsKept-weaken :
    (seen ps : List Text) (p raw : Text)
    → IsKept (digits_only p ∷ seen) ps raw
    → IsKept seen (p ∷ ps) raw
IsKept-weaken seen ps p raw h =
    let same = eq_of_text_eq (digits_only p) (key_of raw) in
    elim (Bool-cases (text_eq (digits_only p) (key_of raw))) [
      | inl e ↦ inr (inr (inl (same e)))
      | inr e ↦ ground (arith, e, h)
    ]

All-weaken :
    (seen ps : List Text) (p : Text) (raws : List Text)
    → All (IsKept (digits_only p ∷ seen) ps) raws
    → All (IsKept seen (p ∷ ps)) raws
All-weaken seen ps p [] h = tt
All-weaken seen ps p (raw ∷ raws) (h, k) =
    (IsKept-weaken seen ps p raw h, All-weaken seen ps p raws k)

abbrev is_skipped : List Text → Text → Bool
is_skipped seen raw =
    is_empty (trim raw)
    || is_empty (digits_only (trim raw))
    || is_seen (digits_only (trim raw)) seen

no_digits : (p : Text) → is_empty p ≡ true → is_empty (digits_only p) ≡ true
unfolding digits_only
no_digits [] h = refl
no_digits (u ∷ p) h = cc

skipped_lem : (seen ps : List Text) (raw : Text) → is_skipped seen raw ≡ true → IsKept seen ps raw
skipped_lem seen ps raw h = ground (arith, h, no_digits (trim raw))

distinct_phones-skipped :
    (seen : List Text) (raw : Text) (rest : List Text)
    → is_skipped seen raw ≡ true
    → distinct_phones seen (raw ∷ rest) ≡ distinct_phones seen rest
unfolding distinct_phones
distinct_phones-skipped seen raw rest h = ground (arith, h)

distinct_phones-taken :
    (seen : List Text) (raw : Text) (rest : List Text)
    → is_skipped seen raw ≡ false
    → distinct_phones seen (raw ∷ rest) ≡ trim raw ∷ distinct_phones (key_of raw ∷ seen) rest
unfolding distinct_phones
distinct_phones-taken seen raw rest h = ground (arith, h)

IsKept-equal :
    (seen got ps raws : List Text)
    → got ≡ ps
    → All (IsKept seen ps) raws
    → All (IsKept seen got) raws
IsKept-equal seen got ps raws e h = rw e h

distinct_phones-IsKept :
    (seen raws : List Text) → All (IsKept seen (distinct_phones seen raws)) raws
distinct_phones-IsKept seen [] = tt
distinct_phones-IsKept seen (raw ∷ rest) = elim (Bool-cases (is_skipped seen raw)) [
  | inl e ↦
      IsKept-equal seen (distinct_phones seen (raw ∷ rest)) (distinct_phones seen rest) (raw ∷ rest)
        (distinct_phones-skipped seen raw rest e)
        (skipped_lem seen (distinct_phones seen rest) raw e, distinct_phones-IsKept seen rest)
  | inr e ↦
      let later = distinct_phones (key_of raw ∷ seen) rest in
      IsKept-equal seen (distinct_phones seen (raw ∷ rest)) (trim raw ∷ later) (raw ∷ rest)
        (distinct_phones-taken seen raw rest e)
        (
          inr (inr (inl refl)),
          All-weaken seen later (trim raw) rest (distinct_phones-IsKept (key_of raw ∷ seen) rest),
        )
]

All-IsEntered :
    (raw : Text) (raws ps : List Text) → All (IsEntered raws) ps → All (IsEntered (raw ∷ raws)) ps
All-IsEntered raw raws [] h = tt
All-IsEntered raw raws (p ∷ ps) (h, k) = (inr h, All-IsEntered raw raws ps k)

distinct_phones-IsEntered :
    (seen raws : List Text) → All (IsEntered raws) (distinct_phones seen raws)
distinct_phones-IsEntered seen [] = unfold distinct_phones in tt
distinct_phones-IsEntered seen (raw ∷ rest) = elim (Bool-cases (is_skipped seen raw)) [
  | inl e ↦
      subst (All (IsEntered (raw ∷ rest))) (sym (distinct_phones-skipped seen raw rest e))
        (All-IsEntered raw rest (distinct_phones seen rest) (distinct_phones-IsEntered seen rest))
  | inr e ↦
      let later = distinct_phones (key_of raw ∷ seen) rest in
      subst (All (IsEntered (raw ∷ rest))) (sym (distinct_phones-taken seen raw rest e)) (
        inl refl,
        All-IsEntered raw rest later (distinct_phones-IsEntered (key_of raw ∷ seen) rest),
      )
]

-- The phones that a manual message goes to, where there is no conflict: each is a phone that was
-- entered, trimmed; every raw phone that has a digit has its digits among them, no two of them have
-- the same digits, each has some, and there are from one to a hundred.
pub resolve_manual_recipient_phones_complete :
    (one : Option Text) (several : Option (List Text)) (phones : List Text)
    → resolve_manual_recipient_phones one several ≡ ok phones
    → All (IsEntered (raw_phones one several)) phones
      × AreDistinct [] phones
      × All (IsKept [] phones) (raw_phones one several)
      × (0 < length phones)
      × (length phones ≤ manual_message_recipient_limit)
unfolding resolve_manual_recipient_phones
resolve_manual_recipient_phones_complete one several phones h =
    let got = distinct_phones [] (raw_phones one several) in
    let same : got ≡ phones = ground (arith, h) in
    let distinct = distinct_phones-AreDistinct [] (raw_phones one several) in
    let kept = distinct_phones-IsKept [] (raw_phones one several) in
    let entered = distinct_phones-IsEntered [] (raw_phones one several) in
    (
      rw (sym same) entered,
      rw (sym same) distinct,
      rw (sym same) kept,
      ground (arith, h),
      ground (arith, h),
    )
