-- ===== src/Sms/Bounds.antt =====
-- Byte bounds of the SMS text functions.
use noti.Common.{
  ℕ, ◌+◌, ◌≤◌, ◌≡◌, ◌≢◌, ◌↔◌, inl, inr, refl, Bool, true, false, [], ◌∷◌, Option, arith, is_empty,
  All, Bool-cases,
}
use noti.Text.{Text, trim, trim_start, trim_end}
use noti.Sms.{
  sms, mms, over_limit, normalize_sms_text, is_pair, unit_bytes, bytes,
  get_domestic_sms_byte_length, take_bytes, truncate_domestic_sms_text, classify_domestic_sms_body,
  image_message, or_text, or_empty, fallback_line, build_domestic_mms_title,
}

bytes_of_pair : (c d : ℕ) (s : Text) → is_pair c d ≡ true → bytes (c ∷ d ∷ s) ≡ 2 + bytes s
unfolding bytes
bytes_of_pair c d s h = rw h

bytes_of_single :
    (c d : ℕ) (s : Text) → is_pair c d ≡ false → bytes (c ∷ d ∷ s) ≡ unit_bytes c + bytes (d ∷ s)
unfolding bytes
bytes_of_single c d s h = rw h

unit_bytes-le : (c : ℕ) → unit_bytes c ≤ 2
unit_bytes-le c = ground arith

unit_bytes_of_pair : (c d : ℕ) → is_pair c d ≡ true → unit_bytes c ≡ 2
unit_bytes_of_pair c d h = ground arith

-- One more code unit adds at most its own bytes, and takes none away.
bytes-cons :
    (c : ℕ) (s : Text) → (bytes s ≤ bytes (c ∷ s)) × (bytes (c ∷ s) ≤ unit_bytes c + bytes s)
bytes-cons c [] = unfold bytes in omega arith
bytes-cons c (d ∷ s) = elim (Bool-cases (is_pair c d)) [
  | inl e ↦
      omega
        (arith, bytes-cons d s, bytes_of_pair c d s e, unit_bytes_of_pair c d e, unit_bytes-le d)
  | inr e ↦ omega (arith, bytes_of_single c d s e)
]

bytes_nil : bytes [] ≡ 0
unfolding bytes
bytes_nil = refl

take_bytes-le : (m total : ℕ) (s : Text) → total ≤ m → total + bytes (take_bytes m total s) ≤ m
unfolding take_bytes
take_bytes-le m total [] h = unfold bytes in omega arith
take_bytes-le m total (c ∷ []) h = unfold bytes in ground arith
take_bytes-le m total (c ∷ d ∷ s) h = elim (Bool-cases (is_pair c d)) [
  | inl e ↦ rw e (
      ground (
        arith,
        bytes_of_pair c d (take_bytes m (total + 2) s) e,
        take_bytes-le m (total + 2) s,
        bytes_nil,
      ))
  | inr e ↦ rw e (
      ground (
        arith,
        bytes-cons c (take_bytes m (total + unit_bytes c) (d ∷ s)),
        take_bytes-le m (total + unit_bytes c) (d ∷ s),
        bytes_nil,
      ))
]

bytes-trim_start : (s : Text) → bytes (trim_start s) ≤ bytes s
unfolding trim_start
bytes-trim_start [] = omega arith
bytes-trim_start (c ∷ s) = ground (arith, bytes-trim_start s, bytes-cons c s)

trim_end_of_pair :
    (c d : ℕ) (s : Text) → is_pair c d ≡ true → trim_end (c ∷ d ∷ s) ≡ c ∷ d ∷ trim_end s
unfolding trim_end
trim_end_of_pair c d s h = ground arith

trim_end-cons : (c : ℕ) (s : Text) → bytes (trim_end (c ∷ s)) ≤ unit_bytes c + bytes (trim_end s)
unfolding trim_end
trim_end-cons c s = ground (arith, bytes-cons c (trim_end s), bytes_nil)

bytes-trim_end : (s : Text) → bytes (trim_end s) ≤ bytes s
bytes-trim_end [] = unfold trim_end in omega arith
bytes-trim_end (c ∷ []) = unfold trim_end bytes in ground arith
bytes-trim_end (c ∷ d ∷ s) = elim (Bool-cases (is_pair c d)) [
  | inl e ↦
      rw (trim_end_of_pair c d s e)
        (omega (arith, bytes-trim_end s, bytes_of_pair c d s e, bytes_of_pair c d (trim_end s) e))
  | inr e ↦ omega (arith, trim_end-cons c (d ∷ s), bytes-trim_end (d ∷ s), bytes_of_single c d s e)
]

pub bytes-trim : (s : Text) → bytes (trim s) ≤ bytes s
unfolding trim
bytes-trim s = omega (arith, bytes-trim_end (trim_start s), bytes-trim_start s)

-- A text without carriage returns.
abbrev pub NoReturn : Text → Type 0
NoReturn = All (λ c. c ≢ 13)

normalize-NoReturn : (s : Text) → NoReturn (normalize_sms_text s)
unfolding normalize_sms_text
normalize-NoReturn [] = tt
normalize-NoReturn (c ∷ []) = ground arith
normalize-NoReturn (c ∷ d ∷ s) = ground (arith, normalize-NoReturn s, normalize-NoReturn (d ∷ s))

normalize_of_NoReturn : (s : Text) → NoReturn s → normalize_sms_text s ≡ s
unfolding normalize_sms_text
normalize_of_NoReturn [] h = refl
normalize_of_NoReturn (c ∷ []) h = ground arith
normalize_of_NoReturn (c ∷ d ∷ s) h = ground (arith, normalize_of_NoReturn (d ∷ s))

trim_start-NoReturn : (s : Text) → NoReturn s → NoReturn (trim_start s)
unfolding trim_start
trim_start-NoReturn [] h = tt
trim_start-NoReturn (c ∷ s) h = ground (arith, trim_start-NoReturn s)

trim_end-NoReturn : (s : Text) → NoReturn s → NoReturn (trim_end s)
unfolding trim_end
trim_end-NoReturn [] h = tt
trim_end-NoReturn (c ∷ s) h = ground (arith, trim_end-NoReturn s)

take_bytes-NoReturn : (m total : ℕ) (s : Text) → NoReturn s → NoReturn (take_bytes m total s)
unfolding take_bytes
take_bytes-NoReturn m total [] h = tt
take_bytes-NoReturn m total (c ∷ []) h = ground arith
take_bytes-NoReturn m total (c ∷ d ∷ s) h = ground (
  arith,
  take_bytes-NoReturn m (total + 2) s,
  take_bytes-NoReturn m (total + unit_bytes c) (d ∷ s),
)

-- The truncated text, measured as the carrier does, has at most the bytes that were allowed.
pub byte_length-truncate :
    (value : Text) (m : ℕ) → get_domestic_sms_byte_length (truncate_domestic_sms_text value m) ≤ m
unfolding truncate_domestic_sms_text get_domestic_sms_byte_length
byte_length-truncate value m =
    let taken : Text = take_bytes m 0 (normalize_sms_text value) in
    let free = take_bytes-NoReturn m 0 (normalize_sms_text value) (normalize-NoReturn value) in
    rw
      (normalize_of_NoReturn (trim taken)
        (unfold trim in trim_end-NoReturn (trim_start taken) (trim_start-NoReturn taken free)))
      (omega (arith, bytes-trim taken, take_bytes-le m 0 (normalize_sms_text value)))

or_text-le :
    (s t : Text) (m : ℕ)
    → get_domestic_sms_byte_length s ≤ m
    → get_domestic_sms_byte_length t ≤ m
    → get_domestic_sms_byte_length (or_text s t) ≤ m
or_text-le [] t m h k = k
or_text-le (c ∷ s) t m h k = h

or_text-ne : (s t : Text) → is_empty t ≡ false → is_empty (or_text s t) ≡ false
or_text-ne [] t h = h
or_text-ne (c ∷ s) t h = refl

image_message-le : get_domestic_sms_byte_length image_message ≤ 40
unfolding get_domestic_sms_byte_length
image_message-le = omega arith

-- An MMS title is never empty and has at most 40 bytes, for every body and preferred title.
pub build_domestic_mms_title_bounds :
    (body : Text) (preferred : Option Text)
    → (is_empty (build_domestic_mms_title body preferred) ≡ false)
      × (get_domestic_sms_byte_length (build_domestic_mms_title body preferred) ≤ 40)
unfolding build_domestic_mms_title
build_domestic_mms_title_bounds body preferred =
    let source : Text =
      or_text (or_text (trim (or_empty preferred)) (or_empty (fallback_line body))) image_message in
    (
      or_text-ne (truncate_domestic_sms_text source 40) image_message refl,
      or_text-le (truncate_domestic_sms_text source 40) image_message 40
          (byte_length-truncate source 40) image_message-le,
    )

-- A body is over the limit exactly above 2000 bytes, with attachments or without; without them it
-- is an SMS exactly up to 90 bytes, and with them it is an MMS whenever it is within the limit.
pub classify_domestic_sms_body_iff :
    (body : Text) (attached : Bool)
    → ((classify_domestic_sms_body body attached ≢ over_limit)
        ↔ (get_domestic_sms_byte_length body ≤ 2000))
      × ((classify_domestic_sms_body body attached ≡ sms)
          ↔ ((attached ≡ false) × (get_domestic_sms_byte_length body ≤ 90)))
      × ((classify_domestic_sms_body body attached ≡ mms)
          ↔ ((attached ≡ true) × (get_domestic_sms_byte_length body ≤ 2000)))
unfolding classify_domestic_sms_body
classify_domestic_sms_body_iff body true = ground arith
classify_domestic_sms_body_iff body false = ground arith
