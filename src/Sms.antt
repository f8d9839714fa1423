-- ===== src/Sms.antt =====
-- The SMS text functions of packages/shared/src/index.ts: line breaks, the carrier's byte length,
-- truncation, the SMS/LMS/MMS classes and the MMS title.
pub mod Format
pub mod Bounds
pub mod Advertisement
mod Tests
use noti.Common.{
  ℕ, ◌+◌, ◌*◌, Bool, true, false, not, ◌&&◌, ◌||◌, List, [], ◌∷◌, ◌++◌, Option, none, some, map,
  ◌==◌, ltb, leb, if◌then◌else◌, is_empty, find?,
}
use noti.Text.{Text, units, trim}

abbrev pub domestic_sms_standard_bytes : ℕ
domestic_sms_standard_bytes = 90

abbrev pub domestic_lms_standard_bytes : ℕ
domestic_lms_standard_bytes = 2000

abbrev pub domestic_mms_title_standard_bytes : ℕ
domestic_mms_title_standard_bytes = 40

pub data DomesticSmsMessageType : Type 0 where
  sms lms mms over_limit : DomesticSmsMessageType

-- `replace(/\r\n?/g, '\n')`
unfoldable pub normalize_sms_text : Text → Text
normalize_sms_text [] = []
normalize_sms_text (c ∷ []) = (if c == 13 then 10 else c) ∷ []
normalize_sms_text (c ∷ d ∷ s) =
    let skip = 10 ∷ normalize_sms_text s in
    let keep = (if c == 13 then 10 else c) ∷ normalize_sms_text (d ∷ s) in
    if c == 13 && d == 10 then skip else keep

-- The string iterator joins a high surrogate with the low one that follows it.
abbrev pub is_pair : ℕ → ℕ → Bool
is_pair c d = (leb 0xd800 c && leb c 0xdbff) && (leb 0xdc00 d && leb d 0xdfff)

-- The bytes of a character that is one code unit; one that is a pair has two.
abbrev pub unit_bytes : ℕ → ℕ
unit_bytes c = if leb c 0x7f then 1 else 2

-- the loop of `getDomesticSmsByteLength`
unfoldable pub bytes : Text → ℕ
bytes [] = 0
bytes (c ∷ []) = unit_bytes c
bytes (c ∷ d ∷ s) =
    let pair = 2 + bytes s in
    let single = unit_bytes c + bytes (d ∷ s) in if is_pair c d then pair else single

unfoldable pub get_domestic_sms_byte_length : Text → ℕ
unfolding bytes normalize_sms_text
get_domestic_sms_byte_length value = bytes (normalize_sms_text value)

-- The loop of `truncateDomesticSmsText`, with the bytes taken so far.
unfoldable pub take_bytes : ℕ → ℕ → Text → Text
take_bytes max_bytes total [] = []
take_bytes max_bytes total (c ∷ []) = if leb (total + unit_bytes c) max_bytes then c ∷ [] else []
take_bytes max_bytes total (c ∷ d ∷ s) =
    let pair = c ∷ d ∷ take_bytes max_bytes (total + 2) s in
    let single = c ∷ take_bytes max_bytes (total + unit_bytes c) (d ∷ s) in
    if is_pair c d
    then (if leb (total + 2) max_bytes then pair else [])
    else (if leb (total + unit_bytes c) max_bytes then single else [])

unfoldable pub truncate_domestic_sms_text : Text → ℕ → Text
unfolding take_bytes normalize_sms_text trim
truncate_domestic_sms_text value max_bytes =
    trim (take_bytes max_bytes 0 (normalize_sms_text value))

unfoldable pub classify_domestic_sms_body : Text → Bool → DomesticSmsMessageType
classify_domestic_sms_body body has_attachments =
    let n = get_domestic_sms_byte_length body in
    if has_attachments
    then (if leb n domestic_lms_standard_bytes then mms else over_limit)
    else if leb n domestic_sms_standard_bytes
    then sms
    else if leb n domestic_lms_standard_bytes
    then lms
    else over_limit

-- `split('\n')`: the first line, and the rest after its line break
unfoldable pub split_lines : Text → List Text
split_lines [] = [] ∷ []
split_lines (c ∷ s) = elim (split_lines s) [
  | [] ↦ (c ∷ []) ∷ []
  | line ∷ lines ↦ if c == 10 then [] ∷ line ∷ lines else (c ∷ line) ∷ lines
]

-- `'이미지 메시지'`
abbrev pub image_message : Text
image_message = units "이미지 메시지"

-- `a || b` on strings
abbrev pub or_text : Text → Text → Text
or_text [] t = t
or_text (c ∷ s) t = c ∷ s

abbrev pub or_empty : Option Text → Text
or_empty none = []
or_empty (some t) = t

-- The first line with something on it, trimmed.
unfoldable pub fallback_line : Text → Option Text
unfolding split_lines normalize_sms_text trim
fallback_line body =
    find? (λ line. not (is_empty line)) (map trim (split_lines (normalize_sms_text body)))

unfoldable pub build_domestic_mms_title : Text → Option Text → Text
unfolding fallback_line trim truncate_domestic_sms_text
build_domestic_mms_title body preferred_title =
    let source =
      or_text (or_text (trim (or_empty preferred_title)) (or_empty (fallback_line body)))
        image_message in
    or_text (truncate_domestic_sms_text source domestic_mms_title_standard_bytes) image_message
