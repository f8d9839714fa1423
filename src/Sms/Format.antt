-- ===== src/Sms/Format.antt =====
-- `formatSmsBody` of packages/shared/src/index.ts: line breaks, and the marks of an advertisement.
use noti.Common.{
  ℕ, Bool, false, not, ◌&&◌, ◌||◌, List, [], ◌∷◌, ◌++◌, Option, none, some, map, ◌==◌,
  if◌then◌else◌, is_empty, keep, all,
}
use noti.Text.{Text, units, trim, trim_start, trim_end, is_space, is_digit}
use noti.Sms.{normalize_sms_text, split_lines, or_text, or_empty}

-- `'(광고)'`
abbrev pub sms_advertisement_prefix : Text
sms_advertisement_prefix = units "(광고)"

abbrev pub sms_advertisement_opt_out_text : Text
sms_advertisement_opt_out_text = units "무료수신거부 080-500-4233"

-- whether a text begins with white space
abbrev pub starts_with_space : Text → Bool
starts_with_space [] = false
starts_with_space (c ∷ s) = is_space c

-- `replace(/\s+/g, ' ')`
unfoldable pub collapse_spaces : Text → Text
unfolding is_space
collapse_spaces [] = []
collapse_spaces (c ∷ s) =
    let rest = collapse_spaces s in
    if is_space c then (if starts_with_space s then rest else 32 ∷ rest) else c ∷ rest

unfoldable pub sanitize_advertising_service_name : Option Text → Text
unfolding collapse_spaces trim
sanitize_advertising_service_name value = collapse_spaces (trim (or_empty value))

-- what follows a literal prefix
unfoldable pub after_prefix : Text → Text → Option Text
after_prefix [] s = some s
after_prefix (p ∷ ps) [] = none
after_prefix (p ∷ ps) (c ∷ s) = let rest = after_prefix ps s in if p == c then rest else none

-- `replace(/^prefix\s*name\s*/u, '')`; a sanitized name does not begin with white space, so the
-- first `\s*` takes all there is
unfoldable pub strip_named_prefix : Text → Text → Text
unfolding after_prefix trim_start
strip_named_prefix name body = elim (after_prefix sms_advertisement_prefix body) [
  | none ↦ body
  | some rest ↦ elim (after_prefix name (trim_start rest)) [
    | none ↦ body
    | some content ↦ trim_start content
  ]
]

-- `replace(/^prefix\s*/u, '')`
unfoldable pub strip_prefix : Text → Text
unfolding after_prefix trim_start
strip_prefix body = elim (after_prefix sms_advertisement_prefix body) [
  | none ↦ body
  | some rest ↦ trim_start rest
]

unfoldable pub strip_leading_advertisement_prefix : Text → Text → Text
unfolding strip_named_prefix strip_prefix trim_start
strip_leading_advertisement_prefix body name =
    let next = trim_start body in
    let unnamed = if is_empty name then next else strip_named_prefix name next in
    trim_start (strip_prefix unnamed)

-- `[-\d\s]`
abbrev pub is_number_mark : ℕ → Bool
is_number_mark c = c == b'-' || is_digit c || is_space c

-- `/^무료수신거부\s+080[-\d\s]+$/u`
unfoldable pub is_sms_advertisement_opt_out_line : Text → Bool
unfolding after_prefix trim_start is_space is_digit
is_sms_advertisement_opt_out_line line = elim (after_prefix (units "무료수신거부") line) [
  | none ↦ false
  | some rest ↦ starts_with_space rest && elim (after_prefix (units "080") (trim_start rest)) [
    | none ↦ false
    | some number ↦ not (is_empty number) && all is_number_mark number
  ]
]

-- `join('\n')`
unfoldable pub join_lines : List Text → Text
join_lines [] = []
join_lines (line ∷ []) = line
join_lines (line ∷ next ∷ lines) = line ++ 10 ∷ join_lines (next ∷ lines)

pub record FormatOptions : Type 0 where
  pub is_advertisement : Bool
  pub advertising_service_name : Option Text
  pub opt_out_text : Option Text

-- the opt-out line that is put at the end
unfoldable pub opt_out_line : Option Text → Text
unfolding normalize_sms_text trim
opt_out_line none =
    or_text (trim (normalize_sms_text sms_advertisement_opt_out_text))
      sms_advertisement_opt_out_text
opt_out_line (some t) = or_text (trim (normalize_sms_text t)) sms_advertisement_opt_out_text

-- the content without its own opt-out lines and advertisement mark
unfoldable pub advertisement_content : Text → Text → Text
unfolding split_lines join_lines trim trim_end strip_leading_advertisement_prefix
    is_sms_advertisement_opt_out_line
advertisement_content body name =
    strip_leading_advertisement_prefix
      (trim (
        join_lines (
          keep (λ line. not (is_sms_advertisement_opt_out_line (trim line)))
            (map trim_end (split_lines body)))))
      name

unfoldable pub format_sms_body : Text → FormatOptions → Text
format_sms_body body options =
    let normalized_body = trim (normalize_sms_text body) in
    let name = sanitize_advertising_service_name options.advertising_service_name in
    if options.is_advertisement
    then join_lines (
        keep (λ part. not (is_empty part))
          ((sms_advertisement_prefix ++ name)
            ∷ advertisement_content normalized_body name
            ∷ opt_out_line options.opt_out_text
            ∷ []))
    else normalized_body
