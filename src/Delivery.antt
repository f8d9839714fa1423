-- ===== src/Delivery.antt =====
-- apps/api/src/provider-results/provider-results.service.ts: how the provider's delivery lookups
-- become the statuses that the console shows, for single messages and for campaigns.
pub mod Campaign
pub mod Counts
pub mod Local
pub mod Message
pub mod Status
mod Tests
use noti.Common.{
  ℕ, zero, suc, ◌+◌, ◌-◌, ◌*◌, String, Bool, true, false, not, ◌||◌, ◌&&◌, List, [], ◌∷◌, Option,
  none, some, ◌==◌, leb, ltb, if◌then◌else◌, is_empty, any, all,
}
use noti.Text.{Text, units, text_eq, is_digit}
use noti.Sms.{or_text, or_empty}

pub data ResolvedStatus : Type 0 where
  accepted processing waiting in_progress lookup_failed sent_to_provider delivered delivery_failed
        send_failed canceled dead requested :
      ResolvedStatus

-- `NhnRecipientDeliveryLookup`
pub record Lookup : Type 0 where
  pub recipient_seq : Option Text
  pub recipient_no : Option Text
  pub provider_status : Option Text
  pub provider_code : Option Text
  pub provider_message : Option Text
  pub requested_at : Option Text
  pub result_at : Option Text

unfoldable pub starts_with : Text → Text → Bool
starts_with [] s = true
starts_with (p ∷ ps) [] = false
starts_with (p ∷ ps) (c ∷ s) = p == c && starts_with ps s

-- `s.includes(part)`
unfoldable pub includes : Text → Text → Bool
unfolding starts_with
includes part [] = is_empty part
includes part (c ∷ s) = starts_with part (c ∷ s) || includes part s

abbrev pub includes_any : List String → Text → Bool
includes_any parts s = any (λ part. includes (units part) s) parts

unfoldable pub is_provider_success_code : Text → Bool
unfolding text_eq
is_provider_success_code c =
    text_eq c (units "0")
    || text_eq c (units "0000")
    || text_eq c (units "1000")
    || text_eq c (units "MRC01")

-- the value of a text of decimal digits
unfoldable pub decimal : ℕ → Text → ℕ
decimal n [] = n
decimal n (c ∷ s) = decimal (n * 10 + (c - 48)) s

-- what `/^-?\d+$/` leaves after the sign
unfoldable pub digits_of_integer : Text → Option Text
unfolding is_digit
digits_of_integer [] = none
digits_of_integer (c ∷ s) =
    let body = if c == b'-' then s else c ∷ s in
    if not (is_empty body) && all is_digit body then some body else none

unfoldable pub is_provider_failure_code : Text → Bool
unfolding is_provider_success_code text_eq digits_of_integer decimal
is_provider_failure_code c =
    if is_empty c || is_provider_success_code c
    then false
    else if text_eq c (units "MRC02") || text_eq c (units "MRC03") || text_eq c (units "MRC04")
    then true
    else elim (digits_of_integer c) [ none ↦ false | some body ↦ leb 1000 (decimal 0 body) ]

-- `scheduledAt && scheduledAt.getTime() > Date.now()`
unfoldable pub is_future : Option ℕ → ℕ → Bool
is_future none now = false
is_future (some t) now = ltb now t

unfoldable pub is_failure_status : ResolvedStatus → Bool
is_failure_status delivery_failed = true
is_failure_status send_failed = true
is_failure_status dead = true
is_failure_status _ = false

-- `toUpperCase` is the runtime's.
module _ (to_upper_case : Text → Text) where
  abbrev pub upper : Option Text → Text
  upper t = to_upper_case (or_empty t)

  unfoldable pub reports_failure : Lookup → Bool
  unfolding is_provider_failure_code includes
  reports_failure l =
      is_provider_failure_code (upper l.provider_code)
      || includes_any ("FAIL" ∷ "실패" ∷ "REJECT" ∷ "거부" ∷ "CANCEL" ∷ "취소" ∷ [])
          (upper l.provider_status)
      || includes_any ("FAIL" ∷ "실패" ∷ "REJECT" ∷ "거부" ∷ "CANCEL" ∷ "취소" ∷ [])
          (upper l.provider_message)

  unfoldable pub reports_delivery : Lookup → Bool
  unfolding is_provider_success_code includes
  reports_delivery l =
      includes_any ("DELIVER" ∷ "SUCCESS" ∷ "성공" ∷ "COMPLETE" ∷ "DONE" ∷ [])
        (upper l.provider_status)
      || includes_any ("SUCCESS" ∷ "성공" ∷ []) (upper l.provider_message)
      || is_provider_success_code (upper l.provider_code)

  unfoldable pub reports_submission : Lookup → Bool
  unfolding includes
  reports_submission l =
      includes_any ("SENT" ∷ "ACCEPT" ∷ "접수" ∷ "REQUEST" ∷ "요청" ∷ "SUBMIT" ∷ [])
        (upper l.provider_status)

  -- The words for waiting and processing come last and give what the default gives.
  unfoldable pub map_lookup_to_status : Lookup → Option ℕ → ℕ → ResolvedStatus
  unfolding is_future
  map_lookup_to_status l scheduled_at now =
      if reports_failure l
      then delivery_failed
      else if reports_delivery l
      then delivered
      else if reports_submission l
      then sent_to_provider
      else if is_future scheduled_at now
      then waiting
      else in_progress
