-- ===== src/Requests.antt =====
-- `resolveChannel` and `resolveManualRecipientPhones` of
-- apps/api/src/message-requests/message-requests.service.ts: the channel that a rule of the owner
-- gives a request, and the phones of a manual message. The provider template that the default
-- binding upserts in the database is an argument.
use noti.Common.{
  ℕ, Bool, true, false, not, ◌&&◌, ◌||◌, List, [], ◌∷◌, Option, none, some, if◌then◌else◌, is_empty,
  any, ltb, length, String, Outcome, ok, err, require, ◌>>◌, ◌>>=◌,
}
use noti.Text.{Text, text_eq, trim, digits_only}
pub mod Channel
pub mod Phones
pub mod Rows
pub mod Accept
pub mod Once
pub mod Backing
pub mod Retry
pub mod Retries
pub mod Resending
pub mod Create
pub mod Created
pub mod Manual
pub mod Samples
mod Tests

pub data ChannelStrategy : Type 0 where
  sms_only alimtalk_only alimtalk_then_sms : ChannelStrategy

pub data AlimtalkTemplateBindingMode : Type 0 where
  default_binding custom_binding : AlimtalkTemplateBindingMode

pub data TemplateStatus : Type 0 where
  draft published archived : TemplateStatus

pub data SenderNumberStatus : Type 0 where
  draft submitted supplement_requested approved rejected : SenderNumberStatus

-- REG, REQ, APR and REJ
pub data ProviderTemplateStatus : Type 0 where
  reg req apr rej : ProviderTemplateStatus

pub data SenderProfileStatus : Type 0 where
  active blocked dormant unknown : SenderProfileStatus

pub record SmsTemplate : Type 0 where
  pub id : Text
  pub status : TemplateStatus

pub record SmsSenderNumber : Type 0 where
  pub id : Text
  pub status : SenderNumberStatus

pub record AlimtalkTemplate : Type 0 where
  pub id : Text
  pub provider_status : ProviderTemplateStatus
  pub template_id : Text

pub record AlimtalkSenderProfile : Type 0 where
  pub id : Text
  pub status : SenderProfileStatus

pub record Rule : Type 0 where
  pub sms_template : Option SmsTemplate
  pub sms_sender_number : Option SmsSenderNumber
  pub alimtalk_template_binding_mode : AlimtalkTemplateBindingMode
  pub alimtalk_template : Option AlimtalkTemplate
  pub alimtalk_sender_profile : Option AlimtalkSenderProfile

-- what a request is sent with, by channel
pub data ResolutionResult : Type 0 where
  sms : (sender_number_id template_id : Text) → ResolutionResult
  alimtalk : (sender_profile_id template_id provider_template_id : Text) → ResolutionResult

-- The conflicts of the two functions, and any error of the upsert.
pub data Conflict : Type 0 where
  kakao_sender_profile_required sms_rule_not_ready alimtalk_template_not_approved : Conflict
  fallback_not_ready recipient_missing too_many_recipients upsert_failed : Conflict

abbrev pub is_active : Option AlimtalkSenderProfile → Bool
is_active none = false
is_active (some p) = elim p.status [ active ↦ true | _ ↦ false ]

abbrev pub is_approved_template : Option AlimtalkTemplate → Bool
is_approved_template none = false
is_approved_template (some t) = elim t.provider_status [ apr ↦ true | _ ↦ false ]

abbrev pub is_published : Option SmsTemplate → Bool
is_published none = false
is_published (some t) = elim t.status [ published ↦ true | _ ↦ false ]

abbrev pub is_approved_number : Option SmsSenderNumber → Bool
is_approved_number none = false
is_approved_number (some n) = elim n.status [ approved ↦ true | _ ↦ false ]

abbrev pub is_default : AlimtalkTemplateBindingMode → Bool
is_default default_binding = true
is_default custom_binding = false

-- `hasApprovedAlimtalk && alimtalkTemplate && rule.alimtalkSenderProfile`, with what it sends
unfoldable pub ready_alimtalk :
    Option AlimtalkTemplate → Option AlimtalkSenderProfile → Option ResolutionResult
ready_alimtalk (some t) (some p) =
    if is_approved_template (some t) && is_active (some p)
    then some (alimtalk p.id t.template_id t.id)
    else none
ready_alimtalk _ _ = none

-- `hasSms && rule.smsTemplate && rule.smsSenderNumber`, with what it sends
unfoldable pub ready_sms : Option SmsTemplate → Option SmsSenderNumber → Option ResolutionResult
ready_sms (some t) (some n) =
    if is_published (some t) && is_approved_number (some n) then some (sms n.id t.id) else none
ready_sms _ _ = none

abbrev pub or_conflict : Option ResolutionResult → Conflict → Outcome Conflict ResolutionResult
or_conflict (some r) e = ok r
or_conflict none e = err e

unfoldable pub by_strategy :
    ChannelStrategy
    → (from_alimtalk from_sms : Option ResolutionResult) → Outcome Conflict ResolutionResult
by_strategy sms_only a s = or_conflict s sms_rule_not_ready
by_strategy alimtalk_only a s = or_conflict a alimtalk_template_not_approved
by_strategy alimtalk_then_sms (some r) s = ok r
by_strategy alimtalk_then_sms none s = or_conflict s fallback_not_ready

-- `upserted` is what the upsert of the default provider template returns or throws.
unfoldable pub resolve_channel :
    ChannelStrategy → Rule → Outcome Conflict AlimtalkTemplate → Outcome Conflict ResolutionResult
resolve_channel strategy rule upserted = do
  require
      (not (is_default rule.alimtalk_template_binding_mode)
        || is_active rule.alimtalk_sender_profile)
      kakao_sender_profile_required
  alimtalk_template ←
      if is_default rule.alimtalk_template_binding_mode
      then upserted >>= (λ t. ok (some t))
      else ok rule.alimtalk_template
  by_strategy strategy (ready_alimtalk alimtalk_template rule.alimtalk_sender_profile)
      (ready_sms rule.sms_template rule.sms_sender_number)

-- `MANUAL_MESSAGE_RECIPIENT_LIMIT`
abbrev pub manual_message_recipient_limit : ℕ
manual_message_recipient_limit = 100

-- `rawPhones`: the list unless it is absent or empty, then the single phone unless it is absent or ''
unfoldable pub raw_phones : Option Text → Option (List Text) → List Text
raw_phones one (some (p ∷ ps)) = p ∷ ps
raw_phones none _ = []
raw_phones (some phone) _ = if is_empty phone then [] else phone ∷ []

abbrev pub is_seen : Text → List Text → Bool
is_seen key seen = any (λ k. text_eq k key) seen

-- the loop, with the keys seen so far
unfoldable pub distinct_phones : List Text → List Text → List Text
distinct_phones seen [] = []
distinct_phones seen (raw ∷ rest) =
    let phone = trim raw in
    let key = digits_only phone in
    let skipped = distinct_phones seen rest in
    let taken = distinct_phones (key ∷ seen) rest in
    if is_empty phone || is_empty key || is_seen key seen then skipped else phone ∷ taken

unfoldable pub resolve_manual_recipient_phones :
    Option Text → Option (List Text) → Outcome Conflict (List Text)
unfolding raw_phones
resolve_manual_recipient_phones one several = do
  let phones = distinct_phones [] (raw_phones one several)
  require (not (is_empty phones)) recipient_missing
  require (not (ltb manual_message_recipient_limit (length phones))) too_many_recipients
  ok phones
