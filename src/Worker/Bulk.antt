-- ===== src/Worker/Bulk.antt =====
-- `processBulkSmsCampaign`, `processBulkAlimtalkCampaign` and `processBulkBrandMessageCampaign` of
-- apps/worker/src/index.ts, with the `failed` listener's part for campaigns. The three differ in
-- what they ask of a campaign before the post; the provider's result is a parameter.
use noti.Common.{
  ℕ, Bool, true, false, not, ◌||◌, ◌&&◌, List, [], ◌∷◌, Option, none, some, if◌then◌else◌, is_empty,
  any, all, leb, map, Outcome, ok, err, ◌>>◌, require,
}
use noti.Text.{Text, units, text_eq}
use noti.Worker.{WorkerError, unrecoverable, Message, said, is_retryable, own_message}
use noti.Worker.Dispatch.{is_unrecoverable}

pub data CampaignStatus : Type 0 where
  processing sent_to_provider partial_failed failed : CampaignStatus

pub data RecipientStatus : Type 0 where
  requested accepted failed : RecipientStatus

-- The stored template parameters of a recipient: an object, or null or anything else.
pub data TemplateParameters : Type 0 where
  parameters : List (Text × Text) → TemplateParameters
  no_object : TemplateParameters

pub record Recipient : Type 0 where
  pub id : Text
  pub recipient_phone : Text
  pub recipient_grouping_key : Option Text
  pub template_parameters : TemplateParameters
  pub recipient_seq : Option Text
  pub status : RecipientStatus

-- A campaign of any of the three kinds. `sender` is the SMS sender number or the Kakao sender key.
pub record Campaign : Type 0 where
  pub status : CampaignStatus
  pub nhn_request_id : Option Text
  pub sender : Option Text
  pub template_code : Option Text
  pub recipients : List Recipient
  pub error : Option Message

pub record SendResultItem : Type 0 where
  pub recipient_seq : Option Text
  pub result_code : Option Text
  pub recipient_grouping_key : Option Text

pub record SendResult : Type 0 where
  pub request_id : Text
  pub send_result_list : List SendResultItem

pub data Kind : Type 0 where
  bulk_sms bulk_alimtalk bulk_brand_message : Kind

-- the statuses at which a run stops and that the failure handler leaves
unfoldable pub is_concluded : CampaignStatus → Bool
is_concluded processing = false
is_concluded sent_to_provider = true
is_concluded partial_failed = true
is_concluded CampaignStatus.failed = true

-- `null` or '' is falsy
abbrev pub is_filled : Option Text → Bool
is_filled none = false
is_filled (some t) = not (is_empty t)

abbrev pub is_object : TemplateParameters → Bool
is_object (parameters p) = true
is_object no_object = false

-- The checks before the post. A sender number row is there or not; a sender key may also be empty.
unfoldable pub checked : Kind → Campaign → Outcome WorkerError (Unit {0})
checked bulk_sms c = do
  require (elim c.sender [ none ↦ false | some phone ↦ true ])
      (unrecoverable (said "Bulk SMS sender number is missing"))
  require (not (is_empty c.recipients)) (unrecoverable (said "Bulk SMS campaign has no recipients"))
checked bulk_alimtalk c = do
  require (is_filled c.sender) (unrecoverable (said "Bulk AlimTalk sender profile is missing"))
  require (is_filled c.template_code) (unrecoverable (said "Bulk AlimTalk templateCode is missing"))
  require (not (is_empty c.recipients))
      (unrecoverable (said "Bulk AlimTalk campaign has no recipients"))
  require (all (λ r. is_object r.template_parameters) c.recipients)
      (unrecoverable (said "Template parameters are missing for recipient"))
checked bulk_brand_message c = do
  require (is_filled c.sender) (unrecoverable (said "Bulk brand message sender profile is missing"))
  require (not (is_empty c.recipients))
      (unrecoverable (said "Bulk brand message campaign has no recipients"))

-- `resultCode === null || resultCode === '0'`
unfoldable pub is_accepted : SendResultItem → Bool
unfolding text_eq
is_accepted i = elim i.result_code [ none ↦ true | some code ↦ text_eq code (units "0") ]

abbrev pub same_key : Text → Option Text → Bool
same_key k none = false
same_key k (some j) = text_eq j k

-- `updateMany` on the recipients of the campaign that have the grouping key
unfoldable pub mark : SendResultItem → Text → Recipient → Recipient
mark i k r =
    if same_key k r.recipient_grouping_key
    then (if is_accepted i
        then record r { recipient_seq = i.recipient_seq }
        else record r { recipient_seq = i.recipient_seq; status = RecipientStatus.failed })
    else r

-- The updates of the loop, for the items that have a grouping key, one after the other.
unfoldable pub mark_all : List SendResultItem → List Recipient → List Recipient
unfolding mark
mark_all [] rs = rs
mark_all (i ∷ items) rs = mark_all items (elim i.recipient_grouping_key [
  | none ↦ rs
  | some k ↦ if is_empty k then rs else map (mark i k) rs
])

-- `hasAcceptedRecipient && !hasFailedRecipient ? … : …`
unfoldable pub status_of : List SendResultItem → CampaignStatus
status_of items =
    let has_accepted = any is_accepted items in
    let has_failed = any (λ i. not (is_accepted i)) items in
    if has_accepted && not has_failed
    then sent_to_provider
    else if has_accepted
    then partial_failed
    else CampaignStatus.failed

unfoldable pub submitted : SendResult → Campaign → Campaign
unfolding mark_all status_of
submitted result c = record c {
  status = status_of result.send_result_list;
  nhn_request_id = some result.request_id;
  recipients = mark_all result.send_result_list c.recipients;
}

-- A run: the guards, the checks, the post, and the updates. The last part says whether it posted.
unfoldable pub process_bulk_campaign :
    Kind
    → Outcome WorkerError SendResult
    → Campaign
    → Campaign × Outcome WorkerError (Unit {0}) × Bool
process_bulk_campaign kind posted c =
    if is_filled c.nhn_request_id || is_concluded c.status
    then (c, ok tt, false)
    else elim (checked kind c) [
      | err e ↦ (c, err e, false)
      | ok done ↦ elim posted [
        | ok result ↦ (submitted result c, ok tt, true)
        | err e ↦ (c, err (if is_retryable e then e else unrecoverable (own_message e)), true)
      ]
    ]

-- The listener of `failed`, after `made` of `attempts` runs.
unfoldable pub on_bulk_failed : ℕ → ℕ → WorkerError → Campaign → Campaign
unfolding is_concluded
on_bulk_failed made attempts e c =
    if (leb attempts made || is_unrecoverable e) && not (is_concluded c.status)
    then record c { status = CampaignStatus.failed; error = some (own_message e) }
    else c

-- The last run of a job of `attempts` runs, with the listener if the run throws.
unfoldable pub last_bulk_run : Kind → Outcome WorkerError SendResult → ℕ → Campaign → Campaign
last_bulk_run kind posted attempts c =
    let (c', result, did_post) = process_bulk_campaign kind posted c in
    elim result [ ok done ↦ c' | err e ↦ on_bulk_failed attempts attempts e c' ]
