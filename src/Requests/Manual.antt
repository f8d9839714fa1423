-- ===== src/Requests/Manual.antt =====
-- The checks of `createManualSmsRequests` of
-- apps/api/src/message-requests/message-requests.service.ts on one SMS to several phones, and its
-- images. `allowed` are the files of the owner's templates that the provider lists, none where it
-- fails; `upload` is the provider's upload.
use noti.Common.{
  ℕ, ◌+◌, Bool, true, false, not, ◌&&◌, List, [], ◌∷◌, ◌++◌, Option, none, some, if◌then◌else◌,
  is_empty, any, all, keep, find?, map, ltb, length, ◌==◌, Outcome, ok, err, ◌>>=◌, ◌>>◌, require,
}
use noti.Text.{Text, units, text_eq, trim}
use noti.Sms.{
  DomesticSmsMessageType, sms, lms, mms, over_limit, classify_domestic_sms_body,
  build_domestic_mms_title,
}
use noti.Sms.Format.{format_sms_body, sanitize_advertising_service_name}
use noti.Sms080.{Application, opt_out_text_of}
use noti.Senders.{SenderNumber, is_approved}
use noti.Json.{Json, Items, nil, item, Fields, end, field}
use noti.Template.{Value}
use noti.Quota.{QuotaError, reserve_manual}
use noti.Worker.{MessageChannel, MessageRequestStatus}
use noti.Worker.Compose.{is_over_limit}
use noti.Requests.{Conflict, resolve_manual_recipient_phones}
use noti.Requests.Rows.{Row, Requests, add_row, enqueue}
use noti.Requests.Accept.{CreateError, normalize_scheduled_at}
use noti.Requests.Create.{RequestDb}
pub mod Rows
pub mod Checked
pub mod Stored
mod Tests

-- The body is there: the request was validated before. A file is what the upload takes.
pub record CreateManualSmsRequestDto : Type 0 where
  pub sender_number_id : Text
  pub recipient_phone : Option Text
  pub recipient_phones : Option (List Text)
  pub body : Text
  pub mms_title : Option Text
  pub template_attachment_file_ids : Option (List ℕ)
  pub is_advertisement : Bool
  pub advertising_service_name : Option Text
  pub scheduled_at : Option Text

pub data ManualError : Type 0 where
  bad_schedule : CreateError → ManualError
  bad_recipients : Conflict → ManualError
  no_sender empty_body no_opt_out_number too_many_images image_not_found too_long : ManualError
  upload_failed : ManualError
  no_room : QuotaError → ManualError

abbrev pub mms_attachment_max_count : ℕ
mms_attachment_max_count = 3

-- the owner's approved sender number with the id
unfoldable pub is_sender_for : Text → Text → SenderNumber → Bool
unfolding text_eq
is_sender_for owner id s = text_eq s.id id && text_eq s.owner_user_id owner && is_approved s.status

unfoldable pub sender_or_error : Text → Text → List SenderNumber → Outcome ManualError SenderNumber
unfolding is_sender_for
sender_or_error owner id numbers = elim (find? (is_sender_for owner id) numbers) [
  | none ↦ err no_sender
  | some s ↦ ok s
]

-- `getApprovedSms080OptOutText`, where it is an advertisement; `service` is the application that
-- the database finds
unfoldable pub manual_opt_out : Bool → Option Application → Outcome ManualError (Option Text)
unfolding opt_out_text_of
manual_opt_out false service = ok none
manual_opt_out true none = err no_opt_out_number
manual_opt_out true (some a) = elim (opt_out_text_of a) [
  | none ↦ err no_opt_out_number
  | some text ↦ ok (some text)
]

-- `[...new Set(ids.filter(...))]`, without the ids seen before
unfoldable pub distinct_file_ids : List ℕ → List ℕ → List ℕ
distinct_file_ids seen [] = []
distinct_file_ids seen (id ∷ ids) =
    let skipped = distinct_file_ids seen ids in
    let taken = id ∷ distinct_file_ids (id ∷ seen) ids in
    if ltb 0 id && not (any (λ k. k == id) seen) then taken else skipped

unfoldable pub resolve_manual_sms_template_attachment_file_ids :
    (allowed : List ℕ) → Option (List ℕ) → Outcome ManualError (List ℕ)
unfolding distinct_file_ids
resolve_manual_sms_template_attachment_file_ids allowed none = ok []
resolve_manual_sms_template_attachment_file_ids allowed (some ids) = do
  let distinct = distinct_file_ids [] ids
  require (not (ltb mms_attachment_max_count (length distinct))) too_many_images
  require (all (λ id. any (λ k. k == id) allowed) distinct) image_not_found
  ok distinct

-- the uploads of `Promise.all`, of which the first that fails is thrown
unfoldable pub upload_manual_sms_attachments :
    {File : Type 0} → (File → Option ℕ) → List File → Outcome ManualError (List ℕ)
upload_manual_sms_attachments upload [] = ok []
upload_manual_sms_attachments upload (f ∷ fs) = elim (upload f) [
  | none ↦ err upload_failed
  | some id ↦ do ids ← upload_manual_sms_attachments upload fs; ok (id ∷ ids)
]

-- What the checks leave for the transaction.
pub record ManualSms : Type 0 where
  pub scheduled_at : Option ℕ
  pub phones : List Text
  pub sender : SenderNumber
  pub body : Text
  pub attachment_count : ℕ
  pub file_ids : List ℕ

abbrev pub manual_phones : CreateManualSmsRequestDto → Outcome ManualError (List Text)
manual_phones dto =
    elim (resolve_manual_recipient_phones dto.recipient_phone dto.recipient_phones) [
      | ok phones ↦ ok phones
      | err e ↦ err (bad_recipients e)
    ]

-- The body that is stored with every row.
unfoldable pub manual_body_of :
    CreateManualSmsRequestDto → Option Application → Outcome ManualError Text
unfolding trim manual_opt_out format_sms_body
manual_body_of dto service = do
  require (not (is_empty (trim dto.body))) empty_body
  opt_out ← manual_opt_out dto.is_advertisement service
  ok (
      format_sms_body (trim dto.body) (record {
        is_advertisement = dto.is_advertisement;
        advertising_service_name =
            some (sanitize_advertising_service_name dto.advertising_service_name);
        opt_out_text = opt_out;
      }))

-- The number of images, and their files.
unfoldable pub manual_attachments :
    {File : Type 0}
    → (File → Option ℕ)
    → (allowed : List ℕ) → Option (List ℕ)
    → List File
    → Outcome ManualError (ℕ × List ℕ)
unfolding resolve_manual_sms_template_attachment_file_ids upload_manual_sms_attachments
manual_attachments upload allowed ids files = do
  from_templates ← resolve_manual_sms_template_attachment_file_ids allowed ids
  let count = length from_templates + length files
  require (not (ltb mms_attachment_max_count count)) too_many_images
  uploaded ← upload_manual_sms_attachments upload files
  ok (count, from_templates ++ uploaded)

module _ (parse_date : Text → Option ℕ) (text_of : Json → Text) (inherited : Text → Option Value)
    (now : ℕ) where
  abbrev pub manual_schedule : Option Text → Outcome ManualError (Option ℕ)
  manual_schedule at = elim (normalize_scheduled_at parse_date text_of inherited now at) [
    | ok t ↦ ok t
    | err e ↦ err (bad_schedule e)
  ]

module _ {File : Type 0} (parse_date : Text → Option ℕ) (text_of : Json → Text)
    (inherited : Text → Option Value) (now : ℕ) (upload : File → Option ℕ) where
  -- All that is checked before the transaction.
  unfoldable pub check_manual_sms :
      (owner : Text)
      → CreateManualSmsRequestDto
      → List SenderNumber
      → Option Application
      → (allowed : List ℕ) (files : List File) → Outcome ManualError ManualSms
  unfolding normalize_scheduled_at resolve_manual_recipient_phones sender_or_error manual_body_of
      manual_attachments classify_domestic_sms_body
  check_manual_sms owner dto numbers service allowed files = do
    at ← manual_schedule parse_date text_of inherited now dto.scheduled_at
    phones ← manual_phones dto
    sender ← sender_or_error owner dto.sender_number_id numbers
    body ← manual_body_of dto service
    (count, file_ids) ← manual_attachments upload allowed dto.template_attachment_file_ids files
    require (not (is_over_limit (classify_domestic_sms_body body (ltb 0 count)))) too_long
    ok (record {
      scheduled_at = at;
      phones = phones;
      sender = sender;
      body = body;
      attachment_count = count;
      file_ids = file_ids;
    })
