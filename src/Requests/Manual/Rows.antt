-- ===== src/Requests/Manual/Rows.antt =====
-- The rest of `createManualSmsRequests` of apps/api/src/message-requests/message-requests.service.ts:
-- the rows with their metadata, stored with their usage in one transaction, and their jobs.
use noti.Common.{
  ℕ, ◌+◌, Bool, true, false, not, List, [], ◌∷◌, ◌++◌, Option, none, some, if◌then◌else◌, is_empty,
  map, ltb, length, Outcome, ok, err, ◌>>=◌,
}
use noti.Text.{Text, units}
use noti.Sms.{
  DomesticSmsMessageType, sms, lms, mms, over_limit, classify_domestic_sms_body,
  build_domestic_mms_title,
}
use noti.Sms.Format.{sanitize_advertising_service_name}
use noti.Sms080.{Application}
use noti.Senders.{SenderNumber}
use noti.Json.{Json, Items, nil, item, Fields, end, field}
use noti.Template.{Value}
use noti.Quota.{reserve_manual}
use noti.Worker.{MessageChannel, MessageRequestStatus}
use noti.Requests.Rows.{Row, Requests, add_row, enqueue}
use noti.Requests.Create.{RequestDb}
use noti.Requests.Manual.{
  CreateManualSmsRequestDto, ManualError, no_room, ManualSms, check_manual_sms,
}

abbrev pub type_name : DomesticSmsMessageType → Text
type_name sms = units "SMS"
type_name lms = units "LMS"
type_name mms = units "MMS"
type_name over_limit = units "OVER_LIMIT"

abbrev pub field_if : Bool → Text → Json → Fields → Fields
field_if true k v fs = field k v fs
field_if false k v fs = fs

-- `shown` is the decimal form of a number.
module _ (shown : ℕ → Text) where
  abbrev pub items_of : List ℕ → Items
  items_of [] = nil
  items_of (id ∷ ids) = item (Json.number (shown id)) (items_of ids)

  abbrev pub manual_batch : Text → (recipients index : ℕ) → Json
  manual_batch batch_id recipients index = Json.object (
      field (units "id") (Json.string batch_id) (
        field (units "recipientCount") (Json.number (shown recipients))
          (field (units "recipientIndex") (Json.number (shown index)) end)))

  abbrev pub advertisement_json : CreateManualSmsRequestDto → Json
  advertisement_json dto =
      let name = sanitize_advertising_service_name dto.advertising_service_name in
      Json.object (
        field (units "enabled") (Json.boolean true) (
          field (units "advertisingServiceName")
            (if is_empty name then Json.null else Json.string name) end))

  -- The metadata with its batch, of the phone at the index, from 1.
  unfoldable pub manual_metadata : CreateManualSmsRequestDto → ManualSms → Text → ℕ → Json
  unfolding classify_domestic_sms_body build_domestic_mms_title
  manual_metadata dto m batch_id index =
      let attached = ltb 0 m.attachment_count in
      let type = classify_domestic_sms_body m.body attached in
      Json.object (
        field (units "mode") (Json.string (units "MANUAL_SMS")) (
          field (units "smsMessageType") (Json.string (type_name type)) (
            field_if (not (is_empty m.file_ids)) (units "smsTemplateAttachmentFileIds")
              (Json.array (items_of m.file_ids))
              (field_if attached (units "mmsTitle")
                (Json.string (build_domestic_mms_title m.body dto.mms_title))
                (field_if dto.is_advertisement (units "smsAdvertisement") (advertisement_json dto) (
                  field_if (ltb 1 (length m.phones)) (units "manualBatch")
                    (manual_batch batch_id (length m.phones) index) end))))))

  unfoldable pub manual_row :
      (owner : Text)
      → CreateManualSmsRequestDto
      → ManualSms
      → (batch_id new_id phone : Text) → ℕ
      → Row
  unfolding manual_metadata
  manual_row owner dto m batch_id new_id phone index = record {
    id = new_id;
    owner_user_id = owner;
    event_key = units "MANUAL_SMS_SEND";
    idempotency_key = batch_id ++ units "_" ++ shown index;
    recipient_phone = phone;
    recipient_user_id = none;
    variables = [];
    metadata = manual_metadata dto m batch_id index;
    manual_body = some m.body;
    scheduled_at = m.scheduled_at;
    status = MessageRequestStatus.accepted;
    resolved_channel = some MessageChannel.sms;
    resolved_sender_number_id = some m.sender.id;
    resolved_sender_profile_id = none;
    resolved_template_id = none;
    resolved_provider_template_id = none;
    last_error_code = none;
    last_error_message = none;
    retry_of_request_id = none;
  }

  -- The loop over the phones, from an index; `new_id` gives the id of the row at an index.
  unfoldable pub manual_rows :
      (owner : Text)
      → CreateManualSmsRequestDto
      → ManualSms
      → (batch_id : Text) (new_id : ℕ → Text) → ℕ
      → List Text
      → List Row
  unfolding manual_row
  manual_rows owner dto m batch_id new_id index [] = []
  manual_rows owner dto m batch_id new_id index (phone ∷ phones) =
      manual_row owner dto m batch_id (new_id index) phone index
      ∷ manual_rows owner dto m batch_id new_id (index + 1) phones

unfoldable pub add_rows : List Row → Requests → Requests
unfolding add_row
add_rows [] s = s
add_rows (r ∷ rs) s = add_rows rs (add_row r s)

unfoldable pub enqueue_all : List Row → Requests → Requests
unfolding enqueue
enqueue_all [] s = s
enqueue_all (r ∷ rs) s = enqueue_all rs (enqueue r.id s)

-- `scheduledAt ?? new Date()`
abbrev pub usage_time : (now : ℕ) → Option ℕ → ℕ
usage_time now none = now
usage_time now (some t) = t

module _ {File : Type 0} (parse_date : Text → Option ℕ) (text_of : Json → Text)
    (inherited : Text → Option Value) (now : ℕ) (upload : File → Option ℕ) where
  -- `kst_parts` and `utc` are the calendar of the quota.
  module _ (kst_parts : ℕ → ℕ × ℕ) (utc : ℕ → ℕ → ℕ) (shown : ℕ → Text) where
    -- The transaction, and then the jobs, one for each row in order.
    unfoldable pub create_manual_sms_requests :
        (owner : Text)
        → CreateManualSmsRequestDto
        → List SenderNumber
        → Option Application
        → (allowed : List ℕ) (files : List File) (batch_id : Text) (new_id : ℕ → Text) → RequestDb
        → Outcome ManualError (RequestDb × List Row)
    unfolding check_manual_sms manual_rows reserve_manual add_rows enqueue_all
    create_manual_sms_requests owner dto numbers service allowed files batch_id new_id s = do
      m ←
          check_manual_sms parse_date text_of inherited now upload owner dto numbers service allowed
            files
      let rows = manual_rows shown owner dto m batch_id new_id 1 m.phones
      elim (reserve_manual kst_parts utc s.ledger owner (some m.sender.id)
          (usage_time now m.scheduled_at) (map (λ r. r.id) rows)) [
            | err e ↦ err (no_room e)
            | ok ledger ↦
                let requests = enqueue_all rows (add_rows rows s.requests) in
                ok (record { requests = requests; ledger = ledger }, rows)
          ]
