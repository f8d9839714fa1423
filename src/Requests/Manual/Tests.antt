-- ===== src/Requests/Manual/Tests.antt =====
-- A text of the owner to two phones.
use noti.Common.{
  ℕ, ◌+◌, ◌*◌, ◌++◌, ◌≡◌, ◌≤◌, arith, refl, List, [], ◌∷◌, Option, none, some, Outcome, ok, err,
  false, length,
}
use noti.Text.{Text, units, trim, digits_only, text_eq}
use noti.Sms.{normalize_sms_text, get_domestic_sms_byte_length, bytes, classify_domestic_sms_body}
use noti.Sms.Format.{format_sms_body}
use noti.Senders.{SenderNumber, SenderNumberType, SenderNumberStatus}
use noti.Quota.{ensure_user, used_in, get_kst_month_window, assert_can_reserve_usage, reserve_each}
use noti.Requests.{resolve_manual_recipient_phones, distinct_phones}
use noti.Requests.Rows.{Row}
use noti.Requests.Accept.{normalize_scheduled_at}
use noti.Requests.Create.{RequestDb}
use noti.Requests.Samples.{no_date, no_text, nothing_inherited, no_requests}
use noti.Requests.Manual.{CreateManualSmsRequestDto, ManualError, check_manual_sms}
use noti.Requests.Manual.Rows.{create_manual_sms_requests}
use noti.Requests.Manual.Stored.{create_manual_sms_requests-used}

abbrev sender : SenderNumber
sender = record {
  id = units "n";
  owner_user_id = units "u";
  phone_number = units "021234567";
  type = SenderNumberType.company;
  status = SenderNumberStatus.approved;
  telecom_certificate_path = none;
  consent_document_path = none;
  personal_info_consent_path = none;
  id_card_copy_path = none;
  third_party_business_registration_path = none;
  relationship_proof_path = none;
  additional_document_path = none;
  review_memo = none;
  reviewed_by = none;
  approved_at = none;
  synced_at = none;
}

abbrev dto : CreateManualSmsRequestDto
dto = record {
  sender_number_id = units "n";
  recipient_phone = none;
  recipient_phones = some (units "010-1" ∷ units " 0101 " ∷ units "010-2" ∷ []);
  body = units " hi ";
  mms_title = none;
  template_attachment_file_ids = some (7 ∷ 7 ∷ 0 ∷ []);
  is_advertisement = false;
  advertising_service_name = none;
  scheduled_at = none;
}

abbrev kst : ℕ → ℕ × ℕ
kst t = (2000, 1)

abbrev start_of : ℕ → ℕ → ℕ
start_of year month = month * 10

-- an upload that takes a file with an id
abbrev upload : ℕ → Option ℕ
upload id = some id

abbrev before : RequestDb
before = record {
  requests = no_requests;
  ledger = record {
    users = record { id = units "u"; monthly_sms_limit = some 2 } ∷ [];
    ledger = [];
  };
}

abbrev shown : ℕ → Text
shown n = n ∷ []

abbrev new_id : ℕ → Text
new_id i = units "m" ++ shown i

abbrev created : Outcome ManualError (RequestDb × List Row)
created =
    create_manual_sms_requests no_date no_text nothing_inherited 0 upload kst start_of shown
      (units "u") dto (sender ∷ []) none (7 ∷ 8 ∷ []) (9 ∷ []) (units "b") new_id before

abbrev result_of : Outcome ManualError (RequestDb × List Row) → RequestDb × List Row
result_of (ok r) = r
result_of (err e) = (before, [])

abbrev after : RequestDb
after = (result_of created).0

abbrev rows : List Row
rows = (result_of created).1

is_created : created ≡ ok (after, rows)
unfolding create_manual_sms_requests check_manual_sms bytes resolve_manual_recipient_phones
    distinct_phones trim digits_only text_eq normalize_sms_text get_domestic_sms_byte_length
    format_sms_body classify_domestic_sms_body assert_can_reserve_usage used_in reserve_each
is_created = refl

create_manual_sms_requests-used_example :
    (used_in (units "u") (0, 10) after.ledger.ledger ≡ 0 + length rows)
    × (used_in (units "u") (0, 10) after.ledger.ledger ≤ 2)
unfolding ensure_user used_in get_kst_month_window normalize_scheduled_at
create_manual_sms_requests-used_example =
    create_manual_sms_requests-used no_date no_text nothing_inherited 0 upload kst start_of shown
      (units "u") dto (sender ∷ []) none (7 ∷ 8 ∷ []) (9 ∷ []) (units "b") new_id before after rows
      none (units "u") 2 refl refl (omega arith) (omega arith) is_created
