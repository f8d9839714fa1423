-- ===== src/Bulk/Tests.antt =====
-- A campaign for three users, of whom one has no phone and two share one.
use noti.Common.{
  ℕ, ◌≡◌, ◌≤◌, ◌<◌, refl, true, false, List, [], ◌∷◌, Option, none, some, ok, ◌*◌, Bool, arith,
}
use noti.Text.{Text, units, text_eq}
use noti.Json.{Json}
use noti.Senders.{SenderNumber, company, SenderNumberStatus}
use noti.Quota.{
  assert_can_reserve_usage, reserve_usage, Db, bulk_sms_campaign, ensure_user, used_in,
  get_kst_month_window,
}
use noti.Worker.Bulk.{SendResult, bulk_sms, process_bulk_campaign, submitted}
use noti.Bulk.Users.{
  ManagedUser, parameters_of, resolve_managed_user_field_value, column_of, stringify_column,
  stringify_template_value,
}
use noti.Bulk.Body.{chosen_body, opt_out_of}
use noti.Sms.{normalize_sms_text}
use noti.Bulk.Rows.{CreateBulkSmsCampaignDto, Stored, Drafts, CampaignDraft}
use noti.Bulk.Draft.{campaign_draft, prepare_campaign_draft}
use noti.Bulk.Direct.{BulkSendItem, submit_campaign, items_of, submit_campaign-submitted}
use noti.Bulk.Posting.{load_campaign, prepare_campaign_draft-within, prepare_campaign_draft-posted}

abbrev no_date : Text → Option ℕ
no_date t = none

abbrev parts : ℕ → ℕ × ℕ
parts t = (2000, 1)

abbrev start_of : ℕ → ℕ → ℕ
start_of year month = month * 10

abbrev written : Json → Text
written v = units "{}"

abbrev inherits : Text → Bool
inherits k = false

abbrev user_of : Text → Text → Option Text → ManagedUser
user_of id name phone = record {
  id = id;
  owner_user_id = units "u";
  name = name;
  phone = phone;
  columns = [];
  custom_attributes = Json.null;
}

abbrev sender : SenderNumber
sender = record {
  id = units "s1";
  owner_user_id = units "u";
  phone_number = units "02123";
  type = company;
  status = SenderNumberStatus.approved;
  telecom_certificate_path = some (units "t.pdf");
  consent_document_path = some (units "c.pdf");
  personal_info_consent_path = none;
  id_card_copy_path = none;
  third_party_business_registration_path = some (units "b.pdf");
  relationship_proof_path = some (units "r.pdf");
  additional_document_path = none;
  review_memo = none;
  reviewed_by = none;
  approved_at = none;
  synced_at = none;
}

abbrev found : Stored
found = record {
  senders = sender ∷ [];
  template = none;
  users =
      user_of (units "1") (units "Kim") (some (units "010-1"))
      ∷ user_of (units "2") (units "Lee") none
      ∷ user_of (units "3") (units "Park") (some (units "+82 0101"))
      ∷ user_of (units "4") (units "Choi") (some (units "0101"))
      ∷ [];
  custom_fields = [];
  service = none;
  ledger = record {
    users = record { id = units "u"; monthly_sms_limit = some 3 } ∷ [];
    ledger = [];
  };
}

abbrev request : CreateBulkSmsCampaignDto
request = record {
  title = none;
  sender_number_id = units "s1";
  template_id = none;
  body = some (units "#{a}");
  is_advertisement = false;
  advertising_service_name = none;
  user_ids = units "1" ∷ units " 2" ∷ units "4" ∷ units "1" ∷ [];
  template_variable_mappings = (units "a", units "name") ∷ [];
  scheduled_at = none;
}

abbrev drafts : Drafts
drafts = record {
  recipient_drafts =
      record {
        managed_user_id = units "1";
        recipient_phone = units "0101";
        recipient_name = units "Kim";
        recipient_grouping_key = units "managed-user:1";
        template_parameters = some ((units "a", units "Kim") ∷ []);
      }
      ∷ [];
  skipped_no_phone_count = 1;
  duplicate_phone_count = 1;
}

abbrev prepared : CampaignDraft
prepared =
    campaign_draft (units "u") (units "t") (units "c") (λ n. units "r") none sender (units "#{a}")
      drafts

abbrev reserved : Db
reserved = record found.ledger {
  ledger =
      record {
        owner_user_id = units "u";
        sender_number_id = some (units "s1");
        quantity = 1;
        usage_at = 1;
        subject = bulk_sms_campaign (units "c");
      }
      ∷ [];
}

is_prepared :
    prepare_campaign_draft no_date parts start_of written inherits 1
      (units "u")
      request
      (units "t")
      (units "c")
      (λ n. units "r")
      found
    ≡ ok (prepared, reserved)
unfolding prepare_campaign_draft chosen_body opt_out_of normalize_sms_text parameters_of
    resolve_managed_user_field_value column_of stringify_column stringify_template_value
    assert_can_reserve_usage used_in reserve_usage
is_prepared = refl

same_month : (t : ℕ) → 0 ≤ t → t < 10 → get_kst_month_window parts start_of t ≡ (0, 10)
unfolding get_kst_month_window
same_month t from to = refl

prepare_campaign_draft-within_example :
    (used_in (units "u") (0, 10) reserved.ledger ≤ 3)
    × (ensure_user reserved (units "u") ≡ ok (units "u", 3))
unfolding ensure_user used_in
prepare_campaign_draft-within_example =
    prepare_campaign_draft-within no_date parts start_of written inherits 1 (units "u") request
      (units "t") (units "c") (λ n. units "r") found prepared reserved (units "u") (0, 10)
      (units "u") 3 refl (omega arith) same_month is_prepared

abbrev answer : SendResult
answer = record { request_id = units "q"; send_result_list = [] }

prepare_campaign_draft-posted_example :
    process_bulk_campaign bulk_sms
      (ok answer)
      (load_campaign prepared.campaign prepared.sender_number)
    ≡ (submitted answer (load_campaign prepared.campaign prepared.sender_number), ok tt, true)
unfolding text_eq
prepare_campaign_draft-posted_example =
    prepare_campaign_draft-posted no_date parts start_of written inherits 1 (units "u") request
      (units "t") (units "c") (λ n. units "r") found prepared reserved answer refl is_prepared

abbrev items : List BulkSendItem
items =
    record {
      item = record {
        recipient_seq = some (units "7");
        result_code = some (units "-1");
        recipient_grouping_key = some (units "managed-user:1");
      };
      recipient_no = some (units "0101");
    }
    ∷ []

submit_campaign-submitted_example :
    load_campaign (submit_campaign prepared (units "q") items) prepared.sender_number
    ≡ submitted
        (record { request_id = units "q"; send_result_list = items_of items })
        (load_campaign prepared.campaign prepared.sender_number)
submit_campaign-submitted_example = submit_campaign-submitted prepared (units "q") items refl
