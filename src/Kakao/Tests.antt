-- ===== src/Kakao/Tests.antt =====
-- A bulk AlimTalk campaign and a bulk brand message for three users, of whom one has no phone and two share one.
use noti.Common.{ℕ, ◌≡◌, refl, Bool, true, false, [], ◌∷◌, Option, none, some, ok}
use noti.Text.{Text, units, text_eq}
use noti.Json.{Json}
use noti.Requests.{ProviderTemplateStatus, SenderProfileStatus}
use noti.Worker.Bulk.{SendResult, bulk_alimtalk, process_bulk_campaign, submitted}
use noti.Bulk.Users.{
  ManagedUser, parameters_of, resolve_managed_user_field_value, column_of, stringify_column,
  stringify_template_value,
}
use noti.Bulk.Rows.{Drafts}
use noti.Kakao.{SenderProfile}
use noti.Kakao.Alimtalk.{
  CreateBulkAlimtalkCampaignDto, ProviderTemplate, AlimtalkStored, AlimtalkDraft, local_template,
  choose_alimtalk_template, alimtalk_draft, prepare_alimtalk_draft,
}
use noti.Kakao.Alimtalk.Posting.{load_alimtalk_campaign, IsComplete, prepare_alimtalk_draft-posted}
use noti.Kakao.Brand.{BrandStored, BrandDraft, brand_draft, fill_content}
use noti.Kakao.Brand.Content.{
  CreateBulkBrandMessageCampaignDto, BrandContent, template, wide, freestyle_content,
}
use noti.Kakao.Brand.Posting.{IsComplete as IsBrandComplete}

abbrev no_date : Text → Option ℕ
no_date t = none

abbrev written : Json → Text
written v = units "{}"

abbrev inherits : Text → Bool
inherits k = false

abbrev user_of : Text → Text → Option Text → ManagedUser
user_of id name phone = record {
  id = id;
  owner_user_id = units "u";
  name = name;
  phone = phone;
  columns = [];
  custom_attributes = Json.null;
}

abbrev profile : SenderProfile
profile = record {
  id = units "p1";
  owner_user_id = units "u";
  sender_key = units "key";
  status = SenderProfileStatus.active;
}

abbrev approved : ProviderTemplate
approved = record {
  id = units "t1";
  owner_user_id = units "u";
  is_alimtalk = true;
  provider_status = ProviderTemplateStatus.apr;
  template_code = some [];
  kakao_template_code = some (units "K1");
  nhn_template_id = none;
  template_name = units "Welcome";
  template_body = units "Hi #{a} ";
  required_variables = none;
}

abbrev stored : AlimtalkStored
stored = record {
  profiles = profile ∷ [];
  templates = approved ∷ [];
  users =
      user_of (units "1") (units "Kim") (some (units "010-1"))
      ∷ user_of (units "2") (units "Lee") none
      ∷ user_of (units "4") (units "Choi") (some (units "0101"))
      ∷ [];
  custom_fields = [];
}

abbrev request : CreateBulkAlimtalkCampaignDto
request = record {
  title = none;
  sender_profile_id = units "p1";
  provider_template_id = some (units "t1");
  template_source = none;
  template_code = none;
  template_name = none;
  template_body = none;
  required_variables = [];
  user_ids = units "1" ∷ units " 2" ∷ units "4" ∷ units "1" ∷ [];
  template_variable_mappings = (units "a", units "name") ∷ [];
  scheduled_at = none;
}

abbrev drafts : Drafts
drafts = record {
  recipient_drafts =
      record {
        managed_user_id = units "1";
        recipient_phone = units "0101";
        recipient_name = units "Kim";
        recipient_grouping_key = units "managed-user:1";
        template_parameters = some ((units "a", units "Kim") ∷ []);
      }
      ∷ [];
  skipped_no_phone_count = 1;
  duplicate_phone_count = 1;
}

abbrev prepared : AlimtalkDraft
prepared =
    alimtalk_draft (units "u") (units "t") (units "c") (λ n. units "r") none profile
      (local_template approved) drafts

abbrev answer : SendResult
answer = record { request_id = units "q"; send_result_list = [] }

is_prepared :
    prepare_alimtalk_draft no_date written inherits 0
      (units "u")
      request
      (units "t")
      (units "c")
      (λ n. units "r")
      stored
    ≡ ok prepared
unfolding prepare_alimtalk_draft parameters_of resolve_managed_user_field_value column_of
    stringify_column stringify_template_value choose_alimtalk_template local_template
is_prepared = refl

prepare_alimtalk_draft-posted_example :
    process_bulk_campaign bulk_alimtalk
      (ok answer)
      (load_alimtalk_campaign prepared.campaign prepared.sender_profile)
    ≡ (
      submitted answer (load_alimtalk_campaign prepared.campaign prepared.sender_profile),
      ok tt,
      true,
    )
unfolding text_eq
prepare_alimtalk_draft-posted_example =
    prepare_alimtalk_draft-posted no_date written inherits 0 (units "u") request (units "t")
      (units "c") (λ n. units "r") stored prepared answer refl refl is_prepared

abbrev brand_stored : BrandStored
brand_stored = record { profiles = profile ∷ []; users = stored.users; custom_fields = [] }

abbrev image_request : CreateBulkBrandMessageCampaignDto
image_request = record {
  title = none;
  sender_profile_id = units "p1";
  mode = none;
  message_type = some wide;
  content = some (units " sale ");
  template_code = none;
  template_name = none;
  template_body = none;
  required_variables = [];
  template_variable_mappings = (units "a", units "name") ∷ [];
  push_alarm = none;
  adult = none;
  stats_event_key = none;
  reseller_code = none;
  image = some (record { image_url = some (units "u"); image_link = some (units "HTTPS://x") });
  buttons = [];
  user_ids = request.user_ids;
  scheduled_at = none;
}

abbrev template_request : CreateBulkBrandMessageCampaignDto
template_request = record image_request {
  mode = some template;
  template_code = some (units "B1");
  template_body = some (units "Hi #{ a }");
}

abbrev brand_content : BrandContent
brand_content = record {
  body = units "Hi #{ a }";
  template_name = some (units "B1");
  template_code = some (units "B1");
  required_variables = units "a" ∷ [];
}

abbrev brand_prepared : BrandDraft
brand_prepared =
    brand_draft (units "u") (units "t") (units "c") (λ n. units "r") none profile template_request
      brand_content drafts.recipient_drafts drafts

-- A wide message with an image, written freely, is prepared too.
image_test :
    fill_content written inherits (units "u") image_request brand_stored drafts.recipient_drafts
    ≡ ok (freestyle_content image_request, drafts.recipient_drafts)
unfolding fill_content
image_test = refl
