-- ===== src/Kakao/Brand.antt =====
-- `prepareCampaignDraft` of apps/api/src/bulk-brand-message/bulk-brand-message.service.ts: a bulk
-- brand message is written freely or after a template.
pub mod Content
pub mod Filling
pub mod Prepared
pub mod Names
pub mod Limits
pub mod Posting
use noti.Common.{
  ℕ, Bool, true, false, not, ◌&&◌, ◌||◌, List, [], ◌∷◌, ◌++◌, Option, none, some, if◌then◌else◌,
  is_empty, length, Outcome, ok, err, ◌>>=◌, ◌>>◌, require,
}
use noti.Text.{Text, units, trim}
use noti.Json.{Json}
use noti.Sms.{or_empty, or_text}
use noti.Worker.Bulk.{CampaignStatus, Recipient}
use noti.Bulk.Users.{ManagedUser, DraftError, no_phone, bad_image_link, filled}
use noti.Bulk.Body.{set_mappings, check_mappings}
use noti.Bulk.Rows.{
  Drafts, RecipientDraft, normalize_user_ids, find_users, user_by_id, user_system_fields,
  recipient_rows,
}
use noti.Bulk.Loop.{draft_recipients}
use noti.Kakao.{SenderProfile, normalize_scheduled_at, check_selection, template_parameters_for}
use noti.Kakao.Brand.Content.{
  CreateBulkBrandMessageCampaignDto, Mode, freestyle, template, MessageType, Button, mode_of,
  message_type_of, normalize_buttons, image_link_of, image_url_of, is_web_link, BrandContent,
  template_content, check_freestyle, freestyle_content,
}

-- What the database has.
pub record BrandStored : Type 0 where
  pub profiles : List SenderProfile
  pub users : List ManagedUser
  pub custom_fields : List Text

-- The rows of a campaign and its recipients.
pub record BulkBrandMessageCampaign : Type 0 where
  pub id : Text
  pub owner_user_id : Text
  pub title : Text
  pub scheduled_at : Option ℕ
  pub status : CampaignStatus
  pub sender_profile_id : Text
  pub mode : Mode
  pub message_type : MessageType
  pub template_name : Option Text
  pub template_code : Option Text
  pub body : Text
  pub push_alarm : Bool
  pub adult : Bool
  pub stats_event_key : Option Text
  pub reseller_code : Option Text
  pub image_url : Option Text
  pub image_link : Option Text
  pub buttons : List Button
  pub total_recipient_count : ℕ
  pub skipped_no_phone_count : ℕ
  pub duplicate_phone_count : ℕ
  pub nhn_request_id : Option Text
  pub recipients : List Recipient

pub record BrandDraft : Type 0 where
  pub campaign : BulkBrandMessageCampaign
  pub sender_profile : SenderProfile
  pub recipient_drafts : List RecipientDraft

-- `value !== false`
abbrev not_false : Option Bool → Bool
not_false none = true
not_false (some b) = b

-- `Boolean(value)`
abbrev is_set : Option Bool → Bool
is_set none = false
is_set (some b) = b

-- The rows that are written, with what the callers take of the preparation.
abbrev pub brand_draft :
    (owner title campaign_id : Text) (recipient_id : ℕ → Text) (scheduled_at : Option ℕ)
    → SenderProfile
    → CreateBulkBrandMessageCampaignDto
    → BrandContent
    → List RecipientDraft
    → Drafts
    → BrandDraft
brand_draft owner title campaign_id recipient_id scheduled_at profile dto c recipients drafts =
    record {
      campaign = record {
        id = campaign_id;
        owner_user_id = owner;
        title = title;
        scheduled_at = scheduled_at;
        status = CampaignStatus.processing;
        sender_profile_id = profile.id;
        mode = mode_of dto;
        message_type = message_type_of dto;
        template_name = c.template_name;
        template_code = c.template_code;
        body = c.body;
        push_alarm = not_false dto.push_alarm;
        adult = is_set dto.adult;
        stats_event_key = filled (trim (or_empty dto.stats_event_key));
        reseller_code = filled (trim (or_empty dto.reseller_code));
        image_url = image_url_of dto;
        image_link = image_link_of dto;
        buttons = normalize_buttons dto.buttons;
        total_recipient_count = length recipients;
        skipped_no_phone_count = drafts.skipped_no_phone_count;
        duplicate_phone_count = drafts.duplicate_phone_count;
        nhn_request_id = none;
        recipients = recipient_rows recipient_id 0 recipients;
      };
      sender_profile = profile;
      recipient_drafts = recipients;
    }

abbrev pub no_parameters : ManagedUser → Outcome DraftError (Option (List (Text × Text)))
no_parameters u = ok none

-- The recipients, before they have parameters.
unfoldable pub draft_brand_recipients :
    Text → CreateBulkBrandMessageCampaignDto → BrandStored → Outcome DraftError Drafts
unfolding draft_recipients normalize_user_ids find_users
draft_brand_recipients owner dto s = do
  let ids = normalize_user_ids dto.user_ids
  drafts ← draft_recipients no_parameters (find_users owner ids s.users) [] ids
  require (not (is_empty drafts.recipient_drafts)) no_phone
  ok drafts

module _ (stringify : Json → Text) (is_inherited : Text → Bool) where
  -- The recipients of a template, each with the parameters of its user.
  unfoldable pub fill_recipients :
      List ManagedUser
      → List Text
      → List (Text × Text)
      → List RecipientDraft
      → Outcome DraftError (List RecipientDraft)
  unfolding user_by_id template_parameters_for
  fill_recipients users required mappings [] = ok []
  fill_recipients users required mappings (r ∷ rs) =
      let rest = fill_recipients users required mappings rs in
      elim (user_by_id r.managed_user_id users) [
        | none ↦ do done ← rest; ok (r ∷ done)
        | some u ↦ do
          p ← template_parameters_for stringify is_inherited required mappings u
          done ← rest
          ok (record r { template_parameters = p } ∷ done)
      ]

  -- The content of the campaign, and its recipients.
  unfoldable pub fill_content :
      Text
      → CreateBulkBrandMessageCampaignDto
      → BrandStored
      → List RecipientDraft
      → Outcome DraftError (BrandContent × List RecipientDraft)
  unfolding template_content check_freestyle set_mappings check_mappings fill_recipients find_users
      normalize_user_ids
  fill_content owner dto s recipients = elim (mode_of dto) [
    | template ↦ do
      c ← template_content dto
      let mappings = set_mappings dto.template_variable_mappings []
      checked ← check_mappings c.required_variables (user_system_fields ++ s.custom_fields) mappings
      done ←
          fill_recipients (find_users owner (normalize_user_ids dto.user_ids) s.users)
            c.required_variables mappings recipients
      ok (c, done)
    | freestyle ↦ do checked ← check_freestyle dto; ok (freestyle_content dto, recipients)
  ]

  -- `title` is the one that the service makes of the time; `campaign_id` and `recipient_id` are new.
  unfoldable pub prepare_brand_draft :
      (parse_date : Text → Option ℕ) (now : ℕ) (owner : Text)
      → CreateBulkBrandMessageCampaignDto
      → (title campaign_id : Text) → (recipient_id : ℕ → Text) → BrandStored
      → Outcome DraftError BrandDraft
  unfolding normalize_scheduled_at check_selection is_web_link draft_brand_recipients fill_content
      recipient_rows trim
  prepare_brand_draft parse_date now owner dto title campaign_id recipient_id s = do
    scheduled_at ← normalize_scheduled_at parse_date now dto.scheduled_at
    profile ← check_selection owner dto.sender_profile_id dto.user_ids s.profiles s.users
    require (is_web_link (image_link_of dto)) bad_image_link
    drafts ← draft_brand_recipients owner dto s
    (c, recipients) ← fill_content owner dto s drafts.recipient_drafts
    ok (
        brand_draft owner (or_text (trim (or_empty dto.title)) title) campaign_id recipient_id
          scheduled_at profile dto c recipients drafts)
