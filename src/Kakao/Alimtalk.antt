-- ===== src/Kakao/Alimtalk.antt =====
-- `prepareCampaignDraft` of apps/api/src/bulk-alimtalk/bulk-alimtalk.service.ts: the template of a
-- bulk AlimTalk campaign, its recipients, and the rows that are written. There is no quota.
pub mod Prepared
pub mod Posting
use noti.Common.{
  ℕ, Bool, true, false, not, ◌&&◌, List, [], ◌∷◌, ◌++◌, Option, none, some, if◌then◌else◌, is_empty,
  find?, length, keep, map, Outcome, ok, err, ◌>>=◌, ◌>>◌, require,
}
use noti.Text.{Text, units, text_eq, trim}
use noti.Json.{Json}
use noti.Sms.{or_empty, or_text}
use noti.Template.{extract_required_variables, sort_set}
use noti.Requests.{ProviderTemplateStatus, apr}
use noti.Worker.Bulk.{CampaignStatus, Recipient}
use noti.Bulk.Users.{
  ManagedUser, DraftError, template_not_approved, no_template, no_template_code, no_body, no_phone,
  filled,
}
use noti.Bulk.Body.{set_mappings, check_mappings}
use noti.Bulk.Rows.{
  Drafts, RecipientDraft, normalize_user_ids, find_users, user_system_fields, recipient_rows,
}
use noti.Bulk.Loop.{draft_recipients}
use noti.Kakao.{SenderProfile, normalize_scheduled_at, check_selection, template_parameters_for}

pub record CreateBulkAlimtalkCampaignDto : Type 0 where
  pub title : Option Text
  pub sender_profile_id : Text
  pub provider_template_id : Option Text
  pub template_source : Option Text
  pub template_code : Option Text
  pub template_name : Option Text
  pub template_body : Option Text
  pub required_variables : List Text
  pub user_ids : List Text
  pub template_variable_mappings : List (Text × Text)
  pub scheduled_at : Option Text

-- A provider template with its template; the stored variables are a list of texts or null, as the
-- code reads the column.
pub record ProviderTemplate : Type 0 where
  pub id : Text
  pub owner_user_id : Text
  pub is_alimtalk : Bool
  pub provider_status : ProviderTemplateStatus
  pub template_code : Option Text
  pub kakao_template_code : Option Text
  pub nhn_template_id : Option Text
  pub template_name : Text
  pub template_body : Text
  pub required_variables : Option (List Text)

-- What the database has.
pub record AlimtalkStored : Type 0 where
  pub profiles : List SenderProfile
  pub templates : List ProviderTemplate
  pub users : List ManagedUser
  pub custom_fields : List Text

pub data TemplateSource : Type 0 where
  local group : TemplateSource

-- The template that is sent.
pub record ResolvedTemplate : Type 0 where
  pub source : TemplateSource
  pub provider_template_id : Option Text
  pub name : Text
  pub code : Text
  pub body : Text
  pub required_variables : List Text

-- The rows of a campaign and its recipients.
pub record BulkAlimtalkCampaign : Type 0 where
  pub id : Text
  pub owner_user_id : Text
  pub title : Text
  pub scheduled_at : Option ℕ
  pub status : CampaignStatus
  pub sender_profile_id : Text
  pub provider_template_id : Option Text
  pub template_source : TemplateSource
  pub template_name : Text
  pub template_code : Option Text
  pub body : Text
  pub total_recipient_count : ℕ
  pub skipped_no_phone_count : ℕ
  pub duplicate_phone_count : ℕ
  pub nhn_request_id : Option Text
  pub recipients : List Recipient

pub record AlimtalkDraft : Type 0 where
  pub campaign : BulkAlimtalkCampaign
  pub sender_profile : SenderProfile
  pub recipient_drafts : List RecipientDraft
  pub template_code : Text

-- `normalizeRequiredVariableList`
unfoldable pub normalize_required_variable_list : List Text → List Text
unfolding trim sort_set
normalize_required_variable_list vs = sort_set (keep (λ v. not (is_empty v)) (map trim vs))

-- `a || b || c || ''`
abbrev pub code_of : ProviderTemplate → Text
code_of t =
    or_text (or_empty t.template_code)
      (or_text (or_empty t.kakao_template_code) (or_empty t.nhn_template_id))

-- the stored variables that are not empty; only where the column is null, those of the body
abbrev pub variables_or : Option (List Text) → Text → List Text
variables_or none body = extract_required_variables body
variables_or (some vs) body = keep (λ v. not (is_empty v)) vs

unfoldable pub local_template : ProviderTemplate → ResolvedTemplate
unfolding extract_required_variables trim
local_template t = record {
  source = local;
  provider_template_id = some t.id;
  name = t.template_name;
  code = code_of t;
  body = trim t.template_body;
  required_variables = variables_or t.required_variables (trim t.template_body);
}

unfoldable pub group_template : CreateBulkAlimtalkCampaignDto → ResolvedTemplate
unfolding extract_required_variables trim normalize_required_variable_list
group_template dto =
    let body = trim (or_empty dto.template_body) in
    let payload = normalize_required_variable_list dto.required_variables in
    record {
      source = group;
      provider_template_id = none;
      name =
          or_text (trim (or_empty dto.template_name))
            (or_text (trim (or_empty dto.template_code)) (units "그룹 템플릿"));
      code = trim (or_empty dto.template_code);
      body = body;
      required_variables = if is_empty payload then extract_required_variables body else payload;
    }

abbrev pub is_apr : ProviderTemplateStatus → Bool
is_apr apr = true
is_apr _ = false

abbrev pub is_template_of : Text → Text → ProviderTemplate → Bool
is_template_of owner id t = text_eq t.id id && text_eq t.owner_user_id owner && t.is_alimtalk

-- the provider template that is asked for and found
unfoldable pub asked_template :
    Text → CreateBulkAlimtalkCampaignDto → List ProviderTemplate → Option ProviderTemplate
unfolding text_eq
asked_template owner dto templates = elim (filled (or_empty dto.provider_template_id)) [
  | none ↦ none
  | some id ↦ find? (is_template_of owner id) templates
]

abbrev pub is_group : Option Text → Bool
is_group source = text_eq (or_empty source) (units "GROUP")

-- an approved template, or what the request says of a group's
unfoldable pub choose_alimtalk_template :
    CreateBulkAlimtalkCampaignDto → Option ProviderTemplate → Outcome DraftError ResolvedTemplate
unfolding text_eq
choose_alimtalk_template dto (some t) =
    if is_apr t.provider_status then ok (local_template t) else err template_not_approved
choose_alimtalk_template dto none =
    if is_group dto.template_source then ok (group_template dto) else err no_template

-- The template, with a code and a body.
unfoldable pub resolve_template :
    CreateBulkAlimtalkCampaignDto → Option ProviderTemplate → Outcome DraftError ResolvedTemplate
resolve_template dto found = do
  t ← choose_alimtalk_template dto found
  require (not (is_empty t.code)) no_template_code
  require (not (is_empty t.body)) no_body
  ok t

-- The rows that are written, with what the callers take of the preparation.
abbrev pub alimtalk_draft :
    (owner title campaign_id : Text) (recipient_id : ℕ → Text) (scheduled_at : Option ℕ)
    → SenderProfile
    → ResolvedTemplate
    → Drafts
    → AlimtalkDraft
alimtalk_draft owner title campaign_id recipient_id scheduled_at profile t drafts = record {
  campaign = record {
    id = campaign_id;
    owner_user_id = owner;
    title = title;
    scheduled_at = scheduled_at;
    status = CampaignStatus.processing;
    sender_profile_id = profile.id;
    provider_template_id = t.provider_template_id;
    template_source = t.source;
    template_name = t.name;
    template_code = some t.code;
    body = t.body;
    total_recipient_count = length drafts.recipient_drafts;
    skipped_no_phone_count = drafts.skipped_no_phone_count;
    duplicate_phone_count = drafts.duplicate_phone_count;
    nhn_request_id = none;
    recipients = recipient_rows recipient_id 0 drafts.recipient_drafts;
  };
  sender_profile = profile;
  recipient_drafts = drafts.recipient_drafts;
  template_code = t.code;
}

module _ (parse_date : Text → Option ℕ) (stringify : Json → Text) (is_inherited : Text → Bool)
    (now : ℕ) where
  -- The mapping of the variables, and the recipients.
  unfoldable pub draft_alimtalk_recipients :
      Text → CreateBulkAlimtalkCampaignDto → AlimtalkStored → List Text → Outcome DraftError Drafts
  unfolding set_mappings check_mappings draft_recipients template_parameters_for normalize_user_ids
      find_users
  draft_alimtalk_recipients owner dto s required = do
    let ids = normalize_user_ids dto.user_ids
    let mappings = set_mappings dto.template_variable_mappings []
    checked ← check_mappings required (user_system_fields ++ s.custom_fields) mappings
    drafts ←
        draft_recipients (template_parameters_for stringify is_inherited required mappings)
          (find_users owner ids s.users) [] ids
    require (not (is_empty drafts.recipient_drafts)) no_phone
    ok drafts

  -- `title` is the one that the service makes of the time; `campaign_id` and `recipient_id` are new.
  unfoldable pub prepare_alimtalk_draft :
      Text
      → CreateBulkAlimtalkCampaignDto
      → (title campaign_id : Text) → (recipient_id : ℕ → Text) → AlimtalkStored
      → Outcome DraftError AlimtalkDraft
  unfolding normalize_scheduled_at check_selection asked_template resolve_template
      draft_alimtalk_recipients recipient_rows
  prepare_alimtalk_draft owner dto title campaign_id recipient_id s = do
    scheduled_at ← normalize_scheduled_at parse_date now dto.scheduled_at
    profile ← check_selection owner dto.sender_profile_id dto.user_ids s.profiles s.users
    t ← resolve_template dto (asked_template owner dto s.templates)
    drafts ← draft_alimtalk_recipients owner dto s t.required_variables
    ok (
        alimtalk_draft owner (or_text (trim (or_empty dto.title)) title) campaign_id recipient_id
          scheduled_at profile t drafts)
