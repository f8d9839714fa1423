-- ===== src/Bulk/Draft.antt =====
-- `prepareCampaignDraft` and `createCampaign`: the checks of the request, the recipients, and the
-- campaign that one transaction writes with its entry of the SMS ledger.
use noti.Common.{
  ℕ, Bool, not, List, [], ◌∷◌, ◌++◌, Option, none, some, if◌then◌else◌, is_empty, find?, length,
  leb, ◌==◌, Outcome, ok, err, ◌>>=◌, ◌>>◌, require,
}
use noti.Text.{Text, trim}
use noti.Json.{Json}
use noti.Sms.{or_empty, or_text}
use noti.Senders.{SenderNumber}
use noti.Template.{extract_required_variables}
use noti.Quota.{Db, reserve_campaign}
use noti.Worker.Bulk.{CampaignStatus}
use noti.Bulk.Users.{
  ManagedUser, DraftError, schedule_not_a_date, schedule_not_in_future, no_user_selected,
  too_many_users, no_sender, some_user_not_found, no_phone, quota,
  build_recipient_template_parameters,
}
use noti.Bulk.Body.{body_of, set_mappings, check_mappings}
use noti.Bulk.Loop.{draft_recipients}
use noti.Bulk.Rows.{
  CreateBulkSmsCampaignDto, Stored, Drafts, BulkSmsCampaign, CampaignDraft, normalize_user_ids,
  find_users, user_system_fields, recipient_rows, is_sender_of,
}

-- The rows that the transaction creates, with what the callers take of the preparation.
abbrev pub campaign_draft :
    (owner title campaign_id : Text) (recipient_id : ℕ → Text) (scheduled_at : Option ℕ)
    (sender : SenderNumber) (body : Text)
    → Drafts
    → CampaignDraft
campaign_draft owner title campaign_id recipient_id scheduled_at sender body drafts = record {
  campaign = record {
    id = campaign_id;
    owner_user_id = owner;
    title = title;
    scheduled_at = scheduled_at;
    status = CampaignStatus.processing;
    sender_number_id = sender.id;
    body = body;
    total_recipient_count = length drafts.recipient_drafts;
    skipped_no_phone_count = drafts.skipped_no_phone_count;
    duplicate_phone_count = drafts.duplicate_phone_count;
    nhn_request_id = none;
    recipients = recipient_rows recipient_id 0 drafts.recipient_drafts;
  };
  sender_number = sender;
  recipient_drafts = drafts.recipient_drafts;
  required_variables = extract_required_variables body;
}

-- `parse_date` is `new Date(value).getTime()`, where it is a number; the calendar is the quota's.
module _ (parse_date : Text → Option ℕ) (kst_parts : ℕ → ℕ × ℕ) (utc : ℕ → ℕ → ℕ)
    (stringify : Json → Text) (is_inherited : Text → Bool) (now : ℕ) where
  unfoldable pub normalize_scheduled_at : Option Text → Outcome DraftError (Option ℕ)
  normalize_scheduled_at none = ok none
  normalize_scheduled_at (some value) =
      if is_empty value then ok none else elim (parse_date value) [
        | none ↦ err schedule_not_a_date
        | some t ↦ if leb t now then err schedule_not_in_future else ok (some t)
      ]

  -- The parameters of a recipient, where the body has variables.
  unfoldable pub parameters_for :
      List Text
      → List (Text × Text)
      → ManagedUser
      → Outcome DraftError (Option (List (Text × Text)))
  unfolding build_recipient_template_parameters
  parameters_for [] mappings u = ok none
  parameters_for (v ∷ required) mappings u =
      build_recipient_template_parameters stringify is_inherited u (v ∷ required) mappings

  -- The checks of the request, in their order, and the recipients.
  unfoldable pub check_users :
      Text → CreateBulkSmsCampaignDto → Stored → Outcome DraftError SenderNumber
  unfolding normalize_user_ids find_users
  check_users owner dto s = do
    let ids = normalize_user_ids dto.user_ids
    require (not (is_empty ids)) no_user_selected
    require (leb (length ids) 1000) too_many_users
    elim (find? (is_sender_of owner dto.sender_number_id) s.senders) [
      | none ↦ err no_sender
      | some sender ↦ do
        require (length ids == length (find_users owner ids s.users)) some_user_not_found
        ok sender
    ]

  unfoldable pub draft_all :
      Text → CreateBulkSmsCampaignDto → Stored → (body : Text) → Outcome DraftError Drafts
  unfolding extract_required_variables set_mappings check_mappings draft_recipients parameters_for
  draft_all owner dto s body = do
    let ids = normalize_user_ids dto.user_ids
    let required = extract_required_variables body
    let mappings = set_mappings dto.template_variable_mappings []
    checked ← check_mappings required (user_system_fields ++ s.custom_fields) mappings
    drafts ←
        draft_recipients (parameters_for required mappings) (find_users owner ids s.users) [] ids
    require (not (is_empty drafts.recipient_drafts)) no_phone
    ok drafts

  -- The transaction: the rows of the campaign, and what the ledger reserves for them.
  unfoldable pub write_campaign : (owner : Text) → BulkSmsCampaign → Db → Outcome DraftError Db
  unfolding reserve_campaign
  write_campaign owner c db =
      elim (reserve_campaign kst_parts utc db owner (some c.sender_number_id)
        (elim c.scheduled_at [ none ↦ now | some t ↦ t ]) c.total_recipient_count c.id) [
          | err e ↦ err (quota e)
          | ok db' ↦ ok db'
        ]

  -- `title` is the one that the service makes of the time; `campaign_id` and `recipient_id` are new.
  unfoldable pub prepare_campaign_draft :
      Text
      → CreateBulkSmsCampaignDto
      → (title campaign_id : Text) → (recipient_id : ℕ → Text) → Stored
      → Outcome DraftError (CampaignDraft × Db)
  unfolding body_of draft_all write_campaign recipient_rows normalize_scheduled_at check_users
  prepare_campaign_draft owner dto title campaign_id recipient_id s = do
    scheduled_at ← normalize_scheduled_at dto.scheduled_at
    sender ← check_users owner dto s
    body ←
        body_of dto.template_id s.template dto.body dto.is_advertisement
          dto.advertising_service_name s.service
    drafts ← draft_all owner dto s body
    let c =
        campaign_draft owner (or_text (trim (or_empty dto.title)) title) campaign_id recipient_id
          scheduled_at sender body drafts
    db ← write_campaign owner c.campaign s.ledger
    ok (c, db)
