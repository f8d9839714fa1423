-- ===== src/Bulk/Rows.antt =====
-- The rows of a bulk SMS campaign, and the choice of the users, the sender number and the rows of the
-- recipients in `prepareCampaignDraft`.
use noti.Common.{
  ℕ, suc, Bool, not, ◌&&◌, List, [], ◌∷◌, ◌++◌, Option, none, some, if◌then◌else◌, is_empty, any,
  find?, keep, map,
}
use noti.Text.{Text, units, text_eq, trim}
use noti.Sms080.{Application}
use noti.Senders.{SenderNumber, is_approved}
use noti.Quota.{Db}
use noti.Worker.Bulk.{CampaignStatus, Recipient, parameters, no_object, RecipientStatus}
use noti.Bulk.Users.{ManagedUser}

pub record CreateBulkSmsCampaignDto : Type 0 where
  pub title : Option Text
  pub sender_number_id : Text
  pub template_id : Option Text
  pub body : Option Text
  pub is_advertisement : Bool
  pub advertising_service_name : Option Text
  pub user_ids : List Text
  pub template_variable_mappings : List (Text × Text)
  pub scheduled_at : Option Text

-- What the database and the provider have: the sender numbers, the template that
-- `fetchNhnSmsTemplateForUser` gives, the users, the keys of the owner's own fields, the application
-- for an opt-out number that is found, and the ledger.
pub record Stored : Type 0 where
  pub senders : List SenderNumber
  pub template : Option Text
  pub users : List ManagedUser
  pub custom_fields : List Text
  pub service : Option Application
  pub ledger : Db

pub record RecipientDraft : Type 0 where
  pub managed_user_id : Text
  pub recipient_phone : Text
  pub recipient_name : Text
  pub recipient_grouping_key : Text
  pub template_parameters : Option (List (Text × Text))

pub record Drafts : Type 0 where
  pub recipient_drafts : List RecipientDraft
  pub skipped_no_phone_count : ℕ
  pub duplicate_phone_count : ℕ

-- The rows of a campaign and its recipients.
pub record BulkSmsCampaign : Type 0 where
  pub id : Text
  pub owner_user_id : Text
  pub title : Text
  pub scheduled_at : Option ℕ
  pub status : CampaignStatus
  pub sender_number_id : Text
  pub body : Text
  pub total_recipient_count : ℕ
  pub skipped_no_phone_count : ℕ
  pub duplicate_phone_count : ℕ
  pub nhn_request_id : Option Text
  pub recipients : List Recipient

pub record CampaignDraft : Type 0 where
  pub campaign : BulkSmsCampaign
  pub sender_number : SenderNumber
  pub recipient_drafts : List RecipientDraft
  pub required_variables : List Text

abbrev pub is_member : Text → List Text → Bool
is_member k ks = any (λ j. text_eq j k) ks

-- `[...new Set(ids)]`, with the ids before
unfoldable pub distinct_ids : List Text → List Text → List Text
unfolding text_eq
distinct_ids seen [] = []
distinct_ids seen (id ∷ ids) =
    let kept = distinct_ids seen ids in
    let added = distinct_ids (id ∷ seen) ids in if is_member id seen then kept else id ∷ added

unfoldable pub normalize_user_ids : List Text → List Text
unfolding distinct_ids trim
normalize_user_ids ids = distinct_ids [] (keep (λ id. not (is_empty id)) (map trim ids))

-- the users that `findMany` finds
unfoldable pub find_users : Text → List Text → List ManagedUser → List ManagedUser
unfolding text_eq
find_users owner ids users = keep (λ u. text_eq u.owner_user_id owner && is_member u.id ids) users

-- `usersById.get(id)`, for users with different ids
unfoldable pub user_by_id : Text → List ManagedUser → Option ManagedUser
unfolding text_eq
user_by_id id users = find? (λ u. text_eq u.id id) users

-- the keys of `USER_SYSTEM_FIELDS`
abbrev pub user_system_fields : List Text
user_system_fields =
    units "source"
    ∷ units "externalId"
    ∷ units "name"
    ∷ units "email"
    ∷ units "phone"
    ∷ units "status"
    ∷ units "userType"
    ∷ units "segment"
    ∷ units "gradeOrLevel"
    ∷ units "marketingConsent"
    ∷ units "registeredAt"
    ∷ units "lastLoginAt"
    ∷ units "tags"
    ∷ units "createdAt"
    ∷ units "updatedAt"
    ∷ []

abbrev pub add_draft : RecipientDraft → Drafts → Drafts
add_draft r d = record d { recipient_drafts = r ∷ d.recipient_drafts }

abbrev pub add_skipped : Drafts → Drafts
add_skipped d = record d { skipped_no_phone_count = suc d.skipped_no_phone_count }

abbrev pub add_duplicate : Drafts → Drafts
add_duplicate d = record d { duplicate_phone_count = suc d.duplicate_phone_count }

abbrev pub draft_of : ManagedUser → Text → Option (List (Text × Text)) → RecipientDraft
draft_of u phone template_parameters = record {
  managed_user_id = u.id;
  recipient_phone = phone;
  recipient_name = u.name;
  recipient_grouping_key = units "managed-user:" ++ u.id;
  template_parameters = template_parameters;
}

-- The row of a recipient, under its new id.
abbrev pub recipient_row : Text → RecipientDraft → Recipient
recipient_row id r = record {
  id = id;
  recipient_phone = r.recipient_phone;
  recipient_grouping_key = some r.recipient_grouping_key;
  template_parameters = elim r.template_parameters [ none ↦ no_object | some p ↦ parameters p ];
  recipient_seq = none;
  status = RecipientStatus.requested;
}

-- `createMany`, with the ids that the database gives
unfoldable pub recipient_rows : (ℕ → Text) → ℕ → List RecipientDraft → List Recipient
recipient_rows new_id n [] = []
recipient_rows new_id n (r ∷ rs) = recipient_row (new_id n) r ∷ recipient_rows new_id (suc n) rs

abbrev pub is_sender_of : Text → Text → SenderNumber → Bool
is_sender_of owner id s = text_eq s.id id && text_eq s.owner_user_id owner && is_approved s.status
