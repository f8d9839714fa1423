-- ===== src/Senders.antt =====
-- apps/api/src/sender-numbers/sender-numbers.service.ts: the applications for sender numbers and
-- their review. `approved_numbers` is what the provider's `fetchApprovedSendNumbers` returns.
use noti.Common.{
  ℕ, Bool, true, false, not, ◌&&◌, ◌||◌, List, [], ◌∷◌, Option, none, some, if◌then◌else◌, is_empty,
  any, find?, map, Outcome, ok, err, ◌>>=◌, ◌>>◌, require,
}
use noti.Text.{Text, units, text_eq, trim}
use noti.Sms.{or_empty}
use noti.Sms080.{Owner}
pub mod Review
mod Tests

pub data SenderNumberType : Type 0 where
  company employee : SenderNumberType

pub data SenderNumberStatus : Type 0 where
  draft submitted supplement_requested approved rejected : SenderNumberStatus

pub record SenderNumber : Type 0 where
  pub id : Text
  pub owner_user_id : Text
  pub phone_number : Text
  pub type : SenderNumberType
  pub status : SenderNumberStatus
  pub telecom_certificate_path : Option Text
  pub consent_document_path : Option Text
  pub personal_info_consent_path : Option Text
  pub id_card_copy_path : Option Text
  pub third_party_business_registration_path : Option Text
  pub relationship_proof_path : Option Text
  pub additional_document_path : Option Text
  pub review_memo : Option Text
  pub reviewed_by : Option Text
  pub approved_at : Option ℕ
  pub synced_at : Option ℕ

pub record Files : Type 0 where
  pub telecom : Option Text
  pub consent : Option Text
  pub personal_info_consent : Option Text
  pub id_card_copy : Option Text
  pub third_party_business_registration : Option Text
  pub relationship_proof : Option Text
  pub additional_document : Option Text

-- The exceptions of the service.
pub data SenderError : Type 0 where
  owner_not_found forbidden_number no_telecom no_consent no_id_card_copy : SenderError
  no_business_registration no_relationship_proof already_submitted already_approved : SenderError
  sender_not_found not_approved_by_provider attachment_not_found : SenderError

abbrev pub is_employee : SenderNumberType → Bool
is_employee employee = true
is_employee company = false

abbrev pub is_submitted : SenderNumberStatus → Bool
is_submitted submitted = true
is_submitted _ = false

abbrev pub is_approved : SenderNumberStatus → Bool
is_approved approved = true
is_approved _ = false

-- `a ?? b`, and `Boolean(a)`
abbrev pub or_stored : Option Text → Option Text → Option Text
or_stored none stored = stored
or_stored (some path) stored = some path

abbrev pub is_present : Option Text → Bool
is_present path = not (is_empty (or_empty path))

abbrev pub stored : (SenderNumber → Option Text) → Option SenderNumber → Option Text
stored field none = none
stored field (some s) = field s

-- `update`
unfoldable pub set_sender : SenderNumber → List SenderNumber → List SenderNumber
unfolding text_eq
set_sender a rows = map (λ b. if text_eq b.id a.id then a else b) rows

abbrev pub demo_provider_user_id : Text
demo_provider_user_id = units "local:test1@vizuo.work"

abbrev pub forbidden_demo_sender_number : Text
forbidden_demo_sender_number = units "0212345678"

-- the row that `apply` writes, under the identifier of the one found or a new one
unfoldable pub sender_number_data :
    (id owner phone_number : Text) → SenderNumberType → Files → Option SenderNumber → SenderNumber
sender_number_data id owner phone_number type files existing = record {
  id = id;
  owner_user_id = owner;
  phone_number = phone_number;
  type = type;
  status = submitted;
  telecom_certificate_path =
      or_stored files.telecom (stored (λ s. s.telecom_certificate_path) existing);
  consent_document_path = or_stored files.consent (stored (λ s. s.consent_document_path) existing);
  personal_info_consent_path =
      if is_employee type
      then or_stored files.personal_info_consent
          (stored (λ s. s.personal_info_consent_path) existing)
      else none;
  id_card_copy_path =
      if is_employee type
      then or_stored files.id_card_copy (stored (λ s. s.id_card_copy_path) existing)
      else none;
  third_party_business_registration_path =
      if is_employee type
      then none
      else or_stored files.third_party_business_registration
          (stored (λ s. s.third_party_business_registration_path) existing);
  relationship_proof_path =
      if is_employee type
      then none
      else or_stored files.relationship_proof (stored (λ s. s.relationship_proof_path) existing);
  additional_document_path =
      or_stored files.additional_document (stored (λ s. s.additional_document_path) existing);
  review_memo = none;
  reviewed_by = none;
  approved_at = none;
  synced_at = none;
}

-- What `apply` throws about the documents of the row, in the order of its checks.
unfoldable pub check_documents : SenderNumber → Outcome SenderError (Unit {0})
check_documents s = do
  require (is_present s.telecom_certificate_path) no_telecom
  require (is_present s.consent_document_path) no_consent
  require (not (is_employee s.type) || is_present s.id_card_copy_path) no_id_card_copy
  require (is_employee s.type || is_present s.third_party_business_registration_path)
      no_business_registration
  require (is_employee s.type || is_present s.relationship_proof_path) no_relationship_proof

-- What `apply` throws about the status of the row found.
unfoldable pub check_existing : Option SenderNumber → Outcome SenderError (Unit {0})
check_existing none = ok tt
check_existing (some s) = do
  require (not (is_submitted s.status)) already_submitted
  require (not (is_approved s.status)) already_approved

unfoldable pub find_own_number : Text → Text → List SenderNumber → Option SenderNumber
unfolding text_eq
find_own_number owner phone_number rows =
    find? (λ s. text_eq s.owner_user_id owner && text_eq s.phone_number phone_number) rows

-- `apply` of an account, where there is one; the mail to the operators changes nothing when it fails.
unfoldable pub apply :
    Option Owner
    → (phone_number : Text) → SenderNumberType
    → Files
    → (new_id : Text) → List SenderNumber
    → Outcome SenderError (List SenderNumber × SenderNumber)
unfolding find_own_number sender_number_data check_documents check_existing set_sender trim text_eq
apply none phone_number type files new_id rows = err owner_not_found
apply (some owner) phone_number type files new_id rows = do
  let phone = trim phone_number
  require
      (not (
        text_eq owner.provider_user_id demo_provider_user_id
        && text_eq phone forbidden_demo_sender_number))
      forbidden_number
  let existing = find_own_number owner.id phone rows
  let id : Text = elim existing [ none ↦ new_id | some s ↦ s.id ]
  let created = sender_number_data id owner.id phone type files existing
  checked ← check_documents created
  fresh ← check_existing existing
  ok (elim existing [ none ↦ created ∷ rows | some s ↦ set_sender created rows ], created)

-- `reviewMemo: memo`, where an undefined memo changes nothing
abbrev pub with_memo : Option Text → Option Text → Option Text
with_memo none kept = kept
with_memo (some memo) kept = some memo

unfoldable pub assert_approved_in_nhn : List Text → Text → Outcome SenderError (Unit {0})
unfolding text_eq
assert_approved_in_nhn approved_numbers phone_number =
    require (any (λ n. text_eq n phone_number) approved_numbers) not_approved_by_provider

-- `findUnique` of an operator, and `findFirst` of an owner's own
unfoldable pub find_sender : Option Text → Text → List SenderNumber → Option SenderNumber
unfolding text_eq
find_sender none id rows = find? (λ s. text_eq s.id id) rows
find_sender (some owner) id rows =
    find? (λ s. text_eq s.id id && text_eq s.owner_user_id owner) rows

-- `approve` of an owner and `approveForOperator`
unfoldable pub approve :
    Option Text
    → (id reviewer : Text) → Option Text
    → List Text
    → ℕ
    → List SenderNumber
    → Outcome SenderError (List SenderNumber)
unfolding find_sender set_sender assert_approved_in_nhn
approve owner id reviewer memo approved_numbers now rows = elim (find_sender owner id rows) [
  | none ↦ err sender_not_found
  | some s ↦ do
    listed ← assert_approved_in_nhn approved_numbers s.phone_number
    ok (
        set_sender
          (record s {
            status = approved;
            reviewed_by = some reviewer;
            review_memo = with_memo memo s.review_memo;
            approved_at = some now;
          })
          rows)
]

-- `reject` and `rejectForOperator`, and `requestSupplementForOperator`, which write the status only
unfoldable pub review :
    SenderNumberStatus
    → Option Text
    → (id reviewer : Text) → Option Text
    → List SenderNumber
    → Outcome SenderError (List SenderNumber)
unfolding find_sender set_sender
review status owner id reviewer memo rows = elim (find_sender owner id rows) [
  | none ↦ err sender_not_found
  | some s ↦ ok (
      set_sender
        (record s {
          status = status;
          reviewed_by = some reviewer;
          review_memo = with_memo memo s.review_memo;
        })
        rows)
]

abbrev pub reject :
    Option Text
    → (id reviewer : Text) → Option Text
    → List SenderNumber
    → Outcome SenderError (List SenderNumber)
reject = review rejected

abbrev pub request_supplement_for_operator :
    (id reviewer : Text) → Option Text → List SenderNumber → Outcome SenderError (List SenderNumber)
request_supplement_for_operator = review supplement_requested none

-- `syncApprovedFromNhn`: the rows, and the number of rows written
unfoldable pub sync_approved_from_nhn : Text → List Text → ℕ → List SenderNumber → List SenderNumber
unfolding text_eq
sync_approved_from_nhn owner approved_numbers now rows =
    if is_empty approved_numbers
    then rows
    else map
        (λ s.
          if text_eq s.owner_user_id owner && any (λ n. text_eq n s.phone_number) approved_numbers
          then record s { synced_at = some now }
          else s)
        rows
