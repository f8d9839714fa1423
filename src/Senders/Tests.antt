-- ===== src/Senders/Tests.antt =====
-- A company's number that is applied for and approved.
use noti.Common.{◌≡◌, refl, Bool, true, not, ◌||◌, [], ◌∷◌, none, some, ok}
use noti.Text.{Text, units, text_eq}
use noti.Sms080.{Owner}
use noti.Senders.{
  SenderNumber, Files, company, SenderNumberStatus, is_approved, apply, approve, find_sender,
}
use noti.Senders.Review.{Reach, here, next, applying, approving, has_documents, sender-reached}

abbrev owner : Owner
owner = record { id = units "u"; email = none; login_id = none; provider_user_id = units "p" }

abbrev files : Files
files = record {
  telecom = some (units "t.pdf");
  consent = some (units "c.pdf");
  personal_info_consent = none;
  id_card_copy = none;
  third_party_business_registration = some (units "b.pdf");
  relationship_proof = some (units "r.pdf");
  additional_document = none;
}

abbrev asked : SenderNumber
asked = record {
  id = units "s1";
  owner_user_id = units "u";
  phone_number = units "02123";
  type = company;
  status = SenderNumberStatus.submitted;
  telecom_certificate_path = some (units "t.pdf");
  consent_document_path = some (units "c.pdf");
  personal_info_consent_path = none;
  id_card_copy_path = none;
  third_party_business_registration_path = some (units "b.pdf");
  relationship_proof_path = some (units "r.pdf");
  additional_document_path = none;
  review_memo = none;
  reviewed_by = none;
  approved_at = none;
  synced_at = none;
}

abbrev granted : SenderNumber
granted = record asked {
  status = SenderNumberStatus.approved;
  reviewed_by = some (units "r");
  approved_at = some 5;
}

-- the provider lists one number
abbrev listed : Text → Bool
listed n = text_eq n (units "02123")

applied : apply (some owner) (units " 02123") company files (units "s1") [] ≡ ok (asked ∷ [], asked)
unfolding apply
applied = refl

approved_then :
    approve none (units "s1") (units "r") none (units "02123" ∷ []) 5 (asked ∷ [])
    ≡ ok (granted ∷ [])
unfolding approve
approved_then = refl

reached : Reach listed [] (granted ∷ [])
unfolding text_eq
reached =
    next
      (next here (applying (some owner) (units " 02123") company files (units "s1") asked applied))
      (approving none (units "s1") (units "r") none (units "02123" ∷ []) 5 refl approved_then)

sender-reached_example :
    (has_documents granted ≡ true)
    × ((not (is_approved granted.status) || listed granted.phone_number) ≡ true)
unfolding find_sender text_eq
sender-reached_example = sender-reached listed (granted ∷ []) none (units "s1") granted reached refl
