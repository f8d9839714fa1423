-- ===== src/Senders/Review.antt =====
-- The review of sender numbers: what applications, reviews and the provider's list keep of every
-- sender number.
use noti.Common.{
  ℕ, Bool, true, false, not, ◌&&◌, ◌||◌, List, [], ◌∷◌, Option, none, some, if◌then◌else◌, is_empty,
  any, map, all, ok, ◌≡◌, refl, sym, inl, inr, Bool-cases, Outcome-cases, Option-cases, arith,
  find?-all,
}
use noti.Text.{Text, text_eq, eq_of_text_eq, trim}
use noti.Sms080.{Owner}
use noti.Senders.{
  SenderNumber, SenderNumberType, SenderNumberStatus, Files, approved, supplement_requested,
  rejected, is_employee, is_approved, is_present, set_sender, sender_number_data, check_documents,
  find_own_number, apply, assert_approved_in_nhn, find_sender, approve, review, reject,
  request_supplement_for_operator, sync_approved_from_nhn, with_memo,
}

-- The documents that the type of a sender number asks for are there.
unfoldable pub has_documents : SenderNumber → Bool
has_documents s =
    is_present s.telecom_certificate_path
    && is_present s.consent_document_path
    && (if is_employee s.type
        then is_present s.id_card_copy_path
        else is_present s.third_party_business_registration_path
          && is_present s.relationship_proof_path)

check_documents-has_documents :
    (s : SenderNumber) → check_documents s ≡ ok tt → has_documents s ≡ true
unfolding check_documents has_documents
check_documents-has_documents s e = ground (arith, e)

any-listed :
    (listed : Text → Bool) (numbers : List Text) (n : Text)
    → all listed numbers ≡ true
    → any (λ m. text_eq m n) numbers ≡ true
    → listed n ≡ true
any-listed listed [] n h e = cc
any-listed listed (m ∷ numbers) n h e = elim (Bool-cases (text_eq m n)) [
  | inl t ↦ rw (sym (eq_of_text_eq m n t)) (ground (arith, h))
  | inr t ↦ any-listed listed numbers n (ground (arith, h)) (ground (arith, t, e))
]

find_sender-all :
    (q : SenderNumber → Bool) (owner : Option Text) (id : Text) (rows : List SenderNumber)
    (s : SenderNumber)
    → all q rows ≡ true
    → find_sender owner id rows ≡ some s
    → q s ≡ true
unfolding find_sender
find_sender-all q none id rows s h e = find?-all (λ b. text_eq b.id id) q rows s h e
find_sender-all q (some owner) id rows s h e =
    find?-all (λ b. text_eq b.id id && text_eq b.owner_user_id owner) q rows s h e

all-set_sender :
    (q : SenderNumber → Bool) (a : SenderNumber) (rows : List SenderNumber)
    → q a ≡ true
    → all q rows ≡ true
    → all q (set_sender a rows) ≡ true
unfolding set_sender
all-set_sender q a [] h k = refl
all-set_sender q a (b ∷ rows) h k = ground (arith, all-set_sender q a rows h)

-- `listed` holds of the numbers that the provider has ever listed as approved.
module _ (listed : Text → Bool) where
  unfoldable pub is_sound : SenderNumber → Bool
  unfolding has_documents
  is_sound s = has_documents s && (not (is_approved s.status) || listed s.phone_number)

  pub data Step (rows rows' : List SenderNumber) : Type 0 where
    applying :
        (owner : Option Owner) (phone_number : Text) (type : SenderNumberType) (files : Files)
        (new_id : Text) (created : SenderNumber)
        → apply owner phone_number type files new_id rows ≡ ok (rows', created)
        → Step rows rows'
    approving :
        (owner : Option Text) (id reviewer : Text) (memo : Option Text)
        (approved_numbers : List Text) (now : ℕ)
        → all listed approved_numbers ≡ true
        → approve owner id reviewer memo approved_numbers now rows ≡ ok rows'
        → Step rows rows'
    rejecting :
        (owner : Option Text) (id reviewer : Text) (memo : Option Text)
        → reject owner id reviewer memo rows ≡ ok rows'
        → Step rows rows'
    supplementing :
        (id reviewer : Text) (memo : Option Text)
        → request_supplement_for_operator id reviewer memo rows ≡ ok rows'
        → Step rows rows'
    syncing :
        (owner : Text) (approved_numbers : List Text) (now : ℕ)
        → sync_approved_from_nhn owner approved_numbers now rows ≡ rows'
        → Step rows rows'

  pub data Reach (rows : List SenderNumber) : List SenderNumber → Type 0 where
    here : Reach rows rows
    next :
        {middle last : List SenderNumber} → Reach rows middle → Step middle last → Reach rows last

  sender_number_data-is_sound :
      (id owner phone_number : Text) (type : SenderNumberType) (files : Files)
      (existing : Option SenderNumber)
      → check_documents (sender_number_data id owner phone_number type files existing) ≡ ok tt
      → is_sound (sender_number_data id owner phone_number type files existing) ≡ true
  unfolding is_sound sender_number_data
  sender_number_data-is_sound id owner phone_number type files existing e =
      let row = sender_number_data id owner phone_number type files existing in
      ground (arith, check_documents-has_documents row e)

  apply-is_sound :
      (owner : Option Owner) (phone_number : Text) (type : SenderNumberType) (files : Files)
      (new_id : Text) (created : SenderNumber) (rows rows' : List SenderNumber)
      → all is_sound rows ≡ true
      → apply owner phone_number type files new_id rows ≡ ok (rows', created)
      → all is_sound rows' ≡ true
  unfolding apply
  apply-is_sound none phone_number type files new_id created rows rows' h e =
      absurd (ground (arith, e))
  apply-is_sound (some owner) phone_number type files new_id created rows rows' h e =
      let phone = trim phone_number in
      elim (Option-cases (find_own_number owner.id phone rows)) [
        | inl g ↦
            let row = sender_number_data new_id owner.id phone type files none in
            elim (Outcome-cases (check_documents row)) [
              | inr (x, u) ↦ absurd (ground (arith, e, g, u))
              | inl (tt, u) ↦
                  let sound = sender_number_data-is_sound new_id owner.id phone type files none u in
                  let same : rows' ≡ row ∷ rows = ground (arith, e, g, u) in
                  rw same (ground (arith, sound, h))
            ]
        | inr (s, g) ↦
            let row = sender_number_data s.id owner.id phone type files (some s) in
            elim (Outcome-cases (check_documents row)) [
              | inr (x, u) ↦ absurd (ground (arith, e, g, u))
              | inl (tt, u) ↦
                  let sound =
                    sender_number_data-is_sound s.id owner.id phone type files (some s) u in
                  let same : rows' ≡ set_sender row rows = ground (arith, e, g, u) in
                  rw same (all-set_sender is_sound row rows sound h)
            ]
      ]

  approve-is_sound :
      (owner : Option Text) (id reviewer : Text) (memo : Option Text) (approved_numbers : List Text)
      (now : ℕ) (rows rows' : List SenderNumber)
      → all listed approved_numbers ≡ true
      → all is_sound rows ≡ true
      → approve owner id reviewer memo approved_numbers now rows ≡ ok rows'
      → all is_sound rows' ≡ true
  unfolding approve assert_approved_in_nhn is_sound has_documents
  approve-is_sound owner id reviewer memo approved_numbers now rows rows' known h e =
      elim (Option-cases (find_sender owner id rows)) [
        | inl g ↦ absurd (ground (arith, e, g))
        | inr (s, g) ↦
            let sound = find_sender-all is_sound owner id rows s h g in
            let row = record s {
              status = approved;
              reviewed_by = some reviewer;
              review_memo = with_memo memo s.review_memo;
              approved_at = some now;
            } in
            elim (Bool-cases (any (λ n. text_eq n s.phone_number) approved_numbers)) [
              | inr t ↦ absurd (ground (arith, e, g, t))
              | inl t ↦
                  let is_listed = any-listed listed approved_numbers s.phone_number known t in
                  let same : rows' ≡ set_sender row rows = ground (arith, e, g, t) in
                  rw same (all-set_sender is_sound row rows (ground (arith, sound, is_listed)) h)
            ]
      ]

  review-is_sound :
      (status : SenderNumberStatus) (owner : Option Text) (id reviewer : Text) (memo : Option Text)
      (rows rows' : List SenderNumber)
      → is_approved status ≡ false
      → all is_sound rows ≡ true
      → review status owner id reviewer memo rows ≡ ok rows'
      → all is_sound rows' ≡ true
  unfolding review is_sound has_documents
  review-is_sound status owner id reviewer memo rows rows' other h e =
      elim (Option-cases (find_sender owner id rows)) [
        | inl g ↦ absurd (ground (arith, e, g))
        | inr (s, g) ↦
            let sound = find_sender-all is_sound owner id rows s h g in
            let row = record s {
              status = status;
              reviewed_by = some reviewer;
              review_memo = with_memo memo s.review_memo;
            } in
            let same : rows' ≡ set_sender row rows = ground (arith, e, g) in
            rw same (all-set_sender is_sound row rows (ground (arith, sound, other)) h)
      ]

  all-synced :
      (p : SenderNumber → Bool) (now : ℕ) (rows : List SenderNumber)
      → all is_sound rows ≡ true
      → all is_sound (map (λ s. if p s then record s { synced_at = some now } else s) rows) ≡ true
  unfolding is_sound has_documents
  all-synced p now [] h = refl
  all-synced p now (s ∷ rows) h = elim (Bool-cases (p s)) [
    | inl t ↦ ground (arith, all-synced p now rows, h, t)
    | inr t ↦ ground (arith, all-synced p now rows, h, t)
  ]

  Step-is_sound :
      {rows rows' : List SenderNumber}
      → Step rows rows'
      → all is_sound rows ≡ true
      → all is_sound rows' ≡ true
  unfolding sync_approved_from_nhn
  Step-is_sound {rows} {rows'} (applying owner phone_number type files new_id created e) h =
      apply-is_sound owner phone_number type files new_id created rows rows' h e
  Step-is_sound {rows} {rows'} (approving owner id reviewer memo approved_numbers now known e) h =
      approve-is_sound owner id reviewer memo approved_numbers now rows rows' known h e
  Step-is_sound {rows} {rows'} (rejecting owner id reviewer memo e) h =
      review-is_sound rejected owner id reviewer memo rows rows' refl h e
  Step-is_sound {rows} {rows'} (supplementing id reviewer memo e) h =
      review-is_sound supplement_requested none id reviewer memo rows rows' refl h e
  Step-is_sound {rows} {rows'} (syncing owner approved_numbers now e) h =
      let written =
        all-synced
          (λ s.
            text_eq s.owner_user_id owner && any (λ n. text_eq n s.phone_number) approved_numbers)
          now rows h in
      elim (Bool-cases (is_empty approved_numbers)) [
        | inl t ↦ ground (arith, e, h, t)
        | inr t ↦ ground (arith, e, written, t)
      ]

  Reach-is_sound :
      {rows rows' : List SenderNumber}
      → Reach rows rows'
      → all is_sound rows ≡ true
      → all is_sound rows' ≡ true
  Reach-is_sound here h = h
  Reach-is_sound (next reached step) h = Step-is_sound step (Reach-is_sound reached h)

  -- From no sender numbers, after any sequence of applications, approvals, rejections, requests for
  -- more documents and syncs, every sender number has the documents that its type asks for, and one
  -- that is approved is a number that the provider has listed as approved.
  pub sender-reached :
      (rows : List SenderNumber) (owner : Option Text) (id : Text) (s : SenderNumber)
      → Reach [] rows
      → find_sender owner id rows ≡ some s
      → (has_documents s ≡ true) × ((not (is_approved s.status) || listed s.phone_number) ≡ true)
  unfolding is_sound
  sender-reached rows owner id s reached found =
      let sound = find_sender-all is_sound owner id rows s (Reach-is_sound reached refl) found in
      (ground (arith, sound), ground (arith, sound))
