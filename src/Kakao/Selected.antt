-- ===== src/Kakao/Selected.antt =====
-- What a campaign has when its users were chosen and its recipients drafted.
use noti.Common.{
  ℕ, ◌+◌, ◌≡◌, ◌≤◌, ◌∙◌, refl, ap, subst, Bool, true, false, not, List, [], Option, none, some,
  is_empty, all, find?, leb, length, ◌==◌, arith, Outcome, ok, inl, inr, Bool-cases, Outcome-cases,
}
use noti.Text.{Text}
use noti.Json.{Json}
use noti.Bulk.Users.{ManagedUser, DraftError, parameters_of}
use noti.Bulk.Body.{has_no_mapping}
use noti.Bulk.Rows.{Drafts, RecipientDraft, normalize_user_ids, find_users}
use noti.Bulk.Loop.{draft_recipients}
use noti.Bulk.Found.{are_distinct, find_users-all}
use noti.Bulk.Parameters.{is_given, parameters_in, parameters_of-is_given}
use noti.Bulk.Recipients.{without_phone, are_given, are_new, is_reached, draft_recipients-IsDrafted}
use noti.Kakao.{
  SenderProfile, is_stopped, is_profile_of, profile_or_error, check_selection,
  template_parameters_for,
}

-- Every selected id counts once; from one to a thousand recipients with different phones; who has a
-- phone is reached; and each recipient has the required variables.
pub record IsSelected (required : List Text) (users : List ManagedUser) (ids : List Text)
    (recipients : List RecipientDraft) (total skipped duplicate : ℕ) : Type 0 where
  pub counted : total + skipped + duplicate ≡ length ids
  pub without : skipped ≡ without_phone users ids
  pub some_recipient : 1 ≤ total
  pub at_most : total ≤ 1000
  pub as_many : length recipients ≡ total
  pub new : are_new [] recipients ≡ true
  pub reached : all (is_reached users [] recipients) ids ≡ true
  pub given : are_given required recipients ≡ true

profile_inv :
    (o : Option SenderProfile) (p : SenderProfile)
    → profile_or_error o ≡ ok p
    → (o ≡ some p) × (is_stopped p.status ≡ false)
profile_inv none p e = cc
profile_inv (some q) p e = elim (Bool-cases (is_stopped q.status)) [
  | inl f ↦ absurd (ground (arith, e, f))
  | inr f ↦
      let same : q ≡ p = ground (arith, e, f) in
      (ap some same, subst (λ x. is_stopped x.status ≡ false) same f)
]

pub check_selection_inv :
    (owner profile_id : Text) (user_ids : List Text) (profiles : List SenderProfile)
    (users : List ManagedUser) (p : SenderProfile)
    → check_selection owner profile_id user_ids profiles users ≡ ok p
    → (find? (is_profile_of owner profile_id) profiles ≡ some p)
      × (is_stopped p.status ≡ false)
      × (leb (length (normalize_user_ids user_ids)) 1000 ≡ true)
      × ((length (normalize_user_ids user_ids)
            == length (find_users owner (normalize_user_ids user_ids) users))
          ≡ true)
unfolding check_selection
check_selection_inv owner profile_id user_ids profiles users p e =
    elim (Outcome-cases (profile_or_error (find? (is_profile_of owner profile_id) profiles))) [
      | inr (x, f) ↦ absurd (ground (arith, e, f))
      | inl (q, f) ↦
          let same : q ≡ p = ground (arith, e, f) in
          let (found, running) =
            profile_inv (find? (is_profile_of owner profile_id) profiles) p (f ∙ ap ok same) in
          (found, running, ground (arith, e, f), ground (arith, e, f))
    ]

pub template_parameters_for-is_given :
    (stringify : Json → Text) (is_inherited : Text → Bool) (required : List Text)
    (mappings : List (Text × Text)) (u : ManagedUser) (p : Option (List (Text × Text)))
    → all (λ v. not (has_no_mapping mappings v)) required ≡ true
    → template_parameters_for stringify is_inherited required mappings u ≡ ok p
    → all (is_given (parameters_in p)) required ≡ true
unfolding template_parameters_for
template_parameters_for-is_given stringify is_inherited required mappings u p mapped e =
    elim (Outcome-cases (parameters_of stringify is_inherited u mappings required)) [
      | inr (x, f) ↦ absurd (ground (arith, e, f))
      | inl (given, f) ↦
          let same : some given ≡ p = ground (arith, e, f) in
          subst (λ q. all (is_given (parameters_in q)) required ≡ true) same
            (parameters_of-is_given stringify is_inherited u mappings required given mapped f)
    ]

pub draft_recipients-IsSelected :
    (fill : ManagedUser → Outcome DraftError (Option (List (Text × Text)))) (required : List Text)
    (owner : Text) (ids : List Text) (users : List ManagedUser) (d : Drafts)
    → ((u : ManagedUser) (p : Option (List (Text × Text)))
        → fill u ≡ ok p
        → all (is_given (parameters_in p)) required ≡ true)
    → are_distinct users ≡ true
    → leb (length ids) 1000 ≡ true
    → (length ids == length (find_users owner ids users)) ≡ true
    → draft_recipients fill (find_users owner ids users) [] ids ≡ ok d
    → is_empty d.recipient_drafts ≡ false
    → IsSelected required
        (find_users owner ids users)
        ids
        d.recipient_drafts
        (length d.recipient_drafts)
        d.skipped_no_phone_count
        d.duplicate_phone_count
draft_recipients-IsSelected fill required owner ids users d fills distinct few as_many e filled =
    let found = find_users-all owner ids users distinct as_many in
    let c =
      draft_recipients-IsDrafted fill required (find_users owner ids users) [] ids d fills found
        e in
    record {
      counted = c.counted;
      without = c.skipped;
      some_recipient = ground (arith, filled);
      at_most = ground (arith, c.counted, few);
      as_many = refl;
      new = c.new;
      reached = c.reached;
      given = c.given;
    }
