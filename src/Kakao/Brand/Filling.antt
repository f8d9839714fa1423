-- ===== src/Kakao/Brand/Filling.antt =====
-- The recipients of a brand template keep their phones when they get their parameters.
use noti.Common.{
  ◌≡◌, ◌∙◌, refl, ap, subst, Bool, true, not, ◌&&◌, ◌||◌, List, [], ◌∷◌, Option, some, any, all,
  find?-passes, length, arith, ok, inl, inr, Option-cases, Outcome-cases,
}
use noti.Text.{Text, text_eq, eq_of_text_eq}
use noti.Json.{Json}
use noti.Bulk.Users.{ManagedUser, normalize_phone_number}
use noti.Bulk.Body.{has_no_mapping}
use noti.Bulk.Rows.{RecipientDraft, is_member, user_by_id, draft_of}
use noti.Bulk.Found.{is_found}
use noti.Bulk.Recipients.{are_given, are_new, is_reached}
use noti.Kakao.{template_parameters_for}
use noti.Kakao.Selected.{template_parameters_for-is_given}
use noti.Kakao.Brand.{fill_recipients}

abbrev pub has_phone : Text → List RecipientDraft → Bool
has_phone phone rs = any (λ r. text_eq r.recipient_phone phone) rs

-- What filling in leaves, and what it adds.
pub record IsFilled (required : List Text) (rs out : List RecipientDraft) : Type 0 where
  pub as_many : length out ≡ length rs
  pub new : (seen : List Text) → are_new seen out ≡ are_new seen rs
  pub phones : (phone : Text) → has_phone phone out ≡ has_phone phone rs
  pub given : are_given required out ≡ true

abbrev pub user_is_found : List ManagedUser → RecipientDraft → Bool
user_is_found users r = is_found users r.managed_user_id

pub reached-filled :
    (users : List ManagedUser) (rs out : List RecipientDraft) (ids : List Text)
    → ((phone : Text) → has_phone phone out ≡ has_phone phone rs)
    → all (is_reached users [] rs) ids ≡ true
    → all (is_reached users [] out) ids ≡ true
reached-filled users rs out [] same h = refl
reached-filled users rs out (id ∷ ids) same h =
    let later = reached-filled users rs out ids same (ground (arith, h)) in
    elim (Option-cases (user_by_id id users)) [
      | inl e ↦ absurd (ground (arith, e, h))
      | inr (u, e) ↦ elim (Option-cases (normalize_phone_number u.phone)) [
        | inl f ↦ ground (arith, e, f, later)
        | inr (phone, f) ↦ ground (arith, e, f, later, h, same phone)
      ]
    ]

-- The user of a recipient that the loop adds is found by its id.
pub draft_of-user_is_found :
    (users : List ManagedUser) (id : Text) (u : ManagedUser) (phone : Text)
    (p : Option (List (Text × Text)))
    → user_by_id id users ≡ some u
    → user_is_found users (draft_of u phone p) ≡ true
unfolding user_by_id
draft_of-user_is_found users id u phone p e =
    let same : u.id ≡ id = eq_of_text_eq u.id id (find?-passes (λ v. text_eq v.id id) users u e) in
    let found : user_by_id u.id users ≡ some u = ap (λ k. user_by_id k users) same ∙ e in
    ground (arith, found)

module _ (stringify : Json → Text) (is_inherited : Text → Bool) (users : List ManagedUser)
    (required : List Text) (mappings : List (Text × Text)) where
  pub fill_recipients-IsFilled :
      (rs out : List RecipientDraft)
      → all (λ v. not (has_no_mapping mappings v)) required ≡ true
      → all (user_is_found users) rs ≡ true
      → fill_recipients stringify is_inherited users required mappings rs ≡ ok out
      → IsFilled required rs out
  unfolding fill_recipients
  fill_recipients-IsFilled [] out mapped found e =
      let same : [] ≡ out = ground (arith, e) in
      subst (IsFilled required []) same
        (record { as_many = refl; new = λ seen. refl; phones = λ phone. refl; given = refl })
  fill_recipients-IsFilled (r ∷ rs) out mapped found e =
      elim (Option-cases (user_by_id r.managed_user_id users)) [
        | inl g ↦ absurd (ground (arith, found, g))
        | inr (u, g) ↦
            elim (Outcome-cases
              (template_parameters_for stringify is_inherited required mappings u)) [
                | inr (x, h) ↦ absurd (ground (arith, e, g, h))
                | inl (p, h) ↦
                    elim (Outcome-cases
                      (fill_recipients stringify is_inherited users required mappings rs)) [
                        | inr (x, k) ↦ absurd (ground (arith, e, g, h, k))
                        | inl (rest, k) ↦
                            let f =
                              fill_recipients-IsFilled rs rest mapped (ground (arith, found)) k in
                            let given =
                              template_parameters_for-is_given stringify is_inherited required
                                mappings u p mapped h in
                            let made = record r { template_parameters = p } ∷ rest in
                            let same : made ≡ out = ground (arith, e, g, h, k) in
                            subst (IsFilled required (r ∷ rs)) same (record {
                              as_many = ground (arith, f.as_many);
                              new = λ seen.
                                  ap (λ b. not (is_member r.recipient_phone seen) && b)
                                    (f.new (r.recipient_phone ∷ seen));
                              phones = λ phone.
                                  ap (λ b. text_eq r.recipient_phone phone || b) (f.phones phone);
                              given = ground (arith, given, f.given);
                            })
                      ]
              ]
      ]
