-- ===== src/Bulk/Recipients.antt =====
-- The loop over the selected users: every user counts once, the phones are different, everyone with a
-- phone is reached, and the parameters cover the variables of the body.
use noti.Common.{
  ℕ, ◌+◌, ◌≡◌, keep, refl, subst, Bool, true, false, not, ◌&&◌, ◌||◌, List, [], ◌∷◌, Option, none,
  some, any, all, length, arith, Bool-cases, Option-cases, Outcome, Outcome-cases, inl, inr, ok,
}
use noti.Text.{Text, text_eq, text_eq_refl}
use noti.Bulk.Users.{ManagedUser, DraftError, normalize_phone_number}
use noti.Bulk.Rows.{
  Drafts, RecipientDraft, is_member, user_by_id, add_draft, add_skipped, add_duplicate, draft_of,
}
use noti.Bulk.Loop.{draft_recipients}
use noti.Bulk.Found.{is_found}
use noti.Bulk.Parameters.{is_given, parameters_in}

-- No phone is that of an earlier recipient, or one of `seen`.
abbrev pub are_new : List Text → List RecipientDraft → Bool
are_new seen [] = true
are_new seen (r ∷ rs) =
    not (is_member r.recipient_phone seen) && are_new (r.recipient_phone ∷ seen) rs

-- The user of the id has no phone, or the phone is one of `seen` or that of a recipient.
abbrev pub is_reached : List ManagedUser → List Text → List RecipientDraft → Text → Bool
is_reached users seen drafts id = elim (user_by_id id users) [
  | none ↦ false
  | some u ↦ elim (normalize_phone_number u.phone) [
    | none ↦ true
    | some phone ↦ is_member phone seen || any (λ r. text_eq r.recipient_phone phone) drafts
  ]
]

-- The user of the id has no phone.
abbrev pub has_no_phone : List ManagedUser → Text → Bool
has_no_phone users id = elim (user_by_id id users) [
  | none ↦ false
  | some u ↦ elim (normalize_phone_number u.phone) [ none ↦ true | some phone ↦ false ]
]

-- How many of the ids are of users without a phone.
abbrev pub without_phone : List ManagedUser → List Text → ℕ
without_phone users ids = length (keep (has_no_phone users) ids)

abbrev pub are_given : List Text → List RecipientDraft → Bool
are_given required drafts =
    all (λ r. all (is_given (parameters_in r.template_parameters)) required) drafts

-- What the loop makes of the ids.
pub record IsDrafted (required : List Text) (users : List ManagedUser) (seen ids : List Text)
    (d : Drafts) : Type 0 where
  pub counted :
      length d.recipient_drafts + d.skipped_no_phone_count + d.duplicate_phone_count ≡ length ids
  pub skipped : d.skipped_no_phone_count ≡ without_phone users ids
  pub new : are_new seen d.recipient_drafts ≡ true
  pub reached : all (is_reached users seen d.recipient_drafts) ids ≡ true
  pub given : are_given required d.recipient_drafts ≡ true

reached-add :
    (users : List ManagedUser) (seen : List Text) (r : RecipientDraft) (rs : List RecipientDraft)
    (ids : List Text)
    → all (is_reached users (r.recipient_phone ∷ seen) rs) ids ≡ true
    → all (is_reached users seen (r ∷ rs)) ids ≡ true
reached-add users seen r rs [] h = refl
reached-add users seen r rs (id ∷ ids) h =
    let later = reached-add users seen r rs ids (ground (arith, h)) in
    elim (Option-cases (user_by_id id users)) [
      | inl e ↦ absurd (ground (arith, e, h))
      | inr (u, e) ↦ elim (Option-cases (normalize_phone_number u.phone)) [
        | inl f ↦ ground (arith, e, f, later)
        | inr (phone, f) ↦ ground (arith, e, f, later, h)
      ]
    ]

IsDrafted-skipped :
    (required : List Text) (users : List ManagedUser) (seen : List Text) (id : Text)
    (ids : List Text) (u : ManagedUser) (d : Drafts)
    → user_by_id id users ≡ some u
    → normalize_phone_number u.phone ≡ none
    → IsDrafted required users seen ids d
    → IsDrafted required users seen (id ∷ ids) (add_skipped d)
IsDrafted-skipped required users seen id ids u d g f c = record {
  counted = omega (arith, c.counted);
  skipped = ground (arith, g, f, c.skipped);
  new = c.new;
  reached = ground (arith, g, f, c.reached);
  given = c.given;
}

IsDrafted-duplicate :
    (required : List Text) (users : List ManagedUser) (seen : List Text) (id : Text)
    (ids : List Text) (u : ManagedUser) (phone : Text) (d : Drafts)
    → user_by_id id users ≡ some u
    → normalize_phone_number u.phone ≡ some phone
    → is_member phone seen ≡ true
    → IsDrafted required users seen ids d
    → IsDrafted required users seen (id ∷ ids) (add_duplicate d)
IsDrafted-duplicate required users seen id ids u phone d g f m c = record {
  counted = omega (arith, c.counted);
  skipped = ground (arith, g, f, c.skipped);
  new = c.new;
  reached = ground (arith, g, f, m, c.reached);
  given = c.given;
}

IsDrafted-taken :
    (required : List Text) (users : List ManagedUser) (seen : List Text) (id : Text)
    (ids : List Text) (u : ManagedUser) (phone : Text) (p : Option (List (Text × Text)))
    (d : Drafts)
    → user_by_id id users ≡ some u
    → normalize_phone_number u.phone ≡ some phone
    → is_member phone seen ≡ false
    → all (is_given (parameters_in p)) required ≡ true
    → IsDrafted required users (phone ∷ seen) ids d
    → IsDrafted required users seen (id ∷ ids) (add_draft (draft_of u phone p) d)
IsDrafted-taken required users seen id ids u phone p d g f m k c = record {
  counted = omega (arith, c.counted);
  skipped = ground (arith, g, f, c.skipped);
  new = ground (arith, m, c.new);
  reached = ground (
    arith,
    g,
    f,
    text_eq_refl phone,
    reached-add users seen (draft_of u phone p) d.recipient_drafts ids c.reached,
  );
  given = ground (arith, k, c.given);
}

module _ (fill : ManagedUser → Outcome DraftError (Option (List (Text × Text))))
    (required : List Text) where
  pub draft_recipients-IsDrafted :
      (users : List ManagedUser) (seen ids : List Text) (d : Drafts)
      → ((u : ManagedUser) (p : Option (List (Text × Text)))
          → fill u ≡ ok p
          → all (is_given (parameters_in p)) required ≡ true)
      → all (is_found users) ids ≡ true
      → draft_recipients fill users seen ids ≡ ok d
      → IsDrafted required users seen ids d
  unfolding draft_recipients
  draft_recipients-IsDrafted users seen [] d fills found e = record {
    counted = ground (arith, e);
    skipped = ground (arith, e);
    new = ground (arith, e);
    reached = refl;
    given = ground (arith, e);
  }
  draft_recipients-IsDrafted users seen (id ∷ ids) d fills found e =
      elim (Option-cases (user_by_id id users)) [
        | inl g ↦ absurd (ground (arith, g, found))
        | inr (u, g) ↦ elim (Option-cases (normalize_phone_number u.phone)) [
          | inl f ↦ elim (Outcome-cases (draft_recipients fill users seen ids)) [
            | inr (x, k) ↦ absurd (ground (arith, e, g, f, k))
            | inl (rest, k) ↦
                let c =
                  draft_recipients-IsDrafted users seen ids rest fills (ground (arith, found)) k in
                let same : add_skipped rest ≡ d = ground (arith, e, g, f, k) in
                subst (IsDrafted required users seen (id ∷ ids)) same
                  (IsDrafted-skipped required users seen id ids u rest g f c)
          ]
          | inr (phone, f) ↦ elim (Bool-cases (is_member phone seen)) [
            | inl m ↦ elim (Outcome-cases (draft_recipients fill users seen ids)) [
              | inr (x, k) ↦ absurd (ground (arith, e, g, f, m, k))
              | inl (rest, k) ↦
                  let c =
                    draft_recipients-IsDrafted users seen ids rest fills (ground (arith, found))
                      k in
                  let same : add_duplicate rest ≡ d = ground (arith, e, g, f, m, k) in
                  subst (IsDrafted required users seen (id ∷ ids)) same
                    (IsDrafted-duplicate required users seen id ids u phone rest g f m c)
            ]
            | inr m ↦ elim (Outcome-cases (fill u)) [
              | inr (x, q) ↦ absurd (ground (arith, e, g, f, m, q))
              | inl (p, q) ↦ elim (Outcome-cases (draft_recipients fill users (phone ∷ seen) ids)) [
                | inr (x, k) ↦ absurd (ground (arith, e, g, f, m, q, k))
                | inl (rest, k) ↦
                    let c =
                      draft_recipients-IsDrafted users (phone ∷ seen) ids rest fills
                        (ground (arith, found)) k in
                    let given = fills u p q in
                    let same : add_draft (draft_of u phone p) rest ≡ d =
                      ground (arith, e, g, f, m, q, k) in
                    subst (IsDrafted required users seen (id ∷ ids)) same
                      (IsDrafted-taken required users seen id ids u phone p rest g f m given c)
              ]
            ]
          ]
        ]
      ]
