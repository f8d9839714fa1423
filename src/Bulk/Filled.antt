-- ===== src/Bulk/Filled.antt =====
-- What holds of each recipient that the loop adds holds of all.
use noti.Common.{
  ◌≡◌, Bool, true, List, [], ◌∷◌, Option, some, all, arith, Bool-cases, Option-cases, Outcome,
  Outcome-cases, inl, inr, ok,
}
use noti.Text.{Text}
use noti.Bulk.Users.{ManagedUser, DraftError, normalize_phone_number}
use noti.Bulk.Rows.{Drafts, RecipientDraft, is_member, user_by_id, draft_of}
use noti.Bulk.Loop.{draft_recipients}

module _ (fill : ManagedUser → Outcome DraftError (Option (List (Text × Text))))
    (q : RecipientDraft → Bool) where
  pub draft_recipients-all :
      (users : List ManagedUser) (seen ids : List Text) (d : Drafts)
      → ((id : Text) (u : ManagedUser) (phone : Text) (p : Option (List (Text × Text)))
          → user_by_id id users ≡ some u
          → fill u ≡ ok p
          → q (draft_of u phone p) ≡ true)
      → draft_recipients fill users seen ids ≡ ok d
      → all q d.recipient_drafts ≡ true
  unfolding draft_recipients
  draft_recipients-all users seen [] d fills e = ground (arith, e)
  draft_recipients-all users seen (id ∷ ids) d fills e = elim (Option-cases (user_by_id id users)) [
    | inl g ↦ draft_recipients-all users seen ids d fills (ground (arith, e, g))
    | inr (u, g) ↦ elim (Option-cases (normalize_phone_number u.phone)) [
      | inl f ↦ elim (Outcome-cases (draft_recipients fill users seen ids)) [
        | inr (x, k) ↦ absurd (ground (arith, e, g, f, k))
        | inl (rest, k) ↦
            ground (arith, e, g, f, k, draft_recipients-all users seen ids rest fills k)
      ]
      | inr (phone, f) ↦ elim (Bool-cases (is_member phone seen)) [
        | inl m ↦ elim (Outcome-cases (draft_recipients fill users seen ids)) [
          | inr (x, k) ↦ absurd (ground (arith, e, g, f, m, k))
          | inl (rest, k) ↦
              ground (arith, e, g, f, m, k, draft_recipients-all users seen ids rest fills k)
        ]
        | inr m ↦ elim (Outcome-cases (fill u)) [
          | inr (x, p) ↦ absurd (ground (arith, e, g, f, m, p))
          | inl (made, p) ↦ elim (Outcome-cases (draft_recipients fill users (phone ∷ seen) ids)) [
            | inr (x, k) ↦ absurd (ground (arith, e, g, f, m, p, k))
            | inl (rest, k) ↦ ground (
              arith,
              e,
              g,
              f,
              m,
              p,
              k,
              fills id u phone made g p,
              draft_recipients-all users (phone ∷ seen) ids rest fills k,
            )
          ]
        ]
      ]
    ]
  ]
