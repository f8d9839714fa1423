-- ===== src/Bulk/Loop.antt =====
-- The loop over the selected users, which the three kinds of campaigns share. `fill` gives the
-- parameters of a recipient.
use noti.Common.{true, false, List, [], ◌∷◌, Option, none, some, Outcome, ok, ◌>>=◌}
use noti.Text.{Text, text_eq}
use noti.Bulk.Users.{ManagedUser, DraftError, normalize_phone_number}
use noti.Bulk.Rows.{Drafts, is_member, user_by_id, add_draft, add_skipped, add_duplicate, draft_of}

module _ (fill : ManagedUser → Outcome DraftError (Option (List (Text × Text)))) where
  -- The loop over the ids, with the phones seen so far.
  unfoldable pub draft_recipients :
      List ManagedUser → (seen ids : List Text) → Outcome DraftError Drafts
  unfolding user_by_id normalize_phone_number text_eq
  draft_recipients users seen [] =
      ok (record { recipient_drafts = []; skipped_no_phone_count = 0; duplicate_phone_count = 0 })
  draft_recipients users seen (id ∷ ids) = elim (user_by_id id users) [
    | none ↦ draft_recipients users seen ids
    | some u ↦ elim (normalize_phone_number u.phone) [
      | none ↦ do d ← draft_recipients users seen ids; ok (add_skipped d)
      | some phone ↦ elim (is_member phone seen) [
        | true ↦ do d ← draft_recipients users seen ids; ok (add_duplicate d)
        | false ↦ do
          p ← fill u
          d ← draft_recipients users (phone ∷ seen) ids
          ok (add_draft (draft_of u phone p) d)
      ]
    ]
  ]
