-- ===== src/Worker/Marks.antt =====
-- What the updates of a bulk campaign's recipients come to, all together.
use noti.Common.{
  ◌≡◌, ◌∙◌, ap, sym, refl, Bool, false, not, ◌&&◌, List, [], ◌∷◌, Option, none, some, arith,
  if◌then◌else◌, is_empty, any, map, Option-cases, inl, inr,
}
use noti.Text.{Text}
use noti.Worker.Bulk.{
  RecipientStatus, Recipient, SendResultItem, is_accepted, same_key, mark, mark_all,
}

-- The item is not accepted and has the key.
abbrev pub rejects : SendResultItem → Option Text → Bool
rejects i key =
    not (is_accepted i)
    && elim i.recipient_grouping_key [ none ↦ false | some k ↦ not (is_empty k) && same_key k key ]

-- the status after all the updates
abbrev pub status_after : List SendResultItem → Recipient → RecipientStatus
status_after items r =
    if any (λ i. rejects i r.recipient_grouping_key) items then RecipientStatus.failed else r.status

-- one item's update
abbrev marked : SendResultItem → Recipient → Recipient
marked i r = elim i.recipient_grouping_key [
  | none ↦ r
  | some k ↦ if is_empty k then r else mark i k r
]

status_after-marked :
    (i : SendResultItem) (items : List SendResultItem) (r : Recipient)
    → (status_after items (marked i r) ≡ status_after (i ∷ items) r) × ((marked i r).id ≡ r.id)
unfolding mark
status_after-marked i items r = elim (Option-cases i.recipient_grouping_key) [
  | inl e ↦ ground (arith, e)
  | inr (k, e) ↦ ground (arith, e)
]

-- the updates of one item
updates_of_one :
    (i : SendResultItem) (rs : List Recipient)
    → map (marked i) rs ≡ (elim i.recipient_grouping_key as (λ o. List Recipient) [
      | none ↦ rs
      | some k ↦ if is_empty k then rs else map (mark i k) rs
    ])
updates_of_one i [] = elim (Option-cases i.recipient_grouping_key) [
  | inl e ↦ ground (arith, e)
  | inr (k, e) ↦ ground (arith, e)
]
updates_of_one i (r ∷ rs) = elim (Option-cases i.recipient_grouping_key) [
  | inl e ↦ ground (arith, e, updates_of_one i rs)
  | inr (k, e) ↦ ground (arith, e, updates_of_one i rs)
]

mark_all-step :
    (i : SendResultItem) (items : List SendResultItem) (rs : List Recipient)
    → mark_all (i ∷ items) rs ≡ mark_all items (map (marked i) rs)
unfolding mark_all
mark_all-step i items rs = ap (mark_all items) (sym (updates_of_one i rs))

map_after-marked :
    (i : SendResultItem) (items : List SendResultItem) (rs : List Recipient)
    → (map (status_after items) (map (marked i) rs) ≡ map (status_after (i ∷ items)) rs)
      × (map (λ r. r.id) (map (marked i) rs) ≡ map (λ r. r.id) rs)
map_after-marked i items [] = (refl, refl)
map_after-marked i items (r ∷ rs) =
    let (s, d) = status_after-marked i items r in
    let (ss, ds) = map_after-marked i items rs in (rw (s, ss) refl, rw (d, ds) refl)

same_statuses :
    (rs : List Recipient)
    → (map (λ r. r.status) (mark_all [] rs) ≡ map (status_after []) rs)
      × (map (λ r. r.id) (mark_all [] rs) ≡ map (λ r. r.id) rs)
unfolding mark_all
same_statuses rs = (refl, refl)

-- The updates of a provider's answer keep the recipients and their order. A recipient is FAILED
-- afterwards exactly if it was before or some item with its key, which is not empty, was not accepted;
-- no other status changes.
pub mark_all_statuses :
    (items : List SendResultItem) (rs : List Recipient)
    → (map (λ r. r.status) (mark_all items rs) ≡ map (status_after items) rs)
      × (map (λ r. r.id) (mark_all items rs) ≡ map (λ r. r.id) rs)
mark_all_statuses [] rs = same_statuses rs
mark_all_statuses (i ∷ items) rs =
    let (s, d) = mark_all_statuses items (map (marked i) rs) in
    let (s', d') = map_after-marked i items rs in rw (mark_all-step i items rs) (s ∙ s', d ∙ d')
