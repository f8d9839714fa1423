-- ===== src/Delivery/Counts.antt =====
-- The counts of a campaign add up, and its status is what they say of the recipients.
use noti.Common.{
  ℕ, ◌+◌, ◌≤◌, ◌<◌, ◌≡◌, ◌↔◌, refl, Bool, true, false, List, [], ◌∷◌, Option, none, some, arith,
  length, map, Outcome, ok, Option-cases, inl, inr, if◌then◌else◌, all, any,
}
use noti.Text.{Text}
use noti.Delivery.{ResolvedStatus, Lookup, is_failure_status}
use noti.Delivery.Campaign.{
  Campaign, Recipient, Stats, find_lookup, count_status, resolved, resolve_recipients,
  resolve_submitted_campaign, no_counts, fetch_all,
}

abbrev pub counted : Stats → ℕ
counted s = s.submitted_count + s.delivered_count + s.failed_count + s.pending_count

counted-count_status :
    (st : ResolvedStatus) (s : Stats) → counted (count_status st s) ≡ counted s + 1
unfolding count_status
counted-count_status ResolvedStatus.delivered s = omega arith
counted-count_status ResolvedStatus.sent_to_provider s = omega arith
counted-count_status _ s = omega arith

total-count_status :
    (st : ResolvedStatus) (s : Stats) → (count_status st s).total_count ≡ s.total_count
unfolding count_status
total-count_status ResolvedStatus.delivered s = refl
total-count_status ResolvedStatus.sent_to_provider s = refl
total-count_status ResolvedStatus.delivery_failed s = refl
total-count_status _ s = refl

module _ (to_upper_case : Text → Text) (now : ℕ) where
  pub resolve_recipients_counts :
      (c : Campaign) (lookups : List Lookup) (rs : List Recipient) (s : Stats)
      → (counted (resolve_recipients to_upper_case now c lookups rs s).0 ≡ counted s + length rs)
        × ((resolve_recipients to_upper_case now c lookups rs s).0.total_count ≡ s.total_count)
        × (map (λ e. e.0) (resolve_recipients to_upper_case now c lookups rs s).1
            ≡ map (λ r. r.id) rs)
  unfolding resolve_recipients
  resolve_recipients_counts c lookups [] s = (omega arith, refl, refl)
  resolve_recipients_counts c lookups (r ∷ rs) s = elim (Option-cases (find_lookup lookups r)) [
    | inl e ↦
        let ih =
          resolve_recipients_counts c lookups rs
            (record s { pending_count = s.pending_count + 1 }) in
        ground (arith, e, ih)
    | inr (l, e) ↦
        let st = (resolved to_upper_case now c l).status in
        let ih = resolve_recipients_counts c lookups rs (count_status st s) in
        ground (arith, e, ih, counted-count_status st s, total-count_status st s)
  ]

  -- Every recipient of a submitted campaign whose lookups were fetched gets one entry, in order, and
  -- is counted once.
  pub resolve_submitted_campaign_counts :
      (c : Campaign) (fetched : Outcome Unit (List Lookup))
      (fallback : Option (Recipient → Outcome Unit (Option Lookup))) (lookups : List Lookup)
      → fetch_all to_upper_case now fetched fallback c.recipients ≡ ok lookups
      → (counted (resolve_submitted_campaign to_upper_case now c fetched fallback).stats
          ≡ length c.recipients)
        × (map
              (λ e. e.0)
              (resolve_submitted_campaign to_upper_case now c fetched fallback).recipients
            ≡ map (λ r. r.id) c.recipients)
  unfolding resolve_submitted_campaign
  resolve_submitted_campaign_counts c fetched fallback lookups e =
      let every =
        resolve_recipients_counts c lookups c.recipients
          (no_counts to_upper_case now c.total_recipient_count) in
      ground (arith, e, every)

abbrev pub count_if : (Recipient → Bool) → List Recipient → ℕ
count_if q [] = 0
count_if q (r ∷ rs) = (if q r then 1 else 0) + count_if q rs

pub count_if-all :
    (q : Recipient → Bool) (rs : List Recipient)
    → (count_if q rs ≤ length rs)
      × ((all q rs ≡ true) ↔ (length rs ≤ count_if q rs))
      × ((any q rs ≡ true) ↔ (0 < count_if q rs))
count_if-all q [] = ground arith
count_if-all q (r ∷ rs) = ground (arith, count_if-all q rs)

abbrev pub is_delivered : ResolvedStatus → Bool
is_delivered ResolvedStatus.delivered = true
is_delivered _ = false

module _ (to_upper_case : Text → Text) (now : ℕ) (c : Campaign) (lookups : List Lookup) where
  -- whether the lookup of a recipient was found and has such a status
  abbrev pub found_with : (ResolvedStatus → Bool) → Recipient → Bool
  found_with p r = elim (find_lookup lookups r) [
    | none ↦ false
    | some l ↦ p (resolved to_upper_case now c l).status
  ]

  counted_one :
      (st : ResolvedStatus) (s : Stats)
      → ((count_status st s).delivered_count
          ≡ s.delivered_count + (if is_delivered st then 1 else 0))
        × ((count_status st s).failed_count
            ≡ s.failed_count + (if is_failure_status st then 1 else 0))
  unfolding count_status
  counted_one ResolvedStatus.delivered s = omega arith
  counted_one ResolvedStatus.sent_to_provider s = omega arith
  counted_one ResolvedStatus.delivery_failed s = omega arith
  counted_one _ s = omega arith

  pub resolve_recipients_by_status :
      (rs : List Recipient) (s : Stats)
      → ((resolve_recipients to_upper_case now c lookups rs s).0.delivered_count
          ≡ s.delivered_count + count_if (found_with is_delivered) rs)
        × ((resolve_recipients to_upper_case now c lookups rs s).0.failed_count
            ≡ s.failed_count + count_if (found_with is_failure_status) rs)
  unfolding resolve_recipients
  resolve_recipients_by_status [] s = (omega arith, omega arith)
  resolve_recipients_by_status (r ∷ rs) s = elim (Option-cases (find_lookup lookups r)) [
    | inl e ↦
        let ih =
          resolve_recipients_by_status rs (record s { pending_count = s.pending_count + 1 }) in
        ground (arith, e, ih)
    | inr (l, e) ↦
        let st = (resolved to_upper_case now c l).status in
        let ih = resolve_recipients_by_status rs (count_status st s) in
        ground (arith, e, ih, counted_one st s)
  ]
