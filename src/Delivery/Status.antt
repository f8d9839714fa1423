-- ===== src/Delivery/Status.antt =====
-- When a campaign is shown as failed, delivered or partly failed.
use noti.Common.{
  ℕ, ◌+◌, ◌≤◌, ◌<◌, ◌≡◌, ◌↔◌, ◌∙◌, Bool, true, false, List, [], ◌∷◌, Option, none, arith, length,
  all, any, All, Outcome, ok,
}
use noti.Text.{Text}
use noti.Delivery.{delivery_failed, Lookup, is_failure_status}
use noti.Delivery.Campaign.{
  Campaign, Recipient, Stats, CampaignStatus, find_lookup, derive_campaign_status, unresolved,
  resolve_recipients, resolve_submitted_campaign, fetch_all, no_counts,
}
use noti.Delivery.Counts.{
  count_if, count_if-all, is_delivered, found_with, resolve_recipients_by_status,
  resolve_recipients_counts,
}

abbrev pub SaysWhatIsCounted : CampaignStatus → Bool → Bool → Bool → Type 0
SaysWhatIsCounted st all_failed all_delivered any_failed =
    ((st ≡ CampaignStatus.failed) ↔ (all_failed ≡ true))
    × ((st ≡ CampaignStatus.delivered) ↔ (all_delivered ≡ true))
    × ((st ≡ CampaignStatus.partial_failed) ↔ ((any_failed ≡ true) × (all_failed ≡ false)))

derive-SaysWhatIsCounted :
    (s : Stats) (n f d : ℕ) (all_failed all_delivered any_failed : Bool)
    → s.total_count ≡ n
    → 0 < n
    → s.failed_count ≡ f
    → s.delivered_count ≡ d
    → f + d ≤ n
    → ((all_failed ≡ true) ↔ (n ≤ f))
    → ((all_delivered ≡ true) ↔ (n ≤ d))
    → ((any_failed ≡ true) ↔ (0 < f))
    → SaysWhatIsCounted (derive_campaign_status s) all_failed all_delivered any_failed
unfolding derive_campaign_status
derive-SaysWhatIsCounted s n f d af ad any_f a b e g h i j k = ground arith

module _ (to_upper_case : Text → Text) (now : ℕ) (c : Campaign) where
  -- A campaign with recipients, all of them counted in its total, whose lookups were fetched is shown
  -- as failed exactly if every recipient has a lookup that says so, as delivered exactly if every
  -- recipient has a lookup of a delivery, and as partly failed exactly if some lookup, but not that
  -- of every recipient, tells of a failure.
  pub resolve_submitted_campaign_status :
      (fetched : Outcome Unit (List Lookup))
      (fallback : Option (Recipient → Outcome Unit (Option Lookup))) (lookups : List Lookup)
      → fetch_all to_upper_case now fetched fallback c.recipients ≡ ok lookups
      → c.total_recipient_count ≡ length c.recipients
      → 0 < length c.recipients
      → SaysWhatIsCounted
          (resolve_submitted_campaign to_upper_case now c fetched fallback).status
          (all (found_with to_upper_case now c lookups is_failure_status) c.recipients)
          (all (found_with to_upper_case now c lookups is_delivered) c.recipients)
          (any (found_with to_upper_case now c lookups is_failure_status) c.recipients)
  unfolding resolve_submitted_campaign
  resolve_submitted_campaign_status fetched fallback lookups e total some_there =
      let start = no_counts to_upper_case now c.total_recipient_count in
      let stats = (resolve_recipients to_upper_case now c lookups c.recipients start).0 in
      let (sum, kept, _) =
        resolve_recipients_counts to_upper_case now c lookups c.recipients start in
      let (d, f) = resolve_recipients_by_status to_upper_case now c lookups c.recipients start in
      let failing =
        count_if-all (found_with to_upper_case now c lookups is_failure_status) c.recipients in
      let delivering =
        count_if-all (found_with to_upper_case now c lookups is_delivered) c.recipients in
      rw (e, resolve_submitted_campaign)
        (derive-SaysWhatIsCounted stats (length c.recipients)
          (count_if (found_with to_upper_case now c lookups is_failure_status) c.recipients)
          (count_if (found_with to_upper_case now c lookups is_delivered) c.recipients)
          (all (found_with to_upper_case now c lookups is_failure_status) c.recipients)
          (all (found_with to_upper_case now c lookups is_delivered) c.recipients)
          (any (found_with to_upper_case now c lookups is_failure_status) c.recipients)
          (kept ∙ total) some_there (omega (arith, f)) (omega (arith, d)) (omega (arith, sum, f, d))
          failing.1 delivering.1 failing.2)

  unresolved_lem :
      (lookups : List Lookup) (rs : List Recipient) (s : Stats)
      → All (λ r. (find_lookup lookups r ≡ none) × (r.is_failed ≡ true)) rs
      → ((resolve_recipients to_upper_case now c lookups rs s).0
          ≡ record s { pending_count = s.pending_count + length rs })
        × All
            (λ e. e.1.status ≡ delivery_failed)
            (resolve_recipients to_upper_case now c lookups rs s).1
  unfolding resolve_recipients unresolved
  unresolved_lem lookups [] s h = (ground arith, tt)
  unresolved_lem lookups (r ∷ rs) s ((e, f), h) =
      let ih = unresolved_lem lookups rs (record s { pending_count = s.pending_count + 1 }) h in
      (ground (arith, e, ih), ground (arith, e, f, ih))

  -- Recipients that the provider refused at submission and has no lookup for are shown as
  -- DELIVERY_FAILED one by one, and counted as pending: a campaign of such recipients only has no
  -- failed recipient in its counts and is shown as in progress.
  pub refused-pending :
      (fetched : Outcome Unit (List Lookup))
      (fallback : Option (Recipient → Outcome Unit (Option Lookup))) (lookups : List Lookup)
      → fetch_all to_upper_case now fetched fallback c.recipients ≡ ok lookups
      → 0 < c.total_recipient_count
      → All (λ r. (find_lookup lookups r ≡ none) × (r.is_failed ≡ true)) c.recipients
      → ((resolve_submitted_campaign to_upper_case now c fetched fallback).status
          ≡ CampaignStatus.in_progress)
        × ((resolve_submitted_campaign to_upper_case now c fetched fallback).stats.failed_count ≡ 0)
        × ((resolve_submitted_campaign to_upper_case now c fetched fallback).stats.pending_count
            ≡ length c.recipients)
        × All
            (λ e. e.1.status ≡ delivery_failed)
            (resolve_submitted_campaign to_upper_case now c fetched fallback).recipients
  unfolding resolve_submitted_campaign derive_campaign_status
  refused-pending fetched fallback lookups e total h =
      let start = no_counts to_upper_case now c.total_recipient_count in
      let (stats, shown) = unresolved_lem lookups c.recipients start h in
      rw (e, resolve_submitted_campaign)
        (ground (arith, stats), ground (arith, stats), ground (arith, stats), shown)
