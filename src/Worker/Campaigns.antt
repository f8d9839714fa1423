-- ===== src/Worker/Campaigns.antt =====
-- What a run of a bulk campaign and its failure leave behind: a campaign that was posted is not
-- posted again, its status is what the provider's answer says, and a job's last failure ends it.
use noti.Common.{
  ℕ, ◌≡◌, ◌↔◌, inl, inr, true, false, not, List, [], ◌∷◌, arith, any, Outcome, ok, Outcome-cases,
  All, Some,
}
use noti.Worker.{WorkerError}
use noti.Worker.Bulk.{
  CampaignStatus, Campaign, SendResultItem, SendResult, Kind, is_concluded, checked, is_accepted,
  status_of, submitted, process_bulk_campaign, on_bulk_failed, is_filled, last_bulk_run,
}

status_of-is_concluded : (items : List SendResultItem) → is_concluded (status_of items) ≡ true
unfolding status_of is_concluded
status_of-is_concluded items = ground arith

-- A run of a campaign that posted without an error leaves the campaign such that every later run,
-- whatever the provider would answer, changes nothing and posts nothing.
pub process_bulk_campaign-once :
    (kind : Kind) (posted later : Outcome WorkerError SendResult) (c c' : Campaign)
    → process_bulk_campaign kind posted c ≡ (c', ok tt, true)
    → process_bulk_campaign kind later c' ≡ (c', ok tt, false)
unfolding process_bulk_campaign submitted
process_bulk_campaign-once kind posted later c c' h = elim (Outcome-cases (checked kind c)) [
  | inl (done, p) ↦ elim (Outcome-cases posted) [
    | inl (result, q) ↦ ground (arith, p, q, h, status_of-is_concluded result.send_result_list)
    | inr (e, q) ↦ ground (arith, p, q, h)
  ]
  | inr (e, p) ↦ ground (arith, p, h)
]

any_accepted :
    (items : List SendResultItem)
    → (any is_accepted items ≡ true) ↔ Some (λ i. is_accepted i ≡ true) items
any_accepted [] = ground arith
any_accepted (i ∷ items) = ground (arith, any_accepted items)

none_rejected :
    (items : List SendResultItem)
    → (any (λ i. not (is_accepted i)) items ≡ false) ↔ All (λ i. is_accepted i ≡ true) items
none_rejected [] = ground arith
none_rejected (i ∷ items) = ground (arith, none_rejected items)

-- The status that a provider's answer gives a campaign: SENT_TO_PROVIDER exactly when some item was
-- accepted and every item was, FAILED exactly when no item was accepted, and never PROCESSING.
pub status_of_iff :
    (items : List SendResultItem)
    → ((status_of items ≡ CampaignStatus.sent_to_provider)
        ↔ (Some (λ i. is_accepted i ≡ true) items × All (λ i. is_accepted i ≡ true) items))
      × ((status_of items ≡ CampaignStatus.failed) ↔ ¬ Some (λ i. is_accepted i ≡ true) items)
      × ¬ (status_of items ≡ CampaignStatus.processing)
unfolding status_of
status_of_iff items = ground (arith, any_accepted items, none_rejected items)

-- The last run of a job ends a campaign: for one that has no provider's request id, whatever the
-- provider answers, after the run and, if it threw, the failure handler of the last attempt, the
-- status is no longer PROCESSING.
pub last_bulk_run-is_concluded :
    (kind : Kind) (posted : Outcome WorkerError SendResult) (c : Campaign) (attempts : ℕ)
    → is_filled c.nhn_request_id ≡ false
    → is_concluded (last_bulk_run kind posted attempts c).status ≡ true
unfolding last_bulk_run process_bulk_campaign submitted on_bulk_failed is_concluded
last_bulk_run-is_concluded kind posted c attempts h = elim (Outcome-cases (checked kind c)) [
  | inl (done, p) ↦ elim (Outcome-cases posted) [
    | inl (result, q) ↦ ground (arith, p, q, h, status_of-is_concluded result.send_result_list)
    | inr (e, q) ↦ ground (arith, p, q, h)
  ]
  | inr (e, p) ↦ ground (arith, p, h)
]
