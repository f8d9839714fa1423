-- ===== src/Bulk/Posting.antt =====
-- What follows the preparation of a campaign: the ledger stays within the limits, and the worker that
-- takes the campaign posts it.
use noti.Common.{
  ℕ, ◌≡◌, ◌≤◌, ◌<◌, Bool, true, false, Option, none, some, is_empty, arith, Outcome-cases, inl, inr,
  ok,
}
use noti.Text.{Text}
use noti.Json.{Json}
use noti.Senders.{SenderNumber}
use noti.Quota.{Db, used_in, ensure_user, get_kst_month_window, reserve_campaign}
use noti.Quota.Limit.{reserve_campaign-within}
use noti.Worker.Bulk.{
  is_concluded, Campaign, bulk_sms, SendResult, checked, submitted, process_bulk_campaign,
}
use noti.Bulk.Rows.{CreateBulkSmsCampaignDto, Stored, BulkSmsCampaign, CampaignDraft}
use noti.Bulk.Draft.{write_campaign, prepare_campaign_draft}
use noti.Bulk.Found.{are_distinct}
use noti.Bulk.Prepared.{prepared_lem}
use noti.Bulk.Complete.{prepare_campaign_draft-IsComplete}

-- `findUnique` of the worker, with the campaign's sender number
unfoldable pub load_campaign : BulkSmsCampaign → SenderNumber → Campaign
load_campaign c sender = record {
  status = c.status;
  nhn_request_id = c.nhn_request_id;
  sender = some sender.phone_number;
  template_code = none;
  recipients = c.recipients;
  error = none;
}

module _ (parse_date : Text → Option ℕ) (kst_parts : ℕ → ℕ × ℕ) (utc : ℕ → ℕ → ℕ)
    (stringify : Json → Text) (is_inherited : Text → Bool) (now : ℕ) where
  -- A preparation that succeeds keeps every owner's SMS usage of a month within the owner's limit, if a
  -- time in the month has that month as its window; and it keeps the limits.
  pub prepare_campaign_draft-within :
      (owner : Text) (dto : CreateBulkSmsCampaignDto) (title campaign_id : Text)
      (recipient_id : ℕ → Text) (s : Stored) (c : CampaignDraft) (db : Db) (other : Text)
      (window : ℕ × ℕ) (user : Text) (limit : ℕ)
      → ensure_user s.ledger other ≡ ok (user, limit)
      → used_in other window s.ledger.ledger ≤ limit
      → ((t : ℕ) → window.0 ≤ t → t < window.1 → get_kst_month_window kst_parts utc t ≡ window)
      → prepare_campaign_draft parse_date kst_parts utc stringify is_inherited now owner dto title
          campaign_id recipient_id s
        ≡ ok (c, db)
      → (used_in other window db.ledger ≤ limit) × (ensure_user db other ≡ ok (user, limit))
  unfolding write_campaign
  prepare_campaign_draft-within owner dto title campaign_id recipient_id s c db other window user
        limit known within month e =
      let p =
        prepared_lem parse_date kst_parts utc stringify is_inherited now owner dto title campaign_id
          recipient_id s c db e in
      let at = elim c.campaign.scheduled_at as (λ x. ℕ) [ none ↦ now | some t ↦ t ] in
      let sender = some c.campaign.sender_number_id in
      let reserved : reserve_campaign kst_parts utc s.ledger owner sender at
            c.campaign.total_recipient_count c.campaign.id
          ≡ ok db =
        elim (Outcome-cases (
          reserve_campaign kst_parts utc s.ledger owner sender at c.campaign.total_recipient_count
            c.campaign.id)) [
              | inl (made, f) ↦ ground (arith, p.written, f)
              | inr (x, f) ↦ absurd (ground (arith, p.written, f))
            ] in
      reserve_campaign-within kst_parts utc s.ledger db owner other sender at
        c.campaign.total_recipient_count c.campaign.id window user limit known within (month at)
        reserved

  -- The worker that takes a prepared campaign posts it to the provider, and stores what the provider
  -- answers: none of the worker's own checks refuses it.
  pub prepare_campaign_draft-posted :
      (owner : Text) (dto : CreateBulkSmsCampaignDto) (title campaign_id : Text)
      (recipient_id : ℕ → Text) (s : Stored) (c : CampaignDraft) (db : Db) (result : SendResult)
      → are_distinct s.users ≡ true
      → prepare_campaign_draft parse_date kst_parts utc stringify is_inherited now owner dto title
          campaign_id recipient_id s
        ≡ ok (c, db)
      → process_bulk_campaign bulk_sms (ok result) (load_campaign c.campaign c.sender_number)
        ≡ (submitted result (load_campaign c.campaign c.sender_number), ok tt, true)
  unfolding process_bulk_campaign checked load_campaign is_concluded
  prepare_campaign_draft-posted owner dto title campaign_id recipient_id s c db result distinct e =
      let p =
        prepared_lem parse_date kst_parts utc stringify is_inherited now owner dto title campaign_id
          recipient_id s c db e in
      let k =
        prepare_campaign_draft-IsComplete parse_date kst_parts utc stringify is_inherited now owner
          dto title campaign_id recipient_id s c db distinct e in
      let filled : is_empty c.campaign.recipients ≡ false =
        ground (arith, k.stored, k.some_recipient) in
      ground (arith, filled, p.new_status, p.unsent)
