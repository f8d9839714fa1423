-- ===== src/Bulk/Prepared.antt =====
-- What a preparation of a campaign that succeeded has gone through.
use noti.Common.{
  ℕ, ◌≡◌, ◌∙◌, refl, ap, subst, Bool, Option, none, length, arith, Outcome-cases, inl, inr, ok,
}
use noti.Text.{Text, trim}
use noti.Sms.{or_empty, or_text}
use noti.Json.{Json}
use noti.Template.{extract_required_variables}
use noti.Quota.{Db}
use noti.Worker.Bulk.{processing}
use noti.Bulk.Body.{body_of}
use noti.Bulk.Rows.{CreateBulkSmsCampaignDto, Stored, Drafts, CampaignDraft, recipient_rows}
use noti.Bulk.Draft.{
  campaign_draft, normalize_scheduled_at, check_users, draft_all, write_campaign,
  prepare_campaign_draft,
}

module _ (parse_date : Text → Option ℕ) (kst_parts : ℕ → ℕ × ℕ) (utc : ℕ → ℕ → ℕ)
    (stringify : Json → Text) (is_inherited : Text → Bool) (now : ℕ) where
  -- What a preparation that succeeded has gone through.
  pub record IsPrepared (owner : Text) (dto : CreateBulkSmsCampaignDto) (recipient_id : ℕ → Text)
      (s : Stored) (c : CampaignDraft) (db : Db) : Type 0 where
    pub drafts : Drafts
    pub checked_users :
        check_users parse_date kst_parts utc stringify is_inherited now owner dto s
        ≡ ok c.sender_number
    pub drafted :
        draft_all parse_date kst_parts utc stringify is_inherited now owner dto s c.campaign.body
        ≡ ok drafts
    pub written :
        write_campaign parse_date kst_parts utc stringify is_inherited now owner c.campaign s.ledger
        ≡ ok db
    pub variables : c.required_variables ≡ extract_required_variables c.campaign.body
    pub recipients : c.recipient_drafts ≡ drafts.recipient_drafts
    pub rows : c.campaign.recipients ≡ recipient_rows recipient_id 0 drafts.recipient_drafts
    pub total : c.campaign.total_recipient_count ≡ length drafts.recipient_drafts
    pub skipped : c.campaign.skipped_no_phone_count ≡ drafts.skipped_no_phone_count
    pub new_status : c.campaign.status ≡ processing
    pub unsent : c.campaign.nhn_request_id ≡ none
    pub duplicate : c.campaign.duplicate_phone_count ≡ drafts.duplicate_phone_count

  pub prepared_lem :
      (owner : Text) (dto : CreateBulkSmsCampaignDto) (title campaign_id : Text)
      (recipient_id : ℕ → Text) (s : Stored) (c : CampaignDraft) (db : Db)
      → prepare_campaign_draft parse_date kst_parts utc stringify is_inherited now owner dto title
          campaign_id recipient_id s
        ≡ ok (c, db)
      → IsPrepared owner dto recipient_id s c db
  unfolding prepare_campaign_draft
  prepared_lem owner dto title campaign_id recipient_id s c db e =
      elim (Outcome-cases (
        normalize_scheduled_at parse_date kst_parts utc stringify is_inherited now
          dto.scheduled_at)) [
            | inr (x, f) ↦ absurd (ground (arith, e, f))
            | inl (at, f) ↦
                elim (Outcome-cases
                  (check_users parse_date kst_parts utc stringify is_inherited now owner dto s)) [
                    | inr (x, g) ↦ absurd (ground (arith, e, f, g))
                    | inl (sender, g) ↦
                        elim (Outcome-cases (
                          body_of dto.template_id s.template dto.body dto.is_advertisement
                            dto.advertising_service_name s.service)) [
                              | inr (x, h) ↦ absurd (ground (arith, e, f, g, h))
                              | inl (body, h) ↦
                                  elim (Outcome-cases (
                                    draft_all parse_date kst_parts utc stringify is_inherited now
                                      owner dto s body)) [
                                        | inr (x, k) ↦ absurd (ground (arith, e, f, g, h, k))
                                        | inl (d, k) ↦
                                            let made =
                                              campaign_draft owner
                                                (or_text (trim (or_empty dto.title)) title)
                                                campaign_id recipient_id at sender body d in
                                            elim (Outcome-cases (
                                              write_campaign parse_date kst_parts utc stringify
                                                is_inherited now owner made.campaign s.ledger)) [
                                                  | inr (x, w) ↦
                                                      absurd (ground (arith, e, f, g, h, k, w))
                                                  | inl (db', w) ↦
                                                      let same : made ≡ c =
                                                        ground (arith, e, f, g, h, k, w) in
                                                      let kept : db' ≡ db =
                                                        ground (arith, e, f, g, h, k, w) in
                                                      subst
                                                        (λ c'.
                                                          IsPrepared owner dto recipient_id s c' db)
                                                        same
                                                        (record {
                                                          drafts = d;
                                                          checked_users = g;
                                                          drafted = k;
                                                          written = w ∙ ap ok kept;
                                                          variables = refl;
                                                          recipients = refl;
                                                          rows = refl;
                                                          total = refl;
                                                          skipped = refl;
                                                          new_status = refl;
                                                          unsent = refl;
                                                          duplicate = refl;
                                                        })
                                                ]
                                      ]
                            ]
                  ]
          ]
