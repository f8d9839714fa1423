-- ===== src/Kakao/Brand/Prepared.antt =====
-- What a preparation of a bulk brand message that succeeded has gone through.
use noti.Common.{
  ℕ, ◌≡◌, refl, subst, Bool, true, Option, none, length, arith, ok, inl, inr, Bool-cases,
  Outcome-cases,
}
use noti.Text.{Text, trim}
use noti.Json.{Json}
use noti.Sms.{or_empty, or_text}
use noti.Worker.Bulk.{processing}
use noti.Bulk.Rows.{Drafts, recipient_rows}
use noti.Kakao.{normalize_scheduled_at, check_selection}
use noti.Kakao.Brand.{
  BrandStored, BrandDraft, brand_draft, draft_brand_recipients, fill_content, prepare_brand_draft,
}
use noti.Kakao.Brand.Content.{
  CreateBulkBrandMessageCampaignDto, BrandContent, mode_of, message_type_of, image_link_of,
  image_url_of, is_web_link, normalize_buttons,
}

module _ (stringify : Json → Text) (is_inherited : Text → Bool) where
  pub record IsPrepared (owner : Text) (dto : CreateBulkBrandMessageCampaignDto)
      (recipient_id : ℕ → Text) (s : BrandStored) (c : BrandDraft) : Type 0 where
    pub drafts : Drafts
    pub content : BrandContent
    pub checked :
        check_selection owner dto.sender_profile_id dto.user_ids s.profiles s.users
        ≡ ok c.sender_profile
    pub linked : is_web_link c.campaign.image_link ≡ true
    pub drafted : draft_brand_recipients owner dto s ≡ ok drafts
    pub filled :
        fill_content stringify is_inherited owner dto s drafts.recipient_drafts
        ≡ ok (content, c.recipient_drafts)
    pub body : c.campaign.body ≡ content.body
    pub code : c.campaign.template_code ≡ content.template_code
    pub mode : c.campaign.mode ≡ mode_of dto
    pub type : c.campaign.message_type ≡ message_type_of dto
    pub buttons : c.campaign.buttons ≡ normalize_buttons dto.buttons
    pub image_url : c.campaign.image_url ≡ image_url_of dto
    pub rows : c.campaign.recipients ≡ recipient_rows recipient_id 0 c.recipient_drafts
    pub total : c.campaign.total_recipient_count ≡ length c.recipient_drafts
    pub skipped : c.campaign.skipped_no_phone_count ≡ drafts.skipped_no_phone_count
    pub duplicate : c.campaign.duplicate_phone_count ≡ drafts.duplicate_phone_count
    pub new_status : c.campaign.status ≡ processing
    pub unsent : c.campaign.nhn_request_id ≡ none

  pub prepare_brand_draft-IsPrepared :
      (parse_date : Text → Option ℕ) (now : ℕ) (owner : Text)
      (dto : CreateBulkBrandMessageCampaignDto) (title campaign_id : Text) (recipient_id : ℕ → Text)
      (s : BrandStored) (c : BrandDraft)
      → prepare_brand_draft stringify is_inherited parse_date now owner dto title campaign_id
          recipient_id s
        ≡ ok c
      → IsPrepared owner dto recipient_id s c
  unfolding prepare_brand_draft
  prepare_brand_draft-IsPrepared parse_date now owner dto title campaign_id recipient_id s c e =
      elim (Outcome-cases (normalize_scheduled_at parse_date now dto.scheduled_at)) [
        | inr (x, f) ↦ absurd (ground (arith, e, f))
        | inl (at, f) ↦
            elim (Outcome-cases
              (check_selection owner dto.sender_profile_id dto.user_ids s.profiles s.users)) [
                | inr (x, g) ↦ absurd (ground (arith, e, f, g))
                | inl (profile, g) ↦ elim (Bool-cases (is_web_link (image_link_of dto))) [
                  | inr l ↦ absurd (ground (arith, e, f, g, l))
                  | inl l ↦ elim (Outcome-cases (draft_brand_recipients owner dto s)) [
                    | inr (x, h) ↦ absurd (ground (arith, e, f, g, l, h))
                    | inl (d, h) ↦
                        elim (Outcome-cases
                          (fill_content stringify is_inherited owner dto s d.recipient_drafts)) [
                            | inr (x, k) ↦ absurd (ground (arith, e, f, g, l, h, k))
                            | inl ((content, recipients), k) ↦
                                let made =
                                  brand_draft owner (or_text (trim (or_empty dto.title)) title)
                                    campaign_id recipient_id at profile dto content recipients d in
                                let same : made ≡ c = ground (arith, e, f, g, l, h, k) in
                                subst (IsPrepared owner dto recipient_id s) same (record {
                                  drafts = d;
                                  content = content;
                                  checked = g;
                                  linked = l;
                                  drafted = h;
                                  filled = k;
                                  body = refl;
                                  code = refl;
                                  mode = refl;
                                  type = refl;
                                  buttons = refl;
                                  image_url = refl;
                                  rows = refl;
                                  total = refl;
                                  skipped = refl;
                                  duplicate = refl;
                                  new_status = refl;
                                  unsent = refl;
                                })
                          ]
                  ]
                ]
              ]
      ]
