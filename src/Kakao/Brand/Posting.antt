-- ===== src/Kakao/Brand/Posting.antt =====
-- What a prepared bulk brand message is, and the worker that takes it.
use noti.Common.{
  ℕ, ◌≡◌, ◌∙◌, refl, sym, ap, subst, Bool, true, false, [], Option, none, some, is_empty, find?,
  length, arith, ok, inl, inr, Outcome-cases,
}
use noti.Text.{Text}
use noti.Json.{Json}
use noti.Worker.Bulk.{
  is_concluded, Campaign, bulk_brand_message, SendResult, checked, submitted, process_bulk_campaign,
}
use noti.Bulk.Rows.{Drafts, normalize_user_ids, find_users}
use noti.Bulk.Loop.{draft_recipients}
use noti.Bulk.Found.{are_distinct}
use noti.Bulk.Filled.{draft_recipients-all}
use noti.Bulk.Recipients.{are_given}
use noti.Bulk.Complete.{length-recipient_rows}
use noti.Kakao.{SenderProfile, is_stopped, is_profile_of}
use noti.Kakao.Selected.{IsSelected, check_selection_inv, draft_recipients-IsSelected}
use noti.Kakao.Brand.{
  BrandStored, BulkBrandMessageCampaign, BrandDraft, no_parameters, draft_brand_recipients,
  prepare_brand_draft,
}
use noti.Kakao.Brand.Content.{CreateBulkBrandMessageCampaignDto, is_web_link, mode_of}
use noti.Kakao.Brand.Filling.{user_is_found, reached-filled, draft_of-user_is_found}
use noti.Kakao.Brand.Prepared.{prepare_brand_draft-IsPrepared}
use noti.Kakao.Brand.Names.{names_asked}
use noti.Kakao.Brand.Limits.{code_asked, meets_mode, fill_content-IsContent}

-- `findUnique` of the worker, with the campaign's sender profile
unfoldable pub load_brand_campaign : BulkBrandMessageCampaign → SenderProfile → Campaign
load_brand_campaign c profile = record {
  status = c.status;
  nhn_request_id = c.nhn_request_id;
  sender = some profile.sender_key;
  template_code = c.template_code;
  recipients = c.recipients;
  error = none;
}

-- What a prepared campaign is, for the ids that were asked for.
pub record IsComplete (owner : Text) (dto : CreateBulkBrandMessageCampaignDto) (s : BrandStored)
    (c : BrandDraft) : Type 0 where
  pub profile : find? (is_profile_of owner dto.sender_profile_id) s.profiles ≡ some c.sender_profile
  pub running : is_stopped c.sender_profile.status ≡ false
  pub linked : is_web_link c.campaign.image_link ≡ true
  pub has_body : is_empty c.campaign.body ≡ false
  pub meets :
      meets_mode c.campaign.mode c.campaign.message_type c.campaign.body c.campaign.buttons
        c.campaign.image_url c.campaign.template_code
      ≡ true
  pub code : c.campaign.template_code ≡ code_asked c.campaign.mode dto
  pub stored : length c.campaign.recipients ≡ c.campaign.total_recipient_count
  pub selected :
      IsSelected
        (names_asked c.campaign.mode dto c.campaign.body)
        (find_users owner (normalize_user_ids dto.user_ids) s.users)
        (normalize_user_ids dto.user_ids)
        c.recipient_drafts
        c.campaign.total_recipient_count
        c.campaign.skipped_no_phone_count
        c.campaign.duplicate_phone_count

draft_brand_recipients_inv :
    (owner : Text) (dto : CreateBulkBrandMessageCampaignDto) (s : BrandStored) (d : Drafts)
    → draft_brand_recipients owner dto s ≡ ok d
    → (draft_recipients no_parameters
          (find_users owner (normalize_user_ids dto.user_ids) s.users)
          []
          (normalize_user_ids dto.user_ids)
        ≡ ok d)
      × (is_empty d.recipient_drafts ≡ false)
unfolding draft_brand_recipients
draft_brand_recipients_inv owner dto s d e =
    let ids = normalize_user_ids dto.user_ids in
    elim (Outcome-cases (draft_recipients no_parameters (find_users owner ids s.users) [] ids)) [
      | inr (x, f) ↦ absurd (ground (arith, e, f))
      | inl (made, f) ↦
          let same : made ≡ d = ground (arith, e, f) in
          let filled : is_empty made.recipient_drafts ≡ false = ground (arith, e, f) in
          (f ∙ ap ok same, subst (λ x. is_empty x.recipient_drafts ≡ false) same filled)
    ]

module _ (stringify : Json → Text) (is_inherited : Text → Bool) where
  pub prepare_brand_draft-IsComplete :
      (parse_date : Text → Option ℕ) (now : ℕ) (owner : Text)
      (dto : CreateBulkBrandMessageCampaignDto) (title campaign_id : Text) (recipient_id : ℕ → Text)
      (s : BrandStored) (c : BrandDraft)
      → are_distinct s.users ≡ true
      → prepare_brand_draft stringify is_inherited parse_date now owner dto title campaign_id
          recipient_id s
        ≡ ok c
      → IsComplete owner dto s c
  prepare_brand_draft-IsComplete parse_date now owner dto title campaign_id recipient_id s c
        distinct e =
      let p =
        prepare_brand_draft-IsPrepared stringify is_inherited parse_date now owner dto title
          campaign_id recipient_id s c e in
      let ids = normalize_user_ids dto.user_ids in
      let users = find_users owner ids s.users in
      let rs = p.drafts.recipient_drafts in
      let (found, running, few, as_many) =
        check_selection_inv owner dto.sender_profile_id dto.user_ids s.profiles s.users
          c.sender_profile p.checked in
      let (drafted, filled) = draft_brand_recipients_inv owner dto s p.drafts p.drafted in
      let known =
        draft_recipients-all no_parameters (user_is_found users) users [] ids p.drafts
          (λ id u phone q at made. draft_of-user_is_found users id u phone q at) drafted in
      let selected =
        draft_recipients-IsSelected no_parameters [] owner ids s.users p.drafts (λ u q made. refl)
          distinct few as_many drafted filled in
      let content =
        fill_content-IsContent stringify is_inherited owner dto s rs c.recipient_drafts p.content
          known p.filled in
      let f = content.filled in
      record {
        profile = found;
        running = running;
        linked = p.linked;
        has_body = subst (λ x. is_empty x ≡ false) (sym p.body) content.has_body;
        meets =
            ground (arith, p.mode, p.type, p.body, p.buttons, p.image_url, p.code, content.meets);
        code = ground (arith, p.code, content.code, p.mode);
        stored =
            ap length p.rows
            ∙ length-recipient_rows recipient_id 0 c.recipient_drafts
            ∙ sym p.total;
        selected = record {
          counted = ground (arith, p.total, f.as_many, p.skipped, p.duplicate, selected.counted);
          without = p.skipped ∙ selected.without;
          some_recipient = ground (arith, p.total, f.as_many, selected.some_recipient);
          at_most = ground (arith, p.total, f.as_many, selected.at_most);
          as_many = sym p.total;
          new = f.new [] ∙ selected.new;
          reached = reached-filled users rs c.recipient_drafts ids f.phones selected.reached;
          given =
              subst
                (λ mode. are_given (names_asked mode dto c.campaign.body) c.recipient_drafts ≡ true)
                (sym p.mode)
                (subst
                  (λ body. are_given (names_asked (mode_of dto) dto body) c.recipient_drafts ≡ true)
                  (sym p.body) f.given);
        };
      }

  -- The worker that takes a prepared campaign of a profile with a sender key posts it, and stores what
  -- the provider answers: none of the worker's own checks refuses it.
  pub prepare_brand_draft-posted :
      (parse_date : Text → Option ℕ) (now : ℕ) (owner : Text)
      (dto : CreateBulkBrandMessageCampaignDto) (title campaign_id : Text) (recipient_id : ℕ → Text)
      (s : BrandStored) (c : BrandDraft) (result : SendResult)
      → are_distinct s.users ≡ true
      → is_empty c.sender_profile.sender_key ≡ false
      → prepare_brand_draft stringify is_inherited parse_date now owner dto title campaign_id
          recipient_id s
        ≡ ok c
      → process_bulk_campaign bulk_brand_message
          (ok result)
          (load_brand_campaign c.campaign c.sender_profile)
        ≡ (submitted result (load_brand_campaign c.campaign c.sender_profile), ok tt, true)
  unfolding process_bulk_campaign checked load_brand_campaign is_concluded
  prepare_brand_draft-posted parse_date now owner dto title campaign_id recipient_id s c result
        distinct key e =
      let p =
        prepare_brand_draft-IsPrepared stringify is_inherited parse_date now owner dto title
          campaign_id recipient_id s c e in
      let k =
        prepare_brand_draft-IsComplete parse_date now owner dto title campaign_id recipient_id s c
          distinct e in
      let filled : is_empty c.campaign.recipients ≡ false =
        ground (arith, k.stored, k.selected.some_recipient) in
      ground (arith, filled, key, p.new_status, p.unsent)
