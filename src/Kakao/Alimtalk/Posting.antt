-- ===== src/Kakao/Alimtalk/Posting.antt =====
-- What a prepared bulk AlimTalk campaign is, and the worker that takes it.
use noti.Common.{
  ℕ, suc, ◌≡◌, ◌∙◌, refl, sym, ap, subst, Bool, true, false, List, [], ◌∷◌, ◌++◌, Option, none,
  some, is_empty, all, find?, length, arith, ok, inl, inr, Outcome-cases,
}
use noti.Text.{Text}
use noti.Json.{Json}
use noti.Worker.Bulk.{
  is_concluded, is_object, Campaign, bulk_alimtalk, SendResult, checked, submitted,
  process_bulk_campaign,
}
use noti.Bulk.Users.{ManagedUser, parameters_of}
use noti.Bulk.Body.{check_mappings, set_mappings}
use noti.Bulk.Rows.{
  Drafts, RecipientDraft, normalize_user_ids, find_users, user_system_fields, recipient_rows,
  draft_of,
}
use noti.Bulk.Loop.{draft_recipients}
use noti.Bulk.Found.{are_distinct}
use noti.Bulk.Filled.{draft_recipients-all}
use noti.Bulk.Recipients.{are_new, are_given, is_reached}
use noti.Bulk.Complete.{check_mappings-mapped, length-recipient_rows}
use noti.Kakao.{SenderProfile, is_stopped, is_profile_of, template_parameters_for}
use noti.Kakao.Selected.{
  IsSelected, check_selection_inv, template_parameters_for-is_given, draft_recipients-IsSelected,
}
use noti.Kakao.Alimtalk.{
  CreateBulkAlimtalkCampaignDto, AlimtalkStored, ResolvedTemplate, BulkAlimtalkCampaign,
  AlimtalkDraft, asked_template, draft_alimtalk_recipients, prepare_alimtalk_draft,
}
use noti.Kakao.Alimtalk.Prepared.{
  IsResolved, resolve_template_inv, prepare_alimtalk_draft-IsPrepared,
}

-- `findUnique` of the worker, with the campaign's sender profile
unfoldable pub load_alimtalk_campaign : BulkAlimtalkCampaign → SenderProfile → Campaign
load_alimtalk_campaign c profile = record {
  status = c.status;
  nhn_request_id = c.nhn_request_id;
  sender = some profile.sender_key;
  template_code = c.template_code;
  recipients = c.recipients;
  error = none;
}

abbrev pub is_filled_in : RecipientDraft → Bool
is_filled_in r = elim r.template_parameters [ none ↦ false | some p ↦ true ]

template_parameters_for-filled :
    (stringify : Json → Text) (is_inherited : Text → Bool) (required : List Text)
    (mappings : List (Text × Text)) (u : ManagedUser) (phone : Text)
    (p : Option (List (Text × Text)))
    → template_parameters_for stringify is_inherited required mappings u ≡ ok p
    → is_filled_in (draft_of u phone p) ≡ true
unfolding template_parameters_for
template_parameters_for-filled stringify is_inherited required mappings u phone p e =
    elim (Outcome-cases (parameters_of stringify is_inherited u mappings required)) [
      | inr (x, f) ↦ absurd (ground (arith, e, f))
      | inl (given, f) ↦ ground (arith, e, f)
    ]

recipient_rows-is_object :
    (new_id : ℕ → Text) (n : ℕ) (rs : List RecipientDraft)
    → all is_filled_in rs ≡ true
    → all (λ r. is_object r.template_parameters) (recipient_rows new_id n rs) ≡ true
unfolding recipient_rows
recipient_rows-is_object new_id n [] h = refl
recipient_rows-is_object new_id n (r ∷ rs) h =
    ground (arith, h, recipient_rows-is_object new_id (suc n) rs)

-- What a prepared campaign is, for the ids that were asked for.
pub record IsComplete (owner : Text) (dto : CreateBulkAlimtalkCampaignDto) (s : AlimtalkStored)
    (c : AlimtalkDraft) : Type 0 where
  pub template : ResolvedTemplate
  pub resolved : IsResolved dto (asked_template owner dto s.templates) template
  pub profile : find? (is_profile_of owner dto.sender_profile_id) s.profiles ≡ some c.sender_profile
  pub running : is_stopped c.sender_profile.status ≡ false
  pub code : c.campaign.template_code ≡ some template.code
  pub has_code : is_empty template.code ≡ false
  pub has_body : is_empty c.campaign.body ≡ false
  pub stored : length c.campaign.recipients ≡ c.campaign.total_recipient_count
  pub objects : all (λ r. is_object r.template_parameters) c.campaign.recipients ≡ true
  pub selected :
      IsSelected template.required_variables
        (find_users owner (normalize_user_ids dto.user_ids) s.users)
        (normalize_user_ids dto.user_ids)
        c.recipient_drafts
        c.campaign.total_recipient_count
        c.campaign.skipped_no_phone_count
        c.campaign.duplicate_phone_count

module _ (parse_date : Text → Option ℕ) (stringify : Json → Text) (is_inherited : Text → Bool)
    (now : ℕ) where
  draft_alimtalk_recipients_lem :
      (owner : Text) (dto : CreateBulkAlimtalkCampaignDto) (s : AlimtalkStored)
      (required : List Text) (d : Drafts)
      → draft_alimtalk_recipients parse_date stringify is_inherited now owner dto s required ≡ ok d
      → (mappings : List (Text × Text)) × (check_mappings required
            (user_system_fields ++ s.custom_fields)
            mappings
          ≡ ok tt)
        × (draft_recipients
              (template_parameters_for stringify is_inherited required mappings)
              (find_users owner (normalize_user_ids dto.user_ids) s.users)
              []
              (normalize_user_ids dto.user_ids)
            ≡ ok d)
        × (is_empty d.recipient_drafts ≡ false)
  unfolding draft_alimtalk_recipients
  draft_alimtalk_recipients_lem owner dto s required d e =
      let mappings = set_mappings dto.template_variable_mappings [] in
      let ids = normalize_user_ids dto.user_ids in
      let fill = template_parameters_for stringify is_inherited required mappings in
      elim (Outcome-cases
        (check_mappings required (user_system_fields ++ s.custom_fields) mappings)) [
          | inr (x, f) ↦ absurd (ground (arith, e, f))
          | inl (tt, f) ↦
              elim (Outcome-cases (draft_recipients fill (find_users owner ids s.users) [] ids)) [
                | inr (x, g) ↦ absurd (ground (arith, e, f, g))
                | inl (made, g) ↦
                    let same : made ≡ d = ground (arith, e, f, g) in
                    let filled : is_empty made.recipient_drafts ≡ false = ground (arith, e, f, g) in
                    (
                      mappings,
                      f,
                      g ∙ ap ok same,
                      subst (λ x. is_empty x.recipient_drafts ≡ false) same filled,
                    )
              ]
        ]

  pub prepare_alimtalk_draft-IsComplete :
      (owner : Text) (dto : CreateBulkAlimtalkCampaignDto) (title campaign_id : Text)
      (recipient_id : ℕ → Text) (s : AlimtalkStored) (c : AlimtalkDraft)
      → are_distinct s.users ≡ true
      → prepare_alimtalk_draft parse_date stringify is_inherited now owner dto title campaign_id
          recipient_id s
        ≡ ok c
      → IsComplete owner dto s c
  prepare_alimtalk_draft-IsComplete owner dto title campaign_id recipient_id s c distinct e =
      let p =
        prepare_alimtalk_draft-IsPrepared parse_date stringify is_inherited now owner dto title
          campaign_id recipient_id s c e in
      let required = p.template.required_variables in
      let ids = normalize_user_ids dto.user_ids in
      let users = find_users owner ids s.users in
      let (found, running, few, as_many) =
        check_selection_inv owner dto.sender_profile_id dto.user_ids s.profiles s.users
          c.sender_profile p.checked in
      let (resolved, has_code, has_body) =
        resolve_template_inv dto (asked_template owner dto s.templates) p.template p.resolved in
      let (mappings, is_mapped, drafted, filled) =
        draft_alimtalk_recipients_lem owner dto s required p.drafts p.drafted in
      let mapped =
        check_mappings-mapped required (user_system_fields ++ s.custom_fields) mappings is_mapped in
      let fill = template_parameters_for stringify is_inherited required mappings in
      let objects =
        draft_recipients-all fill is_filled_in users [] ids p.drafts
          (λ id u phone q found.
            template_parameters_for-filled stringify is_inherited required mappings u phone q)
          drafted in
      let selected =
        draft_recipients-IsSelected fill required owner ids s.users p.drafts
          (λ u q.
            template_parameters_for-is_given stringify is_inherited required mappings u q mapped)
          distinct few as_many drafted filled in
      record {
        template = p.template;
        resolved = resolved;
        profile = found;
        running = running;
        code = p.code;
        has_code = has_code;
        has_body = subst (λ x. is_empty x ≡ false) (sym p.body) has_body;
        stored =
            ap length p.rows
            ∙ length-recipient_rows recipient_id 0 p.drafts.recipient_drafts
            ∙ sym p.total;
        objects =
            subst (λ rs. all (λ r. is_object r.template_parameters) rs ≡ true) (sym p.rows)
              (recipient_rows-is_object recipient_id 0 p.drafts.recipient_drafts objects);
        selected = record {
          counted = ground (arith, p.total, p.skipped, p.duplicate, selected.counted);
          without = p.skipped ∙ selected.without;
          some_recipient = ground (arith, p.total, selected.some_recipient);
          at_most = ground (arith, p.total, selected.at_most);
          as_many = ap length p.recipients ∙ sym p.total;
          new = subst (λ rs. are_new [] rs ≡ true) (sym p.recipients) selected.new;
          reached =
              subst (λ rs. all (is_reached users [] rs) ids ≡ true) (sym p.recipients)
                selected.reached;
          given = subst (λ rs. are_given required rs ≡ true) (sym p.recipients) selected.given;
        };
      }

  -- The worker that takes a prepared campaign of a profile with a sender key posts it, and stores what
  -- the provider answers: none of the worker's own checks refuses it.
  pub prepare_alimtalk_draft-posted :
      (owner : Text) (dto : CreateBulkAlimtalkCampaignDto) (title campaign_id : Text)
      (recipient_id : ℕ → Text) (s : AlimtalkStored) (c : AlimtalkDraft) (result : SendResult)
      → are_distinct s.users ≡ true
      → is_empty c.sender_profile.sender_key ≡ false
      → prepare_alimtalk_draft parse_date stringify is_inherited now owner dto title campaign_id
          recipient_id s
        ≡ ok c
      → process_bulk_campaign bulk_alimtalk
          (ok result)
          (load_alimtalk_campaign c.campaign c.sender_profile)
        ≡ (submitted result (load_alimtalk_campaign c.campaign c.sender_profile), ok tt, true)
  unfolding process_bulk_campaign checked load_alimtalk_campaign is_concluded
  prepare_alimtalk_draft-posted owner dto title campaign_id recipient_id s c result distinct key e =
      let p =
        prepare_alimtalk_draft-IsPrepared parse_date stringify is_inherited now owner dto title
          campaign_id recipient_id s c e in
      let k =
        prepare_alimtalk_draft-IsComplete owner dto title campaign_id recipient_id s c distinct e in
      let filled : is_empty c.campaign.recipients ≡ false =
        ground (arith, k.stored, k.selected.some_recipient) in
      ground (arith, filled, key, k.code, k.has_code, k.objects, p.new_status, p.unsent)
