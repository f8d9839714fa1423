-- ===== src/Kakao/Alimtalk/Prepared.antt =====
-- A bulk AlimTalk campaign that was prepared: its template, its recipients and its rows.
use noti.Common.{
  ℕ, ◌≡◌, ◌⊎◌, ◌∙◌, refl, ap, subst, Bool, true, false, Option, none, some, is_empty, length, arith,
  ok, inl, inr, Bool-cases, Outcome-cases,
}
use noti.Text.{Text, trim}
use noti.Json.{Json}
use noti.Sms.{or_empty, or_text}
use noti.Worker.Bulk.{processing}
use noti.Bulk.Rows.{Drafts, recipient_rows}
use noti.Kakao.{normalize_scheduled_at, check_selection}
use noti.Kakao.Alimtalk.{
  CreateBulkAlimtalkCampaignDto, ProviderTemplate, AlimtalkStored, ResolvedTemplate, AlimtalkDraft,
  local_template, group_template, is_apr, asked_template, is_group, choose_alimtalk_template,
  resolve_template, alimtalk_draft, draft_alimtalk_recipients, prepare_alimtalk_draft,
}

-- The template of a campaign is an approved one, or is given by the request for a group.
abbrev pub IsResolved :
    CreateBulkAlimtalkCampaignDto → Option ProviderTemplate → ResolvedTemplate → Type 0
IsResolved dto found t =
    ((p : ProviderTemplate) × (found ≡ some p)
      × (is_apr p.provider_status ≡ true)
      × (t ≡ local_template p))
    ⊎ ((found ≡ none) × (is_group dto.template_source ≡ true) × (t ≡ group_template dto))

choose_alimtalk_template-IsResolved :
    (dto : CreateBulkAlimtalkCampaignDto) (found : Option ProviderTemplate) (t : ResolvedTemplate)
    → choose_alimtalk_template dto found ≡ ok t
    → IsResolved dto found t
unfolding choose_alimtalk_template
choose_alimtalk_template-IsResolved dto (some p) t e =
    elim (Bool-cases (is_apr p.provider_status)) [
      | inl f ↦ inl (p, refl, f, ground (arith, e, f))
      | inr f ↦ absurd (ground (arith, e, f))
    ]
choose_alimtalk_template-IsResolved dto none t e =
    elim (Bool-cases (is_group dto.template_source)) [
      | inl f ↦ inr (refl, f, ground (arith, e, f))
      | inr f ↦ absurd (ground (arith, e, f))
    ]

pub resolve_template_inv :
    (dto : CreateBulkAlimtalkCampaignDto) (found : Option ProviderTemplate) (t : ResolvedTemplate)
    → resolve_template dto found ≡ ok t
    → IsResolved dto found t × (is_empty t.code ≡ false) × (is_empty t.body ≡ false)
unfolding resolve_template
resolve_template_inv dto found t e = elim (Outcome-cases (choose_alimtalk_template dto found)) [
  | inr (x, f) ↦ absurd (ground (arith, e, f))
  | inl (c, f) ↦ elim (Bool-cases (is_empty c.code)) [
    | inl g ↦ absurd (ground (arith, e, f, g))
    | inr g ↦ elim (Bool-cases (is_empty c.body)) [
      | inl h ↦ absurd (ground (arith, e, f, g, h))
      | inr h ↦
          let same : c ≡ t = ground (arith, e, f, g, h) in
          (
            choose_alimtalk_template-IsResolved dto found t (f ∙ ap ok same),
            subst (λ x. is_empty x.code ≡ false) same g,
            subst (λ x. is_empty x.body ≡ false) same h,
          )
    ]
  ]
]

module _ (parse_date : Text → Option ℕ) (stringify : Json → Text) (is_inherited : Text → Bool)
    (now : ℕ) where
  -- What a preparation that succeeded has gone through.
  pub record IsPrepared (owner : Text) (dto : CreateBulkAlimtalkCampaignDto)
      (recipient_id : ℕ → Text) (s : AlimtalkStored) (c : AlimtalkDraft) : Type 0 where
    pub drafts : Drafts
    pub template : ResolvedTemplate
    pub checked :
        check_selection owner dto.sender_profile_id dto.user_ids s.profiles s.users
        ≡ ok c.sender_profile
    pub resolved : resolve_template dto (asked_template owner dto s.templates) ≡ ok template
    pub drafted :
        draft_alimtalk_recipients parse_date stringify is_inherited now owner dto s
          template.required_variables
        ≡ ok drafts
    pub code : c.campaign.template_code ≡ some template.code
    pub body : c.campaign.body ≡ template.body
    pub recipients : c.recipient_drafts ≡ drafts.recipient_drafts
    pub rows : c.campaign.recipients ≡ recipient_rows recipient_id 0 drafts.recipient_drafts
    pub total : c.campaign.total_recipient_count ≡ length drafts.recipient_drafts
    pub skipped : c.campaign.skipped_no_phone_count ≡ drafts.skipped_no_phone_count
    pub duplicate : c.campaign.duplicate_phone_count ≡ drafts.duplicate_phone_count
    pub new_status : c.campaign.status ≡ processing
    pub unsent : c.campaign.nhn_request_id ≡ none

  pub prepare_alimtalk_draft-IsPrepared :
      (owner : Text) (dto : CreateBulkAlimtalkCampaignDto) (title campaign_id : Text)
      (recipient_id : ℕ → Text) (s : AlimtalkStored) (c : AlimtalkDraft)
      → prepare_alimtalk_draft parse_date stringify is_inherited now owner dto title campaign_id
          recipient_id s
        ≡ ok c
      → IsPrepared owner dto recipient_id s c
  unfolding prepare_alimtalk_draft
  prepare_alimtalk_draft-IsPrepared owner dto title campaign_id recipient_id s c e =
      elim (Outcome-cases (normalize_scheduled_at parse_date now dto.scheduled_at)) [
        | inr (x, f) ↦ absurd (ground (arith, e, f))
        | inl (at, f) ↦
            elim (Outcome-cases
              (check_selection owner dto.sender_profile_id dto.user_ids s.profiles s.users)) [
                | inr (x, g) ↦ absurd (ground (arith, e, f, g))
                | inl (profile, g) ↦
                    elim (Outcome-cases
                      (resolve_template dto (asked_template owner dto s.templates))) [
                        | inr (x, h) ↦ absurd (ground (arith, e, f, g, h))
                        | inl (t, h) ↦
                            elim (Outcome-cases (
                              draft_alimtalk_recipients parse_date stringify is_inherited now owner
                                dto s t.required_variables)) [
                                  | inr (x, k) ↦ absurd (ground (arith, e, f, g, h, k))
                                  | inl (d, k) ↦
                                      let made =
                                        alimtalk_draft owner
                                          (or_text (trim (or_empty dto.title)) title) campaign_id
                                          recipient_id at profile t d in
                                      let same : made ≡ c = ground (arith, e, f, g, h, k) in
                                      subst (IsPrepared owner dto recipient_id s) same (record {
                                        drafts = d;
                                        template = t;
                                        checked = g;
                                        resolved = h;
                                        drafted = k;
                                        code = refl;
                                        body = refl;
                                        recipients = refl;
                                        rows = refl;
                                        total = refl;
                                        skipped = refl;
                                        duplicate = refl;
                                        new_status = refl;
                                        unsent = refl;
                                      })
                                ]
                      ]
              ]
      ]
