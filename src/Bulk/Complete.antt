-- ===== src/Bulk/Complete.antt =====
-- A campaign that `prepareCampaignDraft` has written: its counts, its recipients, the ledger, and the
-- worker that takes it.
use noti.Common.{
  ◌↔◌, Some, ℕ, suc, ◌+◌, ◌≡◌, ◌≤◌, ◌∙◌, refl, sym, ap, subst, Bool, true, false, not, List, [],
  ◌∷◌, ◌++◌, Option, is_empty, all, keep, leb, length, arith, Option-cases, Outcome-cases, inl, inr,
  ok, find?, ◌==◌,
}
use noti.Text.{Text}
use noti.Json.{Json}
use noti.Senders.{SenderNumber}
use noti.Template.{scan, extract_required_variables}
use noti.Quota.{Db}
use noti.Template.Render.{Has, Asks, Has-extract_required_variables}
use noti.Bulk.Body.{has_no_mapping, check_columns, check_mappings, set_mappings}
use noti.Bulk.Rows.{
  CreateBulkSmsCampaignDto, Stored, Drafts, RecipientDraft, CampaignDraft, normalize_user_ids,
  find_users, user_system_fields, is_sender_of, recipient_rows,
}
use noti.Bulk.Loop.{draft_recipients}
use noti.Bulk.Draft.{parameters_for, check_users, draft_all, prepare_campaign_draft}
use noti.Bulk.Parameters.{parameters_for-is_given}
use noti.Bulk.Found.{is_found, are_distinct, find_users-all}
use noti.Bulk.Recipients.{without_phone, are_new, is_reached, IsDrafted, draft_recipients-IsDrafted}
use noti.Bulk.Prepared.{prepared_lem}
use noti.Bulk.Placeholders.{are_filled, are_filled-extract}

all_of_none_kept :
    {A : Type 0} (p : A → Bool) (xs : List A)
    → is_empty (keep p xs) ≡ true
    → all (λ x. not (p x)) xs ≡ true
all_of_none_kept p [] h = refl
all_of_none_kept p (x ∷ xs) h = ground (arith, h, all_of_none_kept p xs)

pub check_mappings-mapped :
    (required available : List Text) (m : List (Text × Text))
    → check_mappings required available m ≡ ok tt
    → all (λ v. not (has_no_mapping m v)) required ≡ true
unfolding check_mappings
check_mappings-mapped required available m e =
    all_of_none_kept (has_no_mapping m) required
      (elim (Outcome-cases (check_columns required available m)) [
        | inr (x, f) ↦ absurd (ground (arith, e, f))
        | inl (tt, f) ↦ ground (arith, e, f)
      ])

pub length-recipient_rows :
    (new_id : ℕ → Text) (n : ℕ) (rs : List RecipientDraft)
    → length (recipient_rows new_id n rs) ≡ length rs
unfolding recipient_rows
length-recipient_rows new_id n [] = refl
length-recipient_rows new_id n (r ∷ rs) = ground (arith, length-recipient_rows new_id (suc n) rs)

-- What a campaign that was written is, for the ids that were asked for.
pub record IsComplete (owner : Text) (dto : CreateBulkSmsCampaignDto) (s : Stored)
    (c : CampaignDraft) : Type 0 where
  pub counted :
      c.campaign.total_recipient_count + c.campaign.skipped_no_phone_count
        + c.campaign.duplicate_phone_count
      ≡ length (normalize_user_ids dto.user_ids)
  pub skipped :
      c.campaign.skipped_no_phone_count
      ≡ without_phone
          (find_users owner (normalize_user_ids dto.user_ids) s.users)
          (normalize_user_ids dto.user_ids)
  pub stored : length c.campaign.recipients ≡ c.campaign.total_recipient_count
  pub some_recipient : 1 ≤ c.campaign.total_recipient_count
  pub at_most : c.campaign.total_recipient_count ≤ 1000
  pub new : are_new [] c.recipient_drafts ≡ true
  pub reached :
      all
        (is_reached
          (find_users owner (normalize_user_ids dto.user_ids) s.users)
          []
          c.recipient_drafts)
        (normalize_user_ids dto.user_ids)
      ≡ true
  pub variables :
      (k : Text)
      → Has k c.required_variables ↔ (Some (Asks k) (scan c.campaign.body) × (is_empty k ≡ false))
  pub filled : are_filled c.campaign.body c.recipient_drafts ≡ true

module _ (parse_date : Text → Option ℕ) (kst_parts : ℕ → ℕ × ℕ) (utc : ℕ → ℕ → ℕ)
    (stringify : Json → Text) (is_inherited : Text → Bool) (now : ℕ) where
  check_users-counts :
      (owner : Text) (dto : CreateBulkSmsCampaignDto) (s : Stored) (sender : SenderNumber)
      → check_users parse_date kst_parts utc stringify is_inherited now owner dto s ≡ ok sender
      → (leb (length (normalize_user_ids dto.user_ids)) 1000 ≡ true)
        × ((length (normalize_user_ids dto.user_ids)
              == length (find_users owner (normalize_user_ids dto.user_ids) s.users))
            ≡ true)
  unfolding check_users
  check_users-counts owner dto s sender e =
      elim (Option-cases (find? (is_sender_of owner dto.sender_number_id) s.senders)) [
        | inl f ↦ absurd (ground (arith, e, f))
        | inr (found, f) ↦ (ground (arith, e, f), ground (arith, e, f))
      ]

  draft_all-IsDrafted :
      (owner : Text) (dto : CreateBulkSmsCampaignDto) (s : Stored) (body : Text) (d : Drafts)
      → draft_all parse_date kst_parts utc stringify is_inherited now owner dto s body ≡ ok d
      → all
          (is_found (find_users owner (normalize_user_ids dto.user_ids) s.users))
          (normalize_user_ids dto.user_ids)
        ≡ true
      → (is_empty d.recipient_drafts ≡ false)
        × IsDrafted
            (extract_required_variables body)
            (find_users owner (normalize_user_ids dto.user_ids) s.users)
            []
            (normalize_user_ids dto.user_ids)
            d
  unfolding draft_all
  draft_all-IsDrafted owner dto s body d e found =
      let ids = normalize_user_ids dto.user_ids in
      let required = extract_required_variables body in
      let mappings = set_mappings dto.template_variable_mappings [] in
      let users = find_users owner ids s.users in
      elim (Outcome-cases
        (check_mappings required (user_system_fields ++ s.custom_fields) mappings)) [
          | inr (x, f) ↦ absurd (ground (arith, e, f))
          | inl (tt, f) ↦
              elim (Outcome-cases (
                draft_recipients
                  (parameters_for parse_date kst_parts utc stringify is_inherited now required
                    mappings)
                  users [] ids)) [
                    | inr (x, g) ↦ absurd (ground (arith, e, f, g))
                    | inl (made, g) ↦
                        let mapped =
                          check_mappings-mapped required (user_system_fields ++ s.custom_fields)
                            mappings f in
                        let drafted =
                          draft_recipients-IsDrafted
                            (parameters_for parse_date kst_parts utc stringify is_inherited now
                              required mappings)
                            required users [] ids made
                            (λ u p q.
                              parameters_for-is_given parse_date kst_parts utc stringify
                                is_inherited now u mappings required p mapped q)
                            found g in
                        let same : made ≡ d = ground (arith, e, f, g) in
                        let filled : is_empty made.recipient_drafts ≡ false =
                          ground (arith, e, f, g) in
                        (
                          subst (λ x. is_empty x.recipient_drafts ≡ false) same filled,
                          subst (IsDrafted required users [] ids) same drafted,
                        )
                  ]
        ]

  pub prepare_campaign_draft-IsComplete :
      (owner : Text) (dto : CreateBulkSmsCampaignDto) (title campaign_id : Text)
      (recipient_id : ℕ → Text) (s : Stored) (c : CampaignDraft) (db : Db)
      → are_distinct s.users ≡ true
      → prepare_campaign_draft parse_date kst_parts utc stringify is_inherited now owner dto title
          campaign_id recipient_id s
        ≡ ok (c, db)
      → IsComplete owner dto s c
  prepare_campaign_draft-IsComplete owner dto title campaign_id recipient_id s c db distinct e =
      let p =
        prepared_lem parse_date kst_parts utc stringify is_inherited now owner dto title campaign_id
          recipient_id s c db e in
      let ids = normalize_user_ids dto.user_ids in
      let (few, as_many) = check_users-counts owner dto s c.sender_number p.checked_users in
      let found = find_users-all owner ids s.users distinct as_many in
      let (filled, d) = draft_all-IsDrafted owner dto s c.campaign.body p.drafts p.drafted found in
      record {
        counted = ground (arith, p.total, p.skipped, p.duplicate, d.counted);
        skipped = p.skipped ∙ d.skipped;
        stored =
            ap length p.rows
            ∙ length-recipient_rows recipient_id 0 p.drafts.recipient_drafts
            ∙ sym p.total;
        some_recipient = ground (arith, p.total, filled);
        at_most = ground (arith, p.total, d.counted, few);
        new = subst (λ rs. are_new [] rs ≡ true) (sym p.recipients) d.new;
        reached =
            subst (λ rs. all (is_reached (find_users owner ids s.users) [] rs) ids ≡ true)
              (sym p.recipients) d.reached;
        variables = λ k.
            subst (λ vs. Has k vs ↔ (Some (Asks k) (scan c.campaign.body) × (is_empty k ≡ false)))
              (sym p.variables) (Has-extract_required_variables k c.campaign.body);
        filled =
            subst (λ rs. are_filled c.campaign.body rs ≡ true) (sym p.recipients)
              (are_filled-extract c.campaign.body p.drafts.recipient_drafts d.given);
      }
