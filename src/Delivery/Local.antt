-- ===== src/Delivery/Local.antt =====
-- `resolveBulkCampaign` of apps/api/src/provider-results/provider-results.service.ts for every campaign:
-- one that has no request id is shown by its own status and the provider's refusal that was stored.
use noti.Common.{
  String, ℕ, ◌-◌, ◌≡◌, ◌⊎◌, inl, inr, refl, Bool, true, false, not, ◌&&◌, List, [], ◌∷◌, Option,
  none, some, if◌then◌else◌, is_empty, find?, map, length, leb, ◌==◌, Outcome, arith, Bool-cases,
  Outcome-cases,
}
use noti.Text.{Text, units, trim, is_space}
use noti.Json.{Json, at_key, as_object, as_string, undefined, null, string}
use noti.Delivery.{ResolvedStatus, Lookup, is_future}
use noti.Delivery.Campaign.{
  CampaignStatus, Campaign, Recipient, ResolvedRecipient, ResolvedCampaign, no_counts, fetch_all,
  resolve_submitted_campaign,
}
use noti.Delivery.Counts.{counted, resolve_submitted_campaign_counts}

-- the flag `i` on ASCII letters: a unit as its capital
abbrev pub capital : ℕ → ℕ
capital c = if leb 97 c && leb c 122 then c - 32 else c

-- what follows a prefix, in any case of its letters
unfoldable pub after_any_case : Text → Text → Option Text
after_any_case [] s = some s
after_any_case (p ∷ ps) [] = none
after_any_case (p ∷ ps) (c ∷ s) =
    let rest = after_any_case ps s in if capital p == capital c then rest else none

-- `/…/i.test(message)`
unfoldable pub has_any_case : Text → Text → Bool
unfolding after_any_case
has_any_case p [] = is_empty p
has_any_case p (c ∷ s) =
    let rest = has_any_case p s in elim (after_any_case p (c ∷ s)) [ none ↦ rest | some t ↦ true ]

unfoldable pub skip_spaces : Text → Text
unfolding is_space
skip_spaces [] = []
skip_spaces (c ∷ s) = let rest = skip_spaces s in if is_space c then rest else c ∷ s

unfoldable pub skip_word : Text → Text
unfolding is_space
skip_word [] = []
skip_word (c ∷ s) = let rest = skip_word s in if is_space c then c ∷ s else rest

abbrev pub starts_with_space : Text → Bool
starts_with_space [] = false
starts_with_space (c ∷ s) = is_space c

-- what follows a match of `/\s+for recipient\s+\S+/i` at the head of the text
unfoldable pub after_for_recipient : Text → Option Text
unfolding after_any_case skip_spaces skip_word is_space
after_for_recipient s =
    if not (starts_with_space s)
    then none
    else elim (after_any_case (units "for recipient") (skip_spaces s)) [
      | none ↦ none
      | some rest ↦
          if starts_with_space rest && not (is_empty (skip_spaces rest))
          then some (skip_word (skip_spaces rest))
          else none
    ]

-- `replace(/\s+for recipient\s+\S+/i, '')`, which removes the first match
unfoldable pub drop_for_recipient : Text → Text
unfolding after_for_recipient
drop_for_recipient [] = []
drop_for_recipient (c ∷ s) =
    let rest = drop_for_recipient s in
    elim (after_for_recipient (c ∷ s)) [ none ↦ c ∷ rest | some after ↦ after ]

abbrev pub unknown_failure : Text
unknown_failure = units "발송 요청 처리 중 오류가 발생했습니다."

unfoldable pub sanitize_local_bulk_failure_message : Text → Text
unfolding has_any_case drop_for_recipient trim
sanitize_local_bulk_failure_message message =
    let normalized = trim message in
    if is_empty normalized
    then unknown_failure
    else if has_any_case (units "template parameters are missing") normalized
    then units "템플릿 변수 값이 비어 있어 발송하지 못했습니다."
    else trim (drop_for_recipient normalized)

pub record LocalFailure : Type 0 where
  pub status : Text
  pub code : Text
  pub message : Text

-- a text with more than white space
abbrev pub is_filled : Option Text → Bool
is_filled none = false
is_filled (some t) = not (is_empty (trim t))

abbrev pub field : String → Option Json → Option Text
field key none = none
field key (some v) = as_string (at_key (units key) v)

-- `String(header.resultCode)` where it is there; `text_of` is `String`
abbrev pub raw_code_of : (Json → Text) → Json → Option Text
raw_code_of text_of undefined = none
raw_code_of text_of null = none
raw_code_of text_of (string t) = if is_empty t then none else some t
raw_code_of text_of v = some (text_of v)

abbrev pub header_of : Option Json → Option Json
header_of none = none
header_of (some v) = as_object (at_key (units "header") v)

-- `rawCode` and `rawMessage`
abbrev pub raw_code : (Json → Text) → Option Json → Option Text
raw_code text_of none = none
raw_code text_of (some header) = raw_code_of text_of (at_key (units "resultCode") header)

abbrev pub raw_message : Option Json → Option Text
raw_message response =
    elim (find? is_filled (
      field "error" response
      ∷ field "message" response
      ∷ field "title" response
      ∷ field "resultMessage" (header_of response)
      ∷ [])) [ none ↦ none | some m ↦ m ]

abbrev pub or_default : Option Text → Text → Text
or_default none d = d
or_default (some t) d = t

unfoldable pub extract_local_bulk_failure : (Json → Text) → Json → Option LocalFailure
unfolding as_object at_key as_string sanitize_local_bulk_failure_message trim
extract_local_bulk_failure text_of response =
    let code = raw_code text_of (header_of (as_object response)) in
    let message = raw_message (as_object response) in
    if is_empty (or_default code []) && is_empty (or_default message [])
    then none
    else some (record {
      status = units "SUBMIT_FAILED";
      code = or_default code (units "SUBMIT_FAILED");
      message = sanitize_local_bulk_failure_message (or_default message unknown_failure);
    })

-- The entry of a recipient of a campaign that failed before it had a request id.
abbrev pub locally_failed_entry : Option LocalFailure → Recipient → Text × ResolvedRecipient
locally_failed_entry failure r = (
  r.id,
  record {
    status = ResolvedStatus.send_failed;
    provider_result_code = elim failure [ none ↦ none | some f ↦ some f.code ];
    provider_result_message = elim failure [ none ↦ none | some f ↦ some f.message ];
    provider_status = some (elim failure [ none ↦ units "SUBMIT_FAILED" | some f ↦ f.status ]);
    resolved_at = none;
  },
)

abbrev pub is_locally_failed : CampaignStatus → Bool
is_locally_failed CampaignStatus.failed = true
is_locally_failed CampaignStatus.partial_failed = true
is_locally_failed _ = false

module _ (to_upper_case : Text → Text) (text_of : Json → Text) (now : ℕ) where
  -- The part of `resolveBulkCampaign` for a campaign without a request id.
  unfoldable pub resolve_unsubmitted_campaign :
      Campaign → (provider_response : Json) → ResolvedCampaign
  unfolding extract_local_bulk_failure is_future
  resolve_unsubmitted_campaign c response =
      if is_locally_failed c.status
      then record {
        status = c.status;
        stats = record (no_counts to_upper_case now c.total_recipient_count) {
          failed_count = c.total_recipient_count;
        };
        skipped_no_phone_count = c.skipped_no_phone_count;
        duplicate_phone_count = c.duplicate_phone_count;
        recipients =
            map (locally_failed_entry (extract_local_bulk_failure text_of response)) c.recipients;
      }
      else record {
        status =
            if is_future c.scheduled_at now
            then CampaignStatus.waiting
            else CampaignStatus.in_progress;
        stats = record (no_counts to_upper_case now c.total_recipient_count) {
          pending_count = c.total_recipient_count;
        };
        skipped_no_phone_count = c.skipped_no_phone_count;
        duplicate_phone_count = c.duplicate_phone_count;
        recipients = [];
      }

  -- `resolveBulkCampaign`, with the provider's answers to its two fetchers
  unfoldable pub resolve_bulk_campaign :
      Campaign
      → (provider_response : Json) → Outcome Unit (List Lookup)
      → Option (Recipient → Outcome Unit (Option Lookup))
      → ResolvedCampaign
  unfolding resolve_submitted_campaign
  resolve_bulk_campaign c response fetched fallback =
      if is_empty (or_default c.nhn_request_id [])
      then resolve_unsubmitted_campaign c response
      else resolve_submitted_campaign to_upper_case now c fetched fallback

  ids-locally_failed :
      (failure : Option LocalFailure) (rs : List Recipient)
      → map (λ e. e.0) (map (locally_failed_entry failure) rs) ≡ map (λ r. r.id) rs
  ids-locally_failed failure [] = refl
  ids-locally_failed failure (r ∷ rs) = ground (arith, ids-locally_failed failure rs)

  counted-unsubmitted :
      (c : Campaign) (response : Json)
      → (counted (resolve_unsubmitted_campaign c response).stats ≡ c.total_recipient_count)
        × ((is_empty (resolve_unsubmitted_campaign c response).recipients ≡ true)
            ⊎ (map (λ e. e.0) (resolve_unsubmitted_campaign c response).recipients
                ≡ map (λ r. r.id) c.recipients))
  unfolding resolve_unsubmitted_campaign
  counted-unsubmitted c response =
      let failure = extract_local_bulk_failure text_of response in
      elim (Bool-cases (is_locally_failed c.status)) [
        | inl t ↦ ground (arith, t, ids-locally_failed failure c.recipients)
        | inr t ↦ ground (arith, t)
      ]

  -- Whatever the campaign, its answers and its status, the counts shown for it add up to its
  -- recipients, and it shows either no recipient or all of them in order, if its total is the number of
  -- its recipients.
  pub resolve_bulk_campaign_counts :
      (c : Campaign) (response : Json) (fetched : Outcome Unit (List Lookup))
      (fallback : Option (Recipient → Outcome Unit (Option Lookup)))
      → c.total_recipient_count ≡ length c.recipients
      → (counted (resolve_bulk_campaign c response fetched fallback).stats ≡ length c.recipients)
        × ((is_empty (resolve_bulk_campaign c response fetched fallback).recipients ≡ true)
            ⊎ (map (λ e. e.0) (resolve_bulk_campaign c response fetched fallback).recipients
                ≡ map (λ r. r.id) c.recipients))
  unfolding resolve_bulk_campaign
  resolve_bulk_campaign_counts c response fetched fallback total =
      elim (Bool-cases (is_empty (or_default c.nhn_request_id []))) [
        | inl t ↦ ground (arith, t, counted-unsubmitted c response, total)
        | inr t ↦ elim (Outcome-cases (fetch_all to_upper_case now fetched fallback c.recipients)) [
          | inl (lookups, e) ↦ ground (
            arith,
            t,
            resolve_submitted_campaign_counts to_upper_case now c fetched fallback lookups e,
          )
          | inr (x, e) ↦ ground (arith, t, e, total)
        ]
      ]
