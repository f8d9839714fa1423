-- ===== src/Delivery/Campaign.antt =====
-- `resolveBulkCampaign` and its helpers in
-- apps/api/src/provider-results/provider-results.service.ts. The provider's answers are parameters.
use noti.Common.{
  ℕ, ◌+◌, Bool, List, [], ◌∷◌, Option, none, some, leb, ltb, if◌then◌else◌, is_empty, Outcome, ok,
  err, ◌>>=◌,
}
use noti.Text.{Text, text_eq, digits_only}
use noti.Delivery.{
  ResolvedStatus, delivery_failed, requested, Lookup, is_future, is_failure_status,
  map_lookup_to_status,
}

pub data CampaignStatus : Type 0 where
  processing sent_to_provider partial_failed failed waiting in_progress lookup_failed delivered :
      CampaignStatus

pub record Recipient : Type 0 where
  pub id : Text
  pub recipient_phone : Text
  pub recipient_seq : Option Text
  pub is_failed : Bool

pub record Campaign : Type 0 where
  pub status : CampaignStatus
  pub total_recipient_count : ℕ
  pub skipped_no_phone_count : ℕ
  pub duplicate_phone_count : ℕ
  pub nhn_request_id : Option Text
  pub scheduled_at : Option ℕ
  pub recipients : List Recipient

pub record ResolvedRecipient : Type 0 where
  pub status : ResolvedStatus
  pub provider_result_code : Option Text
  pub provider_result_message : Option Text
  pub provider_status : Option Text
  pub resolved_at : Option Text

pub record Stats : Type 0 where
  pub total_count : ℕ
  pub submitted_count : ℕ
  pub delivered_count : ℕ
  pub failed_count : ℕ
  pub pending_count : ℕ

pub record ResolvedCampaign : Type 0 where
  pub status : CampaignStatus
  pub stats : Stats
  pub skipped_no_phone_count : ℕ
  pub duplicate_phone_count : ℕ
  pub recipients : List (Text × ResolvedRecipient)

-- `map.set(key, value)` over the lookups in turn, so that the last one of a key is found
unfoldable pub last_by : (Lookup → Option Text) → Text → List Lookup → Option Lookup
unfolding text_eq
last_by key k [] = none
last_by key k (l ∷ ls) = elim (last_by key k ls) [
  | some found ↦ some found
  | none ↦ elim (key l) [ none ↦ none | some j ↦ if text_eq j k then some l else none ]
]

-- a truthy string
abbrev pub truthy_text : Option Text → Option Text
truthy_text none = none
truthy_text (some t) = if is_empty t then none else some t

-- the key of `byPhone`: the digits of a number that is there
abbrev pub phone_key : Lookup → Option Text
phone_key l = elim (truthy_text l.recipient_no) [ none ↦ none | some t ↦ some (digits_only t) ]

abbrev pub seq_key : Lookup → Option Text
seq_key l = truthy_text l.recipient_seq

-- by the sequence number, or else by the phone number
unfoldable pub find_lookup : List Lookup → Recipient → Option Lookup
unfolding last_by digits_only
find_lookup lookups r =
    let by_phone = last_by phone_key (digits_only r.recipient_phone) lookups in
    elim (truthy_text r.recipient_seq) [
      | none ↦ by_phone
      | some seq ↦ elim (last_by seq_key seq lookups) [ none ↦ by_phone | some l ↦ some l ]
    ]

unfoldable pub derive_campaign_status : Stats → CampaignStatus
derive_campaign_status s =
    if leb s.total_count 0
    then CampaignStatus.in_progress
    else if leb s.total_count s.failed_count
    then CampaignStatus.failed
    else if leb s.total_count s.delivered_count
    then CampaignStatus.delivered
    else if ltb 0 s.failed_count
    then CampaignStatus.partial_failed
    else if ltb 0 s.submitted_count
    then CampaignStatus.sent_to_provider
    else CampaignStatus.in_progress

-- one more recipient of a status
unfoldable pub count_status : ResolvedStatus → Stats → Stats
unfolding is_failure_status
count_status ResolvedStatus.delivered s = record s { delivered_count = s.delivered_count + 1 }
count_status ResolvedStatus.sent_to_provider s = record s {
  submitted_count = s.submitted_count + 1;
}
count_status other s =
    if is_failure_status other
    then record s { failed_count = s.failed_count + 1 }
    else record s { pending_count = s.pending_count + 1 }

module _ (to_upper_case : Text → Text) (now : ℕ) where
  -- a recipient that no lookup is found for
  unfoldable pub unresolved : Campaign → Recipient → ResolvedRecipient
  unfolding is_future
  unresolved c r = record {
    status =
        if r.is_failed
        then delivery_failed
        else if is_future c.scheduled_at now
        then ResolvedStatus.waiting
        else requested;
    provider_result_code = none;
    provider_result_message = none;
    provider_status = none;
    resolved_at = none;
  }

  unfoldable pub resolved : Campaign → Lookup → ResolvedRecipient
  resolved c l = record {
    status = map_lookup_to_status to_upper_case l c.scheduled_at now;
    provider_result_code = l.provider_code;
    provider_result_message = l.provider_message;
    provider_status = l.provider_status;
    resolved_at = elim (truthy_text l.result_at) [ none ↦ l.requested_at | some t ↦ some t ];
  }

  -- The loop over the recipients: each is counted once, and gets an entry of the map. Their ids are
  -- primary keys, so that no entry replaces another.
  unfoldable pub resolve_recipients :
      Campaign → List Lookup → List Recipient → Stats → Stats × List (Text × ResolvedRecipient)
  resolve_recipients c lookups [] stats = (stats, [])
  resolve_recipients c lookups (r ∷ rs) stats = elim (find_lookup lookups r) [
    | none ↦
        let (stats', rest) =
          resolve_recipients c lookups rs
            (record stats { pending_count = stats.pending_count + 1 }) in
        (stats', (r.id, unresolved c r) ∷ rest)
    | some l ↦
        let (stats', rest) =
          resolve_recipients c lookups rs (count_status (resolved c l).status stats) in
        (stats', (r.id, resolved c l) ∷ rest)
  ]

  -- `Promise.all` of the fallback over the recipients: the lookups that are there
  unfoldable pub fallback_lookups :
      (Recipient → Outcome Unit (Option Lookup)) → List Recipient → Outcome Unit (List Lookup)
  fallback_lookups fetch [] = ok []
  fallback_lookups fetch (r ∷ rs) = do
    found ← fetch r
    rest ← fallback_lookups fetch rs
    ok (elim found [ none ↦ rest | some l ↦ l ∷ rest ])

  unfoldable pub fetch_all :
      Outcome Unit (List Lookup)
      → Option (Recipient → Outcome Unit (Option Lookup))
      → List Recipient
      → Outcome Unit (List Lookup)
  unfolding fallback_lookups
  fetch_all fetched fallback rs = do
    lookups ← fetched
    elim fallback [
      | none ↦ ok lookups
      | some fetch ↦ if is_empty lookups then fallback_lookups fetch rs else ok lookups
    ]

  abbrev pub no_counts : ℕ → Stats
  no_counts total = record {
    total_count = total;
    submitted_count = 0;
    delivered_count = 0;
    failed_count = 0;
    pending_count = 0;
  }

  -- The part of `resolveBulkCampaign` for a campaign that has the provider's request id.
  unfoldable pub resolve_submitted_campaign :
      Campaign
      → Outcome Unit (List Lookup)
      → Option (Recipient → Outcome Unit (Option Lookup))
      → ResolvedCampaign
  resolve_submitted_campaign c fetched fallback = elim (fetch_all fetched fallback c.recipients) [
    | ok lookups ↦
        let (stats, entries) =
          resolve_recipients c lookups c.recipients (no_counts c.total_recipient_count) in
        record {
          status = derive_campaign_status stats;
          stats = stats;
          skipped_no_phone_count = c.skipped_no_phone_count;
          duplicate_phone_count = c.duplicate_phone_count;
          recipients = entries;
        }
    | err e ↦ record {
      status =
          if is_future c.scheduled_at now
          then CampaignStatus.waiting
          else CampaignStatus.lookup_failed;
      stats = record (no_counts c.total_recipient_count) {
        pending_count = c.total_recipient_count;
      };
      skipped_no_phone_count = c.skipped_no_phone_count;
      duplicate_phone_count = c.duplicate_phone_count;
      recipients = [];
    }
  ]
