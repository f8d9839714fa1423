-- ===== src/Delivery/Tests.antt =====
-- Campaigns and a message with the provider's lookups.
use noti.Common.{
  ℕ, String, ◌≡◌, refl, Bool, true, false, List, [], ◌∷◌, none, some, ok, All, all, any, length,
  map, arith, is_empty, ◌⊎◌,
}
use noti.Text.{Text, units}
use noti.Delivery.{
  Lookup, is_failure_status, delivery_failed, map_lookup_to_status, reports_failure,
  reports_delivery,
}
use noti.Delivery.Local.{resolve_bulk_campaign, resolve_bulk_campaign_counts}
use noti.Delivery.Campaign.{
  CampaignStatus, Recipient, Campaign, find_lookup, fetch_all, resolve_submitted_campaign,
  resolve_recipients, derive_campaign_status, count_status, resolved,
}
use noti.Delivery.Counts.{counted, is_delivered, found_with}
use noti.Delivery.Status.{SaysWhatIsCounted, resolve_submitted_campaign_status, refused-pending}
use noti.Json.{Json}
use noti.Worker.{MessageChannel, MessageRequestStatus}
use noti.Delivery.Message.{Request}

-- the tests' texts have no lower case letters
abbrev same_case : Text → Text
same_case t = t

abbrev to : String → Bool → Recipient
to phone refused = record {
  id = units phone;
  recipient_phone = units phone;
  recipient_seq = none;
  is_failed = refused;
}

abbrev campaign_of : List Recipient → ℕ → Campaign
campaign_of rs total = record {
  status = CampaignStatus.processing;
  total_recipient_count = total;
  skipped_no_phone_count = 0;
  duplicate_phone_count = 0;
  nhn_request_id = some (units "R");
  scheduled_at = none;
  recipients = rs;
}

abbrev lookup_of : String → String → Lookup
lookup_of phone status = record {
  recipient_seq = none;
  recipient_no = some (units phone);
  provider_status = some (units status);
  provider_code = none;
  provider_message = none;
  requested_at = none;
  result_at = none;
}

abbrev two : Campaign
two = campaign_of (to "010" false ∷ to "011" false ∷ []) 2

abbrev answers : List Lookup
answers = lookup_of "010" "DELIVERED" ∷ lookup_of "011" "FAIL" ∷ []

abbrev refused : Campaign
refused = campaign_of (to "010" true ∷ []) 1

two_is_partly_failed :
    (resolve_submitted_campaign same_case 5 two (ok answers) none).status
    ≡ CampaignStatus.partial_failed
unfolding resolve_submitted_campaign fetch_all resolve_recipients find_lookup derive_campaign_status
    count_status resolved map_lookup_to_status reports_failure reports_delivery
two_is_partly_failed = refl

abbrev no_text : Json → Text
no_text v = []

resolve_bulk_campaign_counts_example :
    (counted (resolve_bulk_campaign same_case no_text 5 two Json.null (ok answers) none).stats
      ≡ length two.recipients)
    × ((is_empty
            (resolve_bulk_campaign same_case no_text 5 two Json.null (ok answers) none).recipients
          ≡ true)
        ⊎ (map
              (λ e. e.0)
              (resolve_bulk_campaign same_case no_text 5 two Json.null (ok answers) none).recipients
            ≡ map (λ r. r.id) two.recipients))
resolve_bulk_campaign_counts_example =
    resolve_bulk_campaign_counts same_case no_text 5 two Json.null (ok answers) none refl

resolve_submitted_campaign_status_example :
    SaysWhatIsCounted
      (resolve_submitted_campaign same_case 5 two (ok answers) none).status
      (all (found_with same_case 5 two answers is_failure_status) two.recipients)
      (all (found_with same_case 5 two answers is_delivered) two.recipients)
      (any (found_with same_case 5 two answers is_failure_status) two.recipients)
unfolding fetch_all
resolve_submitted_campaign_status_example =
    resolve_submitted_campaign_status same_case 5 two (ok answers) none answers refl refl
      (omega arith)

refused-pending_example :
    ((resolve_submitted_campaign same_case 5 refused (ok []) none).status
      ≡ CampaignStatus.in_progress)
    × ((resolve_submitted_campaign same_case 5 refused (ok []) none).stats.failed_count ≡ 0)
    × ((resolve_submitted_campaign same_case 5 refused (ok []) none).stats.pending_count
        ≡ length refused.recipients)
    × All
        (λ e. e.1.status ≡ delivery_failed)
        (resolve_submitted_campaign same_case 5 refused (ok []) none).recipients
unfolding fetch_all find_lookup
refused-pending_example =
    refused-pending same_case 5 refused (ok []) none [] refl (omega arith) ((refl, refl), tt)

abbrev handed_over : Request
handed_over = record {
  status = MessageRequestStatus.send_failed;
  nhn_message_id = some (units "m");
  resolved_channel = some MessageChannel.sms;
  metadata = Json.null;
  scheduled_at = none;
  last_error_code = none;
  last_error_message = none;
  updated_at = units "t";
}

abbrev one_lookup : Lookup
one_lookup = lookup_of "010" "DELIVERED"
