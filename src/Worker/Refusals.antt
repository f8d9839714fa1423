-- ===== src/Worker/Refusals.antt =====
-- A campaign of a Kakao channel whose first recipient the provider refuses.
use noti.Common.{ℕ, ◌≡◌, ◌≢◌, refl, true, false, some, arith, ok, inl, inr, Option-cases}
use noti.Text.{Text, units}
use noti.Json.{Json, at_key, first_item, truthy}
use noti.Worker.{is_retryable, Runtime}
use noti.Worker.Provider.{normalize_bizmessage_send_failure}
use noti.Worker.Bulk.{
  Kind, bulk_sms, bulk_alimtalk, bulk_brand_message, CampaignStatus, processing, Campaign,
  is_filled, is_concluded, checked, process_bulk_campaign, on_bulk_failed, last_bulk_run,
}
use noti.Worker.Answers.{read_bulk_kakao, read_bulk_answer, posted_answer}

-- the first of the results of an answer
abbrev pub first_result : Json → Json
first_result response =
    first_item (at_key (units "sendResults") (at_key (units "message") response))

module _ (rt : Runtime) where
  first_refused-fails :
      (response : Json)
      → truthy (first_result response) ≡ true
      → rt.is_zero (at_key (units "resultCode") (first_result response)) ≡ false
      → (failure : Text) × (normalize_bizmessage_send_failure rt response ≡ some failure)
  unfolding normalize_bizmessage_send_failure
  first_refused-fails response there refused =
      elim (Option-cases (normalize_bizmessage_send_failure rt response)) [
        | inr (failure, e) ↦ (failure, e)
        | inl e ↦ absurd (ground (arith, there, refused, e))
      ]

  -- A bulk AlimTalk or brand message whose first result in the provider's answer is a refusal ends as
  -- FAILED in its last run, without a request id and with the recipients as they were, whatever the
  -- answer says of the other recipients. The campaign was ready to be posted.
  pub last_bulk_run-first_refused :
      (kind : Kind) (response : Json) (attempts : ℕ) (c : Campaign)
      → kind ≢ bulk_sms
      → c.status ≡ processing
      → is_filled c.nhn_request_id ≡ false
      → checked kind c ≡ ok tt
      → truthy (first_result response) ≡ true
      → rt.is_zero (at_key (units "resultCode") (first_result response)) ≡ false
      → ((last_bulk_run kind (posted_answer rt kind (ok response)) attempts c).status
          ≡ CampaignStatus.failed)
        × ((last_bulk_run kind (posted_answer rt kind (ok response)) attempts c).nhn_request_id
            ≡ c.nhn_request_id)
        × ((last_bulk_run kind (posted_answer rt kind (ok response)) attempts c).recipients
            ≡ c.recipients)
  unfolding last_bulk_run process_bulk_campaign on_bulk_failed is_concluded read_bulk_answer
      read_bulk_kakao is_retryable
  last_bulk_run-first_refused bulk_sms response attempts c kakao new unsent ready there refused =
      absurd (kakao refl)
  last_bulk_run-first_refused bulk_alimtalk response attempts c kakao new unsent ready there
        refused =
      let (failure, e) = first_refused-fails response there refused in
      (
        ground (arith, e, new, unsent, ready),
        ground (arith, e, new, unsent, ready),
        ground (arith, e, new, unsent, ready),
      )
  last_bulk_run-first_refused bulk_brand_message response attempts c kakao new unsent ready there
        refused =
      let (failure, e) = first_refused-fails response there refused in
      (
        ground (arith, e, new, unsent, ready),
        ground (arith, e, new, unsent, ready),
        ground (arith, e, new, unsent, ready),
      )
