-- ===== src/Worker/Answers.antt =====
-- How `sendBulkSmsToNhn`, `sendBulkAlimtalkToNhn` and `sendBulkBrandMessageToNhn` of
-- apps/worker/src/index.ts read the provider's answer to a campaign.
use noti.Common.{String, List, [], map, Option, none, some, if◌then◌else◌, Outcome, ok, err, ◌>>=◌}
use noti.Text.{Text, units}
use noti.Json.{Json, undefined, null, array, nil, at_key, truthy, or_else, is_false, item_list}
use noti.Worker.{WorkerError, unrecoverable, said, reported, Runtime}
use noti.Worker.Provider.{message_or, normalize_bizmessage_send_failure}
use noti.Worker.Bulk.{Kind, bulk_sms, bulk_alimtalk, bulk_brand_message, SendResult, SendResultItem}

module _ (rt : Runtime) where
  -- `value ? String(value) : null`
  abbrev filled_text : Json → Option Text
  filled_text v = if truthy v then some (rt.text_of v) else none

  -- `value !== undefined && value !== null ? String(value) : null`
  abbrev given_text : Json → Option Text
  given_text undefined = none
  given_text null = none
  given_text v = some (rt.text_of v)

  -- what the worker keeps of an item of the results, which is an object
  unfoldable pub read_result_item : Json → SendResultItem
  unfolding at_key truthy
  read_result_item i = record {
    recipient_seq = filled_text (at_key (units "recipientSeq") i);
    result_code = given_text (at_key (units "resultCode") i);
    recipient_grouping_key = filled_text (at_key (units "recipientGroupingKey") i);
  }

  -- `Array.isArray(rawResults) ? rawResults.map(...) : []`
  unfoldable pub read_results : Json → List SendResultItem
  unfolding item_list read_result_item
  read_results (array items) = map read_result_item (item_list items)
  read_results _ = []

  -- the request id, and the results
  abbrev pub result_or : String → Json → Json → Outcome WorkerError SendResult
  result_or no_id_message request_id raw_results =
      if truthy request_id
      then ok (record {
        request_id = rt.text_of request_id;
        send_result_list = read_results raw_results;
      })
      else err (unrecoverable (said no_id_message))

  unfoldable pub read_bulk_sms : Json → Outcome WorkerError SendResult
  unfolding at_key or_else is_false truthy read_results
  read_bulk_sms response =
      let header = at_key (units "header") response in
      let outer = at_key (units "body") response in
      let body = or_else (at_key (units "data") outer) (or_else outer response) in
      let list = units "sendResultList" in
      if is_false (at_key (units "isSuccessful") header)
      then err (
          unrecoverable
            (message_or rt (at_key (units "resultMessage") header) "NHN bulk SMS send failed"))
      else result_or "NHN bulk SMS response did not include requestId"
          (or_else (at_key (units "requestId") body) (at_key (units "requestId") response))
          (or_else (at_key list body) (or_else (at_key list response) (array nil)))

  -- The answers of the two Kakao channels; the message names the channel.
  unfoldable pub read_bulk_kakao : String → Json → Outcome WorkerError SendResult
  unfolding at_key or_else truthy normalize_bizmessage_send_failure read_results
  read_bulk_kakao no_id_message response =
      let body =
        or_else (at_key (units "message") response)
          (or_else (at_key (units "body") response) response) in
      let results = units "sendResults" in
      elim (normalize_bizmessage_send_failure rt response) [
        | some failure ↦ err (unrecoverable (reported failure))
        | none ↦
            result_or no_id_message
              (or_else (at_key (units "requestId") body) (at_key (units "requestId") response))
              (or_else (at_key results body) (
                or_else (at_key (units "sendResultList") body)
                  (or_else (at_key results response) (array nil))))
      ]

  unfoldable pub read_bulk_answer : Kind → Json → Outcome WorkerError SendResult
  unfolding read_bulk_sms read_bulk_kakao
  read_bulk_answer bulk_sms = read_bulk_sms
  read_bulk_answer bulk_alimtalk =
      read_bulk_kakao "NHN bulk AlimTalk response did not include requestId"
  read_bulk_answer bulk_brand_message =
      read_bulk_kakao "NHN bulk brand message response did not include requestId"

  -- what a post gives a run, where the provider answers or the post fails
  abbrev pub posted_answer : Kind → Outcome WorkerError Json → Outcome WorkerError SendResult
  posted_answer kind answer = do response ← answer; read_bulk_answer kind response
