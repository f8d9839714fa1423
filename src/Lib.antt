-- ===== src/Lib.antt =====
-- Verification of the noti messaging platform, which sends SMS, AlimTalk and Kakao brand messages
-- through the NHN provider. An API (apps/api) accepts requests and campaigns and puts a job for
-- each in a queue; a worker (apps/worker) runs the jobs, composes the texts with the rules of
-- packages/shared and posts them; the API then looks up what became of them.
--
-- Which file models what:
-- - Common: names of the libraries, Boolean tests, lists, optional and failing results.
-- - Text: JavaScript strings as lists of UTF-16 code units, with trim and the \s and \d classes.
-- - Template: packages/shared/src/index.ts, collectRequiredVariables, extractRequiredVariables
--   (also of several sources), renderTemplate and missingRequiredVariables. `scan` is what the
--   regular expression matches in turn; its fuel is the length of the body, and each step consumes
--   a unit. Template/Scan, Matches and Render hold the
--   proofs.
-- - Sms and Sms/Format: the same file's byte lengths, truncation, classes, MMS titles and
--   formatSmsBody. Sms/Bounds and Sms/Advertisement hold the proofs.
-- - Json: values that the source reads without a type, from JSON columns and from responses.
-- - Worker: apps/worker/src/index.ts. Worker/Provider is sendToNhn (the bodies that are posted and
--   how answers are read), Worker/Row the rows, Worker/Compose the first half of processMessage,
--   Worker/Dispatch the rest with the `failed` listener, Worker/Job a job's runs in the queue,
--   with the eight attempts of buildRetryableOptions in apps/api/src/queue/queue.service.ts,
--   Worker/Bulk the three campaign processors, Worker/Answers how they read the provider's answer.
--   Worker/Settled, Attempts, Sending, Approval,
--   Campaigns, Marks and Refusals hold the proofs.
-- - Delivery, Delivery/Message and Delivery/Campaign:
--   apps/api/src/provider-results/provider-results.service.ts, mapLookupToStatus,
--   resolveMessageRequest, deriveCampaignStatus and resolveBulkCampaign for submitted campaigns;
--   Delivery/Local is resolveBulkCampaign as a whole, with the campaigns that have no request id.
--   Delivery/Counts and Delivery/Status hold the proofs.
-- - Requests: apps/api/src/message-requests/message-requests.service.ts, resolveChannel and
--   resolveManualRecipientPhones. Requests/Rows is the table of requests with the queue,
--   Requests/Accept createAcceptedPublEventRequest, Requests/Retry retryForUser, Requests/Create
--   create, Requests/Manual with Manual/Rows createManualSmsRequests. Requests/Channel, Phones, Once,
--   Backing, Retries, Resending, Created, Manual/Checked and Manual/Stored hold the proofs;
--   Resending has the requests' steps.
-- - Publ: the same file's values of events and paths into them, Publ/Parser and Publ/Pipeline the
--   parser of properties, Publ/Named buildPublEventVariables, Publ/Event createFromPublEvent.
--   Publ/Named, Phones and Accepted hold the proofs. A loop over a text counts the units that the
--   match before it took.
-- - Flow: the row that the API stores, as the worker reads it, with Worker/Posting for the
--   worker's side.
-- - Sms080: apps/api/src/sms-080/sms-080.service.ts, with the opt-out text that the API makes of a
--   number. Sms080/Review, Taken and OptOut hold the proofs.
-- - Senders: apps/api/src/sender-numbers/sender-numbers.service.ts. Senders/Review holds the
--   proofs.
-- - Bulk: apps/api/src/bulk-sms/bulk-sms.service.ts, prepareCampaignDraft and createCampaign.
--   Bulk/Users has the values of users as template parameters, Bulk/Body the body and the mapping
--   of its variables, Bulk/Rows the rows and the choice of users, Bulk/Loop the loop over the users,
--   which all campaigns share, Bulk/Draft the checks and the transaction, Bulk/Direct what createCampaign makes of the provider's answer. A pass of
--   Bulk/Body over a text has the text's length as fuel, and each step consumes a unit.
--   Bulk/Found, Parameters, Filled, Recipients, Prepared, Placeholders, Complete, Posting and Direct
--   hold the proofs.
-- - Kakao: what apps/api/src/bulk-alimtalk/bulk-alimtalk.service.ts and
--   apps/api/src/bulk-brand-message/bulk-brand-message.service.ts share; Kakao/Alimtalk and
--   Kakao/Brand are prepareCampaignDraft of each, Kakao/Brand/Content the checks of a brand message's
--   content, whose scan has the text's length as fuel. Kakao/Selected and the other children hold the
--   proofs.
-- - Quota: apps/api/src/sms-quota/sms-quota.service.ts, assertCanReserveUsage and reserveUsage,
--   with the transactions of apps/api/src/message-requests/message-requests.service.ts and
--   apps/api/src/bulk-sms/bulk-sms.service.ts that call them. Each runs alone: that two of them
--   are not interleaved is left to the database. Quota/Limit holds the proofs.
-- The Tests modules run the definitions on concrete inputs.
--
-- Parameters. The provider is a function from what is posted to an answer or an error, another one
-- for each run of a job. The environment and what the JavaScript runtime computes (texts of
-- numbers, properties that objects inherit, toUpperCase, JSON.stringify, the clock, the calendar)
-- are the records Runtime and EventRuntime or arguments. Rows of the database are records; its reads and writes
-- succeed, but for what the unique index of Sms080 refuses. A scheduled time is the time itself, not its formatted text.
-- A run of a campaign counts as posted once its processor has called the send, also if the call fails
-- before the HTTP request. retryForUser is one step: its reads and its write are not interleaved with
-- others. The loop that runs a job again after an error, and calls the `failed` listener, is the
-- queue's. Numbers of the source are
-- within the exact range of doubles and are naturals here.
--
-- Not modelled: HTTP, sessions, forms and views of the API, the console, the poller, the bodies that
-- are posted for campaigns, the direct posts of AlimTalk and brand message campaigns, the default
-- templates that the provider has (their variables and the result of their upsert are arguments) and
-- manual AlimTalk and brand messages beside their phones.
pub mod Common
pub mod Text
pub mod Template
pub mod Sms
pub mod Json
pub mod Worker
pub mod Delivery
pub mod Requests
pub mod Publ
pub mod Quota
pub mod Flow
pub mod Sms080
pub mod Senders
pub mod Bulk
pub mod Kakao
