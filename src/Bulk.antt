-- ===== src/Bulk.antt =====
-- apps/api/src/bulk-sms/bulk-sms.service.ts: bulk SMS campaigns, from the request for one to the
-- campaign that the worker (Worker.Bulk) takes.
pub mod Users
pub mod Body
pub mod Rows
pub mod Loop
pub mod Draft
pub mod Found
pub mod Parameters
pub mod Filled
pub mod Recipients
pub mod Prepared
pub mod Placeholders
pub mod Complete
pub mod Posting
pub mod Direct
mod Tests
