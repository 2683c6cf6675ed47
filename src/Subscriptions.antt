-- ===== src/Subscriptions.antt =====
-- src/subscriptions/subscriptions.service.ts: the Directory plan and the credit packs.
pub mod Rows
pub mod Sync
pub mod Webhook
pub mod Checkout
pub mod Status
