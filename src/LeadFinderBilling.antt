-- ===== src/LeadFinderBilling.antt =====
-- src/lead-finder-billing/lead-finder-billing.service.ts: the recurring Lead Finder tiers.
pub mod Rows
pub mod Webhook
pub mod Checkout
