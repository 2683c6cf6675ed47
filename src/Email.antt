-- ===== src/Email.antt =====
-- src/email: what the mails say, and what the texts of users can do to them.
pub mod Escape
pub mod Markup
pub mod Words
pub mod Layout
pub mod Mails
pub mod Jobs
pub mod Payload
pub mod Bulk
pub mod Producer
