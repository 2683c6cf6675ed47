-- ===== src/Lib.antt =====
-- The backend of conference.contact, modelled as functions on the state of its database.
--
-- The program is a NestJS application over PostgreSQL (through Prisma), Redis, Stripe and a job queue.
-- It sells access to a Lead Directory (Directory subscriptions), recurring Lead Finder tiers and packs
-- of Lead Finder credits, and keeps accounts with sessions, devices and emailed links. Requests pass
-- the guards and reach a service; Stripe's events reach both billing services one after the other,
-- through a queue; both read and write the same tables.
--
-- State. `Db` of Schema.antt is the database (prisma/schema.prisma) with the keys of Redis and the
-- list of outside effects (calls of Stripe, emails by template, rows of the audit log). A table is the
-- list of its rows; ids, hashes and tokens are numbers, dates are milliseconds. An `Action` of
-- Action.antt takes the database to a result or an exception and to the database after it: what was
-- written before an exception stays written. Action/Keeps.antt has one rule per way to build an
-- action, for invariants and for relations between the states before and after.
--
-- Files.
--   Prelude: shared names, Boolean tests, lists, and queries and updates of tables.
--   Access: src/subscriptions/subscription-access.util.ts.
--   Guards: src/subscriptions/guards and src/auth/guards.
--   Revocation: src/common/token-revocation.
--   Numerals: the decimal numbers of the Stripe metadata (`String` and `parseInt`).
--   Stripe, Customers: what is exchanged with Stripe, and src/billing/stripe-customer.service.ts
--     (Race has its steps).
--   Credits: the writes to balances and to the ledger of grants, and how they relate.
--   Subscriptions: src/subscriptions/subscriptions.service.ts (Checkout, Status, Sync, Webhook; Rows has
--     the unique index of the table).
--   LeadFinderBilling: src/lead-finder-billing/lead-finder-billing.service.ts, in the same way.
--   Webhooks: src/subscriptions/stripe-webhook.processor.ts, with the invariants of both services.
--   Users, Sessions, Devices, Risk: src/users and src/sessions.
--   Auth: src/auth/auth.service.ts (Register, Login, Refresh, Recovery, Erasure), in the
--     environment of AuthEnv, and src/auth/auth.controller.ts with its cookies (Controller).
--   LeadSearch: the credits and the start of a search of src/leads/leads.service.ts, the searches that
--     were started (Jobs) and those of visitors (Anonymous); the loop of
--     src/leads/apollo-search.processor.ts that spends the credits (Enrichment), the job around it
--     (Process) and its search for one person by name (DirectMatch), the client of Apollo,
--     src/leads/apollo.service.ts (Apollo), and the way from the words of a user to its filters,
--     with src/leads/claude.service.ts (Query).
--   Email: src/email/email.processor.ts (Jobs; Mails has the texts), src/email/bulk-email.processor.ts
--     (Bulk), src/email/email.service.ts (Producer, with the jobs on the queue in Payload) and
--     src/email/email-template.util.ts (Escape, Layout). Markup picks the characters of a text that open
--     and close tags and attributes.
--   RenewalReminder: src/renewal-reminder/renewal-reminder.service.ts (Marks: rows that are marked once).
--   Campaign: src/prospect-campaign/prospect-campaign.service.ts (Upload, Drip, and Runs over time), and
--     the links to unsubscribe (Unsubscribe) and the reports of Resend (Webhook), of src/email.
--   Pages, Directory: listings in pages, and the directory of src/leads/leads.service.ts.
--   Admin: src/admin/admin.service.ts (Revenue, Listings), and the contact form and the invitations
--     (Contact).
--   Examples: concrete rows and databases, at which the theorems are applied.
--
-- Code outside the repository is a parameter: Stripe's answers (`StripeApi`, where `none` and
-- `false` are an exception), those of Apollo, Claude and Redis, the verification of tokens,
-- password hashing, one-time passwords, and the hash of a token. New ids and random values come
-- with the environment. One request runs at a time, but for the cancellations that arrive during
-- a search and the race for a customer; orders of events are lists of steps. Loops run over
-- lists. Fuel is used three times: the printing of a number has the number itself, which is at
-- least the count of its digits less one, and the look-ups by chunks of an upload and the
-- batches of invitations have the count of their addresses, each chunk having one at least.
--
-- A write to the database fails only where a constraint or a missing row makes it fail; the database
-- itself, and the writes to it one after the other without a transaction, do not break off. Rows of
-- the same name may come in another order in each query of the directory; other listings sort by a
-- time, and rows of the same time come in the order of the table.
--
-- Not modelled: data export, the delivery of mail, the listing of the audit log, the values of the
-- directory's filters, logging, start-up and configuration.
mod Prelude
pub mod Schema
pub mod Action
pub mod Access
pub mod Revocation
pub mod Guards
pub mod Numerals
pub mod Stripe
pub mod Customers
pub mod Credits
pub mod Subscriptions
pub mod LeadFinderBilling
pub mod Webhooks
mod Examples
pub mod AuthEnv
pub mod Sessions
pub mod Devices
pub mod Risk
pub mod Users
pub mod Auth
pub mod Pages
pub mod Admin
pub mod Directory
pub mod Campaign
pub mod Email
pub mod LeadSearch
pub mod RenewalReminder
