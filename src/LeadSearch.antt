-- ===== src/LeadSearch.antt =====
-- src/leads: the credits of a Lead Finder search and the job that spends them.
pub mod Credits
pub mod Enrichment
pub mod Start
pub mod DirectMatch
pub mod Process
pub mod Apollo
pub mod Query
pub mod Jobs
pub mod Anonymous
