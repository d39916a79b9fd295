-- ===== src/Acme.antt =====
-- The ACME server of acme/: statuses, authorizations, orders and their database.
pub mod Types
pub mod Account
pub mod Db
pub mod Nosql
pub mod Challenge
pub mod Authorization
pub mod Order
pub mod Names
pub mod Sans
pub mod Finalize
pub mod Api
pub mod Examples
mod ChallengeExamples
mod NosqlExamples
