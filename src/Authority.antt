-- ===== src/Authority.antt =====
-- The authority's name policies: the options and the engines of authority/policy/, the policies of
-- authority/admin/db/nosql/, and authority/policy.go, which changes a policy and loads it again.
pub mod Linked
pub mod Options
pub mod Engine
pub mod AdminDb
pub mod Reload
mod Examples
