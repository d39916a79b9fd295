-- ===== src/Provisioner.antt =====
-- The provisioners of authority/provisioner/.
pub mod Claims
pub mod SignOptions
pub mod Validity
pub mod SshValidity
mod Examples
mod DateExamples
