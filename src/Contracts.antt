-- ===== src/Contracts.antt =====
-- packages/contracts: the data and the codecs that every driver shares.
pub mod Json
pub mod Strings
pub mod State
pub mod Diagnostic
pub mod Identity
pub mod Platform
pub mod Permissions
