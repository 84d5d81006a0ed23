-- ===== src/Control.antt =====
-- The control plane (core/control): identities, trust, signed grants, the registry of participants
-- and the broker of channels.
pub mod Identity
pub mod Trust
pub mod Json
pub mod Grants
pub mod Plane
pub mod Channel
