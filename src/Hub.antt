-- ===== src/Hub.antt =====
-- The hub daemon of apps/hub: what it keeps of the events that an app sends.
pub mod Ring
pub mod Rate
