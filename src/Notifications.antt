-- ===== src/Notifications.antt =====
-- packages/bridge/src/notifications: which events become notifications, and how they are coalesced.
pub mod Policy
pub mod Coalesce
pub mod Service
