-- ===== src/Channels.antt =====
-- channels/: messages to humans.
pub mod Notifications
