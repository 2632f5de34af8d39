-- ===== src/Activitypub/Outbox.antt =====
-- core/src/activitypub/outbox.rs: the notes that other servers get.
mod Tags
mod Notes
mod Audience
mod Queries
mod Conditions
mod Reading
mod Anonymous
mod Tests
