-- ===== src/Activitypub/Inbox.antt =====
-- core/src/activitypub/inbox.rs: what an activity from another server does to the database.
mod Queries
pub mod Actors
mod Notifications
pub mod Objects
mod Questions
mod Conversations
mod Messages
mod Follows
mod Timeline
mod Replies
mod Process
mod Permits
mod Content
mod Writes
mod Safety
mod Tests
mod Gate
mod Authors
mod Identity
