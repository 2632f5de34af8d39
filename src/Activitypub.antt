-- ===== src/Activitypub.antt =====
-- core/src/activitypub: who may read a post, and which hosts may federate.
pub mod Security
pub mod Federation
pub mod Types
pub mod Envelope
pub mod Inbox
pub mod Signatures
pub mod Delivery
pub mod Outbox
mod Tests
