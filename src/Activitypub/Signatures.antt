-- ===== src/Activitypub/Signatures.antt =====
-- core/src/activitypub/signatures.rs: the signatures of HTTP requests. The functions for strings fail
-- with a text.
pub mod Attempt
pub mod Header
pub mod Request
pub mod Policy
pub mod Quotes
pub mod Words
pub mod RoundTrip
pub mod Keys
pub mod Laws
pub mod Window
mod Tests
