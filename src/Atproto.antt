-- ===== src/Atproto.antt =====
-- core/src/atproto: the AT Protocol repository, from records to signed CAR files and back.
pub mod Cbor
pub mod Varint
pub mod Car
pub mod Sync
pub mod Mst
pub mod RecordProof
pub mod Tree
pub mod Repo
pub mod Firehose
mod Tests
