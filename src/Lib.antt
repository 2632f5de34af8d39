-- ===== src/Lib.antt =====
-- dais: a single-user server for ActivityPub and AT Protocol, written in Rust. Its core library
-- (core/) holds the logic of both protocols; the workers of platforms/ call it with a database, a
-- queue and an HTTP client, and client/ and apps/ are its front ends. This library models parts of
-- core/ and proves what they promise.
--
-- The AT Protocol side (core/src/atproto) keeps the owner's records as a repository: the records
-- become blocks of DAG-CBOR, a Merkle search tree over their sorted paths names them, a signed
-- commit names the tree, and a CAR archive carries all blocks. Other servers' archives are read with
-- the same formats: `verify_record_proof` finds one record in an archive or learns that it is
-- absent, and the firehose decodes commits. The ActivityPub side (core/src/activitypub) takes
-- the activities of other servers into the database, sends the owner's posts to the followers, and
-- decides who may read a post, and core/src/protocol decides to which protocols a post goes.
--
-- Files and code:
-- - Base: shared names, texts and byte strings as lists of numbers, `CoreError` and `CoreResult` of
--   core/src/error.rs, and `Run`, the result of a call that has fuel (`none`: it ran out).
-- - Ipld, Json: the values of `libipld` and `serde_json` that the code matches on; a map is the list
--   of its fields in key order.
-- - Formats: what other crates do (CIDs, hashes, DAG-CBOR, JSON numbers, keys), as parameters, and
--   their documented behaviour as `IsLawful`. Sample: concrete formats that meet it.
-- - Atproto.Cbor, Atproto.Varint, Atproto.Car: core/src/atproto/car.rs, and `encode_car`,
--   `write_uvarint` and the DAG-CBOR helpers of core/src/atproto/repo.rs. The cursor of the reader is
--   the input that is left.
-- - Atproto.Mst: core/src/atproto/mst.rs. The body of `mst_get` is `search_node`; the loop over the
--   entries is `scan_entries`, with the values that it updates as arguments.
-- - Atproto.Tree: `mst_subtree`, `mst_node_block` and `repo_key_depth` of core/src/atproto/repo.rs. A
--   range of indices into the records is the list of the records in it.
-- - Atproto.Repo: the rest of core/src/atproto/repo.rs, and `commit_event` of core/src/atproto/sync.rs,
--   whose `RepoOperation` is in Atproto.Sync.
-- - Atproto.RecordProof: core/src/atproto/record_proof.rs.
-- - Atproto.Firehose: core/src/atproto/firehose.rs.
-- - Protocol: core/src/protocol/mod.rs.
-- - Activitypub: core/src/activitypub/security.rs. The database is asked by a function of the query
--   and its parameters, which stands for its contents at one moment.
-- - Store: core/src/traits/database.rs, as the state of a handler: the statements that it has run and
--   that change the database. A statement's answer depends on those before it; one that fails changes
--   nothing. Store.Keeps has a rule for each way to build a handler, by which a property of all
--   statements that it runs is proved.
-- - Activitypub.Types, Activitypub.Envelope: the record of an activity (core/src/activitypub/types.rs),
--   requests and responses (core/src/traits/http.rs), and core/src/e2ee_wire.rs.
-- - Activitypub.Inbox: core/src/activitypub/inbox.rs. Queries has its SQL, Actors the profile of a
--   remote actor, Objects and Questions what is read off the object and asked of the database, Messages,
--   Follows, Timeline and Replies the handlers, and Process the dispatch. The HTTP client, the clock,
--   the generator of UUIDs, JSON texts and the moderator are parameters; a panic is an outcome.
-- - Activitypub.Signatures: core/src/activitypub/signatures.rs. Header is the Signature header, Request
--   the signing string, Policy what an inbound signature must cover; RSA, base64 and the parsing of
--   dates are parameters, and `IsKeyPair` is their documented behaviour.
-- - Activitypub.Delivery: core/src/activitypub/delivery.rs; Posting is the signed request,
--   Maps, Carried and Covering are about the further headers that a caller adds.
-- - Activitypub.Outbox: core/src/activitypub/outbox.rs. Queries has its SQL and how rows are read, Tags
--   the tags and polls of a post, Notes the members of a note, and Conditions the documented
--   behaviour of a database that filters by the conditions of a statement. An object has its keys in
--   order, as serde_json keeps them.
-- - Migrations: core/src/migrations.rs, and `convert_placeholders` of core/src/sql/mod.rs.
-- - Html: `sanitize_html` of core/src/utils.rs, with the variables of its loop as a record.
-- - Webfinger: core/src/webfinger.rs. The database is the one of Activitypub.Federation.
-- - The modules called Tests hold concrete runs.
--
-- Bounds and fuel. `usize` holds the numbers below `usize_range`; the varints are those of a `u64`.
-- `decode_car` has a unit of fuel for each byte, which is enough since a section takes a byte at
-- least. `repo_tree` has one unit more than the depth of the deepest key, which is enough since each
-- level of the tree takes one. `mst_get` has no bound in the source; its fuel is an argument of every
-- theorem about it.
--
-- `sanitize_html` has a round for each byte and one more, which is enough since each round that goes
-- on takes a byte at least.
--
-- Not modelled: the actors and the timelines of core/src/activitypub, the builders of core/src/sql and
-- the views of core/src/atproto, which are queries and JSON; core/src/lib.rs, which joins the parts;
-- end-to-end encryption, a wrapper of another library; the workers of platforms/, the clients and the
-- conformance suite. Cryptography, and the formats of other crates, are parameters.
pub mod Base
pub mod Ipld
pub mod Json
pub mod Formats
pub mod Atproto
pub mod Protocol
pub mod Activitypub
pub mod Webfinger
pub mod Html
pub mod Store
pub mod Migrations
mod Sample
