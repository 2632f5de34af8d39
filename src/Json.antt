-- ===== src/Json.antt =====
-- `serde_json::Value`: the constructors are those that `json_to_plain_ipld` matches on,
-- exhaustively (core/src/atproto/repo.rs). `N` is the type of JSON numbers. An object is the list
-- of its members in key order.
pub mod Defs
pub mod Access
pub use Defs.*
unfoldable pub use Access.{get, get_member, as_str, as_array, as_object, or_default}
