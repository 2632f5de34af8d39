-- ===== src/Ipld.antt =====
-- DAG-CBOR values: the data type and its maps.
pub mod Defs
pub mod Dict
pub use Defs.*
pub use Dict.{get-insert, to_list-of_list}
unfoldable pub use Dict.{get, insert, insert_all, to_list, of_list}
