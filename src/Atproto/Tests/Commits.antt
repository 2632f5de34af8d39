-- ===== src/Atproto/Tests/Commits.antt =====
-- Changes read off a small archive.
use dais.Base.{Bytes, bytes, [], ◌∷◌, none, some, ◌≡◌, refl, collect, text_cmp, text_eq}
use dais.Base.Run.{return}
use dais.Sample.{sample, sample-IsLawful}
use dais.Atproto.Cbor.{dag_cbor_bytes, map_ipld}
use dais.Atproto.Car.{CarFile}
use dais.Atproto.Sync.{RepoOperation}
use dais.Atproto.Mst.Changes.{RepoChange, created, deleted, extract_one_change}
use dais.Atproto.Mst.Backing.{IsBacked, extract_one_change-IsBacked}
use dais.Atproto.Tree.{node_ipld, entry_ipld}
use dais.Atproto.Tests.{unwrap_or}

-- A tree of one node, with one entry.
abbrev node : Bytes
node = unwrap_or [] (
    dag_cbor_bytes sample
      (node_ipld sample none (entry_ipld sample 0 (bytes "f/1") (5 ∷ []) none ∷ [])))

abbrev archive : CarFile Bytes
archive = record { roots = []; blocks = (9 ∷ [], node) ∷ (5 ∷ [], bytes "one") ∷ [] }

abbrev operation : RepoOperation
operation = record { action = bytes "create"; path = bytes "f/1"; cid = some (5 ∷ []) }

change_read :
    extract_one_change sample 1 archive (9 ∷ []) operation
    ≡ return (created (bytes "f/1") (5 ∷ []) (bytes "one"))
unfolding sample extract_one_change bytes dais.Atproto.Mst.mst_get dais.Atproto.Mst.search_node
    dais.Atproto.Mst.decode_mst_node dais.Atproto.Car.block dag_cbor_bytes node_ipld map_ipld
    dais.Ipld.insert text_cmp dais.Ipld.of_list entry_ipld dais.Atproto.Cbor.require_map
    dais.Atproto.Cbor.require_list dais.Ipld.get collect dais.Atproto.Car.find_block
    dais.Atproto.Cbor.optional_link dais.Atproto.Cbor.require_link dais.Atproto.Cbor.require_raw
    dais.Atproto.Mst.Changes.change_of dais.Atproto.Mst.Changes.check_declared
    dais.Atproto.Mst.apply_prefix dais.Atproto.Mst.decode_mst_entry dais.Atproto.Mst.scan_entries
    text_eq dais.Ipld.insert_all dais.Ipld.to_list
change_read = refl

extract_one_change-IsBacked_example :
    IsBacked sample sample-IsLawful archive operation 1
      (9 ∷ [])
      (created (bytes "f/1") (5 ∷ []) (bytes "one"))
extract_one_change-IsBacked_example =
    extract_one_change-IsBacked sample sample-IsLawful archive operation 1 (9 ∷ [])
      (created (bytes "f/1") (5 ∷ []) (bytes "one")) change_read
