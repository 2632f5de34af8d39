-- ===== src/Atproto/Tests/Contents.antt =====
-- A JSON value that goes to DAG-CBOR and back.
use dais.Base.{ℕ, bytes, ok, ◌≡◌, refl}
use dais.Ipld.{Ipld, Items, Fields, pos}
use dais.Json.{Value, Values, Members}
use dais.Sample.{sample, sample-IsLawful}
use dais.Atproto.Repo.Records.Plain.{json_to_plain_ipld}
use dais.Atproto.Firehose.Json.{ipld_to_json}
use dais.Atproto.Firehose.RoundTrip.{Small, ipld_to_json-json_to_plain_ipld}
use dais.Base.{Bytes}

abbrev value : Value ℕ
value =
    Value.object (
      Members.member (bytes "n") (Value.array (Values.cons (Value.number 7) Values.nil))
        Members.end)

abbrev plain : Ipld Bytes ℕ
plain =
    Ipld.dict (
      Fields.field (bytes "n") (Ipld.list (Items.cons (Ipld.integer (pos 7)) Items.nil)) Fields.end)

ipld_to_json-json_to_plain_ipld_example : ipld_to_json sample plain ≡ ok value
unfolding sample json_to_plain_ipld Small
ipld_to_json-json_to_plain_ipld_example =
    ipld_to_json-json_to_plain_ipld sample sample-IsLawful value plain (((λ e. cc (e)), tt), tt)
      refl
