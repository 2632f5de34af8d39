-- ===== src/Activitypub/Envelope.antt =====
-- core/src/e2ee_wire.rs: the encrypted messages that this build understands.
use dais.Base.{
  ℕ, Text, bytes, Option, none, some, Bool, true, false, ◌&&◌, not, ◌==◌, text_eq, is_blank,
}
use dais.Json.{Value, Members, get_member, as_str, as_object}
use dais.Formats.{Formats}

abbrev pub dais_mls_protocol : Text
dais_mls_protocol = bytes "mls-rfc9420"

abbrev pub dais_mls_envelope_version : ℕ
dais_mls_envelope_version = 2

module _ {C F N : Type 0} (x : Formats C F N) where
  as_u64_of : Option (Value N) → Option ℕ
  as_u64_of (some (Value.number n)) = x.as_u64 n
  as_u64_of o = none

  is_version : Option ℕ → Bool
  is_version none = false
  is_version (some version) = version == dais_mls_envelope_version

  is_protocol : Option Text → Bool
  is_protocol none = false
  is_protocol (some protocol) = text_eq protocol dais_mls_protocol

  is_ciphertext : Option Text → Bool
  is_ciphertext none = false
  is_ciphertext (some ciphertext) = not (is_blank ciphertext)

  supported_fields : Option (Members N) → Bool
  unfolding as_u64_of is_version is_protocol is_ciphertext
  supported_fields none = false
  supported_fields (some fields) =
      is_version (as_u64_of (get_member (bytes "v") fields))
      && is_protocol (as_str (get_member (bytes "protocol") fields))
      && is_ciphertext (as_str (get_member (bytes "ciphertext") fields))

  unfoldable pub is_supported_envelope : Value N → Bool
  unfolding supported_fields
  is_supported_envelope value = supported_fields (as_object (some value))

  -- `filter(|envelope| is_supported_envelope(envelope))`
  kept : Value N → Bool → Option (Value N)
  kept v true = some v
  kept v false = none

  unfoldable pub supported : Option (Value N) → Option (Value N)
  unfolding kept
  supported none = none
  supported (some envelope) = kept envelope (is_supported_envelope envelope)
