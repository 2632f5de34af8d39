-- ===== src/Activitypub/Inbox/Conversations.antt =====
-- The participants of a conversation and its identifier, of core/src/activitypub/inbox.rs.
use dais.Base.{
  ℕ, Text, Bytes, bytes, List, [], ◌∷◌, ◌++◌, ◌+◌, ◌/◌, ◌%◌, text_cmp, lt, eq, gt, ltb,
  if◌then◌else◌,
}
use dais.Formats.{Formats}

-- The sorted list of the two, without repetition.
unfoldable pub sorted_participants : Text → Text → List Text
sorted_participants actor local_actor = elim (text_cmp actor local_actor) [
  | lt ↦ actor ∷ local_actor ∷ []
  | eq ↦ actor ∷ []
  | gt ↦ local_actor ∷ actor ∷ []
]

-- `{byte:02x}`
hex_digit : ℕ → ℕ
hex_digit n = if ltb n 10 then 48 + n else 87 + n

hex_text : Bytes → Text
unfolding hex_digit
hex_text [] = []
hex_text (b ∷ bs) = hex_digit (b / 16) ∷ hex_digit (b % 16) ∷ hex_text bs

-- What the hash of a conversation is taken of.
unfoldable pub hash_input : List Text → Bytes
hash_input [] = []
hash_input (participant ∷ more) = participant ++ 0 ∷ hash_input more

module _ {C F N : Type 0} (x : Formats C F N) where
  unfoldable pub hashed_conversation_id : Text → List Text → Text
  unfolding hex_text
  hashed_conversation_id prefix participants =
      prefix ++ hex_text (x.sha256 (hash_input participants))

  unfoldable pub conversation_id_for : List Text → Text
  conversation_id_for participants = hashed_conversation_id (bytes "ap-dm-") participants

  unfoldable pub e2ee_conversation_id_for : List Text → Text
  e2ee_conversation_id_for participants =
      hashed_conversation_id (bytes "e2ee-conversation-") participants
