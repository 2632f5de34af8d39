-- ===== src/Activitypub/Inbox/Authors.antt =====
-- What the handlers of core/src/activitypub/inbox.rs do not ask: whether the post or the interaction
-- that an activity changes is its actor's.
use dais.Base.{
  Text, bytes, Option, none, some, true, ◌≡◌, ◌≢◌, refl, sym, ◌∙◌, inl, inr, ok, text_eq,
  text_eq_iff, Bool-cases, Option-cases,
}
use dais.Json.{Value}
use dais.Formats.{Formats}
use dais.Store.{Store, History, ◌>>=◌, reads}
use dais.Activitypub.Types.{Activity, Services}
use dais.Activitypub.Inbox.Objects.{object_str, str_member, is_timeline_object_type, note_object_id}
use dais.Activitypub.Inbox.Questions.{is_accepted_following}
use dais.Activitypub.Inbox.Follows.{undo_of, handle_undo}
use dais.Activitypub.Inbox.Timeline.{
  update_note, update_followed, update_typed, update_object, handle_update,
}
use dais.Activitypub.Inbox.Safety.{moment}

-- The same activity, from another actor.
abbrev pub by : {N : Type 0} → Text → Activity N → Activity N
by actor activity = record activity { actor = actor }

module _ {C F N : Type 0} (x : Formats C F N) (store : Store N) (s : Services F N)
    (activity : Activity N) where
  update_followed-by :
      (p : Text) (note : Value N) (h : History N)
      → is_accepted_following x (moment store h) p ≡ ok true
      → update_followed x store s (by p activity) note h ≡ update_note x store s activity note h
  unfolding update_followed ◌>>=◌ reads update_note note_object_id object_str
  update_followed-by p note h accepted = rw accepted refl

  update_object-by :
      (p q : Text) (o : Option (Value N)) (h : History N)
      → is_accepted_following x (moment store h) p ≡ ok true
      → is_accepted_following x (moment store h) q ≡ ok true
      → update_object x store s (by p activity) o h ≡ update_object x store s (by q activity) o h
  unfolding update_object update_typed
  update_object-by p q none h a b = refl
  update_object-by p q (some note) h a b = elim (Option-cases (str_member (bytes "type") note)) [
    | inl e ↦ rw e refl
    | inr (kind, e) ↦ elim (Bool-cases (is_timeline_object_type kind)) [
      | inl t ↦ rw (e, t) (update_followed-by p note h a ∙ sym (update_followed-by q note h b))
      | inr f ↦ rw (e, f) refl
    ]
  ]

  -- An Update does the same whichever accepted following sends it: the author of the post that it
  -- changes is not asked for.
  pub handle_update_any_author :
      (p q : Text) (h : History N)
      → is_accepted_following x (moment store h) p ≡ ok true
      → is_accepted_following x (moment store h) q ≡ ok true
      → handle_update x store s (by p activity) h ≡ handle_update x store s (by q activity) h
  unfolding handle_update
  handle_update_any_author p q h a b = update_object-by p q activity.object h a b

module _ {N : Type 0} (store : Store N) (activity : Activity N) where
  undo_any_actor :
      (p q : Text) (o : Option Text)
      → o ≢ some (bytes "Follow")
      → undo_of store (by p activity) o ≡ undo_of store (by q activity) o
  unfolding undo_of object_str
  undo_any_actor p q none other = refl
  undo_any_actor p q (some kind) other = elim (Bool-cases (text_eq kind (bytes "Follow"))) [
    | inl same ↦ let e = (text_eq_iff kind (bytes "Follow")).0 same in absurd (other (cc (e)))
    | inr different ↦ rw different refl
  ]

  -- An Undo of anything but a Follow does the same whoever sends it: a like or a boost is deleted by
  -- its identifier alone.
  pub handle_undo_any_actor :
      (p q : Text)
      → object_str (bytes "type") activity ≢ some (bytes "Follow")
      → handle_undo store (by p activity) ≡ handle_undo store (by q activity)
  unfolding handle_undo object_str
  handle_undo_any_actor p q other = undo_any_actor p q (object_str (bytes "type") activity) other
