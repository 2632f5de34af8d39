-- ===== src/Activitypub/Delivery/Hosts.antt =====
-- Where core/src/activitypub/delivery.rs sends a post.
use dais.Base.{
  Text, List, [], ◌∷◌, some, true, false, ◌≡◌, refl, ok, Result-cases, inl, inr, get_elem?,
}
use dais.Json.{Value}
use dais.Formats.{Formats}
use dais.Store.{
  Store, Exec, History, Outcome, finished, failed, panicked, continue, pure, reads, gets, perform,
  query, written, ◌>>=◌,
}
use dais.Activitypub.Federation.{Urls, is_federation_host_allowed}
use dais.Activitypub.Types.{Services}
use dais.Activitypub.Delivery.{
  insert_delivery, select_inboxes, get_follower_inboxes, queue_delivery, queue_deliveries,
  create_follower_deliveries,
}

module _ {C F N U : Type 0} (x : Formats C F N) (store : Store N) (s : Services F N)
    (urls : Urls U) where
  -- Each statement inserts a delivery, to an inbox whose host the database, as it was before the
  -- statement, allows.
  abbrev pub OnlyAllowed : History N → Type 0
  OnlyAllowed [] = Unit
  OnlyAllowed (st ∷ h) =
      ((inbox_url : Text) × (st.sql ≡ insert_delivery)
        × (get_elem? st.params 2 ≡ some (Value.string inbox_url))
        × (is_federation_host_allowed x (record { execute = store.execute h }) urls inbox_url
            ≡ ok true))
      × OnlyAllowed h

  continue-OnlyAllowed :
      {A B : Type 0} (r : Outcome A) (f : A → Exec N B) (h : History N)
      → OnlyAllowed h
      → ((a : A) (h' : History N) → OnlyAllowed h' → OnlyAllowed (f a h').1)
      → OnlyAllowed (continue r f h).1
  continue-OnlyAllowed (finished a) f h p k = k a h p
  continue-OnlyAllowed (failed e) f h p k = p
  continue-OnlyAllowed panicked f h p k = p

  bind-OnlyAllowed :
      {A B : Type 0} (m : Exec N A) (f : A → Exec N B) (h : History N)
      → OnlyAllowed (m h).1
      → ((a : A) (h' : History N) → OnlyAllowed h' → OnlyAllowed (f a h').1)
      → OnlyAllowed ((m >>= f) h).1
  unfolding ◌>>=◌
  bind-OnlyAllowed m f h p k = let (r, h') = m h in continue-OnlyAllowed r f h' p k

  queue_delivery-OnlyAllowed :
      (post_id inbox_url : Text) (h : History N)
      → is_federation_host_allowed x (record { execute = store.execute h }) urls inbox_url ≡ ok true
      → OnlyAllowed h
      → OnlyAllowed (queue_delivery x store s post_id inbox_url h).1
  unfolding queue_delivery ◌>>=◌ gets perform written pure
  queue_delivery-OnlyAllowed post_id inbox_url h allowed p =
      elim (Result-cases (
        store.execute h insert_delivery (
          Value.string (s.generate_uuid h)
          ∷ Value.string post_id
          ∷ Value.string inbox_url
          ∷ Value.string (s.now_rfc3339 h)
          ∷ []))) [
            | inl (rows, e) ↦ rw (e, OnlyAllowed) ((inbox_url, refl, refl, allowed), p)
            | inr (error, e) ↦ rw (e, OnlyAllowed) p
          ]

  queue_deliveries-OnlyAllowed :
      (post_id : Text) (inboxes : List Text) (h : History N)
      → OnlyAllowed h
      → OnlyAllowed (queue_deliveries x store s urls post_id inboxes h).1
  unfolding queue_deliveries ◌>>=◌ reads pure
  queue_deliveries-OnlyAllowed post_id [] h p = p
  queue_deliveries-OnlyAllowed post_id (inbox_url ∷ more) h p =
      elim (Result-cases
        (is_federation_host_allowed x (record { execute = store.execute h }) urls inbox_url)) [
          | inr (e, failing) ↦ rw (failing, OnlyAllowed) p
          | inl (false, refused) ↦
              rw (refused, OnlyAllowed) (queue_deliveries-OnlyAllowed post_id more h p)
          | inl (true, allowed) ↦
              rw (allowed, OnlyAllowed)
                (bind-OnlyAllowed (queue_delivery x store s post_id inbox_url) _ h
                  (queue_delivery-OnlyAllowed post_id inbox_url h allowed p)
                  λ id h' p'.
                    bind-OnlyAllowed (queue_deliveries x store s urls post_id more) _ h'
                      (queue_deliveries-OnlyAllowed post_id more h' p') λ ids h'' p''. p'')
        ]

  -- Queueing a post for the followers runs only statements that insert a delivery, each to an inbox
  -- whose host the database allows at that moment.
  pub create_follower_deliveries-OnlyAllowed :
      (post_id actor_id : Text)
      → OnlyAllowed (create_follower_deliveries x store s urls post_id actor_id []).1
  unfolding create_follower_deliveries get_follower_inboxes query pure ◌>>=◌
  create_follower_deliveries-OnlyAllowed post_id actor_id =
      bind-OnlyAllowed (get_follower_inboxes x store s actor_id) _ []
        (elim (Result-cases (store.execute [] select_inboxes (Value.string actor_id ∷ []))) [
          | inl (rows, e) ↦ rw (e, OnlyAllowed) tt
          | inr (error, e) ↦ rw (e, OnlyAllowed) tt
        ])
        λ inboxes h p. queue_deliveries-OnlyAllowed post_id inboxes h p
