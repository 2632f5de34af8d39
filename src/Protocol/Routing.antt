-- ===== src/Protocol/Routing.antt =====
-- A post goes to the protocols that can keep its audience, and to no others.
use dais.Base.{
  List, [], ◌∷◌, ◌++◌, false, ◌≡◌, ◌≢◌, refl, ap, sym, ◌∙◌, append_assoc, append-nil, if◌then◌else◌,
  All, Bool-cases, inl, inr,
}
use mathlib.Core.Path.{subst}
use dais.Protocol.{
  ProtocolId, atproto, Capability, supports, Audience, public, friends, direct, PostIntent,
  RouteDrop, RoutePlan, ProtocolAdapter, activity_pub_adapter, atproto_adapter, required_capability,
  route_loop, route_post, activitypub_capabilities, atproto_public,
}

-- The adapters' protocols, kept where their capabilities do, or do not, hold the one required.
unfoldable pub supporting : Capability → List ProtocolAdapter → List ProtocolId
supporting required [] = []
supporting required (a ∷ rest) =
    if supports a.capabilities required
    then a.id ∷ supporting required rest
    else supporting required rest

unfoldable pub lacking : Capability → List ProtocolAdapter → List RouteDrop
lacking required [] = []
lacking required (a ∷ rest) =
    if supports a.capabilities required
    then lacking required rest
    else record { protocol = a.id; missing_capability = required } ∷ lacking required rest

plan_of : List ProtocolId → List RouteDrop → RoutePlan
plan_of selected dropped = record { selected = selected; dropped = dropped }

route_loop-filters :
    (adapters : List ProtocolAdapter) (required : Capability) (plan : RoutePlan)
    → route_loop adapters required plan
      ≡ plan_of
          (plan.selected ++ supporting required adapters)
          (plan.dropped ++ lacking required adapters)
unfolding route_loop supporting lacking plan_of
route_loop-filters [] required plan = rw (append-nil, append-nil)
route_loop-filters (a ∷ rest) required plan = elim (Bool-cases (supports a.capabilities required)) [
  | inl able ↦ rw able (route_loop-filters rest required _ ∙ rw append_assoc)
  | inr unable ↦ rw unable (route_loop-filters rest required _ ∙ rw append_assoc)
]

-- The plan selects the protocols of the adapters with the capability that the audience requires,
-- in their order, and drops each other one with that capability as the reason.
pub route_post_plan :
    (adapters : List ProtocolAdapter) (post : PostIntent)
    → let required = required_capability post.audience in
      ((route_post adapters post).selected ≡ supporting required adapters)
      × ((route_post adapters post).dropped ≡ lacking required adapters)
unfolding route_post plan_of
route_post_plan adapters post =
    let e =
      route_loop-filters adapters (required_capability post.audience)
        (record { selected = []; dropped = [] }) in
    (ap (λ p. p.selected) e, ap (λ p. p.dropped) e)

-- The adapters that the core library defines.
pub data IsBuiltIn : ProtocolAdapter → Type 0 where
  for_activity_pub : IsBuiltIn activity_pub_adapter
  for_atproto : IsBuiltIn atproto_adapter

-- Without the capability, the built-in AT Protocol adapter is not selected.
supporting-atproto :
    (required : Capability) (rest : List ProtocolAdapter)
    → supports atproto_public required ≡ false
    → supporting required (atproto_adapter ∷ rest) ≡ supporting required rest
unfolding supporting atproto_adapter
supporting-atproto required rest h = rw h

supporting-activity_pub :
    (required : Capability) (rest : List ProtocolAdapter)
    → All (λ p. p ≢ atproto) (supporting required rest)
    → All (λ p. p ≢ atproto) (supporting required (activity_pub_adapter ∷ rest))
unfolding supporting activity_pub_adapter
supporting-activity_pub required rest ih =
    elim (Bool-cases (supports activitypub_capabilities required)) [
      | inl able ↦ rw able ((λ e. cc (e)), ih)
      | inr unable ↦ rw unable ih
    ]

supporting-ne-atproto :
    (required : Capability) (adapters : List ProtocolAdapter)
    → supports atproto_public required ≡ false
    → All IsBuiltIn adapters
    → All (λ p. p ≢ atproto) (supporting required adapters)
unfolding supporting
supporting-ne-atproto required [] h built = tt
supporting-ne-atproto required (a ∷ rest) h (b, built) =
    add b (supporting-ne-atproto required rest h built)
  where
    add :
        {a : ProtocolAdapter}
        → IsBuiltIn a
        → All (λ p. p ≢ atproto) (supporting required rest)
        → All (λ p. p ≢ atproto) (supporting required (a ∷ rest))
    add for_activity_pub ih = supporting-activity_pub required rest ih
    add for_atproto ih =
        subst (All (λ p. p ≢ atproto)) (sym (supporting-atproto required rest h)) ih

-- A post for friends or for named recipients is never routed to AT Protocol, however many of the
-- built-in adapters are registered, and in whatever order.
pub route_post_private :
    (adapters : List ProtocolAdapter) (post : PostIntent)
    → All IsBuiltIn adapters
    → post.audience ≢ public
    → All (λ p. p ≢ atproto) (route_post adapters post).selected
unfolding supports atproto_public required_capability
route_post_private adapters post built h =
    subst (All (λ p. p ≢ atproto)) (sym (route_post_plan adapters post).0)
      (supporting-ne-atproto _ adapters (lacks post.audience h) built)
  where
    lacks : (a : Audience) → a ≢ public → supports atproto_public (required_capability a) ≡ false
    lacks public h = absurd (h refl)
    lacks friends h = refl
    lacks (direct recipients) h = refl
