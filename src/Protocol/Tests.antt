-- ===== src/Protocol/Tests.antt =====
-- A post routed to the built-in adapters.
use dais.Base.{bytes, List, [], ◌∷◌, none, ◌≡◌, ◌≢◌, All}
use dais.Protocol.{
  atproto, direct, PostIntent, ProtocolAdapter, activity_pub_adapter, atproto_adapter,
  required_capability, route_post,
}
use dais.Protocol.Routing.{
  supporting, lacking, for_activity_pub, for_atproto, route_post_plan, route_post_private,
}

abbrev adapters : List ProtocolAdapter
adapters = activity_pub_adapter ∷ atproto_adapter ∷ []

abbrev post : PostIntent
post = record {
  content = bytes "hello";
  audience = direct (bytes "did:web:b" ∷ []);
  attached = [];
  in_reply_to = none;
}

route_post_plan_example :
    ((route_post adapters post).selected ≡ supporting (required_capability post.audience) adapters)
    × ((route_post adapters post).dropped ≡ lacking (required_capability post.audience) adapters)
route_post_plan_example = route_post_plan adapters post

route_post_private_example : All (λ p. p ≢ atproto) (route_post adapters post).selected
route_post_private_example =
    route_post_private adapters post (for_activity_pub, (for_atproto, tt)) (λ e. cc (e))
