-- ===== src/Protocol.antt =====
-- core/src/protocol/mod.rs: the capabilities of the protocols, and the routing of a post to the
-- adapters whose protocol can keep its audience.
pub mod Routing
mod Tests
use dais.Base.{Text, bytes, List, [], ◌∷◌, ◌++◌, Option, Bool, true, false, if◌then◌else◌}

pub data ProtocolId : Type 0 where
  activity_pub : ProtocolId
  atproto : ProtocolId

unfoldable pub as_str : ProtocolId → Text
as_str activity_pub = bytes "activitypub"
as_str atproto = bytes "atproto"

pub data Capability : Type 0 where
  public_broadcast private_audience direct_message e2ee_dm media threading reactions edit delete :
      Capability

pub record CapabilitySet : Type 0 where
  pub has_public_broadcast : Bool
  pub has_private_audience : Bool
  pub has_direct_message : Bool
  pub has_e2ee_dm : Bool
  pub has_media : Bool
  pub has_threading : Bool
  pub has_reactions : Bool
  pub has_edit : Bool
  pub has_delete : Bool

unfoldable pub supports : CapabilitySet → Capability → Bool
supports c public_broadcast = c.has_public_broadcast
supports c private_audience = c.has_private_audience
supports c direct_message = c.has_direct_message
supports c e2ee_dm = c.has_e2ee_dm
supports c media = c.has_media
supports c threading = c.has_threading
supports c reactions = c.has_reactions
supports c edit = c.has_edit
supports c delete = c.has_delete

unfoldable pub activitypub_capabilities : CapabilitySet
activitypub_capabilities = record {
  has_public_broadcast = true;
  has_private_audience = true;
  has_direct_message = true;
  has_e2ee_dm = false;
  has_media = true;
  has_threading = true;
  has_reactions = true;
  has_edit = true;
  has_delete = true;
}

unfoldable pub atproto_public : CapabilitySet
atproto_public = record {
  has_public_broadcast = true;
  has_private_audience = false;
  has_direct_message = false;
  has_e2ee_dm = false;
  has_media = true;
  has_threading = true;
  has_reactions = true;
  has_edit = false;
  has_delete = true;
}

pub data Audience : Type 0 where
  public : Audience
  friends : Audience
  direct : List Text → Audience

unfoldable pub required_capability : Audience → Capability
required_capability public = public_broadcast
required_capability friends = private_audience
required_capability (direct recipients) = direct_message

-- `attached` is the source's field `media`, which is the name of a capability here.
pub record PostIntent : Type 0 where
  pub content : Text
  pub audience : Audience
  pub attached : List Text
  pub in_reply_to : Option Text

pub record RouteDrop : Type 0 where
  pub protocol : ProtocolId
  pub missing_capability : Capability

pub record RoutePlan : Type 0 where
  pub selected : List ProtocolId
  pub dropped : List RouteDrop

-- The two synchronous methods of the trait `ProtocolAdapter`; the platform supplies the others.
pub record ProtocolAdapter : Type 0 where
  pub id : ProtocolId
  pub capabilities : CapabilitySet

unfoldable pub activity_pub_adapter : ProtocolAdapter
unfolding activitypub_capabilities
activity_pub_adapter = record { id = activity_pub; capabilities = activitypub_capabilities }

unfoldable pub atproto_adapter : ProtocolAdapter
unfolding atproto_public
atproto_adapter = record { id = atproto; capabilities = atproto_public }

-- The loop over the adapters: the protocols pushed to either list.
unfoldable pub route_loop : List ProtocolAdapter → Capability → RoutePlan → RoutePlan
route_loop [] required plan = plan
route_loop (adapter ∷ rest) required plan = route_loop rest required (
    if supports adapter.capabilities required
    then record plan { selected = plan.selected ++ adapter.id ∷ [] }
    else record plan {
      dropped =
          plan.dropped ++ record { protocol = adapter.id; missing_capability = required } ∷ [];
    })

unfoldable pub route_post : List ProtocolAdapter → PostIntent → RoutePlan
route_post adapters post =
    route_loop adapters (required_capability post.audience) (record { selected = []; dropped = [] })
