-- ===== src/Activitypub/Types.antt =====
-- The data that the ActivityPub handlers take and give: `Activity` (core/src/activitypub/types.rs),
-- HTTP requests and responses (core/src/traits/http.rs), and the services that they call.
use dais.Base.{ℕ, Text, Bytes, List, Option, Bool, Result}
use dais.Json.{Value, Members}
use dais.Store.{History}

pub record Activity (N : Type 0) : Type 0 where
  pub context : Value N
  pub activity_type : Text
  pub id : Text
  pub actor : Text
  pub object : Option (Value N)
  pub target : Option Text
  pub to : Option (List Text)
  pub cc : Option (List Text)
  pub published : Option Text
  pub extra : Members N

pub data Method : Type 0 where
  get post put delete patch head options : Method

-- A map of headers is the list of its entries.
pub record Request : Type 0 where
  pub url : Text
  pub method : Method
  pub headers : List (Text × Text)
  pub body : Option Bytes
  pub timeout : Option ℕ
  pub follow_redirects : Bool

pub record Response : Type 0 where
  pub status : ℕ
  pub headers : List (Text × Text)
  pub body : Bytes
  pub url : Text

-- What `extract_actor_info` reads of an actor: the derived deserialisation is a parameter.
pub record ActorProfile : Type 0 where
  pub preferred_username : Text
  pub name : Option Text
  pub icon : Option Text

-- The HTTP client, `String::from_utf8`, `serde_json` with the derived code for `Activity` and
-- `ActorProfile`, the clock and the generator of UUIDs, and the float 0.0.
pub record Services (F N : Type 0) : Type 0 where
  pub fetch : Request → Result Text Response
  pub from_utf8 : Bytes → Result Text Text
  pub parse_json : Text → Result Text (Value N)
  pub value_to_json : Value N → Result Text Text
  pub activity_to_json : Activity N → Result Text Text
  pub parse_profile : Text → Result Text ActorProfile
  pub now_rfc3339 : History N → Text
  pub generate_uuid : History N → Text
  pub zero : F
