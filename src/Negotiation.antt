-- ===== src/Negotiation.antt =====
-- src/parser.cpp, src/client.cpp and src/client_p.h: how the client chooses the stream feature that
-- it negotiates next, what it demands before that, and how a negotiation ends.
pub mod Choice
pub mod Outcome
pub mod Safety
pub mod Registry
use jreen.Base.{
  ℕ, Bool, true, false, not, ◌&&◌, ◌||◌, Option, none, some, List, [], ◌∷◌, ◌++◌, ltb, ◌==◌, take,
  drop, if◌then◌else◌,
}

-- `StreamFeature::Type`, in the order of its values.
pub data FeatureType : Type 0 where
  security_layer compression_layer registration_request : FeatureType
  sasl simple_authorization custom : FeatureType

abbrev pub value : FeatureType → ℕ
value security_layer = 0
value compression_layer = 16
value registration_request = 32
value sasl = 256
value simple_authorization = 4096
value custom = 65536

-- A registered feature; `name` tells the objects apart.
pub record Feature : Type 0 where
  pub name : ℕ
  pub kind : FeatureType
  pub priority : ℕ

-- `Client::Feature`
pub data ClientFeature : Type 0 where
  compression encryption authorization invalid_feature : ClientFeature

abbrev pub same : ClientFeature → ClientFeature → Bool
same compression compression = true
same encryption encryption = true
same authorization authorization = true
same invalid_feature invalid_feature = true
same _ _ = false

-- `Client::FeatureConfig`
pub data Config : Type 0 where
  force disable auto : Config

abbrev pub is_force : Config → Bool
is_force force = true
is_force _ = false

abbrev pub is_disable : Config → Bool
is_disable disable = true
is_disable _ = false

-- `Client::DisconnectReason`, the ones of the negotiation.
pub data Reason : Type 0 where
  no_encryption_support no_compression_support no_authorization_support : Reason
  no_supported_feature authorization_error : Reason

abbrev pub convert_to_feature : FeatureType → ClientFeature
convert_to_feature compression_layer = compression
convert_to_feature security_layer = encryption
convert_to_feature sasl = authorization
convert_to_feature simple_authorization = authorization
convert_to_feature _ = invalid_feature

abbrev pub convert_to_reason : ClientFeature → Reason
convert_to_reason encryption = no_encryption_support
convert_to_reason compression = no_compression_support
convert_to_reason authorization = no_authorization_support
convert_to_reason invalid_feature = no_supported_feature

-- What a negotiation does, as the rest of the client and the server see it.
pub data Event : Type 0 where
  activated : Feature → Event
  closed : Reason → Event
  dropped authorized_event header_sent connected_event : Event

-- The fields of `ClientPrivate` that the negotiation uses. The bits of `usedFeatures` and the
-- entries of `configs` are functions; `activatable` is what the features answer at this moment.
pub record Session : Type 0 where
  pub features : List Feature
  pub activatable : ℕ → Bool
  pub current : Option ℕ
  pub configs : ClientFeature → Config
  pub used : ClientFeature → Bool
  pub authorized : Bool
  pub is_connected : Bool

-- The constructor of `ClientPrivate`: compression and encryption `Auto`, authorization `Force`.
abbrev pub default_configs : ClientFeature → Config
default_configs authorization = force
default_configs _ = auto

-- `setFeatureConfig`; a feature outside the list of configurations is ignored.
unfoldable pub set_feature_config : ClientFeature → Config → Session → Session
set_feature_config invalid_feature config s = s
set_feature_config f config s = record s { configs = λ g. if same f g then config else s.configs g }

-- `featureConfig`: `configs.value(feature, Auto)`
abbrev pub feature_config : ClientFeature → Session → Config
feature_config invalid_feature s = auto
feature_config f s = s.configs f

-- `featureLessThan`
unfoldable pub feature_less_than : Feature → Feature → Bool
feature_less_than a b =
    if value a.kind == value b.kind
    then ltb b.priority a.priority
    else ltb (value a.kind) (value b.kind)

-- `registerStreamFeature`, where `lower_bound` is Qt's `qLowerBound` with `featureLessThan`, as an
-- index into the list.
module _ (lower_bound : List Feature → Feature → ℕ) where
  unfoldable pub register_stream_feature : Feature → Session → Session
  register_stream_feature f s =
      let i = lower_bound s.features f in
      record s { features = take i s.features ++ f ∷ drop i s.features }

  abbrev pub register_all : List Feature → Session → Session
  register_all [] s = s
  register_all (f ∷ fs) s = register_all fs (register_stream_feature f s)

-- `_q_disconnected`
unfoldable pub disconnected : Session → Session
disconnected s = record s {
  is_connected = false;
  used = λ f. false;
  authorized = false;
  current = none;
}

abbrev pub emit_disconnected : Reason → Session → Session × List Event
emit_disconnected reason s = (disconnected s, closed reason ∷ [])

-- `checkFeature` answers false here.
abbrev pub lacks : Session → ClientFeature → Bool
lacks s f = is_force (s.configs f) && not (s.used f)

-- The conditions of `activateFeature` before a feature is activated, in the order of the code: the
-- first that fails is the one that the client disconnects for.
unfoldable pub missing : Session → ClientFeature → Option ClientFeature
missing s invalid_feature =
    if lacks s encryption
    then some encryption
    else if lacks s compression
    then some compression
    else if lacks s authorization
    then some authorization
    else none
missing s authorization = if lacks s encryption then some encryption else none
missing s _ = none

-- The two `continue`s of the loop.
abbrev pub is_skipped : Session → Feature → Bool
is_skipped s f =
    not (s.activatable f.name) || is_disable (feature_config (convert_to_feature f.kind) s)

unfoldable pub mark_used : ClientFeature → (ClientFeature → Bool) → ClientFeature → Bool
mark_used invalid_feature used g = used g
mark_used f used g = same f g || used g

unfoldable pub activate_one : Feature → Option ClientFeature → Session → Session × List Event
unfolding mark_used
activate_one f (some g) s = emit_disconnected (convert_to_reason g) s
activate_one f none s = (
  record s { current = some f.name; used = mark_used (convert_to_feature f.kind) s.used },
  activated f ∷ [],
)

-- The loop of `activateFeature` from a place in the list on.
unfoldable pub choose : List Feature → Session → Session × List Event
choose [] s = emit_disconnected no_supported_feature s
choose (f ∷ fs) s =
    let rest = choose fs s in
    if is_skipped s f then rest else activate_one f (missing s (convert_to_feature f.kind)) s

-- The features behind the current one: `features.indexOf(current) + 1`, which is 0 where it is none.
unfoldable pub behind : ℕ → List Feature → Option (List Feature)
behind n [] = none
behind n (f ∷ fs) = let rest = behind n fs in if f.name == n then some fs else rest

abbrev pub all_if_none : List Feature → Option (List Feature) → List Feature
all_if_none fs none = fs
all_if_none fs (some rest) = rest

abbrev pub start_from : Option ℕ → List Feature → List Feature
start_from none fs = fs
start_from (some n) fs = all_if_none fs (behind n fs)

unfoldable pub activate_feature : Session → Session × List Event
unfolding choose
activate_feature s = choose (start_from s.current s.features) (record s { current = none })

-- `StreamInfo::CompletedFlags`
pub record Flags : Type 0 where
  pub resend_header : Bool
  pub authorized : Bool
  pub activate_next : Bool
  pub connected : Bool
  pub authorization_failed : Bool

-- A part of `completed` that runs where its flag is set, after the parts before it.
abbrev pub then_if :
    Bool → (Session → Session × List Event) → Session × List Event → Session × List Event
then_if flag part (s, events) =
    if flag then (let (d, more) = part s in (d, events ++ more)) else (s, events)

abbrev pub emit_authorized : Session → Session × List Event
emit_authorized s = (record s { authorized = true }, authorized_event ∷ [])

abbrev pub emit_connected : Session → Session × List Event
emit_connected s = (record s { is_connected = true }, connected_event ∷ [])

-- `reset` is what `Parser::reset` makes of the features.
module _ (reset : (ℕ → Bool) → ℕ → Bool) where
  abbrev pub send_header : Session → Session × List Event
  send_header s = (record s { current = none; activatable = reset s.activatable }, header_sent ∷ [])

  -- `StreamInfoImpl::completed`
  unfoldable pub completed : Flags → Session → Session × List Event
  unfolding activate_feature disconnected
  completed flags s =
      if flags.authorization_failed
      then emit_disconnected authorization_error s
      else then_if flags.connected emit_connected (
          then_if flags.activate_next activate_feature (
            then_if flags.resend_header send_header
              (then_if flags.authorized emit_authorized (s, []))))
