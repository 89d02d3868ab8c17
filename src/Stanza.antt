-- ===== src/Stanza.antt =====
-- src/iq.cpp and src/stanza.cpp: stanzas, as far as the client looks into them.
pub mod Header
use jreen.Base.{ℕ, ltb, if◌then◌else◌, Bool, true, false, Option, none, some, List, [], ◌∷◌, Text}
use jreen.Jid.{JidData, empty_jid}
use jreen.Roster.{RosterQuery}

-- `IQ::Type`
pub data IqType : Type 0 where
  get_iq set_iq result_iq error_iq invalid_iq : IqType

-- `Error::Condition`, the two that the client sends.
pub data Condition : Type 0 where
  subscription_required service_unavailable : Condition

-- The payloads that the client tells apart; `other` is any other one.
pub data Payload : Type 0 where
  ping : Payload
  entity_time : Text → Payload
  roster_query : RosterQuery → Payload
  error_payload : Condition → Payload
  other : Text → Payload

pub record Iq : Type 0 where
  pub kind : IqType
  pub from : JidData
  pub to : JidData
  pub id : Text
  pub payloads : List Payload
  pub connection : Bool

-- Messages and presences go to their handlers unread, but for the sender.
pub record Other : Type 0 where
  pub from : JidData
  pub content : Text

pub data Stanza : Type 0 where
  iq : Iq → Stanza
  message presence : Other → Stanza

-- `IQ(type, to, id)`
abbrev pub make_iq : IqType → JidData → Text → Iq
make_iq kind to id = record {
  kind = kind;
  from = empty_jid;
  to = to;
  id = id;
  payloads = [];
  connection = false;
}

-- `QMultiMap::insert` of the extensions: sorted by payload type, and among equal types the last one
-- that was inserted comes first. The numbers of the types are given out at run time.
module _ (type_of : Payload → ℕ) where
  unfoldable pub insert : Payload → List Payload → List Payload
  insert p [] = p ∷ []
  insert p (q ∷ qs) =
      let rest = insert p qs in if ltb (type_of q) (type_of p) then q ∷ rest else p ∷ q ∷ qs

  abbrev pub add_extension : Payload → Iq → Iq
  add_extension p i = record i { payloads = insert p i.payloads }

  abbrev pub add_extensions : List Payload → Iq → Iq
  add_extensions [] i = i
  add_extensions (p ∷ ps) i = add_extensions ps (add_extension p i)

-- `containsPayload<Ping>`, `containsPayload<EntityTime>` and `payload<AbstractRosterQuery>`
unfoldable pub contains_ping : List Payload → Bool
contains_ping [] = false
contains_ping (ping ∷ ps) = true
contains_ping (_ ∷ ps) = contains_ping ps

unfoldable pub contains_time : List Payload → Bool
contains_time [] = false
contains_time (entity_time t ∷ ps) = true
contains_time (_ ∷ ps) = contains_time ps

unfoldable pub roster_payload : List Payload → Option RosterQuery
roster_payload [] = none
roster_payload (roster_query q ∷ ps) = some q
roster_payload (_ ∷ ps) = roster_payload ps

abbrev pub is_request : IqType → Bool
is_request get_iq = true
is_request set_iq = true
is_request _ = false

abbrev pub is_answer : IqType → Bool
is_answer result_iq = true
is_answer error_iq = true
is_answer _ = false
