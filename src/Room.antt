-- ===== src/Room.antt =====
-- src/mucroom.cpp and src/mucroom_p.h: a room of a multi-user chat, what it does on the stanzas of
-- the room, and what it sends. Participants and queries are shared by pointers that nobody writes
-- through, so they are values here.
pub mod Signals
pub mod Observer
pub mod Stale
pub mod Nick
pub mod Requests
pub mod Items
pub mod AdminRoundTrip
use jreen.Base.{
  ℕ, ◌+◌, Bool, true, false, not, ◌&&◌, ◌||◌, Option, none, some, List, [], ◌∷◌, ◌++◌,
  if◌then◌else◌, Text, text_eq, is_empty, Hash, get, put, remove, ℤ, pos, negsuc, max_ℤ,
}
use jreen.Prep.{Preps}
use jreen.Jid.{JidData, empty_jid, set_jid, set_resource, bare_jid}
use jreen.Presence.{PresenceType, unavailable}

-- `MUCRoom::Affiliation` and `MUCRoom::Role`; the unknown ones are the -1 of `strToEnum`, which is
-- none of their values.
pub data Affiliation : Type 0 where
  affiliation_none outcast member owner admin affiliation_invalid affiliation_unknown : Affiliation

pub data Role : Type 0 where
  role_none visitor participant moderator role_invalid role_unknown : Role

-- `MUCRoomItem`
pub record RoomItem : Type 0 where
  pub affiliation : Affiliation
  pub role : Role
  pub jid : JidData
  pub reason : Text
  pub actor : JidData
  pub nick : Text

-- `MUCRoomUserQuery`, with those of its flags that the room reads.
pub record UserQuery : Type 0 where
  pub item : RoomItem
  pub self : Bool
  pub nick_changed : Bool
  pub banned : Bool
  pub kicked : Bool

-- A presence of the room: its error, if it has one, and its query, if it has one.
pub record RoomPresence : Type 0 where
  pub from : JidData
  pub subtype : PresenceType
  pub error : Option Text
  pub query : Option UserQuery

pub record RoomMessage : Type 0 where
  pub from : JidData
  pub is_groupchat : Bool
  pub subject : Text
  pub body : Text

-- `MUCRoomQuery`
pub record Entry : Type 0 where
  pub password : Text
  pub max_chars : ℤ
  pub max_stanzas : ℤ
  pub seconds : ℤ
  pub since : Text

-- A presence that the room sends.
pub record Own : Type 0 where
  pub subtype : PresenceType
  pub to : JidData
  pub status : Text
  pub priority : ℤ

pub data Context : Type 0 where
  request_config submit_config set_list_context : Context
  request_list_context : Affiliation → Context

pub data Action : Type 0 where
  presence_received : JidData → PresenceType → UserQuery → Bool → Action
  error_received : Text → Action
  joined leaved : Action
  message_received : RoomMessage → Bool → Action
  service_message : RoomMessage → Action
  subject_changed : Text → Text → Action
  configuration_received : Text → Action
  list_received : Affiliation → List (JidData × Text) → Action
  sent_presence : Own → Option Entry → Action
  sent_request : JidData → Context → Action
  sent_items : JidData → Option Context → List RoomItem → Action
  sent_config : JidData → Text → Action
  sent_invite : Text → JidData → Text → Text → Action

pub record Room : Type 0 where
  pub jid : JidData
  pub affiliation : Affiliation
  pub role : Role
  pub participants : Hash UserQuery
  pub entry : Entry
  pub current : Own
  pub is_joined : Bool
  pub started_joining : Bool
  pub subject : Text

abbrev pub empty_item : RoomItem
empty_item = record {
  affiliation = affiliation_invalid;
  role = role_invalid;
  jid = empty_jid;
  reason = [];
  actor = empty_jid;
  nick = [];
}

-- `MUCRoomUserQuery()`
abbrev pub empty_query : UserQuery
empty_query = record {
  item = empty_item;
  self = false;
  nick_changed = false;
  banned = false;
  kicked = false;
}

-- The constructor of `MUCRoomPrivate`.
abbrev pub new_room : JidData → Room
new_room j = record {
  jid = j;
  affiliation = outcast;
  role = role_none;
  participants = [];
  entry = record {
    password = [];
    max_chars = negsuc 0;
    max_stanzas = negsuc 0;
    seconds = negsuc 0;
    since = [];
  };
  current = record { subtype = unavailable; to = empty_jid; status = []; priority = pos 0 };
  is_joined = false;
  started_joining = false;
  subject = [];
}

abbrev pub is_unavailable : PresenceType → Bool
is_unavailable unavailable = true
is_unavailable _ = false

abbrev pub is_known : Option UserQuery → Bool
is_known none = false
is_known (some q) = true

module _ (p : Preps) where
  abbrev pub with_resource : JidData → Text → JidData
  with_resource j s = (set_resource p j s).1

  -- The loop over the participants at the first presence after `join`.
  unfoldable pub hooks : JidData → Hash UserQuery → List Action
  hooks j [] = []
  hooks j ((nick, q) ∷ m) =
      presence_received (with_resource j nick) unavailable empty_query false ∷ hooks j m

  -- A presence that is not of type unavailable.
  unfoldable pub enter : UserQuery → Text → Room → Room × List Action
  unfolding hooks
  enter q nick r = (
    record r { started_joining = false; participants = put nick q r.participants },
    if r.started_joining then hooks (bare_jid r.jid) r.participants else [],
  )

  -- The user's own presence, told apart by the nick.
  unfoldable pub own_presence : PresenceType → UserQuery → Room → Room × List Action
  own_presence t q r =
      let s : Room = record r { role = q.item.role; affiliation = q.item.affiliation } in
      if is_unavailable t
      then (record s { participants = []; is_joined = false }, leaved ∷ [])
      else if not r.is_joined
      then (record s { is_joined = true }, joined ∷ [])
      else (s, [])

  abbrev pub renick : Text → UserQuery → Room → Room
  renick nick q r =
      if q.nick_changed && text_eq nick r.jid.resource
      then record r { jid = with_resource r.jid q.item.nick }
      else r

  abbrev pub own_part : RoomPresence → UserQuery → Room → Room × List Action
  own_part pres q r =
      if text_eq pres.from.resource r.jid.resource then own_presence pres.subtype q r else (r, [])

  abbrev pub enter_or_leave : RoomPresence → UserQuery → Room → Room × List Action
  enter_or_leave pres q r =
      if is_unavailable pres.subtype
      then (record r { participants = remove pres.from.resource r.participants }, [])
      else enter q pres.from.resource r

  abbrev pub is_new : RoomPresence → Room → Bool
  is_new pres r =
      not (is_unavailable pres.subtype) && not (is_known (get pres.from.resource r.participants))

  abbrev pub finish : RoomPresence → UserQuery → Bool → Room × List Action → Room × List Action
  finish pres q new (s, gone) =
      let (t, own) = own_part pres q (renick pres.from.resource q s) in
      (t, gone ++ presence_received pres.from pres.subtype q new ∷ own)

  unfoldable pub occupant : RoomPresence → UserQuery → Room → Room × List Action
  unfolding enter own_presence
  occupant pres q r = finish pres q (is_new pres r) (enter_or_leave pres q r)

  -- `handlePresence`, from its second test on.
  unfoldable pub with_query : Option UserQuery → RoomPresence → Room → Room × List Action
  unfolding occupant
  with_query none pres r = (r, [])
  with_query (some q) pres r = occupant pres q r

  unfoldable pub with_error : Option Text → RoomPresence → Room → Room × List Action
  unfolding with_query
  with_error none pres r = with_query pres.query pres r
  with_error (some e) pres r = (record r { started_joining = false }, error_received e ∷ [])

  -- `handlePresence`
  unfoldable pub handle_presence : RoomPresence → Room → Room × List Action
  unfolding with_error
  handle_presence pres r = with_error pres.error pres r

  -- `setNick`
  unfoldable pub set_nick : Text → Room → Room × List Action
  set_nick nick r =
      let j = with_resource r.jid nick in
      if r.is_joined
      then (r, sent_presence (record r.current { to = j }) none ∷ [])
      else (record r { jid = j }, [])

  -- `ban`: the nick of a participant, or a JID.
  unfoldable pub victim : Option UserQuery → Text → Option JidData
  victim none nick =
      let j = (set_jid p empty_jid nick).1 in
      if is_empty j.node || is_empty j.domain then none else some j
  victim (some q) nick = some (bare_jid q.item.jid)

-- `handleMessage`
unfoldable pub handle_message : RoomMessage → Room → Room × List Action
handle_message m r =
    let service = if text_eq m.from.full r.jid.bare then service_message m ∷ [] else [] in
    if not (is_empty m.subject)
    then (
      record r { subject = m.subject },
      service ++ subject_changed m.subject m.from.resource ∷ [],
    )
    else if text_eq m.from.full r.jid.bare
    then (r, service)
    else (r, message_received m (not m.is_groupchat) ∷ [])

-- What `MUCRoomQuery` keeps: its setters raise to -1.
abbrev pub entry_query : Entry → Entry
entry_query e = record e {
  max_chars = max_ℤ (negsuc 0) e.max_chars;
  max_stanzas = max_ℤ (negsuc 0) e.max_stanzas;
  seconds = max_ℤ (negsuc 0) e.seconds;
}

-- `join(type, message, priority)`
unfoldable pub join : PresenceType → Text → ℤ → Room → Room × List Action
join t status priority r =
    if r.started_joining
    then (r, [])
    else let own : Own = record { subtype = t; to = r.jid; status = status; priority = priority } in
      (
        record r { started_joining = true; current = own },
        sent_presence own (some (entry_query r.entry)) ∷ [],
      )

-- `leave`
unfoldable pub leave : Text → Room → Room × List Action
leave message r =
    if is_unavailable r.current.subtype
    then (r, [])
    else let own : Own = record {
      subtype = unavailable;
      to = r.jid;
      status = message;
      priority = pos 0;
    } in
      (record r { current = own }, sent_presence own none ∷ [])

-- `setPresence`, which does not keep the presence.
unfoldable pub set_presence : PresenceType → Text → ℤ → Room → Room × List Action
set_presence t status priority r = (
  r,
  sent_presence (record { subtype = t; to = r.jid; status = status; priority = priority }) none
      ∷ [],
)

unfoldable pub on_connected : Room → Room × List Action
unfolding join
on_connected r =
    if is_unavailable r.current.subtype
    then (r, [])
    else join r.current.subtype r.current.status r.current.priority r

unfoldable pub on_disconnected : Room → Room × List Action
on_disconnected r =
    if r.is_joined
    then (record r { started_joining = false; participants = []; is_joined = false }, leaved ∷ [])
    else (record r { started_joining = false }, [])
