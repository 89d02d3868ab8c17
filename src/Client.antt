-- ===== src/Client.antt =====
-- `ClientPrivate` and `Client` of src/client.cpp and src/client_p.h: what the client does with the
-- stanzas that come in, and how it sends requests and finds their answers again.
pub mod Requests
pub mod Replies
use jreen.Base.{
  ℕ, ◌+◌, Bool, true, false, not, ◌&&◌, ◌||◌, Option, none, some, List, [], ◌∷◌, ◌++◌,
  if◌then◌else◌, Text, text, text_eq, is_empty, Hash, get, put, remove,
}
use jreen.Jid.{JidData, empty_jid, is_domain}
use jreen.Roster.{Roster, RosterItem, Subscription, to, none_given, handle_push, Signal}
use jreen.Stanza.{
  IqType, get_iq, set_iq, result_iq, error_iq, invalid_iq, Condition, subscription_required,
  service_unavailable, Payload, ping, entity_time, roster_query, error_payload, other, Iq, Other,
  Stanza, iq, message, presence, make_iq, add_extension, add_extensions, contains_ping,
  contains_time, roster_payload, is_request, is_answer,
}

-- Who waits for an answer: an `IQReply`, or an `IQTrack` with its receiver and context.
pub data Track : Type 0 where
  reply : Track
  callback : ℕ → ℕ → Track

pub record Client : Type 0 where
  pub jid : JidData
  pub conn_open : Bool
  pub is_connected : Bool
  pub authorized : Bool
  pub current_id : ℕ
  pub iq_tracks : Hash Track
  pub rooms : Hash ℕ
  pub roster : Option Roster

-- What the client does to the world outside: the stanzas that it writes and the signals it emits.
pub data Action : Type 0 where
  sent : Iq → Action
  answered : Track → Iq → Action
  iq_received : Iq → Action
  roster_signals : List Signal → Action
  message_received presence_received : Other → Action
  room_presence : ℕ → Other → Action
  application : Text → Action

-- What the slots of the application do on `iqReceived`: whether one of them accepts the stanza,
-- the client after it, and their own actions.
abbrev pub Application : Type 0
Application = Iq → Client → Bool × Client × List Action

-- `ClientPrivate::send(stanza)`
unfoldable pub fill_from : Client → Iq → Iq
fill_from c i = if c.is_connected && is_empty i.from.full then record i { from = c.jid } else i

abbrev pub send_raw : Iq → Client → List Action
send_raw i c = sent (fill_from c i) ∷ []

abbrev hears : Option RosterItem → Bool
hears none = false
hears (some item) = elim item.subscription [
  | Subscription.none_given ↦ false
  | Subscription.to ↦ false
  | _ ↦ true
]

abbrev in_roster : Option Roster → Text → Bool
in_roster none bare = true
in_roster (some r) bare = hears (get bare r.items)

abbrev has_room : Option ℕ → Bool
has_room none = false
has_room (some room) = true

-- `ok` of `handleStanza`: whom requests are taken from.
unfoldable pub is_heard : JidData → Client → Bool
is_heard from c =
    is_domain from
    || not from.valid
    || has_room (get from.bare c.rooms)
    || text_eq from.bare c.jid.bare
    || in_roster c.roster from.bare

-- The error that a request gets back: the given payloads are added before the error itself.
abbrev pub refusal : (Payload → ℕ) → Iq → List Payload → Condition → Iq
refusal type_of i payloads condition =
    add_extension type_of (error_payload condition)
      (add_extensions type_of payloads (make_iq error_iq i.from i.id))

unfoldable pub unless_accepted :
    (Payload → ℕ) → Iq → Bool × Client × List Action → Client × List Action
unless_accepted type_of i (true, d, actions) = (d, actions)
unless_accepted type_of i (false, d, actions) =
    (d, actions ++ send_raw (refusal type_of i [] service_unavailable) d)

-- `type_of` numbers the payload types, `prefix` is the part of an id that names the client object, `number` Qt's `QString::number`, and
-- `now` the time that an answer to an entity time request carries.
module _ (type_of : Payload → ℕ) (prefix : Text) (number : ℕ → Text) (now : Text) where
  -- `getID`
  unfoldable pub get_id : Client → Text × Client
  get_id c = (prefix ++ number c.current_id, record c { current_id = c.current_id + 1 })

  unfoldable pub with_id : Iq → Client → Iq × Client
  unfolding get_id
  with_id i c =
      if is_empty i.id then (let (new, d) = get_id c in (record i { id = new }, d)) else (i, c)

  -- `Client::send` of an IQ, with the track that it leaves.
  unfoldable pub send : Track → Iq → Client → Client × List Action
  unfolding with_id
  send track i c =
      if not c.conn_open
      then (c, [])
      else if not c.is_connected && not i.connection
      then (c, [])
      else let (j, d) = with_id i c in
        if is_request j.kind
        then (record d { iq_tracks = put j.id track d.iq_tracks }, send_raw j d)
        else (d, send_raw j d)

  unfoldable pub answer_ping : Iq → Client → Client × List Action
  unfolding send
  answer_ping i c =
      if contains_ping i.payloads
      then send reply (record (make_iq result_iq i.from i.id) { from = c.jid }) c
      else (c, [])

  unfoldable pub answer_time : Iq → Client → Client × List Action
  unfolding send
  answer_time i c =
      if contains_time i.payloads
      then send reply (add_extension type_of (entity_time now) (make_iq result_iq i.from i.id)) c
      else (c, [])

  -- `AbstractRoster::handleIQ`, a slot of `iqReceived`
  unfoldable pub roster_slot : Iq → Client → Bool × Client × List Action
  roster_slot i c = elim (roster_payload i.payloads) [
    | none ↦ (false, c, [])
    | some query ↦ elim c.roster [
      | none ↦ (false, c, [])
      | some r ↦
          let (s, signals) = handle_push query r in
          (true, record c { roster = some s }, roster_signals signals ∷ [])
    ]
  ]

  module _ (app : Application) where
    -- `Client::handleIQ`, with `accepted()` after it.
    unfoldable pub handle_iq : Iq → Client → Bool × Client × List Action
    unfolding answer_ping answer_time roster_slot
    handle_iq i c =
        let (c₁, pong) = answer_ping i c in
        let (c₂, time) = answer_time i c₁ in
        let (taken, c₃, changes) = roster_slot i c₂ in
        let (mine, c₄, actions) = app i c₃ in
        (
          contains_ping i.payloads || contains_time i.payloads || taken || mine,
          c₄,
          pong ++ time ++ (iq_received i ∷ changes) ++ actions,
        )

    unfoldable pub handle_request : Iq → Client → Client × List Action
    unfolding handle_iq
    handle_request i c =
        if not (is_heard i.from c)
        then (c, send_raw (refusal type_of i i.payloads subscription_required) c)
        else unless_accepted type_of i (handle_iq i c)

    unfoldable pub handle_answer : Iq → Client → Client × List Action
    handle_answer i c = elim (get i.id c.iq_tracks) [
      | none ↦ (c, [])
      | some track ↦ (record c { iq_tracks = remove i.id c.iq_tracks }, answered track i ∷ [])
    ]

    unfoldable pub handle_stanza : Stanza → Client → Client × List Action
    unfolding handle_request handle_answer
    handle_stanza (iq i) c =
        if is_answer i.kind
        then handle_answer i c
        else if is_request i.kind
        then handle_request i c
        else (c, [])
    handle_stanza (message m) c = (c, message_received m ∷ [])
    handle_stanza (presence p) c = elim (get p.from.bare c.rooms) [
      | none ↦ (c, presence_received p ∷ [])
      | some room ↦ (c, room_presence room p ∷ [])
    ]
