-- ===== src/Sessions.antt =====
-- src/messagesession.cpp: conversations by JID and thread, and how a message finds its own.
pub mod Index
pub mod Upkeep
use jreen.Base.{
  ℕ, ◌+◌, Bool, true, false, not, ◌&&◌, ◌||◌, Option, none, some, List, [], ◌∷◌, ◌++◌, ◌==◌,
  if◌then◌else◌, Text, text_eq, is_empty,
}
use jreen.Prep.{Preps}
use jreen.Jid.{JidData, empty_jid, set_jid, bare_jid, jid_eq}

-- `Message::Type`
pub data MessageType : Type 0 where
  chat error groupchat headline normal invalid : MessageType

pub record Message : Type 0 where
  pub from : JidData
  pub to : JidData
  pub subtype : MessageType
  pub body : Text
  pub thread : Text

-- `MessageSession`
pub record Talk : Type 0 where
  pub jid : JidData
  pub thread : Text
  pub ignore_thread : Bool
  pub want_upgrade : Bool

-- `MessageSessionManager`. A session is a number; `talks` has none where the pointer is null. The
-- two indices are lists in the order of `QMultiHash::values`, the latest first.
pub record Sessions : Type 0 where
  pub talks : ℕ → Option Talk
  pub next : ℕ
  pub full_sessions : List (Text × ℕ)
  pub bare_sessions : List (Text × ℕ)
  pub handlers : MessageType → Option ℕ

-- What the application is told, and what is written.
pub data Report : Type 0 where
  jid_changed : ℕ → JidData → JidData → Report
  received : ℕ → Message → Report
  unclaimed : Message → Report
  opened : ℕ → ℕ → Report
  sent : Message → Report

unfoldable pub values : Text → List (Text × ℕ) → List ℕ
values k [] = []
values k ((j, n) ∷ m) = let rest = values k m in if text_eq j k then n ∷ rest else rest

-- `QMultiHash::remove(key, value)`
unfoldable pub remove_entry : Text → ℕ → List (Text × ℕ) → List (Text × ℕ)
remove_entry k n [] = []
remove_entry k n ((j, o) ∷ m) =
    let rest = remove_entry k n m in if text_eq j k && o == n then rest else (j, o) ∷ rest

abbrev pub is_null : Option Talk → Bool
is_null none = true
is_null (some t) = false

-- `remove(key, sessions[i])` where that pointer is null.
unfoldable pub remove_null : (ℕ → Option Talk) → Text → List (Text × ℕ) → List (Text × ℕ)
remove_null talks k [] = []
remove_null talks k ((j, o) ∷ m) =
    let rest = remove_null talks k m in
    if text_eq j k && is_null (talks o) then rest else (j, o) ∷ rest

abbrev pub set_talk : ℕ → Talk → (ℕ → Option Talk) → ℕ → Option Talk
set_talk n t talks m = if m == n then some t else talks m

-- `setJid`
unfoldable pub set_talk_jid : ℕ → Talk → JidData → Sessions → Talk × Sessions × List Report
set_talk_jid n t j s = if jid_eq t.jid j then (t, s, []) else (
  record t { jid = j },
  record s {
    talks = set_talk n (record t { jid = j }) s.talks;
    full_sessions = (j.full, n) ∷ remove_entry t.jid.full n s.full_sessions;
    bare_sessions = (j.bare, n) ∷ remove_entry t.jid.bare n s.bare_sessions;
  },
  jid_changed n t.jid j ∷ [],
)

-- `registerMessageSession`
unfoldable pub register_message_session : ℕ → JidData → Sessions → Sessions
register_message_session n j s = if not j.valid then s else record s {
  full_sessions = (j.full, n) ∷ s.full_sessions;
  bare_sessions = (j.bare, n) ∷ s.bare_sessions;
}

-- The constructor of a session that does not ignore threads.
unfoldable pub new_session : JidData → Text → Sessions → Sessions
unfolding register_message_session
new_session j thread s =
    let t : Talk = record {
      jid = j;
      thread = thread;
      ignore_thread = false;
      want_upgrade = false;
    } in
    register_message_session s.next j
      (record s { talks = set_talk s.next t s.talks; next = s.next + 1 })

-- `resetResource`, but for the filters.
unfoldable pub reset_resource : ℕ → Talk → Sessions → Sessions × List Report
unfolding set_talk_jid
reset_resource n t s =
    let u : Talk = record t { want_upgrade = true } in
    let (v, d, reports) =
      set_talk_jid n u (bare_jid u.jid) (record s { talks = set_talk n u s.talks }) in
    (d, reports)

-- `~MessageSession`, after which pointers to the session are null.
unfoldable pub destroy : ℕ → Talk → Sessions → Sessions
destroy n t s = record s {
  talks = λ m. if m == n then none else s.talks m;
  full_sessions = remove_entry t.jid.full n s.full_sessions;
  bare_sessions = remove_entry t.jid.bare n s.bare_sessions;
}

abbrev pub same_type : MessageType → MessageType → Bool
same_type chat chat = true
same_type error error = true
same_type groupchat groupchat = true
same_type headline headline = true
same_type normal normal = true
same_type invalid invalid = true
same_type _ _ = false

abbrev pub is_among : MessageType → List MessageType → Bool
is_among t [] = false
is_among t (u ∷ us) = same_type t u || is_among t us

-- `registerMessageSessionHandler`
abbrev pub register_handler : ℕ → List MessageType → Sessions → Sessions
register_handler h types s = record s {
  handlers = λ t. if is_among t types then some h else s.handlers t;
}

abbrev pub without : ℕ → Option ℕ → Option ℕ
without h none = none
without h (some k) = if k == h then none else some k

-- `removeMessageSessionHandler`
abbrev pub remove_handler : ℕ → Sessions → Sessions
remove_handler h s = record s { handlers = λ t. without h (s.handlers t) }

-- Whether a session takes a message.
abbrev pub takes : Talk → Message → Bool
takes t m = is_empty m.thread || t.ignore_thread || text_eq t.thread m.thread

-- A loop of `handleMessage`: whether it met a null pointer, and the session that takes the message.
unfoldable pub walk : (ℕ → Option Talk) → Message → List ℕ → Bool × Option ℕ
walk talks m [] = (false, none)
walk talks m (n ∷ ns) =
    let (nulls, taker) = walk talks m ns in
    elim (talks n) [
      | none ↦ (true, taker)
      | some t ↦ if takes t m then (false, some n) else (nulls, taker)
    ]

-- `filter` is what the filters of a session make of a message, `decorate` what they make of one that
-- is sent, `trimmed` and `random_hash` are Qt's and that of src/util.cpp.
module _ (filter decorate : ℕ → Message → Message) (trimmed : Text → Text)
    (random_hash : Text) where
  -- The middle of `MessageSession::handleMessage`: the thread of the session and of the message.
  abbrev pub agree_thread : Talk → Message → Talk × Message
  agree_thread t m =
      if not (is_empty t.thread)
      then (t, m)
      else if is_empty (trimmed m.thread)
      then (record t { thread = random_hash }, record m { thread = random_hash })
      else (record t { thread = m.thread }, m)

  abbrev pub emit_received : ℕ → Message → List Report
  emit_received n m = if is_empty m.body then [] else received n m ∷ []

  abbrev pub upgrade : ℕ → Talk → Message → Sessions → Talk × Sessions × List Report
  upgrade n t m s =
      if t.want_upgrade && text_eq m.from.bare t.jid.full
      then set_talk_jid n t m.from s
      else (t, s, [])

  -- `MessageSession::handleMessage`
  unfoldable pub talk_message : ℕ → Talk → Message → Sessions → Sessions × List Report
  unfolding set_talk_jid
  talk_message n t m s =
      let (u, d, changes) = upgrade n t m s in
      let (v, o) = agree_thread u m in
      (record d { talks = set_talk n v d.talks }, changes ++ emit_received n (filter n o))

  abbrev pub deliver : ℕ → Option Talk → Message → Sessions → Sessions × List Report
  deliver n none m s = (s, [])
  deliver n (some t) m s = talk_message n t m s

  -- The end of `MessageSessionManager::handleMessage`, where no session takes the message.
  unfoldable pub open_session : Option ℕ → Message → Sessions → Sessions × List Report
  unfolding talk_message new_session
  open_session none m s = (s, unclaimed m ∷ [])
  open_session (some h) m s =
      let d = new_session m.from m.thread s in
      let (e, reports) = deliver s.next (d.talks s.next) m d in (e, opened h s.next ∷ reports)

  unfoldable pub to_bare : Option ℕ → Message → Sessions → Sessions × List Report
  unfolding open_session
  to_bare (some n) m s = deliver n (s.talks n) m s
  to_bare none m s = open_session (s.handlers m.subtype) m s

  unfoldable pub to_full : Option ℕ → Message → Sessions → Sessions × List Report
  unfolding to_bare walk
  to_full (some n) m s = deliver n (s.talks n) m s
  to_full none m s =
      let (nulls, taker) = walk s.talks m (values m.from.bare s.bare_sessions) in
      to_bare taker m (
        if nulls
        then record s { bare_sessions = remove_null s.talks m.from.full s.bare_sessions }
        else s)

  -- `MessageSessionManager::handleMessage`. The second loop removes null pointers under the full
  -- JID, not the bare one it searches.
  unfoldable pub handle_message : Message → Sessions → Sessions × List Report
  unfolding to_full walk
  handle_message m s =
      let (nulls, taker) = walk s.talks m (values m.from.full s.full_sessions) in
      to_full taker m (
        if nulls
        then record s { full_sessions = remove_null s.talks m.from.full s.full_sessions }
        else s)

  -- `sendMessage`
  unfoldable pub send_message : ℕ → Talk → Message → List Report
  send_message n t m = sent (decorate n (record m { thread = t.thread })) ∷ []
