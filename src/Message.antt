-- ===== src/Message.antt =====
-- src/message_p.h and src/messagefactory.cpp: messages and how they are read and written, without
-- their payloads.
pub mod RoundTrip
use jreen.Base.{
  ℕ, ◌+◌, ◌-◌, Bool, true, false, ◌&&◌, List, [], ◌∷◌, if◌then◌else◌, ◌==◌, Text, text, text_eq,
  is_empty, Hash,
}
use jreen.Prep.{Preps}
use jreen.Jid.Attributes.{read_jid}
use jreen.Jid.{JidData, set_jid, empty_jid}
use jreen.Xml.{NsEvent, opened, text_read, closed, value, given, given_element}
use jreen.LangMap.{LangMap, no_langs, langs}
use jreen.Stanza.Header.{ns_client, header, write_langs}
use jreen.Sessions.{MessageType, chat, error, groupchat, headline, normal, invalid}

-- `MessagePrivate`, with what it has from `StanzaPrivate` but the payloads.
pub record MessagePrivate : Type 0 where
  pub from : JidData
  pub to : JidData
  pub id : Text
  pub subtype : MessageType
  pub body : LangMap
  pub subject : LangMap
  pub thread : Text

abbrev pub no_message : MessagePrivate
no_message = record {
  from = empty_jid;
  to = empty_jid;
  id = [];
  subtype = normal;
  body = no_langs;
  subject = no_langs;
  thread = [];
}

-- `enumToStr` and `strToEnum` with `message_types`; -1 becomes invalid.
abbrev pub type_text : MessageType → Text
type_text chat = text "chat"
type_text error = text "error"
type_text groupchat = text "groupchat"
type_text headline = text "headline"
type_text normal = text "normal"
type_text invalid = []

abbrev pub type_of : Text → MessageType
type_of s =
    if is_empty s
    then normal
    else if text_eq (text "chat") s
    then chat
    else if text_eq (text "error") s
    then error
    else if text_eq (text "groupchat") s
    then groupchat
    else if text_eq (text "headline") s
    then headline
    else if text_eq (text "normal") s
    then normal
    else invalid

pub data State : Type 0 where
  at_message at_body at_subject at_thread : State

pub record Factory : Type 0 where
  pub depth : ℕ
  pub state : State
  pub stanza : MessagePrivate

abbrev pub new_factory : Factory
new_factory = record { depth = 0; state = at_message; stanza = no_message }

abbrev pub child : Text → State → State
child name s =
    if text_eq name (text "body")
    then at_body
    else if text_eq name (text "subject")
    then at_subject
    else if text_eq name (text "thread")
    then at_thread
    else s

-- `LangMap(text)`
abbrev pub plain : Text → LangMap
plain s = record { base = s; other = [] }

abbrev pub text_at : State → Text → MessagePrivate → MessagePrivate
text_at at_message s m = m
text_at at_body s m = record m { body = plain s }
text_at at_subject s m = record m { subject = plain s }
text_at at_thread s m = record m { thread = s }

module _ (p : Preps) where
  -- `MessageFactory::handleStartElement`
  unfoldable pub handle_start : Text → Hash Text → Factory → Factory
  handle_start name attributes f =
      let depth = f.depth + 1 in
      if depth == 1
      then record {
        depth = depth;
        state = at_message;
        stanza = record no_message {
          from = read_jid p (text "from") attributes;
          to = read_jid p (text "to") attributes;
          id = value (text "id") attributes;
          subtype = type_of (value (text "type") attributes);
        };
      }
      else if depth == 2
      then record f { depth = depth; state = child name f.state }
      else record f { depth = depth }

  -- `handleEndElement`
  unfoldable pub handle_end : Factory → Factory
  handle_end f = record f {
    state = if f.depth == 2 then at_message else f.state;
    depth = f.depth - 1;
  }

  -- `handleCharacterData`
  unfoldable pub handle_text : Text → Factory → Factory
  handle_text s f = if f.depth == 2 then record f { stanza = text_at f.state s f.stanza } else f

  unfoldable pub handle_event : NsEvent → Factory → Factory
  unfolding handle_start handle_end handle_text
  handle_event (opened name uri attributes) f = handle_start name attributes f
  handle_event (text_read s) f = handle_text s f
  handle_event closed f = handle_end f

  unfoldable pub feed : List NsEvent → Factory → Factory
  unfolding handle_event
  feed [] f = f
  feed (e ∷ es) f = feed es (handle_event e f)

-- A message of an invalid type is not written.
abbrev pub unless_invalid : MessageType → List NsEvent → List NsEvent
unless_invalid invalid es = []
unless_invalid _ es = es

-- `serialize` of a message that was not read.
unfoldable pub serialize : MessagePrivate → List NsEvent
unfolding header write_langs langs
serialize m = unless_invalid m.subtype (
    opened (text "message") ns_client
      (header m.from m.to m.id (given (text "type") (type_text m.subtype) []))
    ∷ write_langs (text "subject") m.subject (langs m.subject) (
        write_langs (text "body") m.body (langs m.body)
          (given_element (text "thread") ns_client m.thread (closed ∷ []))))
