-- ===== src/Presence/Factory.antt =====
-- src/presencefactory.cpp with the header of src/stanzafactory.cpp: presences as XML. The payloads
-- go to their own factories and are left out. `to_int` and `number` are those of Qt.
use jreen.Base.{ℕ, ◌+◌, ◌-◌, ℤ, List, [], ◌∷◌, if◌then◌else◌, ◌==◌, Text, text, text_eq, Hash}
use jreen.Prep.{Preps}
use jreen.Stanza.Header.{ns_client, header, characters, write_langs}
use jreen.Jid.Attributes.{read_jid}
use jreen.Xml.{NsEvent, opened, text_read, closed, given, given_element}
use jreen.Xml
use jreen.LangMap.{set_value, langs}
use jreen.Presence.{
  PresenceType, invalid, unavailable, available, subscribe, unsubscribe, subscribed, unsubscribed,
  probe, error, chat, away, dnd, xa, Presence, no_presence,
}

pub data State : Type 0 where
  at_nowhere at_show at_priority at_status : State

pub record Factory : Type 0 where
  pub depth : ℕ
  pub state : State
  pub xml_lang : Text
  pub stanza : Presence

abbrev pub new_factory : Factory
new_factory = record { depth = 0; state = at_nowhere; xml_lang = []; stanza = no_presence }

abbrev pub type_of : Text → PresenceType
type_of s =
    if text_eq s (text "unavailable")
    then unavailable
    else if text_eq s (text "probe")
    then probe
    else if text_eq s (text "subscribe")
    then subscribe
    else if text_eq s (text "unsubscribe")
    then unsubscribe
    else if text_eq s (text "subscribed")
    then subscribe
    else if text_eq s (text "unsubscribed")
    then unsubscribe
    else if text_eq s (text "error")
    then error
    else available

abbrev pub show_type : Text → PresenceType → PresenceType
show_type s t =
    if text_eq s (text "away")
    then away
    else if text_eq s (text "chat")
    then chat
    else if text_eq s (text "dnd")
    then dnd
    else if text_eq s (text "xa")
    then xa
    else t

-- The child of depth 2.
abbrev pub child : Text → Hash Text → Factory → Factory
child name attributes f =
    if text_eq name (text "show")
    then record f { state = at_show }
    else if text_eq name (text "priority")
    then record f { state = at_priority }
    else if text_eq name (text "status")
    then record f { state = at_status; xml_lang = Xml.value (text "xml:lang") attributes }
    else f

module _ (p : Preps) (to_int : Text → ℤ) where
  -- `PresenceFactory::handleStartElement`
  unfoldable pub handle_start : Text → Hash Text → Factory → Factory
  handle_start name attributes f =
      let depth = f.depth + 1 in
      if depth == 1
      then record f {
        depth = depth;
        stanza = record no_presence {
          from = read_jid p (text "from") attributes;
          to = read_jid p (text "to") attributes;
          id = Xml.value (text "id") attributes;
          subtype = type_of (Xml.value (text "type") attributes);
        };
      }
      else if depth == 2
      then child name attributes (record f { depth = depth })
      else record f { depth = depth }

  -- `handleEndElement`
  unfoldable pub handle_end : Factory → Factory
  handle_end f = record f {
    state = if f.depth == 2 then at_nowhere else f.state;
    depth = f.depth - 1;
  }

  abbrev pub text_at : State → Text → Factory → Factory
  text_at at_nowhere s f = f
  text_at at_show s f = record f {
    stanza = record f.stanza { subtype = show_type s f.stanza.subtype };
  }
  text_at at_priority s f = record f { stanza = record f.stanza { priority = to_int s } }
  text_at at_status s f = record f {
    stanza = record f.stanza { status = set_value f.xml_lang s f.stanza.status };
  }

  -- `handleCharacterData`
  unfoldable pub handle_text : Text → Factory → Factory
  unfolding set_value
  handle_text s f = if f.depth == 2 then text_at f.state s f else f

  unfoldable pub handle_event : NsEvent → Factory → Factory
  unfolding handle_start handle_end handle_text
  handle_event (opened name uri attributes) f = handle_start name attributes f
  handle_event (text_read s) f = handle_text s f
  handle_event closed f = handle_end f

  unfoldable pub feed : List NsEvent → Factory → Factory
  unfolding handle_event
  feed [] f = f
  feed (e ∷ es) f = feed es (handle_event e f)

-- The `switch` of `serialize`: the type attribute, and the text of the show element.
abbrev pub type_text : PresenceType → Text
type_text unavailable = text "unavailable"
type_text subscribe = text "subscribe"
type_text subscribed = text "subscribed"
type_text unsubscribe = text "unsubscribe"
type_text unsubscribed = text "unsubscribed"
type_text error = text "error"
type_text probe = text "probe"
type_text _ = []

abbrev pub show_text : PresenceType → Text
show_text away = text "away"
show_text chat = text "chat"
show_text dnd = text "dnd"
show_text xa = text "xa"
show_text _ = []

-- `writeAttributes` and the type
unfoldable pub header_attributes : Presence → Hash Text
unfolding header
header_attributes p = header p.from p.to p.id (given (text "type") (type_text p.subtype) [])

-- A presence of an invalid type is not written.
abbrev pub unless_invalid : PresenceType → List NsEvent → List NsEvent
unless_invalid invalid es = []
unless_invalid _ es = es

module _ (number : ℤ → Text) where
  -- `serialize` of a presence that was not read.
  unfoldable pub serialize : Presence → List NsEvent
  unfolding header_attributes write_langs langs
  serialize p = unless_invalid p.subtype (
      opened (text "presence") ns_client (header_attributes p)
      ∷ opened (text "priority") ns_client []
      ∷ characters (number p.priority) (
          closed
          ∷ write_langs (text "status") p.status (langs p.status)
              (given_element (text "show") ns_client (show_text p.subtype) (closed ∷ []))))
