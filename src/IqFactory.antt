-- ===== src/IqFactory.antt =====
-- src/iqfactory.cpp and src/stanzafactory.cpp: IQs as XML with their payloads, and the tokens by
-- which a stanza that was read is written again.
pub mod RoundTrip
pub mod Tokens
use jreen.Base.{
  ℕ, ◌+◌, ◌-◌, List, [], ◌∷◌, ◌++◌, if◌then◌else◌, ltb, ◌==◌, Text, text, text_eq, Hash,
}
use jreen.Prep.{Preps}
use jreen.Jid.{JidData, empty_jid}
use jreen.Jid.Attributes.{read_jid}
use jreen.Xml.{NsEvent, opened, text_read, closed, value, given}
use jreen.Stanza.{IqType, get_iq, set_iq, result_iq, error_iq, invalid_iq}
use jreen.Stanza.Header.{ns_client, header}
use jreen.Payloads.{Factories, parsers_for, is_known}

-- `IQPrivate`, with the tokens of `StanzaPrivate` last first.
pub record IqPrivate (P : Type 0) : Type 0 where
  pub subtype : IqType
  pub from : JidData
  pub to : JidData
  pub id : Text
  pub extensions : List P
  pub tokens : List NsEvent

abbrev pub no_iq : {P : Type 0} → IqPrivate P
no_iq = record {
  subtype = invalid_iq;
  from = empty_jid;
  to = empty_jid;
  id = [];
  extensions = [];
  tokens = [];
}

abbrev pub type_text : IqType → Text
type_text get_iq = text "get"
type_text set_iq = text "set"
type_text result_iq = text "result"
type_text error_iq = text "error"
type_text invalid_iq = []

abbrev pub type_of : Text → IqType
type_of s =
    if text_eq s (text "get")
    then get_iq
    else if text_eq s (text "set")
    then set_iq
    else if text_eq s (text "result")
    then result_iq
    else if text_eq s (text "error")
    then error_iq
    else invalid_iq

-- A start takes back the text before it; text behind an end is not kept.
unfoldable pub push_start : NsEvent → List NsEvent → List NsEvent
push_start e (text_read s ∷ ts) = push_start e ts
push_start e ts = e ∷ ts

unfoldable pub push_text : Text → List NsEvent → List NsEvent
push_text s (closed ∷ ts) = closed ∷ ts
push_text s ts = text_read s ∷ ts

-- The stanza factory with what all factories of payloads hold.
pub record Factory (P G : Type 0) : Type 0 where
  pub depth : ℕ
  pub stanza : IqPrivate P
  pub parsers : List ℕ
  pub store : G

module _ {P G : Type 0} (q : Factories P G) where
  unfoldable pub all_handle : List ℕ → NsEvent → G → G
  all_handle [] e g = g
  all_handle (i ∷ is) e g = all_handle is e (q.handle i e g)

  -- `extensions.insert` of a `QMultiMap`: by the type, and before those of the same type.
  unfoldable pub insert : P → List P → List P
  insert p [] = p ∷ []
  insert p (r ∷ rs) =
      let rest = insert p rs in if ltb (q.type_of r) (q.type_of p) then r ∷ rest else p ∷ r ∷ rs

  unfoldable pub create_all : List ℕ → List P → G → List P × G
  unfolding insert
  create_all [] ps g = (ps, g)
  create_all (i ∷ is) ps g = let (p, h) = q.create i g in create_all is (insert p ps) h

  module _ (p : Preps) where
    abbrev pub read_header : Hash Text → IqPrivate P → IqPrivate P
    read_header attributes s = record s {
      from = read_jid p (text "from") attributes;
      to = read_jid p (text "to") attributes;
      id = value (text "id") attributes;
    }

    -- `StanzaFactory::handleStartElement`
    unfoldable pub start_stanza : Text → Text → Hash Text → Factory P G → Factory P G
    unfolding push_start all_handle
    start_stanza name uri attributes f =
        let e = opened name uri attributes in
        let noted = record f.stanza { tokens = push_start e f.stanza.tokens } in
        let parsers =
          if f.depth == 2 then f.parsers ++ parsers_for q name uri attributes else f.parsers in
        record f {
          stanza = if f.depth == 1 then read_header attributes noted else noted;
          parsers = parsers;
          store = all_handle parsers e f.store;
        }

    -- `IqFactory::handleStartElement`
    unfoldable pub handle_start : Text → Text → Hash Text → Factory P G → Factory P G
    unfolding start_stanza
    handle_start name uri attributes f =
        let depth = f.depth + 1 in
        let g =
          start_stanza name uri attributes
            (record f { depth = depth; stanza = if depth == 1 then no_iq else f.stanza }) in
        if depth == 1
        then record g {
          stanza = record g.stanza { subtype = type_of (value (text "type") attributes) };
        }
        else g

    -- `handleEndElement` of both
    unfoldable pub handle_end : Factory P G → Factory P G
    unfolding all_handle create_all
    handle_end f =
        let store = all_handle f.parsers closed f.store in
        let noted = record f.stanza { tokens = closed ∷ f.stanza.tokens } in
        let (ps, after) = create_all f.parsers noted.extensions store in
        if f.depth == 2
        then record {
          depth = f.depth - 1;
          stanza = record noted { extensions = ps };
          parsers = [];
          store = after;
        }
        else record f { depth = f.depth - 1; stanza = noted; store = store }

    -- `handleCharacterData`
    unfoldable pub handle_text : Text → Factory P G → Factory P G
    unfolding all_handle push_text
    handle_text s f = record f {
      store = all_handle f.parsers (text_read s) f.store;
      stanza = record f.stanza { tokens = push_text s f.stanza.tokens };
    }

    unfoldable pub handle_event : NsEvent → Factory P G → Factory P G
    unfolding handle_start handle_end handle_text
    handle_event (opened name uri attributes) f = handle_start name uri attributes f
    handle_event (text_read s) f = handle_text s f
    handle_event closed f = handle_end f

    unfoldable pub feed : List NsEvent → Factory P G → Factory P G
    unfolding handle_event
    feed [] f = f
    feed (e ∷ es) f = feed es (handle_event e f)

  -- `writePayloads`; a payload of a type that no factory has is left out.
  unfoldable pub write_payloads : List P → List NsEvent
  write_payloads [] = []
  write_payloads (p ∷ ps) =
      (if is_known q (q.type_of p) q.types then q.write (q.type_of p) p else [])
      ++ write_payloads ps

  -- An IQ of an invalid type is not written.
  abbrev pub unless_invalid : IqType → List NsEvent → List NsEvent
  unless_invalid invalid_iq es = []
  unless_invalid _ es = es

  -- `IqFactory::serialize` of an IQ that was not read.
  unfoldable pub serialize : IqPrivate P → List NsEvent
  unfolding header write_payloads
  serialize i = unless_invalid i.subtype (
      opened (text "iq") ns_client
        (header i.from i.to i.id (given (text "type") (type_text i.subtype) []))
      ∷ (write_payloads i.extensions ++ closed ∷ []))
