-- ===== src/Payloads/Simple.antt =====
-- The small payloads: src/pingfactory.cpp, src/attentionfactory.cpp, src/chatstatefactory.cpp,
-- src/receiptfactory.cpp, src/nicknamefactory.cpp, src/softwareversionfactory.cpp,
-- src/vcardupdatefactory.cpp and src/pgpfactory.cpp. Each factory is its fields with its handlers.
use jreen.Base.{
  ℕ, ◌+◌, ◌-◌, Bool, true, false, ◌&&◌, ◌||◌, List, [], ◌∷◌, if◌then◌else◌, ◌==◌, Text, text,
  text_eq, Hash,
}
use jreen.Xml.{given, NsEvent, opened, text_read, closed, value, given_element}
use jreen.Stanza.Header.{characters}

-- `ChatState::State`; `unknown` is the -1 of `strToEnum`.
pub data ChatState : Type 0 where
  active inactive gone composing paused unknown_state : ChatState

abbrev pub ns_chat_state : Text
ns_chat_state = text "http://jabber.org/protocol/chatstates"

abbrev pub chat_state_text : ChatState → Text
chat_state_text active = text "active"
chat_state_text inactive = text "inactive"
chat_state_text gone = text "gone"
chat_state_text composing = text "composing"
chat_state_text paused = text "paused"
chat_state_text unknown_state = []

abbrev pub chat_state_of : Text → ChatState
chat_state_of s =
    if text_eq (text "active") s
    then active
    else if text_eq (text "inactive") s
    then inactive
    else if text_eq (text "gone") s
    then gone
    else if text_eq (text "composing") s
    then composing
    else if text_eq (text "paused") s
    then paused
    else unknown_state

abbrev pub is_state : ChatState → Bool
is_state unknown_state = false
is_state _ = true

-- `Receipt`
pub data ReceiptType : Type 0 where
  request received invalid_receipt : ReceiptType

pub record Receipt : Type 0 where
  pub type_of : ReceiptType
  pub id : Text

abbrev pub ns_receipt : Text
ns_receipt = text "urn:xmpp:receipts"

abbrev pub receipt_text : ReceiptType → Text
receipt_text request = text "request"
receipt_text received = text "received"
receipt_text invalid_receipt = []

abbrev pub receipt_of : Text → ReceiptType
receipt_of s =
    if text_eq (text "request") s
    then request
    else if text_eq (text "received") s
    then received
    else invalid_receipt

abbrev pub is_receipt : ReceiptType → Bool
is_receipt invalid_receipt = false
is_receipt _ = true

abbrev pub receipt_attributes : Hash Text → Text → Receipt
receipt_attributes attributes name = record {
  type_of = receipt_of name;
  id = value (text "id") attributes;
}

-- `SoftwareVersionFactoryPrivate`; a name that is none of the three leaves no case of the switch.
pub data VersionState : Type 0 where
  at_name at_version at_os at_other : VersionState

pub record Version : Type 0 where
  pub name : Text
  pub version : Text
  pub os : Text

pub record VersionFactory : Type 0 where
  pub depth : ℕ
  pub state : VersionState
  pub read : Version

abbrev pub ns_version : Text
ns_version = text "jabber:iq:version"

abbrev pub version_child : Text → VersionState
version_child name =
    if text_eq (text "name") name
    then at_name
    else if text_eq (text "version") name
    then at_version
    else if text_eq (text "os") name
    then at_os
    else at_other

abbrev pub version_text : Text → VersionState → Version → Version
version_text s at_name v = record v { name = s }
version_text s at_version v = record v { version = s }
version_text s at_os v = record v { os = s }
version_text s at_other v = v

unfoldable pub handle_version : NsEvent → VersionFactory → VersionFactory
handle_version (opened name uri attributes) f =
    let depth = f.depth + 1 in
    record {
      depth = depth;
      state = if depth == 2 then version_child name else f.state;
      read = if depth == 1 then record { name = []; version = []; os = [] } else f.read;
    }
handle_version (text_read s) f =
    if f.depth == 2 then record f { read = version_text s f.state f.read } else f
handle_version closed f = record f { depth = f.depth - 1 }

unfoldable pub write_version : Version → List NsEvent
write_version v =
    opened (text "query") ns_version []
    ∷ given_element (text "name") ns_version v.name (
        given_element (text "version") ns_version v.version
          (given_element (text "os") ns_version v.os (closed ∷ [])))

-- `VCardUpdate` and its factory
pub record Update : Type 0 where
  pub photo_hash : Text
  pub has_photo_info : Bool

pub record UpdateFactory : Type 0 where
  pub hash : Text
  pub has_photo : Bool
  pub depth : ℕ
  pub is_photo : Bool

abbrev pub ns_update : Text
ns_update = text "vcard-temp:x:update"

unfoldable pub handle_update : NsEvent → UpdateFactory → UpdateFactory
handle_update (opened name uri attributes) f =
    let depth = f.depth + 1 in
    let photo = text_eq name (text "photo") in
    if depth == 1
    then record f { depth = depth; has_photo = false; hash = [] }
    else if depth == 2
    then record f { depth = depth; is_photo = photo; has_photo = f.has_photo || photo }
    else record f { depth = depth }
handle_update (text_read s) f = if f.depth == 2 && f.is_photo then record f { hash = s } else f
handle_update closed f = record f {
  is_photo = if f.depth == 2 then false else f.is_photo;
  depth = f.depth - 1;
}

unfoldable pub create_update : UpdateFactory → Update
create_update f =
    if f.has_photo
    then record { photo_hash = f.hash; has_photo_info = true }
    else record { photo_hash = []; has_photo_info = false }

-- `writeTextElement` of Qt's writer writes an element for an empty text too.
unfoldable pub write_update : Update → List NsEvent
write_update u =
    opened (text "x") ns_update []
    ∷ opened (text "photo") ns_update []
    ∷ characters u.photo_hash (closed ∷ closed ∷ [])

-- `PGPSignedFactory` and `PGPEncryptedFactory`
pub record PgpFactory : Type 0 where
  pub depth : ℕ
  pub query : Text

abbrev pub ns_signed : Text
ns_signed = text "jabber:x:signed"

abbrev pub ns_encrypted : Text
ns_encrypted = text "jabber:x:encrypted"

unfoldable pub handle_pgp : NsEvent → PgpFactory → PgpFactory
handle_pgp (opened name uri attributes) f =
    let depth = f.depth + 1 in record { depth = depth; query = if depth == 1 then [] else f.query }
handle_pgp (text_read s) f = if f.depth == 1 then record f { query = s } else f
handle_pgp closed f = record f { depth = f.depth - 1 }

-- An element that holds a text alone.
abbrev pub text_element : Text → Text → Text → List NsEvent
text_element name uri s = opened name uri [] ∷ characters s (closed ∷ [])

abbrev pub ns_nick : Text
ns_nick = text "http://jabber.org/protocol/nick"

-- `NicknameFactory`
unfoldable pub handle_nick : NsEvent → Text → Text
handle_nick (text_read s) nickname = s
handle_nick _ nickname = nickname

unfoldable pub handle_chat : NsEvent → ChatState → ChatState
handle_chat (opened name uri attributes) s = chat_state_of name
handle_chat _ s = s

unfoldable pub handle_receipt : NsEvent → Receipt → Receipt
handle_receipt (opened name uri attributes) r = receipt_attributes attributes name
handle_receipt _ r = r

abbrev pub ns_ping : Text
ns_ping = text "urn:xmpp:ping"

abbrev pub ns_attention : Text
ns_attention = text "urn:xmpp:attention:0"

-- `canParse` of each factory
abbrev pub ping_parses : Text → Text → Bool
ping_parses name uri = text_eq name (text "ping") && text_eq uri ns_ping

abbrev pub attention_parses : Text → Text → Bool
attention_parses name uri = text_eq name (text "attention") && text_eq uri ns_attention

abbrev pub chat_parses : Text → Text → Bool
chat_parses name uri = is_state (chat_state_of name) && text_eq uri ns_chat_state

abbrev pub receipt_parses : Text → Text → Bool
receipt_parses name uri = is_receipt (receipt_of name) && text_eq uri ns_receipt

abbrev pub nick_parses : Text → Text → Bool
nick_parses name uri = text_eq name (text "nick") && text_eq uri ns_nick

abbrev pub version_parses : Text → Text → Bool
version_parses name uri = text_eq name (text "query") && text_eq uri ns_version

abbrev pub update_parses : Text → Text → Bool
update_parses name uri = text_eq name (text "x") && text_eq uri ns_update

abbrev pub signed_parses : Text → Text → Bool
signed_parses name uri = text_eq name (text "x") && text_eq uri ns_signed

abbrev pub encrypted_parses : Text → Text → Bool
encrypted_parses name uri = text_eq name (text "x") && text_eq uri ns_encrypted

-- `serialize` of each factory
abbrev pub write_ping : List NsEvent
write_ping = opened (text "ping") ns_ping [] ∷ closed ∷ []

abbrev pub write_attention : List NsEvent
write_attention = opened (text "attention") ns_attention [] ∷ closed ∷ []

abbrev pub write_chat : ChatState → List NsEvent
write_chat s = opened (chat_state_text s) ns_chat_state [] ∷ closed ∷ []

abbrev pub write_receipt : Receipt → List NsEvent
write_receipt r =
    opened (receipt_text r.type_of) ns_receipt (given (text "id") r.id []) ∷ closed ∷ []

abbrev pub write_nick : Text → List NsEvent
write_nick s = text_element (text "nick") ns_nick s

abbrev pub write_signed : Text → List NsEvent
write_signed s = text_element (text "x") ns_signed s

abbrev pub write_encrypted : Text → List NsEvent
write_encrypted s = text_element (text "x") ns_encrypted s

pub data SimplePayload : Type 0 where
  ping attention : SimplePayload
  chat_state : ChatState → SimplePayload
  receipt : Receipt → SimplePayload
  nickname : Text → SimplePayload
  version : Version → SimplePayload
  update : Update → SimplePayload
  signed encrypted : Text → SimplePayload

-- What the factories hold, together.
pub record Stores : Type 0 where
  pub chat : ChatState
  pub receipt_read : Receipt
  pub nick : Text
  pub version_factory : VersionFactory
  pub update_factory : UpdateFactory
  pub signed_factory : PgpFactory
  pub encrypted_factory : PgpFactory
