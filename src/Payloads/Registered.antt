-- ===== src/Payloads/Registered.antt =====
-- The nine factories of small payloads side by side, as a client has them that registers these and no
-- others. The client of src/client.cpp registers eight of them among its own, and that of nicknames
-- nowhere.
use jreen.Base.{ℕ, Bool, true, List, [], ◌∷◌, if◌then◌else◌, ◌==◌, Text, Hash, ◌≡◌, ◌≢◌}
use jreen.Xml.{NsEvent}
use jreen.Payloads.{Factories}
use jreen.Payloads.Simple.{
  write_update, is_state, is_receipt, ping_parses, attention_parses, chat_parses, receipt_parses,
  nick_parses, version_parses, update_parses, signed_parses, encrypted_parses, write_ping,
  write_attention, write_chat, write_receipt, write_nick, write_signed, write_encrypted,
  SimplePayload, Stores, ping, attention, chat_state, receipt, nickname, version, update, signed,
  encrypted, handle_chat, handle_receipt, handle_nick, handle_version, handle_update, handle_pgp,
  create_update, write_version,
}

-- A number for each type; the program gives them out at run time.
abbrev pub number : SimplePayload → ℕ
number ping = 1
number attention = 2
number (chat_state s) = 3
number (receipt r) = 4
number (nickname s) = 5
number (version v) = 6
number (update u) = 7
number (signed s) = 8
number (encrypted s) = 9

abbrev pub can_parse : ℕ → Text → Text → Hash Text → Bool
can_parse i name uri attributes =
    if i == 1
    then ping_parses name uri
    else if i == 2
    then attention_parses name uri
    else if i == 3
    then chat_parses name uri
    else if i == 4
    then receipt_parses name uri
    else if i == 5
    then nick_parses name uri
    else if i == 6
    then version_parses name uri
    else if i == 7
    then update_parses name uri
    else if i == 8
    then signed_parses name uri
    else encrypted_parses name uri

unfoldable pub handle : ℕ → NsEvent → Stores → Stores
unfolding handle_chat handle_receipt handle_nick handle_version handle_update handle_pgp
handle i e g =
    if i == 3
    then record g { chat = handle_chat e g.chat }
    else if i == 4
    then record g { receipt_read = handle_receipt e g.receipt_read }
    else if i == 5
    then record g { nick = handle_nick e g.nick }
    else if i == 6
    then record g { version_factory = handle_version e g.version_factory }
    else if i == 7
    then record g { update_factory = handle_update e g.update_factory }
    else if i == 8
    then record g { signed_factory = handle_pgp e g.signed_factory }
    else if i == 9
    then record g { encrypted_factory = handle_pgp e g.encrypted_factory }
    else g

abbrev pub create : ℕ → Stores → SimplePayload × Stores
create i g =
    if i == 1
    then (ping, g)
    else if i == 2
    then (attention, g)
    else if i == 3
    then (chat_state g.chat, g)
    else if i == 4
    then (receipt g.receipt_read, g)
    else if i == 5
    then (nickname g.nick, g)
    else if i == 6
    then (version g.version_factory.read, g)
    else if i == 7
    then (update (create_update g.update_factory), g)
    else if i == 8
    then (signed g.signed_factory.query, g)
    else (encrypted g.encrypted_factory.query, g)

abbrev pub write : SimplePayload → List NsEvent
write ping = write_ping
write attention = write_attention
write (chat_state s) = write_chat s
write (receipt r) = write_receipt r
write (nickname s) = write_nick s
write (version v) = write_version v
write (update u) = write_update u
write (signed s) = write_signed s
write (encrypted s) = write_encrypted s

abbrev pub registered : Factories SimplePayload Stores
registered = record {
  types = 1 ∷ 2 ∷ 3 ∷ 4 ∷ 5 ∷ 6 ∷ 7 ∷ 8 ∷ 9 ∷ [];
  type_of = number;
  can_parse = can_parse;
  handle = handle;
  create = create;
  write = λ i p. write p;
}

-- What is written whole: a state or a type that there is, a nickname that is not empty, and an
-- update that knows about the photo.
abbrev pub IsGood : SimplePayload → Type 0
IsGood (chat_state s) = is_state s ≡ true
IsGood (receipt r) = is_receipt r.type_of ≡ true
IsGood (nickname s) = s ≢ []
IsGood (update u) = u.has_photo_info ≡ true
IsGood _ = Unit {0}

-- No factory is inside an element.
abbrev pub IsIdle : Stores → Type 0
IsIdle g =
    (g.version_factory.depth ≡ 0)
    × (g.update_factory.depth ≡ 0)
    × (g.signed_factory.depth ≡ 0)
    × (g.encrypted_factory.depth ≡ 0)
