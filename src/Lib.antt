-- ===== src/Lib.antt =====
-- A model of Jreen, an XMPP client library for Qt, with proofs about its core.
--
-- The parts of the program and the modules that model them. All paths start at the root of the
-- repository.
--
-- Base: texts (QString and QByteArray as lists of code units), hashes (QHash as an association
--   list in which a key has one entry), lists over the native numbers, Boolean tests, signed
--   integers.
-- Prep: src/prep.cpp. Stringprep of libidn, the conversions and toLower are the fields of a
--   parameter, of type Idn and Platform; what is modelled is which checks surround them.
-- Jid (Jid/Strings, Jid/Parse, Jid/Bare): src/jid.cpp. setJID is set_jid, the fields that are
--   kept in step are those of JIDData. The preparations are a parameter of type Preps.
-- Buffer (Buffer/Bytes, Buffer/Queue, Buffer/Traffic): src/buffereddatastream.cpp. The buffers
--   with their offset and length, both directions, and the timer that flushes what is written.
-- Framing (Framing/Scan, Framing/Progress, Framing/Element, Framing/Stanza, Framing/Header,
--   Framing/Stable, Framing/Shorter): Parser::nextPart of src/parser.cpp, which cuts the bytes of
--   the stream into the stream header and stanzas. The loop runs on fuel; next_part gives it one more
--   than the length of the data, and every round consumes at least one byte, so the fuel is never
--   used up.
-- Xml: the events that a factory reads and writes. Qt's XML reader and writer are not modelled.
-- Roster (Roster/Lookup, Roster/Load, Roster/Observer, Roster/Query): src/abstractroster.cpp.
--   Pushes are handle_push, the answer to a request for the roster is handle_loaded, the signals
--   are the virtual notifications of AbstractRoster as SimpleRoster emits them. Query is the
--   payload factory for jabber:iq:roster.
-- Stanza: src/iq.cpp and src/stanza.cpp, with the multimap of payloads.
-- Client (Client/Replies, Client/Requests): handleStanza, send and handleIQ of src/client.cpp
--   and src/client_p.h. The application, which may accept any IQ and do anything with the client,
--   is a parameter; so are the texts that Qt makes of a number and of the time, and the numbers of
--   the payload types.
-- Negotiation (Negotiation/Choice, Negotiation/Outcome, Negotiation/Safety, Negotiation/Registry):
--   activateFeature of src/parser.cpp, and the parts of src/client.cpp and src/client_p.h that register features,
--   complete them and disconnect. What a feature answers to isActivatable is given from outside at
--   each point where it can change; qLowerBound is a parameter with what Qt documents of it.
-- Privacy (Privacy/Lists, Privacy/Setters, Privacy/Rules): src/privacymanager.cpp.
-- Sessions (Sessions/Index, Sessions/Upkeep): src/messagesession.cpp. Sessions are numbers, filters
--   and the random thread name are parameters.
-- Dispatch (Dispatch/Restore): handleStartElement, handleEndElement and handleCharacterData of
--   src/parser.cpp, with the stack of handlers. Which handlers can parse what is a parameter.
-- Parser (Parser/Arrival, Parser/Delivery, Parser/Xmpp): appendData, parseData and event of
--   src/parser.cpp, with the buffer and the readers of the stream. The loop of appendData runs on
--   fuel that is one more than the length of the buffer, and each part takes a byte of it
--   (Framing/Shorter). Qt's XML readers are a parameter, of type Readers.
-- Capabilities (Capabilities/Order): src/capabilitiesfactory.cpp, with the order of texts of
--   Base/Order. The hash that is taken of the verification string is a parameter.
-- Bookmark (Bookmark/RoundTrip, Bookmark/Repeats): src/bookmark.cpp and src/bookmarkfactory.cpp.
-- LangMap: src/langmap.cpp and src/langmap.h. The hash of the other languages keeps its order.
-- Presence (Presence/Factory, Presence/RoundTrip): src/presence.cpp, and its factory of
--   src/presencefactory.cpp with the header that src/stanzafactory.cpp reads and writes, without
--   the payloads. Jid/Attributes are JIDs as attributes.
-- Stanza/Header: the attributes and the texts of src/stanzafactory.cpp that presences and messages
--   share; LangMap/Entries are the texts of a LangMap in their order.
-- Message (Message/RoundTrip): src/messagefactory.cpp, without the payloads.
-- Payloads (Payloads/Simple, Payloads/Registered, Payloads/Lawful): the interface of
--   src/stanzaextension.h that a factory of payloads has, with its laws, and the factories of chat
--   states, receipts, software versions, vCard updates, signatures, nicknames, pings and attention,
--   the nine side by side.
-- IqFactory (IqFactory/RoundTrip, IqFactory/Tokens): src/iqfactory.cpp with the payloads and the
--   tokens of src/stanzafactory.cpp, over the interface of Payloads.
-- StanzaError (StanzaError/RoundTrip): src/errorfactory.cpp.
-- Room (Room/Signals, Room/Observer, Room/Stale, Room/Nick, Room/Requests, Room/Items,
--   Room/AdminRoundTrip): src/mucroom.cpp and src/mucroom_p.h; Items and AdminRoundTrip are the items
--   of src/mucroomfactory.cpp.
--   handlePresence is handle_presence, the signals and the stanzas that are sent are lists of
--   actions. Signals and Observer follow the room through any sequence of presences, messages,
--   joins and losses of the connection. Requests are the requests of the administration, their
--   answers and the permissions.
-- Form: src/dataform.cpp and src/dataformfactory.cpp. Form has the data; Form/Parsers, Form/Payload
--   and Form/Writing are the factory with the parsers inside it, and Form/RoundTrip relates them;
--   Form/Whole is about the events of one element;
--   Form/Fields are the operations of fields and forms, where qLowerBound is a parameter with what Qt
--   documents of it, and Form/Checks and Form/Names are about them.
-- Disco: src/disco.cpp. Disco has the items, the answers and the replies, Disco/Factories the two
--   factories, of which that of infos holds a factory of data forms, Disco/RoundTrip and
--   Disco/ItemsRoundTrip what they write and read, and Disco/Memory the actions that an item
--   remembers.
-- Vcard: src/vcard.cpp, src/vcard_p.h and src/vcardfactory.cpp. Vcard/Structure is the parser of a
--   struct, Vcard/Shapes the parsers of the parts with their tables, Vcard/Factory the factory and
--   Vcard/Writing what it writes. A pointer into a struct is a field that is read and set; sets of
--   types are numbers whose bits are tested one by one. Base64, dates and the addresses of pages are
--   Qt's and parameters. Vcard/Bits, Vcard/RoundTrip, Vcard/Tables and Vcard/Units are about one part,
--   Vcard/Events, Vcard/Inside, Vcard/Parts, Vcard/Held and Vcard/Middle about parts in a vCard.
-- Tests: the theorems at concrete inputs, and runs of the definitions.
--
-- How the parts interact: bytes arrive in Buffer, Framing cuts them, the factories (here those of
-- the roster query, of data forms, of service discovery, of presences, messages, errors and room
-- items) turn them into payloads, Client dispatches the stanzas, Roster, Privacy, Room and Disco
-- are slots behind it. Parser drives Framing on the bytes that have come. IqFactory hands the
-- elements inside an IQ to the factories of Payloads. Negotiation decides when the stream may be
-- used. Objects that Qt shares through pointers are values here, and features are told apart by a
-- number. Signals and written stanzas are lists in the order in which they happen.
--
-- Not modelled: 3rdparty (copies of other projects), src/experimental (Jingle), deffered/gui, the
-- sockets, DNS, TLS, SASL and zlib code, which calls other libraries, logging, and the payload
-- factories apart from those named above.
pub mod Base
pub mod Prep
pub mod Jid
pub mod Buffer
pub mod Framing
pub mod Xml
pub mod Roster
pub mod Stanza
pub mod Client
pub mod Negotiation
pub mod Privacy
pub mod Sessions
pub mod Dispatch
pub mod LangMap
pub mod Presence
pub mod Room
pub mod Form
pub mod Disco
pub mod Message
pub mod StanzaError
pub mod Capabilities
pub mod Bookmark
pub mod Parser
pub mod Payloads
pub mod IqFactory
pub mod Vcard
pub mod Tests
