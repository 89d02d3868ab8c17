-- ===== src/Tests/IqTests.antt =====
-- IQs that are written and read, with small payloads.
use jreen.Base.{List, true, [], ◌∷◌, ◌≡◌, refl, arith, text}
use jreen.Stanza.{result_iq}
use jreen.Stanza.Header.{ns_client}
use jreen.Xml.{NsEvent, opened, text_read, closed}
use jreen.Jid.Attributes.{jid_after}
use jreen.Payloads.Simple.{
  SimplePayload, Stores, version, nickname, active, request, at_other, ns_version,
}
use jreen.Payloads.Registered.{registered, IsGood, IsIdle}
use jreen.Payloads.Lawful.{registered-IsLawful}
use jreen.IqFactory.{IqPrivate, no_iq, Factory, feed, serialize}
use jreen.IqFactory.RoundTrip.{iq-serialize}
use jreen.IqFactory.Tokens.{write_iq, replay-feed}
use jreen.Tests.RosterTests.{plain}
use jreen.Tests.PresenceTests.{alice, alice-IsRead}

abbrev stores : Stores
stores = record {
  chat = active;
  receipt_read = record { type_of = request; id = [] };
  nick = [];
  version_factory = record {
    depth = 0;
    state = at_other;
    read = record { name = []; version = []; os = [] };
  };
  update_factory = record { hash = []; has_photo = true; depth = 0; is_photo = true };
  signed_factory = record { depth = 0; query = [] };
  encrypted_factory = record { depth = 0; query = [] };
}

abbrev answer : IqPrivate SimplePayload
answer = record {
  subtype = result_iq;
  from = alice;
  to = alice;
  id = text "7";
  extensions =
      nickname (text "al")
      ∷ version (record { name = text "Jreen"; version = text "1.2"; os = [] })
      ∷ [];
  tokens = [];
}

abbrev outside : Factory SimplePayload Stores
outside = record { depth = 0; stanza = no_iq; parsers = []; store = stores }

iq-serialize_example :
    (more : List NsEvent) × ((feed registered plain (serialize registered answer) outside).stanza
      ≡ record answer { from = jid_after alice; to = jid_after alice; tokens = more })
iq-serialize_example =
    iq-serialize registered plain IsGood IsIdle registered-IsLawful answer outside
      (λ e. ground arith) (λ h. alice-IsRead h) (λ h. alice-IsRead h)
      ((λ e. ground arith), (tt, tt)) (omega arith) refl refl (refl, refl, refl, refl)

abbrev inside : List NsEvent
inside =
    opened (text "query") ns_version []
    ∷ opened (text "name") ns_version []
    ∷ text_read (text "Jreen")
    ∷ closed
    ∷ closed
    ∷ closed
    ∷ []

replay-feed_example :
    write_iq registered
      (feed registered plain (opened (text "iq") ns_client [] ∷ inside) outside).stanza
    ≡ opened (text "iq") ns_client [] ∷ inside
replay-feed_example = replay-feed registered plain (text "iq") [] inside outside refl refl tt
