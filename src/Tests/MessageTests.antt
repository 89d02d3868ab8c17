-- ===== src/Tests/MessageTests.antt =====
-- Runs of messages and of errors.
use jreen.Base.{[], ◌∷◌, ◌≡◌, refl, arith, text, text_discrete, get}
use jreen.LangMap.Entries.{Listed}
use jreen.Sessions.{chat}
use jreen.Message.{MessagePrivate, no_message, plain, feed, serialize, new_factory}
use jreen.Message.RoundTrip.{message_after, message-serialize}
use jreen.StanzaError.{
  StanzaError, cancel, gone, State, at_text, auth, forbidden, ns_error, create_payload,
}
use jreen.StanzaError
use jreen.StanzaError.RoundTrip.{before, condition_kept}
use jreen.Xml.{opened, text_read, closed}
use jreen.Tests.RosterTests.{plain as plain_preps}
use jreen.Tests.PresenceTests.{alice, alice-IsRead}

abbrev greeting : MessagePrivate
greeting = record no_message {
  from = alice;
  subtype = chat;
  subject = plain (text "Re");
  body = record { base = []; other = (text "de", text "Hallo") ∷ (text "en", text "Hello") ∷ [] };
}

body-Listed : Listed [] greeting.body.other
unfolding get text_discrete
body-Listed =
    (λ e. ground arith, λ e. ground arith, refl, (λ e. ground arith, λ e. ground arith, refl, tt))

message-serialize_example :
    (feed plain_preps (serialize greeting) new_factory).stanza ≡ message_after greeting
message-serialize_example =
    message-serialize plain_preps greeting (λ e. ground arith) (λ h. alice-IsRead h)
      (λ h. absurd (ground arith)) body-Listed tt

only_last : message_after greeting ≡ record greeting { body = plain (text "Hello") }
only_last = refl

abbrev moved : StanzaError
moved = record { kind = cancel; condition = gone; message = [] }

condition_kept_example :
    (create_payload (
      StanzaError.feed
        (opened (text "error") [] []
          ∷ opened (text "text") ns_error []
          ∷ text_read (text "No")
          ∷ closed
          ∷ closed
          ∷ [])
        (StanzaError.feed
          (StanzaError.serialize moved)
          (before moved at_text auth forbidden [])))).condition
    ≡ gone
condition_kept_example =
    condition_kept moved at_text auth forbidden [] [] (text "No") (λ e. ground arith)
      (λ e. ground arith) (λ e. ground arith) (λ e. ground arith)
