-- ===== src/StanzaError.antt =====
-- src/errorfactory.cpp with the data of src/error.h: the error of a stanza as XML.
pub mod RoundTrip
use jreen.Base.{
  ℕ, ◌+◌, ◌-◌, Bool, true, false, ◌||◌, List, [], ◌∷◌, if◌then◌else◌, ◌==◌, Text, text, text_eq,
  Hash,
}
use jreen.Xml.{NsEvent, opened, text_read, closed, value}

-- `Error::Type`; `unknown_type` and `unknown_condition` are the -1 of `strToEnum`.
pub data ErrorType : Type 0 where
  auth cancel continue modify wait undefined_type unknown_type : ErrorType

-- `Error::Condition`
pub data ErrorCondition : Type 0 where
  bad_request conflict feature_not_implemented forbidden gone : ErrorCondition
  internal_server_error item_not_found jid_malformed not_acceptable : ErrorCondition
  not_allowed not_authorized not_modified payment_required : ErrorCondition
  recipient_unavailable redirect registration_required : ErrorCondition
  remote_server_not_found remote_server_timeout resource_constraint : ErrorCondition
  service_unavailable subscription_required undefined_condition : ErrorCondition
  unexpected_request unknown_sender undefined unknown_condition : ErrorCondition

-- `Error`; its text has no language.
pub record StanzaError : Type 0 where
  pub kind : ErrorType
  pub condition : ErrorCondition
  pub message : Text

abbrev pub find_named {ℓ} : {A : Type ℓ} → List (Text × A) → A → Text → A
find_named [] d s = d
find_named ((name, a) ∷ rest) d s = if text_eq name s then a else find_named rest d s

unfoldable pub type_of : Text → ErrorType
type_of s =
    find_named
      ((text "auth", auth)
        ∷ (text "cancel", cancel)
        ∷ (text "continue", continue)
        ∷ (text "modify", modify)
        ∷ (text "wait", wait)
        ∷ [])
      unknown_type s

unfoldable pub type_text : ErrorType → Text
type_text auth = text "auth"
type_text cancel = text "cancel"
type_text continue = text "continue"
type_text modify = text "modify"
type_text wait = text "wait"
type_text _ = []

unfoldable pub condition_text : ErrorCondition → Text
condition_text bad_request = text "bad-request"
condition_text conflict = text "conflict"
condition_text feature_not_implemented = text "feature-not-implemented"
condition_text forbidden = text "forbidden"
condition_text gone = text "gone"
condition_text internal_server_error = text "internal-server-error"
condition_text item_not_found = text "item-not-found"
condition_text jid_malformed = text "jid-malformed"
condition_text not_acceptable = text "not-acceptable"
condition_text not_allowed = text "not-allowed"
condition_text not_authorized = text "not-authorized"
condition_text not_modified = text "not-modified"
condition_text payment_required = text "payment-required"
condition_text recipient_unavailable = text "recipient-unavailable"
condition_text redirect = text "redirect"
condition_text registration_required = text "registration-required"
condition_text remote_server_not_found = text "remote-server-not-found"
condition_text remote_server_timeout = text "remote-server-timeout"
condition_text resource_constraint = text "resource-constraint"
condition_text service_unavailable = text "service-unavailable"
condition_text subscription_required = text "subscription-required"
condition_text undefined_condition = text "undefined-condition"
condition_text unexpected_request = text "unexpected-request"
condition_text unknown_sender = text "unknown-sender"
condition_text _ = []

abbrev named : ErrorCondition → Text × ErrorCondition
unfolding condition_text
named c = (condition_text c, c)

-- `strToEnum` with `error_conditions`
unfoldable pub condition_of : Text → ErrorCondition
unfolding named
condition_of s =
    find_named
      (named bad_request
        ∷ named conflict
        ∷ named feature_not_implemented
        ∷ named forbidden
        ∷ named gone
        ∷ named internal_server_error
        ∷ named item_not_found
        ∷ named jid_malformed
        ∷ named not_acceptable
        ∷ named not_allowed
        ∷ named not_authorized
        ∷ named not_modified
        ∷ named payment_required
        ∷ named recipient_unavailable
        ∷ named redirect
        ∷ named registration_required
        ∷ named remote_server_not_found
        ∷ named remote_server_timeout
        ∷ named resource_constraint
        ∷ named service_unavailable
        ∷ named subscription_required
        ∷ named undefined_condition
        ∷ named unexpected_request
        ∷ named unknown_sender
        ∷ [])
      unknown_condition s

pub data State : Type 0 where
  at_condition at_text : State

pub record Factory : Type 0 where
  pub depth : ℕ
  pub state : State
  pub kind : ErrorType
  pub condition : ErrorCondition
  pub message : Text

abbrev pub new_factory : Factory
new_factory = record {
  depth = 0;
  state = at_condition;
  kind = undefined_type;
  condition = undefined;
  message = [];
}

-- `handleStartElement`; the condition and the state of an error before this stay.
unfoldable pub handle_start : Text → Hash Text → Factory → Factory
unfolding type_of condition_of
handle_start name attributes f =
    let depth = f.depth + 1 in
    if depth == 1
    then record f { depth = depth; kind = type_of (value (text "type") attributes); message = [] }
    else if depth == 2
    then (if text_eq name (text "text")
        then record f { depth = depth; state = at_text }
        else record f { depth = depth; condition = condition_of name; state = at_condition })
    else record f { depth = depth }

unfoldable pub handle_text : Text → Factory → Factory
handle_text s f = elim f.state [ at_text ↦ record f { message = s } | at_condition ↦ f ]

unfoldable pub handle_event : NsEvent → Factory → Factory
unfolding handle_start handle_text
handle_event (opened name uri attributes) f = handle_start name attributes f
handle_event (text_read s) f = handle_text s f
handle_event closed f = record f { depth = f.depth - 1 }

unfoldable pub feed : List NsEvent → Factory → Factory
unfolding handle_event
feed [] f = f
feed (e ∷ es) f = feed es (handle_event e f)

unfoldable pub create_payload : Factory → StanzaError
create_payload f = record { kind = f.kind; condition = f.condition; message = f.message }

abbrev pub ns_error : Text
ns_error = text "urn:ietf:params:xml:ns:xmpp-stanzas"

abbrev pub is_undefined_type : ErrorType → Bool
is_undefined_type undefined_type = true
is_undefined_type _ = false

abbrev pub is_undefined : ErrorCondition → Bool
is_undefined undefined = true
is_undefined _ = false

-- `serialize`; the text is not written.
unfoldable pub serialize : StanzaError → List NsEvent
unfolding type_text condition_text
serialize e =
    if is_undefined_type e.kind || is_undefined e.condition
    then []
    else opened (text "error") [] ((text "type", type_text e.kind) ∷ [])
      ∷ opened (condition_text e.condition) ns_error []
      ∷ closed
      ∷ closed
      ∷ []
