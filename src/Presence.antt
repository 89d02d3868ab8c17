-- ===== src/Presence.antt =====
-- src/presence.cpp: the presence stanza.
pub mod Factory
pub mod RoundTrip
use jreen.Base.{
  ℕ, Bool, true, false, ◌&&◌, if◌then◌else◌, ℤ, pos, negsuc, leb_ℤ, bound, Text, List, [], ◌≡◌,
  refl, arith,
}
use jreen.Jid.{JidData, empty_jid}
use jreen.LangMap.{LangMap, set_value, no_langs}

-- `Presence::Type`
pub data PresenceType : Type 0 where
  invalid unavailable available subscribe unsubscribe subscribed unsubscribed : PresenceType
  probe error empty chat away dnd xa : PresenceType

-- `PresencePrivate`, with what it has from `StanzaPrivate` but the payloads.
pub record Presence : Type 0 where
  pub from : JidData
  pub to : JidData
  pub id : Text
  pub subtype : PresenceType
  pub status : LangMap
  pub priority : ℤ

abbrev pub no_presence : Presence
no_presence = record {
  from = empty_jid;
  to = empty_jid;
  id = [];
  subtype = available;
  status = no_langs;
  priority = pos 0;
}

-- `Presence(type, to, status, priority, xmllang)`
unfoldable pub new_presence : PresenceType → JidData → Text → ℤ → Text → Presence
unfolding set_value
new_presence t to status priority lang = record no_presence {
  subtype = t;
  to = to;
  priority = priority;
  status = set_value lang status no_langs;
}

abbrev pub is_subscription_type : PresenceType → Bool
is_subscription_type subscribe = true
is_subscription_type unsubscribe = true
is_subscription_type subscribed = true
is_subscription_type unsubscribed = true
is_subscription_type _ = false

abbrev pub is_subscription : Presence → Bool
is_subscription p = is_subscription_type p.subtype

unfoldable pub add_status : Text → Text → Presence → Presence
unfolding set_value
add_status s lang p = record p { status = set_value lang s p.status }

unfoldable pub reset_status : Presence → Presence
reset_status p = record p { status = no_langs }

unfoldable pub set_priority : ℤ → Presence → Presence
set_priority n p = record p { priority = bound (negsuc 127) n (pos 127) }

-- `setPriority` leaves a priority that is an octet with a sign, and it is the given one where that
-- is one.
pub set_priority-bounds :
    (n : ℤ) (p : Presence)
    → (leb_ℤ (negsuc 127) (set_priority n p).priority ≡ true)
      × (leb_ℤ (set_priority n p).priority (pos 127) ≡ true)
      × ((if leb_ℤ (negsuc 127) n && leb_ℤ n (pos 127) then (set_priority n p).priority else n) ≡ n)
unfolding set_priority
set_priority-bounds (pos k) p = (ground arith, ground arith, ground arith)
set_priority-bounds (negsuc k) p = (ground arith, ground arith, ground arith)
