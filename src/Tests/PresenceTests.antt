-- ===== src/Tests/PresenceTests.antt =====
-- Runs of presences.
use jreen.Base.{
  true, ℤ, pos, negsuc, leb_ℤ, ◌&&◌, if◌then◌else◌, [], ◌∷◌, ◌≡◌, refl, arith, Text, text, get,
  index_of,
}
use jreen.Jid.{JidData, set_jid, bare_of, full_of}
use jreen.Jid.Attributes.{IsRead}
use jreen.LangMap.Entries.{Listed}
use jreen.Presence.{Presence, away, no_presence, set_priority, set_priority-bounds}
use jreen.Presence.Factory.{feed, serialize, new_factory}
use jreen.Presence.RoundTrip.{presence_after, stanza-serialize}
use jreen.Tests.RosterTests.{plain}

abbrev pub alice : JidData
alice = record {
  domain = text "a.org";
  node = text "al";
  resource = [];
  bare = text "al@a.org";
  full = text "al@a.org";
  valid = true;
}

abbrev gone : Presence
gone = record no_presence {
  from = alice;
  subtype = away;
  status = record { base = text "Lunch"; other = (text "de", text "Mittag") ∷ [] };
  priority = negsuc 0;
}

-- Conversions that are right at the priority of this run.
digits : ℤ → Text
digits (pos n) = text "5"
digits (negsuc n) = text "-1"

to_int : Text → ℤ
to_int s = negsuc 0

pub alice-IsRead : IsRead plain alice
unfolding set_jid index_of bare_of full_of
alice-IsRead h = refl

status-Listed : Listed [] gone.status.other
unfolding get
status-Listed = (λ e. ground arith, λ e. ground arith, refl, tt)

stanza-serialize_example :
    (feed plain to_int (serialize digits gone) new_factory).stanza ≡ presence_after gone
unfolding digits to_int
stanza-serialize_example =
    stanza-serialize plain to_int digits gone (λ e. ground arith) (λ h. alice-IsRead h)
      (λ h. absurd (ground arith)) status-Listed (λ e. ground arith) refl

set_priority-bounds_example :
    (leb_ℤ (negsuc 127) (set_priority (pos 300) gone).priority ≡ true)
    × (leb_ℤ (set_priority (pos 300) gone).priority (pos 127) ≡ true)
    × ((if leb_ℤ (negsuc 127) (pos 300) && leb_ℤ (pos 300) (pos 127)
          then (set_priority (pos 300) gone).priority
          else pos 300)
        ≡ pos 300)
set_priority-bounds_example = set_priority-bounds (pos 300) gone
