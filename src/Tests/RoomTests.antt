-- ===== src/Tests/RoomTests.antt =====
-- A room with two participants.
use jreen.Base.{
  subst, true, false, none, some, List, [], ◌∷◌, ◌≡◌, ◌≢◌, refl, arith, Text, text, text_discrete,
  get, remove, pos,
}
use mathlib.Core.Option.{some-injective}
use jreen.Jid.{JidData, bare_jid, set_resource, full_of}
use jreen.Presence.{unavailable, available}
use jreen.Room.{
  Room, UserQuery, RoomPresence, presence_received, new_room, empty_query, empty_item,
  handle_presence, with_resource,
}
use jreen.Room.Signals.{
  Happening, presence, joining, connected, disconnected, run, tells-run, tells,
}
use jreen.Room.Observer.{Covers, follow, run-Covers}
use jreen.Room.Stale.{stale_participants}
use jreen.Room.Nick.{own_unavailable}
use jreen.Tests.RosterTests.{plain}

abbrev at_nick : Text → JidData
at_nick nick = record {
  domain = text "c";
  node = text "room";
  resource = nick;
  bare = text "room@c";
  full = full_of (text "room@c") nick;
  valid = true;
}

abbrev room : Room
room = record (new_room (at_nick (text "me"))) {
  participants = (text "ann", empty_query) ∷ [];
  started_joining = true;
}

abbrev arrival : RoomPresence
arrival = record {
  from = at_nick (text "bob");
  subtype = available;
  error = none;
  query = some empty_query;
}

abbrev mine : RoomPresence
mine = record arrival { from = at_nick (text "me") }

abbrev renamed : UserQuery
renamed = record empty_query { item = record empty_item { nick = text "moi" }; nick_changed = true }

abbrev history : List Happening
history =
    joining available (text "hi") (pos 3)
    ∷ presence arrival
    ∷ presence mine
    ∷ disconnected
    ∷ connected
    ∷ presence mine
    ∷ []

tells-run_example :
    tells false (run plain history room).1 ≡ some (run plain history room).0.is_joined
tells-run_example = tells-run plain history room

nobody-Covers : Covers [] room.participants
unfolding Covers get
nobody-Covers k q h = ground arith

run-Covers_example :
    let (s, actions) = run plain history room in Covers (follow actions []) s.participants
run-Covers_example = run-Covers plain history room [] nobody-Covers

ann_stays : (with_resource plain (bare_jid room.jid) (text "ann")).resource ≡ text "ann"
unfolding set_resource bare_jid
ann_stays = refl

stale_participants_example :
    let (s, actions) = handle_presence plain arrival room in
    (get (text "ann") (follow actions room.participants) ≡ none)
    × (get (text "ann") s.participants ≡ some empty_query)
unfolding get text_discrete
stale_participants_example =
    stale_participants plain room arrival empty_query empty_query (text "ann") refl refl refl refl
      refl (λ e. ground arith) (λ e. ground arith) ann_stays refl

moi_is_new : (with_resource plain room.jid (text "moi")).resource ≢ text "me"
unfolding set_resource
moi_is_new e = ground arith

abbrev leaving_presence : RoomPresence
leaving_presence = record mine { subtype = unavailable; query = some renamed }

moi_differs :
    (q : UserQuery)
    → some renamed ≡ some q
    → (with_resource plain room.jid q.item.nick).resource ≢ text "me"
moi_differs q e =
    subst (λ z. (with_resource plain room.jid z.item.nick).resource ≢ text "me")
      (some-injective renamed q e) moi_is_new

own_unavailable_example : handle_presence plain leaving_presence room ≡ (
  record room {
    jid = with_resource plain room.jid (text "moi");
    participants = remove (text "me") room.participants;
  },
  presence_received (at_nick (text "me")) unavailable renamed false ∷ [],
)
own_unavailable_example =
    own_unavailable plain room leaving_presence refl refl (λ q e c. moi_differs q e)
