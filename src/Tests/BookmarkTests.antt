-- ===== src/Tests/BookmarkTests.antt =====
-- Bookmarks that are written and read, and a bookmark of a page behind one of a room.
use jreen.Base.{true, false, [], ◌∷◌, ◌++◌, ◌≡◌, refl, text, text_discrete}
use jreen.Jid.{set_jid, bare_jid}
use jreen.Bookmark.{
  Bookmark, Conference, Factory, at_nowhere, at_conference, feed, serialize, no_conference,
}
use jreen.Bookmark.RoundTrip.{AllStored, bookmark-serialize}
use jreen.Bookmark.Repeats.{feed-other_child}
use jreen.Xml.{opened, text_read, closed}
use jreen.Tests.RosterTests.{plain}
use jreen.Tests.PresenceTests.{alice, alice-IsRead}

abbrev lounge : Conference
lounge = record {
  jid = alice;
  name = text "Lounge";
  nick = text "al";
  password = [];
  autojoin = true;
}

abbrev rooms : Bookmark
rooms = lounge ∷ no_conference ∷ []

abbrev idle : Factory
idle = record { depth = 0; state = at_nowhere; bookmark = []; conference = no_conference }

rooms-AllStored : AllStored plain false rooms
unfolding set_jid bare_jid
rooms-AllStored = (
  record { jid_read = alice-IsRead refl; jid_bare = refl },
  (record { jid_read = refl; jid_bare = refl }, tt),
)

bookmark-serialize_example : (feed plain false (serialize rooms) idle).bookmark ≡ rooms
bookmark-serialize_example = bookmark-serialize plain false rooms idle refl rooms-AllStored

abbrev behind : Factory
behind = record { depth = 1; state = at_conference; bookmark = lounge ∷ []; conference = lounge }

other_child_example :
    feed plain true (opened (text "url") [] [] ∷ text_read (text "x") ∷ closed ∷ []) behind
    ≡ feed plain true [] (record behind { bookmark = behind.bookmark ++ lounge ∷ [] })
unfolding text_discrete
other_child_example =
    feed-other_child plain true (text "url") [] [] (text "x" ∷ []) [] behind refl refl refl
