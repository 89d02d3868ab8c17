-- ===== src/Tests/RoomItemTests.antt =====
-- Runs of the administration queries of a room.
use jreen.Base.{true, List, [], ◌∷◌, ◌≡◌, refl, arith, text, index_of}
use jreen.Jid.{JidData, set_jid, bare_of, full_of}
use jreen.Jid.Attributes.{IsRead}
use jreen.Room.{RoomItem, member, empty_item}
use jreen.Room.Items.{feed_admin, serialize_admin, new_admin_factory}
use jreen.Room.AdminRoundTrip.{AllRead, items_after, items-serialize_admin}
use jreen.Tests.RosterTests.{plain}

abbrev bob : JidData
bob = record {
  domain = text "b.org";
  node = text "bob";
  resource = [];
  bare = text "bob@b.org";
  full = text "bob@b.org";
  valid = true;
}

abbrev asked : List RoomItem
asked =
    record empty_item { affiliation = member; jid = bob; reason = text "friend" }
    ∷ record empty_item { nick = text "al" }
    ∷ []

bob-IsRead : IsRead plain bob
unfolding set_jid index_of bare_of full_of
bob-IsRead h = refl

asked-AllRead : AllRead plain asked
asked-AllRead = (
  λ h. bob-IsRead h,
  λ h. absurd (ground arith),
  (λ h. absurd (ground arith), λ h. absurd (ground arith), tt),
)

items-serialize_admin_example :
    (feed_admin plain (serialize_admin asked) new_admin_factory).items ≡ items_after asked
items-serialize_admin_example = items-serialize_admin plain asked asked-AllRead
