-- ===== src/Room/Requests.antt =====
-- What a room asks of its server, and who may do what.
use jreen.Base.{
  Bool, true, false, not, ◌&&◌, Option, none, some, List, [], ◌∷◌, if◌then◌else◌, Text, get,
}
use jreen.Prep.{Preps}
use jreen.Jid.{JidData, bare_jid}
use jreen.Room.{
  Room, RoomItem, Affiliation, affiliation_none, affiliation_unknown, outcast, member, owner, admin,
  Role, role_none, visitor, participant, moderator, UserQuery, Action, Context, request_config,
  set_list_context, request_list_context, error_received, configuration_received, list_received,
  sent_request, sent_items, sent_config, sent_invite, empty_item, victim,
}

abbrev pub request_room_config : Room → List Action
request_room_config r = sent_request (bare_jid r.jid) request_config ∷ []

abbrev pub request_list : Affiliation → Room → List Action
request_list a r = sent_request (bare_jid r.jid) (request_list_context a) ∷ []

abbrev pub list_items : Affiliation → List (JidData × Text) → List RoomItem
list_items a [] = []
list_items a ((j, reason) ∷ items) =
    record empty_item { affiliation = a; jid = j; reason = reason } ∷ list_items a items

abbrev pub set_list : Affiliation → List (JidData × Text) → Room → List Action
set_list a [] r = []
set_list a (i ∷ items) r =
    sent_items (bare_jid r.jid) (some set_list_context) (list_items a (i ∷ items)) ∷ []

abbrev pub set_room_config : Text → Room → List Action
set_room_config form r = sent_config (bare_jid r.jid) form ∷ []

abbrev pub set_role : Text → Role → Text → Room → List Action
set_role nick role reason r =
    sent_items (bare_jid r.jid) none
      (record empty_item { role = role; nick = nick; reason = reason } ∷ [])
    ∷ []

-- `setAffiliation(jid, …)`
abbrev pub set_affiliation : JidData → Affiliation → Text → Room → List Action
set_affiliation j a reason r =
    sent_items (bare_jid r.jid) none
      (record empty_item { affiliation = a; jid = j; reason = reason } ∷ [])
    ∷ []

abbrev pub kick : Text → Text → Room → List Action
kick nick reason r = set_role nick role_none reason r

abbrev pub ban_victim : Option JidData → Text → Room → List Action
ban_victim none reason r = []
ban_victim (some j) reason r = set_affiliation j outcast reason r

unfoldable pub ban : Preps → Text → Text → Room → List Action
unfolding victim
ban p nick reason r = ban_victim (victim p (get nick r.participants) nick) reason r

abbrev pub invite : JidData → Text → Text → Room → List Action
invite j reason thread r =
    if not r.is_joined then [] else sent_invite r.jid.bare j reason thread ∷ []

-- `checkParticipantPrivelege(KickParticipantsAndVisitors, role)` by its row of the table.
abbrev pub may_kick : Role → Bool
may_kick moderator = true
may_kick _ = false

abbrev pub is_kickable : Option UserQuery → Bool
is_kickable none = false
is_kickable (some q) = elim q.item.role [ visitor ↦ true | participant ↦ true | _ ↦ false ]

unfoldable pub can_kick : Text → Room → Bool
can_kick nick r = is_kickable (get nick r.participants) && may_kick r.role

-- `affiliation <= AffiliationMember`, which -1 is too
abbrev pub is_bannable : Option UserQuery → Bool
is_bannable none = false
is_bannable (some q) = elim q.item.affiliation [
  | affiliation_none ↦ true
  | outcast ↦ true
  | affiliation_unknown ↦ true
  | member ↦ true
  | _ ↦ false
]

abbrev pub may_ban : Affiliation → Bool
may_ban admin = true
may_ban owner = true
may_ban _ = false

unfoldable pub can_ban : Text → Room → Bool
can_ban nick r = is_bannable (get nick r.participants) && may_ban r.affiliation

abbrev pub valid_items : List RoomItem → List (JidData × Text)
valid_items [] = []
valid_items (i ∷ is) = if i.jid.valid then (i.jid, i.reason) ∷ valid_items is else valid_items is

-- `handleIQ`, on the error, the form and the items that the answer may carry.
abbrev pub answer_list : Affiliation → Option (List RoomItem) → List Action
answer_list a none = []
answer_list a (some items) = list_received a (valid_items items) ∷ []

abbrev pub answer_config : Option Text → List Action
answer_config none = []
answer_config (some form) = configuration_received form ∷ []

unfoldable pub handle_iq :
    Option Text → Option Text → Option (List RoomItem) → Context → List Action
handle_iq (some e) form items context = error_received e ∷ []
handle_iq none form items request_config = answer_config form
handle_iq none form items (request_list_context a) = answer_list a items
handle_iq none form items _ = []
