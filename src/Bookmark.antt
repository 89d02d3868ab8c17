-- ===== src/Bookmark.antt =====
-- src/bookmark.cpp and src/bookmarkfactory.cpp: bookmarks of rooms, and how they are read and
-- written. The factory turns the name of a child into a state that may be -1, which the enumeration
-- does not have; whether it is below the others is up to the compiler and a parameter.
pub mod RoundTrip
pub mod Repeats
use jreen.Base.{
  ℕ, ◌+◌, ◌-◌, Bool, true, false, not, ◌&&◌, List, [], ◌∷◌, ◌++◌, if◌then◌else◌, ◌==◌, Text, text,
  text_eq, is_empty, Hash,
}
use jreen.Prep.{Preps}
use jreen.Jid.{JidData, empty_jid, is_bare, bare_jid}
use jreen.Jid.Attributes.{read_jid}
use jreen.Xml.{NsEvent, opened, text_read, closed, value, given, given_element}

-- `Bookmark::ConferencePrivate`
pub record Conference : Type 0 where
  pub jid : JidData
  pub name : Text
  pub nick : Text
  pub password : Text
  pub autojoin : Bool

abbrev pub no_conference : Conference
no_conference = record { jid = empty_jid; name = []; nick = []; password = []; autojoin = false }

-- `isValid`
unfoldable pub is_valid : Conference → Bool
is_valid c = c.jid.valid && not (is_empty c.nick)

abbrev pub Bookmark : Type 0
Bookmark = List Conference

unfoldable pub add_conference : Conference → Bookmark → Bookmark
add_conference c b = b ++ c ∷ []

abbrev pub ns_bookmarks : Text
ns_bookmarks = text "storage:bookmarks"

-- `at_unknown` is -1.
pub data State : Type 0 where
  at_nick at_password at_nowhere at_conference at_unknown : State

-- The bookmark is the one that the start of an element makes.
pub record Factory : Type 0 where
  pub depth : ℕ
  pub state : State
  pub bookmark : Bookmark
  pub conference : Conference

abbrev pub child : Text → State
child name =
    if text_eq (text "nick") name
    then at_nick
    else if text_eq (text "password") name
    then at_password
    else at_unknown

abbrev pub is_conference : State → Bool
is_conference at_conference = true
is_conference _ = false

-- `handleCharacterData`
unfoldable pub handle_text : Text → State → Conference → Conference
handle_text s at_nick c = record c { nick = s }
handle_text s at_password c = record c { password = s }
handle_text s _ c = c

-- `canParse`
unfoldable pub can_parse : Text → Text → Bool
can_parse name uri = text_eq name (text "storage") && text_eq uri ns_bookmarks

module _ (p : Preps) (unknown_below : Bool) where
  -- `Conference::setJid`
  unfoldable pub set_jid : JidData → Conference → Conference
  set_jid j c = record c { jid = if is_bare j then j else bare_jid j }

  unfoldable pub read_conference : Hash Text → Conference
  unfolding set_jid
  read_conference attributes = set_jid (read_jid p (text "jid") attributes) (record no_conference {
    name = value (text "name") attributes;
    autojoin = text_eq (value (text "autojoin") attributes) (text "true");
  })

  -- `handleStartElement`
  unfoldable pub handle_start : Text → Hash Text → Factory → Factory
  unfolding read_conference
  handle_start name attributes f =
      let depth = f.depth + 1 in
      if depth == 1
      then record f { depth = depth; state = at_nowhere; bookmark = [] }
      else if depth == 2 && text_eq name (text "conference")
      then record f {
        depth = depth;
        state = at_conference;
        conference = read_conference attributes;
      }
      else if depth == 3 && is_conference f.state
      then record f { depth = depth; state = child name }
      else record f { depth = depth }

  -- `m_state < AtNowhere`
  abbrev pub is_below : State → Bool
  is_below at_nick = true
  is_below at_password = true
  is_below at_unknown = unknown_below
  is_below _ = false

  -- `handleEndElement`
  unfoldable pub handle_end : Factory → Factory
  unfolding add_conference
  handle_end f =
      if is_below f.state && f.depth == 3
      then record f { depth = f.depth - 1; state = at_conference }
      else if is_conference f.state && f.depth == 2
      then record f { depth = f.depth - 1; bookmark = add_conference f.conference f.bookmark }
      else record f { depth = f.depth - 1 }

  unfoldable pub handle_event : NsEvent → Factory → Factory
  unfolding handle_start handle_end handle_text
  handle_event (opened name uri attributes) f = handle_start name attributes f
  handle_event (text_read s) f = record f { conference = handle_text s f.state f.conference }
  handle_event closed f = handle_end f

  unfoldable pub feed : List NsEvent → Factory → Factory
  unfolding handle_event
  feed [] f = f
  feed (e ∷ es) f = feed es (handle_event e f)

abbrev pub autojoin_text : Bool → Text
autojoin_text false = text "false"
autojoin_text true = text "true"

-- The loop of `serialize`
unfoldable pub write_conferences : List Conference → List NsEvent → List NsEvent
write_conferences [] rest = rest
write_conferences (c ∷ cs) rest =
    opened (text "conference") ns_bookmarks (
      given (text "jid") c.jid.full
        (given (text "name") c.name ((text "autojoin", autojoin_text c.autojoin) ∷ [])))
    ∷ given_element (text "nick") ns_bookmarks c.nick (
        given_element (text "password") ns_bookmarks c.password
          (closed ∷ write_conferences cs rest))

unfoldable pub serialize : Bookmark → List NsEvent
unfolding write_conferences
serialize b = opened (text "storage") ns_bookmarks [] ∷ write_conferences b (closed ∷ [])
