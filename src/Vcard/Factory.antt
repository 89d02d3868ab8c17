-- ===== src/Vcard/Factory.antt =====
-- VCardFactory of src/vcardfactory.cpp. The texts of dates and of addresses of pages are made and
-- read by Qt and are parameters; so is the preparation of JIDs.
use jreen.Base.{
  ℕ, zero, suc, ◌+◌, ◌-◌, Bool, Option, none, some, List, [], ◌∷◌, ◌++◌, if◌then◌else◌, ◌==◌, Text,
  text, text_eq,
}
use jreen.Prep.{Preps}
use jreen.Jid.{set_jid, empty_jid}
use jreen.Xml.{NsEvent, opened, text_read, closed}
use jreen.Vcard.{Card, Name, Photo, Telephone, Email, Address, no_name, no_photo, no_organization}
use jreen.Vcard.Structure.{Base64, Field, Structure, handle_structure, find_bit}
use jreen.Vcard.Shapes.{
  string_at, name_shape, photo_shape, telephone_shape, email_shape, address_shape, OrgParser,
  handle_org,
}

-- `to_date` and `to_stamp` are `Util::toStamp` of a date and of a date with its time.
pub record Conversions (DateTime Url : Type 0) : Type 0 where
  pub no_date : DateTime
  pub from_stamp : Text → DateTime
  pub is_valid : DateTime → Bool
  pub has_time : DateTime → Bool
  pub to_date : DateTime → Text
  pub to_stamp : DateTime → Text
  pub no_url : Url
  pub from_user_input : Text → Url
  pub to_encoded : Url → Text

-- The parser that reads an element of the vCard.
pub data Part : Type 0 where
  name_part photo_part telephone_part email_part address_part org_part : Part

-- `VCardFactory::State`; an entry is `LastState` with the index of the entry.
pub data State : Type 0 where
  at_root at_nowhere : State
  at_part : Part → State
  at_entry : ℕ → State

abbrev pub entries : List Text
entries =
    text "FN"
    ∷ text "BDAY"
    ∷ text "NICKNAME"
    ∷ text "URL"
    ∷ text "JABBERID"
    ∷ text "TITLE"
    ∷ text "ROLE"
    ∷ text "NOTE"
    ∷ text "DESC"
    ∷ text "MAILER"
    ∷ text "TZ"
    ∷ text "PRODID"
    ∷ text "REV"
    ∷ text "SORT-STRING"
    ∷ text "UID"
    ∷ []

-- `canParse` of the six parsers, in the order in which they are asked.
unfoldable pub part_of : Text → Option Part
part_of name =
    if text_eq name (text "N")
    then some name_part
    else if text_eq name (text "PHOTO")
    then some photo_part
    else if text_eq name (text "TEL")
    then some telephone_part
    else if text_eq name (text "EMAIL")
    then some email_part
    else if text_eq name (text "ADR")
    then some address_part
    else if text_eq name (text "ORG")
    then some org_part
    else none

-- What `currentString` points to.
pub data Target (DateTime Url : Type 0) : Type 0 where
  nothing temporary : Target DateTime Url
  member : Field (Card DateTime Url) Text → Target DateTime Url

module _ {DateTime Url : Type 0} where
  abbrev pub in_card :
      (Card DateTime Url → Text)
      → (Text → Card DateTime Url → Card DateTime Url)
      → Target DateTime Url
  in_card get set = member (string_at [] get set)

  -- `vCardStringHelper`: the entries are strings of the vCard itself, but for three.
  abbrev pub targets : List (Target DateTime Url)
  targets =
      in_card (λ v. v.formatted_name) (λ s v. record v { formatted_name = s })
      ∷ temporary
      ∷ in_card (λ v. v.nickname) (λ s v. record v { nickname = s })
      ∷ temporary
      ∷ temporary
      ∷ in_card (λ v. v.title) (λ s v. record v { title = s })
      ∷ in_card (λ v. v.role) (λ s v. record v { role = s })
      ∷ in_card (λ v. v.note) (λ s v. record v { note = s })
      ∷ in_card (λ v. v.description) (λ s v. record v { description = s })
      ∷ in_card (λ v. v.mailer) (λ s v. record v { mailer = s })
      ∷ in_card (λ v. v.time_zone) (λ s v. record v { time_zone = s })
      ∷ in_card (λ v. v.product_id) (λ s v. record v { product_id = s })
      ∷ in_card (λ v. v.revision) (λ s v. record v { revision = s })
      ∷ in_card (λ v. v.sort_string) (λ s v. record v { sort_string = s })
      ∷ in_card (λ v. v.user_id) (λ s v. record v { user_id = s })
      ∷ []

  abbrev pub target_at : List (Target DateTime Url) → ℕ → Target DateTime Url
  target_at [] i = nothing
  target_at (t ∷ ts) zero = t
  target_at (t ∷ ts) (suc i) = target_at ts i

-- `VCardFactoryPrivate`
pub record CardFactory (DateTime Url : Type 0) : Type 0 where
  pub depth : ℕ
  pub state : State
  pub card : Card DateTime Url
  pub name_parser : Structure Name
  pub photo_parser : Structure Photo
  pub telephone_parser : Structure Telephone
  pub email_parser : Structure Email
  pub address_parser : Structure Address
  pub org_parser : OrgParser
  pub current_parser : Option Part
  pub current_string : Target DateTime Url
  pub tmp_string : Text

-- The entries that pass through `tmpString`: BDAY, URL and JABBERID.
module _ {DateTime Url : Type 0} (q : Conversions DateTime Url) (p : Preps) where
  abbrev pub no_card : Card DateTime Url
  no_card = record {
    formatted_name = [];
    nickname = [];
    bday = q.no_date;
    url = q.no_url;
    jabber_id = empty_jid;
    title = [];
    role = [];
    note = [];
    description = [];
    mailer = [];
    time_zone = [];
    product_id = [];
    revision = [];
    sort_string = [];
    user_id = [];
    name = no_name;
    photo = no_photo;
    org = no_organization;
    telephones = [];
    emails = [];
    addresses = [];
  }

  unfoldable pub convert : ℕ → Text → Card DateTime Url → Card DateTime Url
  convert i s v =
      if i == 0
      then record v { formatted_name = s }
      else if i == 1
      then record v { bday = q.from_stamp s }
      else if i == 3
      then record v { url = q.from_user_input s }
      else if i == 4
      then record v { jabber_id = (set_jid p empty_jid s).1 }
      else v

  -- The parser that is current is fed; that of a part starts at depth two of the vCard.
  unfoldable pub feed_part :
      Base64 → Option Part → NsEvent → CardFactory DateTime Url → CardFactory DateTime Url
  feed_part b none e f = f
  feed_part b (some name_part) e f = record f {
    name_parser = handle_structure b name_shape e f.name_parser;
  }
  feed_part b (some photo_part) e f = record f {
    photo_parser = handle_structure b photo_shape e f.photo_parser;
  }
  feed_part b (some telephone_part) e f = record f {
    telephone_parser = handle_structure b telephone_shape e f.telephone_parser;
  }
  feed_part b (some email_part) e f = record f {
    email_parser = handle_structure b email_shape e f.email_parser;
  }
  feed_part b (some address_part) e f = record f {
    address_parser = handle_structure b address_shape e f.address_parser;
  }
  feed_part b (some org_part) e f = record f { org_parser = handle_org b e f.org_parser }

  abbrev pub clear_target :
      Target DateTime Url → CardFactory DateTime Url → CardFactory DateTime Url
  clear_target nothing f = record f { current_string = temporary; tmp_string = [] }
  clear_target t f = record f { current_string = t; tmp_string = [] }

  abbrev pub start_entry : Option ℕ → CardFactory DateTime Url → CardFactory DateTime Url
  start_entry none f = record f { state = at_nowhere; current_string = nothing }
  start_entry (some i) f = clear_target (target_at targets i) (record f { state = at_entry i })

  abbrev pub start_child : Option Part → Text → CardFactory DateTime Url → CardFactory DateTime Url
  start_child (some k) name f = record f { current_parser = some k; state = at_part k }
  start_child none name f = start_entry (find_bit name entries 0) f

  -- `create` of the parser that has read the part
  unfoldable pub take_part : State → CardFactory DateTime Url → Card DateTime Url
  take_part (at_part name_part) f = record (f.card) { name = f.name_parser.content }
  take_part (at_part photo_part) f = record (f.card) { photo = f.photo_parser.content }
  take_part (at_part telephone_part) f = record (f.card) {
    telephones = f.card.telephones ++ f.telephone_parser.content ∷ [];
  }
  take_part (at_part email_part) f = record (f.card) {
    emails = f.card.emails ++ f.email_parser.content ∷ [];
  }
  take_part (at_part address_part) f = record (f.card) {
    addresses = f.card.addresses ++ f.address_parser.content ∷ [];
  }
  take_part (at_part org_part) f = record (f.card) { org = f.org_parser.base.content }
  take_part _ f = f.card

  abbrev pub take_entry :
      State → Target DateTime Url → CardFactory DateTime Url → CardFactory DateTime Url
  take_entry at_nowhere t f = record f { state = at_root }
  take_entry s nothing f = record f { state = at_root }
  take_entry (at_entry i) temporary f = record f {
    state = at_root;
    current_string = nothing;
    card = convert i f.tmp_string f.card;
  }
  take_entry s t f = record f { state = at_root; current_string = nothing }

  abbrev pub end_child : Option Part → CardFactory DateTime Url → CardFactory DateTime Url
  end_child (some k) f = record f {
    state = at_root;
    current_parser = none;
    card = take_part f.state f;
  }
  end_child none f = take_entry f.state f.current_string f

  abbrev pub set_target :
      Text → Target DateTime Url → CardFactory DateTime Url → CardFactory DateTime Url
  set_target s nothing f = f
  set_target s temporary f = record f { tmp_string = s }
  set_target s (member m) f = record f { card = m.set s f.card }

  abbrev pub read_text :
      Base64 → Text → Option Part → CardFactory DateTime Url → CardFactory DateTime Url
  read_text b s (some k) f = feed_part b (some k) (text_read s) f
  read_text b s none f = if f.depth == 2 then set_target s f.current_string f else f

  unfoldable pub handle_card :
      Base64 → NsEvent → CardFactory DateTime Url → CardFactory DateTime Url
  handle_card b (opened name uri attributes) f =
      let depth = f.depth + 1 in
      let entered : CardFactory DateTime Url =
        if depth == 1
        then record f { depth = depth; card = no_card; state = at_root }
        else if depth == 2
        then start_child (part_of name) name (record f { depth = depth })
        else record f { depth = depth } in
      feed_part b entered.current_parser (opened name uri attributes) entered
  handle_card b (text_read s) f = read_text b s f.current_parser f
  handle_card b closed f =
      let fed = feed_part b f.current_parser closed f in
      let left = if f.depth == 2 then end_child f.current_parser fed else fed in
      record left { depth = f.depth - 1 }
