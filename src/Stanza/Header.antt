-- ===== src/Stanza/Header.antt =====
-- src/stanzafactory.cpp: the attributes that all stanzas share, and texts in several languages.
use jreen.Base.{◌++◌, none, List, [], ◌∷◌, Text, text, text_discrete, Hash, get, ◌≡◌, refl, ap, ◌∙◌}
use jreen.Prep.{Preps}
use jreen.Jid.{JidData, set_jid, empty_jid}
use jreen.Jid.Attributes.{
  read_jid, valid_attribute, jid_after, get-valid_attribute_other, IsRead, valid_attribute-read,
}
use jreen.Xml.{
  NsEvent, opened, text_read, closed, given, get-given_other, value-given_self, or_empty,
}
use jreen.Xml
use jreen.LangMap.{LangMap, value}

abbrev pub ns_client : Text
ns_client = text "jabber:client"

-- `writeAttributes`, before the other attributes
unfoldable pub header : JidData → JidData → Text → Hash Text → Hash Text
header from to id rest =
    valid_attribute (text "from") from (valid_attribute (text "to") to (given (text "id") id rest))

-- What `writeCharacters` leaves of a text.
abbrev pub characters : Text → List NsEvent → List NsEvent
characters [] rest = rest
characters (c ∷ s) rest = text_read (c ∷ s) ∷ rest

-- `writeLangMap`
unfoldable pub write_langs : Text → LangMap → List Text → List NsEvent → List NsEvent
write_langs tag m [] rest = rest
write_langs tag m (lang ∷ ls) rest =
    opened tag ns_client (given (text "xml:lang") lang [])
    ∷ characters (value lang m) (closed ∷ write_langs tag m ls rest)

-- What the attributes of a stanza read as; only the type is among those after the header.
pub record Reads (p : Preps) (from to : JidData) (id t : Text) (attributes : Hash Text)
    : Type 0 where
  pub from_right : read_jid p (text "from") attributes ≡ jid_after from
  pub to_right : read_jid p (text "to") attributes ≡ jid_after to
  pub id_right : Xml.value (text "id") attributes ≡ id
  pub type_right : Xml.value (text "type") attributes ≡ t

pub header-Reads :
    (p : Preps) (from to : JidData) (id t : Text)
    → IsRead p from
    → IsRead p to
    → Reads p from to id t (header from to id (given (text "type") t []))
unfolding header text_discrete get
header-Reads p from to id t f g =
    let typ = given (text "type") t [] in
    let ids = given (text "id") id typ in
    let tos = valid_attribute (text "to") to ids in
    let no_id : get (text "id") typ ≡ none = get-given_other (text "id") (text "type") t [] refl in
    let no_to : get (text "to") ids ≡ none =
      get-given_other (text "to") (text "id") id typ refl
      ∙ get-given_other (text "to") (text "type") t [] refl in
    let no_from : get (text "from") tos ≡ none =
      get-valid_attribute_other (text "from") (text "to") to ids refl
      ∙ get-given_other (text "from") (text "id") id typ refl
      ∙ get-given_other (text "from") (text "type") t [] refl in
    record {
      from_right = valid_attribute-read p (text "from") from tos f no_from;
      to_right =
          ap (λ z. (set_jid p empty_jid (or_empty z)).1)
            (get-valid_attribute_other (text "to") (text "from") from tos refl)
          ∙ valid_attribute-read p (text "to") to ids g no_to;
      id_right =
          ap or_empty (
            get-valid_attribute_other (text "id") (text "from") from tos refl
            ∙ get-valid_attribute_other (text "id") (text "to") to ids refl)
          ∙ value-given_self (text "id") id typ no_id;
      type_right =
          ap or_empty (
            get-valid_attribute_other (text "type") (text "from") from tos refl
            ∙ get-valid_attribute_other (text "type") (text "to") to ids refl
            ∙ get-given_other (text "type") (text "id") id typ refl)
          ∙ value-given_self (text "type") t [] refl;
    }

pub write_langs-append :
    (tag : Text) (all : LangMap) (ls ms : List Text) (rest : List NsEvent)
    → write_langs tag all (ls ++ ms) rest ≡ write_langs tag all ls (write_langs tag all ms rest)
unfolding write_langs
write_langs-append tag all [] ms rest = refl
write_langs-append tag all (l ∷ ls) ms rest =
    ap
      (λ z.
        opened tag ns_client (given (text "xml:lang") l []) ∷ characters (value l all) (closed ∷ z))
      (write_langs-append tag all ls ms rest)
