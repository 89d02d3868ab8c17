-- ===== src/Vcard/Shapes.antt =====
-- The parsers of src/vcardfactory.cpp for the elements inside a vCard, with the tables of their
-- names.
use jreen.Base.{
  Bool, true, false, ◌&&◌, List, [], ◌∷◌, ◌++◌, if◌then◌else◌, ◌==◌, Text, text, text_eq, is_empty,
}
use jreen.Xml.{NsEvent, opened, text_read, closed, given_element}
use jreen.Stanza.Header.{characters}
use jreen.Vcard.{Name, Photo, Telephone, Email, Address, Organization}
use jreen.Vcard.Structure.{Base64, Field, Shape, Structure, handle_structure, ns_vcard}

abbrev pub string_at : {D : Type 0} → Text → (D → Text) → (Text → D → D) → Field D Text
string_at name get set = record { name = name; get = get; set = set }

abbrev pub name_shape : Shape Name
name_shape = record {
  name = text "N";
  strings =
      string_at (text "FAMILY") (λ n. n.family) (λ s n. record n { family = s })
      ∷ string_at (text "GIVEN") (λ n. n.given) (λ s n. record n { given = s })
      ∷ string_at (text "MIDDLE") (λ n. n.middle) (λ s n. record n { middle = s })
      ∷ string_at (text "PREFIX") (λ n. n.prefix) (λ s n. record n { prefix = s })
      ∷ string_at (text "SUFFIX") (λ n. n.suffix) (λ s n. record n { suffix = s })
      ∷ [];
  byte_arrays = [];
  flags = [];
}

-- The loop of the constructor starts at 1 in both tables, where the pointers have the type and the
-- names have EXTVAL.
abbrev pub photo_shape : Shape Photo
photo_shape = record {
  name = text "PHOTO";
  strings = string_at (text "EXTVAL") (λ p. p.mime_type) (λ s p. record p { mime_type = s }) ∷ [];
  byte_arrays =
      record { name = text "BINVAL"; get = λ p. p.binval; set = λ s p. record p { binval = s } }
      ∷ [];
  flags = [];
}

abbrev pub telephone_types : List Text
telephone_types =
    text "HOME"
    ∷ text "WORK"
    ∷ text "VOICE"
    ∷ text "FAX"
    ∷ text "PAGER"
    ∷ text "MSG"
    ∷ text "CELL"
    ∷ text "VIDEO"
    ∷ text "BBS"
    ∷ text "MODEM"
    ∷ text "ISDN"
    ∷ text "PCS"
    ∷ text "PREF"
    ∷ []

abbrev pub telephone_shape : Shape Telephone
telephone_shape = record {
  name = text "TEL";
  strings = string_at (text "NUMBER") (λ t. t.number) (λ s t. record t { number = s }) ∷ [];
  byte_arrays = [];
  flags =
      record { table = telephone_types; get = λ t. t.types; set = λ v t. record t { types = v } }
      ∷ [];
}

abbrev pub email_types : List Text
email_types = text "HOME" ∷ text "WORK" ∷ text "INTERNET" ∷ text "PREF" ∷ text "X400" ∷ []

abbrev pub email_shape : Shape Email
email_shape = record {
  name = text "EMAIL";
  strings = string_at (text "USERID") (λ t. t.user_id) (λ s t. record t { user_id = s }) ∷ [];
  byte_arrays = [];
  flags =
      record { table = email_types; get = λ t. t.types; set = λ v t. record t { types = v } } ∷ [];
}

abbrev pub address_types : List Text
address_types =
    text "HOME"
    ∷ text "WORK"
    ∷ text "POSTAL"
    ∷ text "PARCEL"
    ∷ text "DOM"
    ∷ text "INTL"
    ∷ text "PREF"
    ∷ []

abbrev pub address_shape : Shape Address
address_shape = record {
  name = text "ADR";
  strings =
      string_at (text "POBOX") (λ a. a.pobox) (λ s a. record a { pobox = s })
      ∷ string_at (text "EXTADD") (λ a. a.extended_address)
          (λ s a. record a { extended_address = s })
      ∷ string_at (text "STREET") (λ a. a.street) (λ s a. record a { street = s })
      ∷ string_at (text "LOCALITY") (λ a. a.locality) (λ s a. record a { locality = s })
      ∷ string_at (text "REGION") (λ a. a.region) (λ s a. record a { region = s })
      ∷ string_at (text "PCODE") (λ a. a.pcode) (λ s a. record a { pcode = s })
      ∷ string_at (text "CTRY") (λ a. a.country) (λ s a. record a { country = s })
      ∷ [];
  byte_arrays = [];
  flags =
      record { table = address_types; get = λ a. a.types; set = λ v a. record a { types = v } }
      ∷ [];
}

abbrev pub org_shape : Shape Organization
org_shape = record {
  name = text "ORG";
  strings = string_at (text "ORGNAME") (λ o. o.org_name) (λ s o. record o { org_name = s }) ∷ [];
  byte_arrays = [];
  flags = [];
}

-- `VCardOrgParser`, which has the units of the organization too. Where `at_org_unit` is set, the
-- element that ends at depth two is an ORGUNIT.
pub record OrgParser : Type 0 where
  pub base : Structure Organization
  pub at_org_unit : Bool

abbrev pub org_unit : Text
org_unit = text "ORGUNIT"

abbrev pub no_units : Structure Organization → Structure Organization
no_units p = record p { content = record (p.content) { org_units = [] } }

abbrev pub add_unit : Text → Structure Organization → Structure Organization
add_unit s p = record p {
  content = record (p.content) { org_units = p.content.org_units ++ s ∷ [] };
}

unfoldable pub handle_org : Base64 → NsEvent → OrgParser → OrgParser
handle_org b (opened name uri attributes) p =
    let base = handle_structure b org_shape (opened name uri attributes) p.base in
    record {
      base = if base.depth == 1 then no_units base else base;
      at_org_unit = if base.depth == 2 && text_eq name org_unit then true else p.at_org_unit;
    }
handle_org b (text_read s) p =
    if p.at_org_unit
    then record p { base = add_unit s p.base }
    else record p { base = handle_structure b org_shape (text_read s) p.base }
handle_org b closed p = record {
  base = handle_structure b org_shape closed p.base;
  at_org_unit = if p.base.depth == 2 then false else p.at_org_unit;
}

unfoldable pub write_units : List Text → List NsEvent → List NsEvent
write_units [] rest = rest
write_units (s ∷ units) rest =
    opened org_unit ns_vcard [] ∷ characters s (closed ∷ write_units units rest)

unfoldable pub write_org : Organization → List NsEvent → List NsEvent
write_org o rest =
    if is_empty o.org_name && is_empty o.org_units
    then rest
    else (opened (text "ORG") ns_vcard []
        ∷ given_element (text "ORGNAME") ns_vcard o.org_name
            (write_units o.org_units (closed ∷ rest)))
