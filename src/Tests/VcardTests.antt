-- ===== src/Tests/VcardTests.antt =====
-- vCards: a telephone number that is written and read, parts that are, and what becomes of photos.
use jreen.Base.{true, false, not, none, is_empty, [], ◌∷◌, Text, text, ◌≡◌, refl, arith}
use jreen.Prep.{Preps, preps_of}
use jreen.Vcard.{
  Card, Organization, Telephone, no_telephone, no_photo, no_name, no_email, no_address,
  no_organization, set_type, set_external,
}
use jreen.Vcard.Structure.{Base64, has_field, has_flag, write_structure}
use jreen.Vcard.Shapes.{telephone_shape, photo_shape, write_org}
use jreen.Vcard.RoundTrip.{feed, at_depth, feed-write_structure}
use jreen.Vcard.Units.{feed_org, outside, feed_org-write_org}
use jreen.Vcard.Tables.{shapes-IsTable}
use jreen.Vcard.Factory.{Conversions, CardFactory, at_root, nothing, no_card}
use jreen.Vcard.Writing.{write_parts}
use jreen.Vcard.Inside.{feed_card}
use jreen.Vcard.Parts.{idle, last}
use jreen.Vcard.Middle.{parsers, with_parts, feed_card-write_parts}

-- A base64 that leaves bytes as they are.
abbrev plain : Base64
plain = record { to_base64 = λ v. v; from_base64 = λ s. s }

-- A telephone number for voice at work.
abbrev office : Telephone
office = record { types = set_type 1 true (set_type 2 true 0); number = text "5550123" }

office_types : office.types ≡ 6
office_types = refl

feed-write_structure_example :
    feed plain telephone_shape
      (write_structure plain telephone_shape no_telephone office [])
      (at_depth 0 no_telephone)
    ≡ at_depth 0 office
unfolding has_field
feed-write_structure_example =
    feed-write_structure telephone_shape plain no_telephone no_telephone office shapes-IsTable.2
      (λ v. refl) (shapes-IsTable.6 office no_telephone) (omega arith, refl) refl

-- The address of a photo is neither written nor read.
photo_example :
    write_structure plain photo_shape no_photo (set_external (text "http://x.org") no_photo) [] ≡ []
unfolding write_structure has_field has_flag set_external
photo_example = refl

-- Types alone are not written by a parser that has not read any.
types_example :
    write_structure plain telephone_shape no_telephone (record office { number = [] }) [] ≡ []
unfolding write_structure has_field has_flag
types_example = refl

-- A factory for vCards whose dates and addresses of pages are texts.
abbrev as_texts : Conversions Text Text
as_texts = record {
  no_date = [];
  from_stamp = λ s. s;
  is_valid = λ s. not (is_empty s);
  has_time = λ s. false;
  to_date = λ s. s;
  to_stamp = λ s. s;
  no_url = [];
  from_user_input = λ s. s;
  to_encoded = λ s. s;
}

abbrev as_is : Preps
as_is = preps_of (record { to_lower = λ s. s; idn = none })

abbrev bare_factory : CardFactory Text Text
bare_factory = record {
  depth = 1;
  state = at_root;
  card = no_card as_texts as_is;
  name_parser = at_depth 0 no_name;
  photo_parser = at_depth 0 no_photo;
  telephone_parser = at_depth 0 no_telephone;
  email_parser = at_depth 0 no_email;
  address_parser = at_depth 0 no_address;
  org_parser = record { base = at_depth 0 no_organization; at_org_unit = false };
  current_parser = none;
  current_string = nothing;
  tmp_string = [];
}

abbrev ann : Card Text Text
ann = record (no_card as_texts as_is) {
  name = record no_name { given = text "Ann" };
  telephones = office ∷ record office { number = text "5550124" } ∷ [];
  emails = record no_email { user_id = text "ann@example.org" } ∷ [];
}

feed_card-write_parts_example :
    feed_card as_texts as_is plain
      (write_parts plain bare_factory ann [])
      (idle (parsers no_name no_telephone no_email no_address bare_factory))
    ≡ feed_card as_texts as_is plain [] (
        idle (
          parsers ann.name
            (last no_telephone ann.telephones)
            (last no_email ann.emails)
            (last no_address ann.addresses)
            (with_parts ann bare_factory)))
unfolding has_field has_flag
feed_card-write_parts_example =
    feed_card-write_parts as_texts as_is plain bare_factory bare_factory ann no_name no_telephone
      no_email no_address [] (λ x. refl) refl refl
      (((omega arith, refl), refl), (((omega arith, refl), refl), refl))
      (((omega arith, refl), refl), refl) refl

abbrev club : Organization
club = record { org_name = text "Chess"; org_units = text "A" ∷ text "B" ∷ [] }

feed_org-write_org_example :
    feed_org plain (write_org club []) (outside no_organization) ≡ outside club
feed_org-write_org_example = feed_org-write_org plain club no_organization (refl, (refl, refl)) refl
