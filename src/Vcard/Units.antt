-- ===== src/Vcard/Units.antt =====
-- The parser of organizations, VCardOrgParser of src/vcardfactory.cpp, reads what it writes.
use jreen.Base.{
  true, false, ◌&&◌, List, [], ◌∷◌, ◌++◌, append-nil, append_assoc, sym, arith, if◌then◌else◌, Text,
  text, text_discrete, is_empty, ◌≡◌, refl, ap, ◌∙◌,
}
use jreen.Xml.{NsEvent, opened, closed, given_element}
use jreen.Vcard.{Organization}
use jreen.Vcard.Structure.{
  Base64, handle_structure, find_field, mark, reset_fields, reset_flags, ns_vcard,
}
use jreen.Vcard.Shapes.{OrgParser, handle_org, write_units, write_org}
use jreen.Vcard.RoundTrip.{at_depth}

unfoldable pub feed_org : Base64 → List NsEvent → OrgParser → OrgParser
feed_org b [] p = p
feed_org b (e ∷ es) p = feed_org b es (handle_org b e p)

-- No unit is the empty text, which would be written as an element without a text.
abbrev pub NoneEmpty : List Text → Type 0
NoneEmpty [] = true ≡ true
NoneEmpty (s ∷ units) = (is_empty s ≡ false) × NoneEmpty units

abbrev pub outside : Organization → OrgParser
outside o = record { base = at_depth 0 o; at_org_unit = false }

module _ (b : Base64) where
  abbrev inside : Text → List Text → OrgParser
  inside name units = record {
    base = at_depth 1 (record { org_name = name; org_units = units });
    at_org_unit = false;
  }

  read_units :
      (name : Text) (before units : List Text)
      → NoneEmpty units
      → feed_org b (write_units units (closed ∷ [])) (inside name before)
        ≡ outside (record { org_name = name; org_units = before ++ units })
  unfolding feed_org handle_org handle_structure write_units find_field mark text_discrete
  read_units name before [] given =
      ap (λ z. outside (record { org_name = name; org_units = z })) (sym (append-nil before))
  read_units name before ([] ∷ units) given = ground (arith, given)
  read_units name before ((c ∷ s) ∷ units) given =
      read_units name (before ++ (c ∷ s) ∷ []) units given.1
      ∙ ap (λ z. outside (record { org_name = name; org_units = z }))
          (append_assoc before ((c ∷ s) ∷ []) units)

  read_name :
      (name : Text) (rest : List NsEvent)
      → feed_org b (given_element (text "ORGNAME") ns_vcard name rest) (inside [] [])
        ≡ feed_org b rest (inside name [])
  unfolding feed_org handle_org handle_structure find_field mark text_discrete
  read_name [] rest = refl
  read_name (c ∷ s) rest = refl

  -- The parser of organizations, whatever it has read before, reads back an organization that has a
  -- name or a unit and no unit that is the empty text, and ends outside its element.
  pub feed_org-write_org :
      (o before : Organization)
      → NoneEmpty o.org_units
      → is_empty o.org_name && is_empty o.org_units ≡ false
      → feed_org b (write_org o []) (outside before) ≡ outside o
  unfolding feed_org handle_org handle_structure write_org reset_fields reset_flags
  feed_org-write_org o before given child =
      let units = write_units o.org_units (closed ∷ []) in
      let events = given_element (text "ORGNAME") ns_vcard o.org_name units in
      ap
        (λ z.
          feed_org b (if z then [] else opened (text "ORG") ns_vcard [] ∷ events) (outside before))
        child
      ∙ read_name o.org_name units
      ∙ read_units o.org_name [] o.org_units given
