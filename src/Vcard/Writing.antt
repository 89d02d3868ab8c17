-- ===== src/Vcard/Writing.antt =====
-- `VCardFactory::serialize` of src/vcardfactory.cpp.
use jreen.Base.{ℕ, suc, List, [], ◌∷◌, if◌then◌else◌, ◌==◌, Text, text}
use jreen.Xml.{NsEvent, opened, closed, given_element}
use jreen.Vcard.{Card}
use jreen.Vcard.Structure.{Base64, Shape, write_structure, ns_vcard}
use jreen.Vcard.Shapes.{
  name_shape, photo_shape, telephone_shape, email_shape, address_shape, write_org,
}
use jreen.Vcard.Factory.{
  Conversions, Target, nothing, temporary, member, CardFactory, targets, entries,
}

module _ {DateTime Url : Type 0} (q : Conversions DateTime Url) where
  -- The text of an entry. A date that is not valid has none, and an empty text is not written.
  unfoldable pub converted : ℕ → Card DateTime Url → Text
  converted i v =
      if i == 1
      then (if q.is_valid v.bday
          then if q.has_time v.bday then q.to_stamp v.bday else q.to_date v.bday
          else [])
      else if i == 3
      then q.to_encoded v.url
      else if i == 4
      then v.jabber_id.full
      else []

  abbrev pub entry_text : ℕ → Target DateTime Url → Card DateTime Url → Text
  entry_text i nothing v = []
  entry_text i temporary v = converted i v
  entry_text i (member m) v = m.get v

  unfoldable pub write_entries :
      ℕ → List Text → List (Target DateTime Url) → Card DateTime Url → List NsEvent → List NsEvent
  write_entries i [] ts v rest = rest
  write_entries i (name ∷ names) [] v rest = rest
  write_entries i (name ∷ names) (t ∷ ts) v rest =
      given_element name ns_vcard (entry_text i t v) (write_entries (suc i) names ts v rest)

-- The parts of which there are several.
unfoldable pub write_all :
    {D : Type 0} → Base64 → Shape D → D → List D → List NsEvent → List NsEvent
write_all b s held [] rest = rest
write_all b s held (d ∷ ds) rest = write_structure b s held d (write_all b s held ds rest)

unfoldable pub write_parts :
    {DateTime Url : Type 0}
    → Base64
    → CardFactory DateTime Url
    → Card DateTime Url
    → List NsEvent
    → List NsEvent
write_parts b f v rest =
    let addresses = write_all b address_shape f.address_parser.content v.addresses rest in
    let emails = write_all b email_shape f.email_parser.content v.emails addresses in
    let telephones = write_all b telephone_shape f.telephone_parser.content v.telephones emails in
    let photo = write_structure b photo_shape f.photo_parser.content v.photo telephones in
    write_structure b name_shape f.name_parser.content v.name photo

unfoldable pub write_card :
    {DateTime Url : Type 0}
    → Conversions DateTime Url
    → Base64
    → CardFactory DateTime Url
    → Card DateTime Url
    → List NsEvent
write_card q b f v =
    opened (text "vCard") ns_vcard []
    ∷ write_entries q 0 entries targets v (write_parts b f v (write_org v.org (closed ∷ [])))
