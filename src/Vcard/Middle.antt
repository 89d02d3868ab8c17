-- ===== src/Vcard/Middle.antt =====
-- The names, telephone numbers and addresses of a vCard without a photo, as VCardFactory::serialize
-- of src/vcardfactory.cpp writes them between its texts and its organization, are read back.
use jreen.Base.{
  ℕ, text, true, false, List, [], ◌∷◌, ◌++◌, append_assoc, append-nil, if◌then◌else◌, ◌≡◌, refl,
  sym, ap, ◌∙◌,
}
use jreen.Prep.{Preps}
use jreen.Xml.{NsEvent, opened, closed}
use jreen.Vcard.{Card, Name, Photo, Telephone, Email, Address}
use jreen.Vcard.Structure.{
  Base64, write_structure, has_any_child, write_strings, write_arrays, write_flags, ns_vcard,
}
use jreen.Vcard.Shapes.{name_shape, photo_shape, telephone_shape, email_shape, address_shape}
use jreen.Vcard.Factory.{
  Conversions, name_part, telephone_part, email_part, address_part, CardFactory,
}
use jreen.Vcard.Writing.{write_all, write_parts}
use jreen.Vcard.RoundTrip.{at_depth}
use jreen.Vcard.Tables.{shapes-IsTable}
use jreen.Vcard.Inside.{feed_card}
use jreen.Vcard.Parts.{idle, read_part, read_all, AllGood, last, taken_all}
use jreen.Vcard.Held.{
  with_name, with_telephone, with_email, with_address, take_name, take_telephone, take_email,
  take_address, name-IsHeld, telephone-IsHeld, email-IsHeld, address-IsHeld,
}

module _ {DateTime Url : Type 0} where
  abbrev set_telephones : List Telephone → CardFactory DateTime Url → CardFactory DateTime Url
  set_telephones ds f = record f { card = record (f.card) { telephones = ds } }

  telephones_taken :
      (ds : List Telephone) (f : CardFactory DateTime Url)
      → taken_all take_telephone ds f ≡ set_telephones (f.card.telephones ++ ds) f
  telephones_taken [] f = ap (λ z. set_telephones z f) (sym (append-nil f.card.telephones))
  telephones_taken (d ∷ ds) f =
      telephones_taken ds (take_telephone d f)
      ∙ ap (λ z. set_telephones z f) (append_assoc f.card.telephones (d ∷ []) ds)

  abbrev set_emails : List Email → CardFactory DateTime Url → CardFactory DateTime Url
  set_emails ds f = record f { card = record (f.card) { emails = ds } }

  emails_taken :
      (ds : List Email) (f : CardFactory DateTime Url)
      → taken_all take_email ds f ≡ set_emails (f.card.emails ++ ds) f
  emails_taken [] f = ap (λ z. set_emails z f) (sym (append-nil f.card.emails))
  emails_taken (d ∷ ds) f =
      emails_taken ds (take_email d f)
      ∙ ap (λ z. set_emails z f) (append_assoc f.card.emails (d ∷ []) ds)

  abbrev set_addresses : List Address → CardFactory DateTime Url → CardFactory DateTime Url
  set_addresses ds f = record f { card = record (f.card) { addresses = ds } }

  addresses_taken :
      (ds : List Address) (f : CardFactory DateTime Url)
      → taken_all take_address ds f ≡ set_addresses (f.card.addresses ++ ds) f
  addresses_taken [] f = ap (λ z. set_addresses z f) (sym (append-nil f.card.addresses))
  addresses_taken (d ∷ ds) f =
      addresses_taken ds (take_address d f)
      ∙ ap (λ z. set_addresses z f) (append_assoc f.card.addresses (d ∷ []) ds)

  -- A factory whose parsers of parts are outside their elements.
  abbrev pub parsers :
      Name → Telephone → Email → Address → CardFactory DateTime Url → CardFactory DateTime Url
  parsers n t e a f =
      with_name (at_depth 0 n)
        (with_telephone (at_depth 0 t) (with_email (at_depth 0 e) (with_address (at_depth 0 a) f)))

  -- The vCard of `f` with the parts of `v`.
  abbrev pub with_parts : Card DateTime Url → CardFactory DateTime Url → CardFactory DateTime Url
  with_parts v f = record f {
    card = record (f.card) {
      name = v.name;
      telephones = f.card.telephones ++ v.telephones;
      emails = f.card.emails ++ v.emails;
      addresses = f.card.addresses ++ v.addresses;
    };
  }

module _ {DateTime Url : Type 0} (q : Conversions DateTime Url) (j : Preps) (b : Base64) where
  photo_skipped :
      (held d : Photo) (rest : List NsEvent)
      → has_any_child photo_shape held d ≡ false
      → write_structure b photo_shape held d rest ≡ rest
  unfolding write_structure write_flags
  photo_skipped held d rest none_given =
      ap
        (λ z.
          if z
          then (opened (text "PHOTO") ns_vcard []
              ∷ write_strings photo_shape.strings d
                  (write_arrays b photo_shape.byte_arrays d (closed ∷ rest)))
          else rest)
        none_given

  -- From a factory that is at the root of a vCard, with any earlier content in its parsers, what a
  -- factory `w` writes of the name, the telephone numbers and the addresses of `v` is read back in
  -- their order, after what was there, up to the rest of the events. The photo of `v` has nothing to
  -- be written, its name has, and so has each part, whose types have no bit that has no name; base64
  -- is decoded as it was encoded.
  pub feed_card-write_parts :
      (w f : CardFactory DateTime Url) (v : Card DateTime Url) (n : Name) (t : Telephone)
      (e : Email) (a : Address) (rest : List NsEvent)
      → ((x : List ℕ) → b.from_base64 (b.to_base64 x) ≡ x)
      → has_any_child name_shape w.name_parser.content v.name ≡ true
      → has_any_child photo_shape w.photo_parser.content v.photo ≡ false
      → AllGood telephone_shape w.telephone_parser.content v.telephones
      → AllGood email_shape w.email_parser.content v.emails
      → AllGood address_shape w.address_parser.content v.addresses
      → feed_card q j b (write_parts b w v rest) (idle (parsers n t e a f))
        ≡ feed_card q j b rest (
            idle (
              parsers v.name
                (last t v.telephones)
                (last e v.emails)
                (last a v.addresses)
                (with_parts v f)))
  unfolding write_parts
  feed_card-write_parts w f v n t e a rest decodes has_name no_photo phones mails places =
      let addresses = write_all b address_shape w.address_parser.content v.addresses rest in
      let emails = write_all b email_shape w.email_parser.content v.emails addresses in
      let telephones = write_all b telephone_shape w.telephone_parser.content v.telephones emails in
      let photo = write_structure b photo_shape w.photo_parser.content v.photo telephones in
      let t' = last t v.telephones in
      let e' = last e v.emails in
      let a' = last a v.addresses in
      let f1 = take_name v.name f in
      let f2 = set_telephones (f.card.telephones ++ v.telephones) f1 in
      let f3 = set_emails (f.card.emails ++ v.emails) f2 in
      let phones_done = telephones_taken v.telephones (parsers v.name t e a f1) in
      let mails_done = emails_taken v.emails (parsers v.name t' e a f2) in
      let places_done = addresses_taken v.addresses (parsers v.name t' e' a f3) in
      read_part q j b name_shape name_part with_name take_name (name-IsHeld q j b) decodes
        w.name_parser.content n v.name photo (parsers n t e a f) (shapes-IsTable.5 v.name n) refl
        has_name
      ∙ ap (λ z. feed_card q j b z (idle (parsers v.name t e a f1)))
          (photo_skipped w.photo_parser.content v.photo telephones no_photo)
      ∙ read_all q j b telephone_shape telephone_part with_telephone take_telephone
          (telephone-IsHeld q j b) decodes w.telephone_parser.content t v.telephones emails
          (parsers v.name t e a f1) shapes-IsTable.6 phones
      ∙ ap (λ z. feed_card q j b emails (idle (with_telephone (at_depth 0 t') z))) phones_done
      ∙ read_all q j b email_shape email_part with_email take_email (email-IsHeld q j b) decodes
          w.email_parser.content e v.emails addresses (parsers v.name t' e a f2) shapes-IsTable.7
          mails
      ∙ ap (λ z. feed_card q j b addresses (idle (with_email (at_depth 0 e') z))) mails_done
      ∙ read_all q j b address_shape address_part with_address take_address (address-IsHeld q j b)
          decodes w.address_parser.content a v.addresses rest (parsers v.name t' e' a f3)
          shapes-IsTable.8 places
      ∙ ap (λ z. feed_card q j b rest (idle (with_address (at_depth 0 a') z))) places_done
