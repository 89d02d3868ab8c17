-- ===== src/Vcard/Held.antt =====
-- The parsers of VCardFactory of src/vcardfactory.cpp that read names, telephone numbers, e-mail
-- addresses and postal addresses stand in the factory as the tables say.
use jreen.Base.{[], ◌∷◌, ◌++◌, text_discrete, refl}
use jreen.Prep.{Preps}
use jreen.Vcard.{Name, Telephone, Email, Address}
use jreen.Vcard.Structure.{Base64, Structure}
use jreen.Vcard.Shapes.{name_shape, telephone_shape, email_shape, address_shape}
use jreen.Vcard.Factory.{
  Conversions, name_part, telephone_part, email_part, address_part, CardFactory, part_of, feed_part,
  take_part,
}
use jreen.Vcard.Tables.{shapes-IsTable}
use jreen.Vcard.Parts.{IsHeld}

module _ {DateTime Url : Type 0} where
  abbrev pub with_name : Structure Name → CardFactory DateTime Url → CardFactory DateTime Url
  with_name p f = record f { name_parser = p }

  abbrev pub take_name : Name → CardFactory DateTime Url → CardFactory DateTime Url
  take_name d f = record f { card = record (f.card) { name = d } }

  abbrev pub with_telephone :
      Structure Telephone → CardFactory DateTime Url → CardFactory DateTime Url
  with_telephone p f = record f { telephone_parser = p }

  abbrev pub take_telephone : Telephone → CardFactory DateTime Url → CardFactory DateTime Url
  take_telephone d f = record f {
    card = record (f.card) { telephones = f.card.telephones ++ d ∷ [] };
  }

  abbrev pub with_email : Structure Email → CardFactory DateTime Url → CardFactory DateTime Url
  with_email p f = record f { email_parser = p }

  abbrev pub take_email : Email → CardFactory DateTime Url → CardFactory DateTime Url
  take_email d f = record f { card = record (f.card) { emails = f.card.emails ++ d ∷ [] } }

  abbrev pub with_address : Structure Address → CardFactory DateTime Url → CardFactory DateTime Url
  with_address p f = record f { address_parser = p }

  abbrev pub take_address : Address → CardFactory DateTime Url → CardFactory DateTime Url
  take_address d f = record f { card = record (f.card) { addresses = f.card.addresses ++ d ∷ [] } }

module _ {DateTime Url : Type 0} (q : Conversions DateTime Url) (j : Preps) (b : Base64) where
  pub name-IsHeld : IsHeld q j b name_shape name_part with_name take_name
  unfolding part_of feed_part take_part text_discrete
  name-IsHeld = record {
    table = shapes-IsTable.0;
    named = refl;
    feeds = λ e p f. refl;
    takes = λ d f. refl;
  }

  pub telephone-IsHeld : IsHeld q j b telephone_shape telephone_part with_telephone take_telephone
  unfolding part_of feed_part take_part text_discrete
  telephone-IsHeld = record {
    table = shapes-IsTable.2;
    named = refl;
    feeds = λ e p f. refl;
    takes = λ d f. refl;
  }

  pub email-IsHeld : IsHeld q j b email_shape email_part with_email take_email
  unfolding part_of feed_part take_part text_discrete
  email-IsHeld = record {
    table = shapes-IsTable.3;
    named = refl;
    feeds = λ e p f. refl;
    takes = λ d f. refl;
  }

  pub address-IsHeld : IsHeld q j b address_shape address_part with_address take_address
  unfolding part_of feed_part take_part text_discrete
  address-IsHeld = record {
    table = shapes-IsTable.4;
    named = refl;
    feeds = λ e p f. refl;
    takes = λ d f. refl;
  }
