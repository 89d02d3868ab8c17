-- ===== src/Vcard/Tables.antt =====
-- The tables of the parsers inside a vCard. That of photos has no field for the address of a photo
-- that is stored elsewhere.
use jreen.Base.{refl, text_discrete}
use jreen.Vcard.{Name, Telephone, Email, Address}
use jreen.Vcard.Structure.{find_field, find_bit, mark, reset_fields, reset_flags}
use jreen.Vcard.Shapes.{name_shape, photo_shape, telephone_shape, email_shape, address_shape}
use jreen.Vcard.RoundTrip.{IsTable, Complete}

pub name-IsTable : IsTable name_shape
unfolding find_field find_bit mark reset_fields reset_flags text_discrete
name-IsTable = record {
  strings_found = (refl, (refl, (refl, (refl, (refl, refl)))));
  arrays_found = refl;
  flags_found = refl;
  fresh_strings = λ d e. (refl, (refl, (refl, (refl, (refl, refl)))));
  fresh_arrays = λ d e. refl;
  fresh_flags = λ d e. refl;
}

pub photo-IsTable : IsTable photo_shape
unfolding find_field find_bit mark reset_fields reset_flags text_discrete
photo-IsTable = record {
  strings_found = (refl, refl);
  arrays_found = (refl, refl, refl);
  flags_found = refl;
  fresh_strings = λ d e. (refl, refl);
  fresh_arrays = λ d e. (refl, refl);
  fresh_flags = λ d e. refl;
}

pub telephone-IsTable : IsTable telephone_shape
unfolding find_field find_bit mark reset_fields reset_flags text_discrete
telephone-IsTable = record {
  strings_found = (refl, refl);
  arrays_found = refl;
  flags_found = (
    λ x e. refl,
    λ x y e. refl,
    (
      refl,
      refl,
      λ e. refl,
      (
        refl,
        refl,
        λ e. refl,
        (
          refl,
          refl,
          λ e. refl,
          (
            refl,
            refl,
            λ e. refl,
            (
              refl,
              refl,
              λ e. refl,
              (
                refl,
                refl,
                λ e. refl,
                (
                  refl,
                  refl,
                  λ e. refl,
                  (
                    refl,
                    refl,
                    λ e. refl,
                    (
                      refl,
                      refl,
                      λ e. refl,
                      (
                        refl,
                        refl,
                        λ e. refl,
                        (
                          refl,
                          refl,
                          λ e. refl,
                          (refl, refl, λ e. refl, (refl, refl, λ e. refl, refl)),
                        ),
                      ),
                    ),
                  ),
                ),
              ),
            ),
          ),
        ),
      ),
    ),
    refl,
  );
  fresh_strings = λ d e. (refl, refl);
  fresh_arrays = λ d e. refl;
  fresh_flags = λ d e. (refl, refl);
}

pub email-IsTable : IsTable email_shape
unfolding find_field find_bit mark reset_fields reset_flags text_discrete
email-IsTable = record {
  strings_found = (refl, refl);
  arrays_found = refl;
  flags_found = (
    λ x e. refl,
    λ x y e. refl,
    (
      refl,
      refl,
      λ e. refl,
      (
        refl,
        refl,
        λ e. refl,
        (refl, refl, λ e. refl, (refl, refl, λ e. refl, (refl, refl, λ e. refl, refl))),
      ),
    ),
    refl,
  );
  fresh_strings = λ d e. (refl, refl);
  fresh_arrays = λ d e. refl;
  fresh_flags = λ d e. (refl, refl);
}

pub address-IsTable : IsTable address_shape
unfolding find_field find_bit mark reset_fields reset_flags text_discrete
address-IsTable = record {
  strings_found = (refl, (refl, (refl, (refl, (refl, (refl, (refl, refl)))))));
  arrays_found = refl;
  flags_found = (
    λ x e. refl,
    λ x y e. refl,
    (
      refl,
      refl,
      λ e. refl,
      (
        refl,
        refl,
        λ e. refl,
        (
          refl,
          refl,
          λ e. refl,
          (
            refl,
            refl,
            λ e. refl,
            (refl, refl, λ e. refl, (refl, refl, λ e. refl, (refl, refl, λ e. refl, refl))),
          ),
        ),
      ),
    ),
    refl,
  );
  fresh_strings = λ d e. (refl, (refl, (refl, (refl, (refl, (refl, (refl, refl)))))));
  fresh_arrays = λ d e. refl;
  fresh_flags = λ d e. (refl, refl);
}

-- The parsers of names, photos, telephone numbers, e-mail addresses and postal addresses each have
-- tables that keep their promise: every name leads to its field or its bit, and setting a field
-- leaves the others empty as they are. But for photos, the fields make up the whole struct.
pub shapes-IsTable :
    IsTable name_shape
    × IsTable photo_shape
    × IsTable telephone_shape
    × IsTable email_shape
    × IsTable address_shape
    × ((d e : Name) → Complete name_shape d e)
    × ((d e : Telephone) → Complete telephone_shape d e)
    × ((d e : Email) → Complete email_shape d e)
    × ((d e : Address) → Complete address_shape d e)
unfolding reset_fields reset_flags
shapes-IsTable = (
  name-IsTable,
  photo-IsTable,
  telephone-IsTable,
  email-IsTable,
  address-IsTable,
  λ d e. refl,
  λ d e. refl,
  λ d e. refl,
  λ d e. refl,
)
