-- ===== src/Vcard.antt =====
-- src/vcard_p.h and src/vcard.cpp: vCards with their names, photos, telephone numbers, addresses and
-- organizations.
pub mod Structure
pub mod Shapes
pub mod Factory
pub mod Writing
pub mod Bits
pub mod RoundTrip
pub mod Tables
pub mod Units
pub mod Inside
pub mod Events
pub mod Parts
pub mod Held
pub mod Middle
use jreen.Base.{
  ℕ, ◌+◌, ◌-◌, ◌*◌, ◌/◌, ◌%◌, ◌^◌, Bool, true, false, not, List, [], if◌then◌else◌, ◌==◌, Text,
}
use jreen.Jid.{JidData}

-- `(value & (1 << j)) != 0`, `value |= 1 << j` and `value ^= 1 << j` for the bits of a set of types.
abbrev pub has_bit : ℕ → ℕ → Bool
has_bit value j = (value / 2 ^ j) % 2 == 1

abbrev pub with_bit : ℕ → ℕ → ℕ
with_bit value j = if has_bit value j then value else value + 2 ^ j

abbrev pub flip_bit : ℕ → ℕ → ℕ
flip_bit value j = if has_bit value j then value - 2 ^ j else value + 2 ^ j

-- `setType`: the mask of a type is one bit.
abbrev pub set_type : ℕ → Bool → ℕ → ℕ
set_type j value types =
    if has_bit types j
    then (if value then types else flip_bit types j)
    else (if value then flip_bit types j else types)

pub record Name : Type 0 where
  pub family : Text
  pub given : Text
  pub middle : Text
  pub prefix : Text
  pub suffix : Text

-- The data of a photo are bytes.
pub record Photo : Type 0 where
  pub extval : Text
  pub binval : List ℕ
  pub mime_type : Text

pub record Telephone : Type 0 where
  pub types : ℕ
  pub number : Text

pub record Email : Type 0 where
  pub types : ℕ
  pub user_id : Text

pub record Address : Type 0 where
  pub types : ℕ
  pub pobox : Text
  pub extended_address : Text
  pub street : Text
  pub locality : Text
  pub region : Text
  pub pcode : Text
  pub country : Text

pub record Organization : Type 0 where
  pub org_name : Text
  pub org_units : List Text

-- The date and the address of a page are Qt's. The classification, which the factory neither reads
-- nor writes, is left out.
pub record Card (DateTime Url : Type 0) : Type 0 where
  pub formatted_name : Text
  pub nickname : Text
  pub bday : DateTime
  pub url : Url
  pub jabber_id : JidData
  pub title : Text
  pub role : Text
  pub note : Text
  pub description : Text
  pub mailer : Text
  pub time_zone : Text
  pub product_id : Text
  pub revision : Text
  pub sort_string : Text
  pub user_id : Text
  pub name : Name
  pub photo : Photo
  pub org : Organization
  pub telephones : List Telephone
  pub emails : List Email
  pub addresses : List Address

abbrev pub no_name : Name
no_name = record { family = []; given = []; middle = []; prefix = []; suffix = [] }

abbrev pub no_photo : Photo
no_photo = record { extval = []; binval = []; mime_type = [] }

abbrev pub no_telephone : Telephone
no_telephone = record { types = 0; number = [] }

abbrev pub no_email : Email
no_email = record { types = 0; user_id = [] }

abbrev pub no_address : Address
no_address = record {
  types = 0;
  pobox = [];
  extended_address = [];
  street = [];
  locality = [];
  region = [];
  pcode = [];
  country = [];
}

abbrev pub no_organization : Organization
no_organization = record { org_name = []; org_units = [] }

-- `Photo::setData`, `Photo::setExtval`
unfoldable pub set_data : List ℕ → Text → Photo → Photo
set_data bytes mime_type p = record { binval = bytes; mime_type = mime_type; extval = [] }

unfoldable pub set_external : Text → Photo → Photo
set_external extval p = record { extval = extval; binval = []; mime_type = [] }
