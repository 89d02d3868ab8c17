-- ===== src/Form.antt =====
-- src/dataformfactory.cpp with the data of src/dataform_p.h: data forms as XML. A URL is the text
-- that it was made of. Here are the data and the names of its types.
pub mod Checks
pub mod Fields
pub mod Names
pub mod Parsers
pub mod Payload
pub mod Writing
pub mod RoundTrip
pub mod Whole
use jreen.Base.{
  ℕ, ◌+◌, ◌-◌, Bool, true, false, ◌&&◌, Option, none, some, List, [], ◌∷◌, ◌++◌, if◌then◌else◌,
  ◌==◌, Text, text, text_eq, is_empty, Hash,
}

-- `DataFormField::Type`
pub data FieldType : Type 0 where
  boolean fixed hidden jid_multi jid_single list_multi list_single : FieldType
  text_multi text_private text_single no_type invalid_type : FieldType

-- `DataForm::Type`; `unknown` is the -1 of `strToEnum`, which is none of its values.
pub data FormType : Type 0 where
  form submit cancel result invalid_form unknown : FormType

-- A URI of a medium: its type and its URL.
abbrev pub Uri : Type 0
Uri = Text × Text

pub record Field : Type 0 where
  pub kind : FieldType
  pub var : Text
  pub desc : Text
  pub label : Text
  pub values : List Text
  pub required : Bool
  pub options : List (Text × Text)
  pub media : Option (List Uri)

pub record DataForm : Type 0 where
  pub kind : FormType
  pub title : Text
  pub instructions : Text
  pub fields : List Field

-- `enumToStr` and `strToEnum` with `datafield_types`
unfoldable pub field_type_text : FieldType → Text
field_type_text boolean = text "boolean"
field_type_text fixed = text "fixed"
field_type_text hidden = text "hidden"
field_type_text jid_multi = text "jid-multi"
field_type_text jid_single = text "jid-single"
field_type_text list_multi = text "list-multi"
field_type_text list_single = text "list-single"
field_type_text text_multi = text "text-multi"
field_type_text text_private = text "text-private"
field_type_text text_single = text "text-single"
field_type_text _ = []

abbrev first_named : List (Text × FieldType) → Text → FieldType
first_named [] s = invalid_type
first_named ((name, t) ∷ ts) s = if text_eq name s then t else first_named ts s

unfoldable pub field_type_of : Text → FieldType
field_type_of s =
    first_named
      ((text "boolean", boolean)
        ∷ (text "fixed", fixed)
        ∷ (text "hidden", hidden)
        ∷ (text "jid-multi", jid_multi)
        ∷ (text "jid-single", jid_single)
        ∷ (text "list-multi", list_multi)
        ∷ (text "list-single", list_single)
        ∷ (text "text-multi", text_multi)
        ∷ (text "text-private", text_private)
        ∷ (text "text-single", text_single)
        ∷ ([], no_type)
        ∷ [])
      s

-- The same with `dataform_types`
unfoldable pub form_type_text : FormType → Text
form_type_text form = text "form"
form_type_text submit = text "submit"
form_type_text cancel = text "cancel"
form_type_text result = text "result"
form_type_text _ = []

unfoldable pub form_type_of : Text → FormType
form_type_of s =
    if text_eq (text "form") s
    then form
    else if text_eq (text "submit") s
    then submit
    else if text_eq (text "cancel") s
    then cancel
    else if text_eq (text "result") s
    then result
    else unknown

abbrev pub ns_dataform : Text
ns_dataform = text "jabber:x:data"
