-- ===== src/Form/Payload.antt =====
-- src/dataformfactory.cpp: the parser of a form. Where a member has no value before the first form,
-- the value is a parameter of `new_factory`.
use jreen.Base.{
  ℕ, ◌+◌, ◌-◌, Bool, true, false, none, List, [], ◌∷◌, ◌++◌, if◌then◌else◌, ◌==◌, Text, text,
  text_eq, Hash,
}
use jreen.Xml.{NsEvent, opened, text_read, closed, value}
use jreen.Form.{invalid_type, FormType, invalid_form, Field, DataForm, form_type_of}
use jreen.Form.Parsers.{
  FieldParser, at_nowhere, field_start, field_end, field_text, created, cleared, idle_option,
  idle_media,
}

pub data FormState : Type 0 where
  nowhere at_title at_instruction at_field : FormState

pub record Factory : Type 0 where
  pub depth : ℕ
  pub state : FormState
  pub title : Text
  pub instruction : Text
  pub fields : List Field
  pub kind : FormType
  pub field : FieldParser

abbrev pub is_field : FormState → Bool
is_field at_field = true
is_field _ = false

abbrev form_child : Text → FormState
form_child name =
    if text_eq name (text "field")
    then at_field
    else if text_eq name (text "title")
    then at_title
    else if text_eq name (text "instructions")
    then at_instruction
    else nowhere

abbrev pass_field : Text → Text → Hash Text → Factory → Factory
pass_field name uri attributes f =
    if is_field f.state then record f { field = field_start name uri attributes f.field } else f

-- `DataFormFactory::handleStartElement`
unfoldable pub handle_start : Text → Text → Hash Text → Factory → Factory
unfolding field_start form_type_of
handle_start name uri attributes f =
    let depth = f.depth + 1 in
    if depth == 1
    then pass_field name uri attributes
        (record f { depth = depth; kind = form_type_of (value (text "type") attributes) })
    else if depth == 2
    then pass_field name uri attributes (record f { depth = depth; state = form_child name })
    else pass_field name uri attributes (record f { depth = depth })

-- `handleEndElement`
unfoldable pub handle_end : Factory → Factory
unfolding field_end
handle_end f =
    if is_field f.state
    then (let p = field_end f.field in
        if f.depth == 2
        then record f {
          depth = f.depth - 1;
          state = nowhere;
          field = cleared p;
          fields = f.fields ++ created p ∷ [];
        }
        else record f { depth = f.depth - 1; field = p })
    else if f.depth == 2
    then record f { depth = f.depth - 1; state = nowhere }
    else record f { depth = f.depth - 1 }

abbrev pass_form_text : FormState → Text → Factory → Factory
pass_form_text at_title s f = record f { title = s }
pass_form_text at_instruction s f = record f { instruction = s }
pass_form_text at_field s f = record f { field = field_text s f.field }
pass_form_text nowhere s f = f

-- `handleCharacterData`
unfoldable pub handle_text : Text → Factory → Factory
unfolding field_text
handle_text s f = pass_form_text f.state s f

-- `createPayload`, with what it leaves in the factory.
unfoldable pub create_payload : Factory → DataForm × Factory
create_payload f = (
  record { kind = f.kind; title = f.title; instructions = f.instruction; fields = f.fields },
  record f { title = []; instruction = []; fields = []; kind = invalid_form },
)

-- The constructors set neither the state of the factory nor whether a field is required, nor the
-- type of a field, which is read only after it has been set.
abbrev pub new_factory : FormState → Bool → Factory
new_factory stray_state stray_required = record {
  depth = 0;
  state = stray_state;
  title = [];
  instruction = [];
  fields = [];
  kind = invalid_form;
  field = record {
    state = at_nowhere;
    depth = 0;
    kind = invalid_type;
    label = [];
    var = [];
    values = [];
    options = [];
    required = stray_required;
    media = none;
    option = idle_option;
    medium = idle_media;
  };
}

unfoldable pub handle_event : NsEvent → Factory → Factory
unfolding handle_start handle_end handle_text
handle_event (opened name uri attributes) f = handle_start name uri attributes f
handle_event (text_read s) f = handle_text s f
handle_event closed f = handle_end f

unfoldable pub feed : List NsEvent → Factory → Factory
feed [] f = f
feed (e ∷ es) f = feed es (handle_event e f)
