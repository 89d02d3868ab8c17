-- ===== src/Form/Parsers.antt =====
-- src/dataformfactory.cpp: the parsers of an option, of a medium and of a field.
use jreen.Base.{
  leb, ℕ, ◌+◌, ◌-◌, Bool, true, false, ◌&&◌, Option, none, some, List, [], ◌∷◌, ◌++◌, if◌then◌else◌,
  ◌==◌, Text, text, text_eq, Hash,
}
use jreen.Xml.{value}
use jreen.Form.{FieldType, invalid_type, Uri, Field, field_type_of}

pub record OptionParser : Type 0 where
  pub depth : ℕ
  pub at_value : Bool
  pub label : Text
  pub value : Text

unfoldable pub option_start : Text → Hash Text → OptionParser → OptionParser
option_start name attributes o =
    let depth = o.depth + 1 in
    if depth == 1
    then record o { depth = depth; value = []; label = value (text "label") attributes }
    else if depth == 2 && text_eq name (text "value")
    then record o { depth = depth; at_value = true }
    else record o { depth = depth }

unfoldable pub option_end : OptionParser → OptionParser
option_end o = record o {
  at_value = if o.depth == 2 then false else o.at_value;
  depth = o.depth - 1;
}

unfoldable pub option_text : Text → OptionParser → OptionParser
option_text s o = if o.depth == 2 && o.at_value then record o { value = s } else o

pub record MediaParser : Type 0 where
  pub depth : ℕ
  pub at_uri : Bool
  pub uri_type : Text
  pub media : Option (List Uri)

unfoldable pub media_start : Text → Hash Text → MediaParser → MediaParser
media_start name attributes m =
    let depth = m.depth + 1 in
    if depth == 1
    then record m { depth = depth; at_uri = false; media = some [] }
    else if depth == 2 && text_eq name (text "uri")
    then record m { depth = depth; at_uri = true; uri_type = value (text "type") attributes }
    else record m { depth = depth }

unfoldable pub media_end : MediaParser → MediaParser
media_end m = record m { at_uri = if m.depth == 2 then false else m.at_uri; depth = m.depth - 1 }

-- `m_media->appendUri`; the pointer is set since the element of depth 1 began.
abbrev append_uri : Uri → Option (List Uri) → Option (List Uri)
append_uri u none = none
append_uri u (some us) = some (us ++ u ∷ [])

unfoldable pub media_text : Text → MediaParser → MediaParser
media_text s m =
    if m.depth == 2 && m.at_uri then record m { media = append_uri (m.uri_type, s) m.media } else m

pub data FieldState : Type 0 where
  at_value at_option at_required at_media at_nowhere : FieldState

pub record FieldParser : Type 0 where
  pub state : FieldState
  pub depth : ℕ
  pub kind : FieldType
  pub label : Text
  pub var : Text
  pub values : List Text
  pub options : List (Text × Text)
  pub required : Bool
  pub media : Option (List Uri)
  pub option : OptionParser
  pub medium : MediaParser

abbrev ns_media : Text
ns_media = text "urn:xmpp:media-element"

abbrev required_at : FieldState → Bool → Bool
required_at at_required b = true
required_at _ b = b

-- The state that an element of depth 2 sets.
abbrev child_state : Text → Text → FieldState
child_state name uri =
    if text_eq name (text "value")
    then at_value
    else if text_eq name (text "option")
    then at_option
    else if text_eq name (text "media") && text_eq uri ns_media
    then at_media
    else if text_eq name (text "required")
    then at_required
    else at_nowhere

-- The end of `handleStartElement`, by the state.
abbrev pass_start : FieldState → Text → Hash Text → FieldParser → FieldParser
pass_start at_option name attributes f = record f { option = option_start name attributes f.option }
pass_start at_media name attributes f = record f { medium = media_start name attributes f.medium }
pass_start _ name attributes f = f

abbrev begin_child : FieldState → FieldParser → FieldParser
begin_child s f = record f { state = s; required = required_at s f.required }

unfoldable pub field_start : Text → Text → Hash Text → FieldParser → FieldParser
unfolding option_start media_start field_type_of
field_start name uri attributes f =
    let depth = f.depth + 1 in
    if depth == 1
    then pass_start f.state name attributes (record f {
      depth = depth;
      kind = field_type_of (value (text "type") attributes);
      var = value (text "var") attributes;
      label = value (text "label") attributes;
    })
    else if depth == 2
    then pass_start (child_state name uri) name attributes
        (begin_child (child_state name uri) (record f { depth = depth }))
    else pass_start f.state name attributes (record f { depth = depth })

-- The beginning of `handleEndElement`, by the state.
abbrev pass_end : FieldState → FieldParser → FieldParser
pass_end at_option f =
    let o = option_end f.option in
    if f.depth == 2
    then record f { option = o; options = f.options ++ (o.label, o.value) ∷ [] }
    else record f { option = o }
pass_end at_media f =
    let m = media_end f.medium in
    if f.depth == 2
    then record f { media = m.media; medium = record m { media = none } }
    else record f { medium = m }
pass_end _ f = f

unfoldable pub field_end : FieldParser → FieldParser
unfolding option_end media_end
field_end f =
    let g = pass_end f.state f in
    record g { state = if leb f.depth 2 then at_nowhere else g.state; depth = f.depth - 1 }

abbrev pass_text : FieldState → Text → FieldParser → FieldParser
pass_text at_value s f = record f { values = f.values ++ s ∷ [] }
pass_text at_option s f = record f { option = option_text s f.option }
pass_text at_media s f = record f { medium = media_text s f.medium }
pass_text _ s f = f

unfoldable pub field_text : Text → FieldParser → FieldParser
unfolding option_text media_text
field_text s f = pass_text f.state s f

-- `create`, and what its `clear` leaves.
abbrev pub created : FieldParser → Field
created f = record {
  kind = f.kind;
  var = f.var;
  desc = [];
  label = f.label;
  values = f.values;
  required = f.required;
  options = f.options;
  media = f.media;
}

abbrev pub cleared : FieldParser → FieldParser
cleared f = record f {
  state = at_nowhere;
  kind = invalid_type;
  label = [];
  var = [];
  values = [];
  options = [];
  required = false;
  media = none;
}

abbrev pub idle_option : OptionParser
idle_option = record { depth = 0; at_value = false; label = []; value = [] }

abbrev pub idle_media : MediaParser
idle_media = record { depth = 0; at_uri = false; uri_type = []; media = none }
