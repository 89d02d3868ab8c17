-- ===== src/Form/RoundTrip.antt =====
-- What the data form factory writes it reads back, but for what it does not write.
use jreen.Base.{
  Bool, true, false, none, List, [], ◌∷◌, ◌++◌, Text, text, arith, text_discrete, Hash, get,
  append_assoc, append-nil, ◌≡◌, refl, ap, ◌∙◌, sym,
}
use jreen.Xml.{
  get-given_other, value-given_self, NsEvent, closed, opened, value, given, given_element, or_empty,
}
use jreen.Form.{
  FieldType, boolean, fixed, hidden, jid_multi, jid_single, list_multi, list_single, text_multi,
  text_private, text_single, no_type, invalid_type, FormType, form, submit, cancel, result,
  invalid_form, unknown, Uri, Field, DataForm, field_type_text, field_type_of, form_type_text,
  form_type_of, ns_dataform,
}
use jreen.Form
use jreen.Form.Parsers.{at_nowhere, idle_media}
use jreen.Form.Payload.{
  Factory, FormState, nowhere, at_field, handle_event, feed, create_payload, new_factory, is_field,
  handle_end,
}
use jreen.Form.Writing.{
  field_attributes, form_attributes, write_options, write_values, write_required, write_fields,
  serialize,
}

-- What a written field is read as. The description was written as the label, a value without text
-- was not written, nor was the label or the medium.
abbrev pub type_after : FieldType → FieldType
type_after invalid_type = no_type
type_after t = t

abbrev pub with_text : List Text → List Text
with_text [] = []
with_text ([] ∷ vs) = with_text vs
with_text ((c ∷ v) ∷ vs) = (c ∷ v) ∷ with_text vs

abbrev pub field_after : Field → Field
field_after f = record {
  kind = type_after f.kind;
  var = f.var;
  desc = [];
  label = f.desc;
  values = with_text f.values;
  required = f.required;
  options = f.options;
  media = none;
}

abbrev pub fields_after : List Field → List Field
fields_after [] = []
fields_after (f ∷ fs) = field_after f ∷ fields_after fs

abbrev pub form_type_after : FormType → FormType
form_type_after invalid_form = unknown
form_type_after t = t

abbrev pub form_after : DataForm → DataForm
form_after d = record {
  kind = form_type_after d.kind;
  title = d.title;
  instructions = [];
  fields = fields_after d.fields;
}

-- What the parser of options keeps of the last one that it read.
abbrev Last : Type 0
Last = Text × Text

-- The factory in a form, between two of its children.
abbrev between : FormState → Text → List Field → FormType → Last → Factory
between s title fields kind last = record {
  depth = 1;
  state = s;
  title = title;
  instruction = [];
  fields = fields;
  kind = kind;
  field = record {
    state = at_nowhere;
    depth = 0;
    kind = invalid_type;
    label = [];
    var = [];
    values = [];
    options = [];
    required = false;
    media = none;
    option = record { depth = 0; at_value = false; label = last.0; value = last.1 };
    medium = idle_media;
  };
}

-- The factory in a field of which these values and options were read.
abbrev in_field :
    Text → List Field → FormType → Field → Last → List (Text × Text) → List Text → Bool → Factory
in_field title fields kind f last options values required = record {
  depth = 2;
  state = at_field;
  title = title;
  instruction = [];
  fields = fields;
  kind = kind;
  field = record {
    state = at_nowhere;
    depth = 1;
    kind = type_after f.kind;
    label = f.desc;
    var = f.var;
    values = values;
    options = options;
    required = required;
    media = none;
    option = record { depth = 0; at_value = false; label = last.0; value = last.1 };
    medium = idle_media;
  };
}

-- What the written attributes of a field read as.
record Reads (f : Field) (attributes : Hash Text) : Type 0 where
  type_right : field_type_of (value (text "type") attributes) ≡ type_after f.kind
  var_right : value (text "var") attributes ≡ f.var
  label_right : value (text "label") attributes ≡ f.desc

field_type_of-field_type_text : (t : FieldType) → field_type_of (field_type_text t) ≡ type_after t
unfolding field_type_of field_type_text text_discrete
field_type_of-field_type_text invalid_type = refl
field_type_of-field_type_text _ = refl

field_attributes-Reads : (f : Field) → Reads f (field_attributes f)
unfolding field_attributes text_discrete get
field_attributes-Reads f =
    let var = given (text "var") f.var [] in
    let label = given (text "label") f.desc var in
    let no_type : get (text "type") label ≡ none =
      get-given_other (text "type") (text "label") f.desc var refl
      ∙ get-given_other (text "type") (text "var") f.var [] refl in
    let no_label = get-given_other (text "label") (text "var") f.var [] refl in
    record {
      type_right =
          rw (value-given_self (text "type") (field_type_text f.kind) label no_type)
            (field_type_of-field_type_text f.kind);
      var_right =
          ap or_empty (
            get-given_other (text "var") (text "type") (field_type_text f.kind) label refl
            ∙ get-given_other (text "var") (text "label") f.desc var refl)
          ∙ value-given_self (text "var") f.var [] refl;
      label_right =
          ap or_empty
            (get-given_other (text "label") (text "type") (field_type_text f.kind) label refl)
          ∙ value-given_self (text "label") f.desc var no_label;
    }

module _ (title : Text) (kind : FormType) where
  start_field :
      (s : FormState) (fields : List Field) (last : Last) (f : Field)
      → handle_event
          (opened (text "field") ns_dataform (field_attributes f))
          (between s title fields kind last)
        ≡ in_field title fields kind f last [] [] false
  unfolding handle_event text_discrete
  start_field s fields last f =
      let r = field_attributes-Reads f in rw (r.type_right, r.var_right, r.label_right) refl

  feed-write_options :
      (fields : List Field) (f : Field) (last : Last) (os read : List (Text × Text))
      (rest : List NsEvent)
      → (last' : Last) × (feed
            (write_options os rest)
            (in_field title fields kind f last read [] false)
          ≡ feed rest (in_field title fields kind f last' (read ++ os) [] false))
  unfolding feed write_options handle_event text_discrete get
  feed-write_options fields f last [] read rest = (
    last,
    ap (λ o. feed rest (in_field title fields kind f last o [] false)) (sym (append-nil read)),
  )
  feed-write_options fields f last (([], []) ∷ os) read rest =
      rw (sym (append_assoc read (([], []) ∷ []) os))
        (feed-write_options fields f ([], []) os (read ++ ([], []) ∷ []) rest)
  feed-write_options fields f last (([], c ∷ v) ∷ os) read rest =
      rw (sym (append_assoc read (([], c ∷ v) ∷ []) os))
        (feed-write_options fields f ([], c ∷ v) os (read ++ ([], c ∷ v) ∷ []) rest)
  feed-write_options fields f last ((d ∷ l, []) ∷ os) read rest =
      rw (sym (append_assoc read ((d ∷ l, []) ∷ []) os))
        (feed-write_options fields f (d ∷ l, []) os (read ++ (d ∷ l, []) ∷ []) rest)
  feed-write_options fields f last ((d ∷ l, c ∷ v) ∷ os) read rest =
      rw (sym (append_assoc read ((d ∷ l, c ∷ v) ∷ []) os))
        (feed-write_options fields f (d ∷ l, c ∷ v) os (read ++ (d ∷ l, c ∷ v) ∷ []) rest)

  feed-write_values :
      (fields : List Field) (f : Field) (last : Last) (options : List (Text × Text))
      (vs read : List Text) (rest : List NsEvent)
      → feed (write_values vs rest) (in_field title fields kind f last options read false)
        ≡ feed rest (in_field title fields kind f last options (read ++ with_text vs) false)
  unfolding feed write_values handle_event text_discrete
  feed-write_values fields f last options [] read rest =
      ap (λ v. feed rest (in_field title fields kind f last options v false))
        (sym (append-nil read))
  feed-write_values fields f last options ([] ∷ vs) read rest =
      feed-write_values fields f last options vs read rest
  feed-write_values fields f last options ((c ∷ v) ∷ vs) read rest =
      feed-write_values fields f last options vs (read ++ (c ∷ v) ∷ []) rest
      ∙ ap (λ z. feed rest (in_field title fields kind f last options z false))
          (append_assoc read ((c ∷ v) ∷ []) (with_text vs))

  feed-write_required :
      (fields : List Field) (f : Field) (last : Last) (options : List (Text × Text))
      (values : List Text) (required : Bool) (rest : List NsEvent)
      → feed (write_required required rest) (in_field title fields kind f last options values false)
        ≡ feed rest (in_field title fields kind f last options values required)
  unfolding feed handle_event text_discrete
  feed-write_required fields f last options values true rest = refl
  feed-write_required fields f last options values false rest = refl

  feed-write_fields :
      (fs fields : List Field) (s : FormState) (last : Last)
      → is_field s ≡ false
      → (create_payload (feed (write_fields fs (closed ∷ [])) (between s title fields kind last))).0
        ≡ record {
          kind = kind;
          title = title;
          instructions = [];
          fields = fields ++ fields_after fs;
        }
  unfolding feed write_fields handle_event create_payload handle_end
  feed-write_fields [] fields s last h = rw (h, append-nil fields) refl
  feed-write_fields (f ∷ fs) fields s last h =
      let end = closed ∷ write_fields fs (closed ∷ []) in
      let required = write_required f.required end in
      let values = write_values f.values required in
      let (last', e) = feed-write_options fields f last f.options [] values in
      ap (λ z. (create_payload (feed (write_options f.options values) z)).0)
        (start_field s fields last f)
      ∙ ap (λ z. (create_payload z).0)
          (e
            ∙ feed-write_values fields f last' f.options f.values [] required
            ∙ feed-write_required fields f last' f.options (with_text f.values) f.required end)
      ∙ feed-write_fields fs (fields ++ field_after f ∷ []) nowhere last' refl
      ∙ ap (λ z. record { kind = kind; title = title; instructions = []; fields = z })
          (append_assoc fields (field_after f ∷ []) (fields_after fs))

form_type_of-form_attributes :
    (t : FormType) → form_type_of (value (text "type") (form_attributes t)) ≡ form_type_after t
unfolding form_type_of text_discrete get Form.form_type_text
form_type_of-form_attributes invalid_form = refl
form_type_of-form_attributes _ = refl

start_form :
    (t : FormType) (s : FormState)
    → is_field s ≡ false
    → handle_event (opened (text "x") ns_dataform (form_attributes t)) (new_factory s false)
      ≡ between s [] [] (form_type_after t) ([], [])
unfolding handle_event
start_form t at_field h = absurd (ground arith)
start_form t s h = ap (λ k. between s [] [] k ([], [])) (form_type_of-form_attributes t)

feed-write_title :
    (title : Text) (kind : FormType) (fs : List Field) (s : FormState)
    → is_field s ≡ false
    → (create_payload (
        feed
          (given_element (text "title") ns_dataform title (write_fields fs (closed ∷ [])))
          (between s [] [] kind ([], [])))).0
      ≡ record { kind = kind; title = title; instructions = []; fields = fields_after fs }
unfolding feed handle_event text_discrete
feed-write_title [] kind fs s h = feed-write_fields [] kind fs [] s ([], []) h
feed-write_title (c ∷ title) kind fs s h =
    feed-write_fields (c ∷ title) kind fs [] nowhere ([], []) refl

-- A form that is written and read by a factory that is in no field and has seen no required one is
-- the same form, but that its instructions are gone, that each field has its description for its
-- label, no description and no medium, and only the values that have a text, that an invalid field
-- has become one without a type, and that the type of an invalid form has become unknown.
pub create_payload-serialize :
    (d : DataForm) (s : FormState)
    → is_field s ≡ false
    → (create_payload (feed (serialize d) (new_factory s false))).0 ≡ form_after d
unfolding feed serialize handle_event text_discrete
create_payload-serialize d s h =
    let fields = write_fields d.fields (closed ∷ []) in
    ap (λ f. (create_payload (feed (given_element (text "title") ns_dataform d.title fields) f)).0)
      (start_form d.kind s h)
    ∙ feed-write_title d.title (form_type_after d.kind) d.fields s h
