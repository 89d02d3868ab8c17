-- ===== src/Form/Writing.antt =====
-- src/dataformfactory.cpp: how a form is written.
use jreen.Base.{Bool, true, false, List, [], ◌∷◌, Text, text, Hash}
use jreen.Xml.{NsEvent, opened, closed, given, given_element}
use jreen.Form.{
  FormType, invalid_form, Field, DataForm, field_type_text, form_type_text, ns_dataform,
}

unfoldable pub write_options : List (Text × Text) → List NsEvent → List NsEvent
write_options [] rest = rest
write_options ((label, v) ∷ os) rest =
    opened (text "option") ns_dataform (given (text "label") label [])
    ∷ given_element (text "value") ns_dataform v (closed ∷ write_options os rest)

unfoldable pub write_values : List Text → List NsEvent → List NsEvent
write_values [] rest = rest
write_values (v ∷ vs) rest = given_element (text "value") ns_dataform v (write_values vs rest)

abbrev pub write_required : Bool → List NsEvent → List NsEvent
write_required true rest = opened (text "required") ns_dataform [] ∷ closed ∷ rest
write_required false rest = rest

-- The description is written as the label; the label and the medium are not written.
unfoldable pub field_attributes : Field → Hash Text
unfolding field_type_text
field_attributes f =
    given (text "type") (field_type_text f.kind)
      (given (text "label") f.desc (given (text "var") f.var []))

unfoldable pub write_fields : List Field → List NsEvent → List NsEvent
unfolding field_attributes write_options write_values
write_fields [] rest = rest
write_fields (f ∷ fs) rest =
    opened (text "field") ns_dataform (field_attributes f)
    ∷ write_options f.options
        (write_values f.values (write_required f.required (closed ∷ write_fields fs rest)))

abbrev pub form_attributes : FormType → Hash Text
form_attributes invalid_form = []
form_attributes t = (text "type", form_type_text t) ∷ []

-- `serialize`; the instructions are not written.
unfoldable pub serialize : DataForm → List NsEvent
unfolding write_fields form_type_text
serialize d =
    opened (text "x") ns_dataform (form_attributes d.kind)
    ∷ given_element (text "title") ns_dataform d.title (write_fields d.fields (closed ∷ []))
