-- ===== src/Form/Whole.antt =====
-- The events of a written form are those of one element.
use jreen.Base.{ℕ, zero, suc, Bool, true, false, List, [], ◌∷◌, Text, text, ◌≡◌, refl}
use jreen.Xml.{NsEvent, opened, text_read, closed, given_element}
use jreen.Form.{Field, DataForm, ns_dataform}
use jreen.Form.Writing.{serialize, write_options, write_values, write_required, write_fields}

-- The events end with the end of the element that is `k` deep at first.
abbrev pub Whole : ℕ → List NsEvent → Type 0
Whole k [] = ⊥
Whole k (opened name uri attributes ∷ es) = Whole (suc k) es
Whole k (text_read s ∷ es) = Whole k es
Whole zero (closed ∷ es) = ⊥
Whole (suc zero) (closed ∷ es) = es ≡ []
Whole (suc (suc k)) (closed ∷ es) = Whole (suc k) es

pub given_element-Whole :
    (k : ℕ) (name uri s : Text) (es : List NsEvent)
    → Whole (suc k) es
    → Whole (suc k) (given_element name uri s es)
given_element-Whole k name uri [] es h = h
given_element-Whole k name uri (c ∷ s) es h = h

write_options-Whole :
    (os : List (Text × Text)) (es : List NsEvent) → Whole 2 es → Whole 2 (write_options os es)
unfolding write_options
write_options-Whole [] es h = h
write_options-Whole ((label, v) ∷ os) es h =
    given_element-Whole 2 (text "value") ns_dataform v (closed ∷ write_options os es)
      (write_options-Whole os es h)

write_values-Whole :
    (vs : List Text) (es : List NsEvent) → Whole 2 es → Whole 2 (write_values vs es)
unfolding write_values
write_values-Whole [] es h = h
write_values-Whole (v ∷ vs) es h =
    given_element-Whole 1 (text "value") ns_dataform v (write_values vs es)
      (write_values-Whole vs es h)

write_required-Whole : (b : Bool) (es : List NsEvent) → Whole 2 es → Whole 2 (write_required b es)
write_required-Whole true es h = h
write_required-Whole false es h = h

write_fields-Whole :
    (fs : List Field) (es : List NsEvent) → Whole 1 es → Whole 1 (write_fields fs es)
unfolding write_fields
write_fields-Whole [] es h = h
write_fields-Whole (f ∷ fs) es h =
    let end = closed ∷ write_fields fs es in
    let required = write_required f.required end in
    write_options-Whole f.options (write_values f.values required) (
      write_values-Whole f.values required
        (write_required-Whole f.required end (write_fields-Whole fs es h)))

pub serialize-Whole : (d : DataForm) → Whole 0 (serialize d)
unfolding serialize
serialize-Whole d =
    let fields = write_fields d.fields (closed ∷ []) in
    given_element-Whole 0 (text "title") ns_dataform d.title fields
      (write_fields-Whole d.fields (closed ∷ []) refl)
