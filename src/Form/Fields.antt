-- ===== src/Form/Fields.antt =====
-- src/dataform.cpp: the operations of a field of a form and of a form. A field is a handle on data
-- that its copies share, so an operation that changes it is a function to the data after it; no two
-- fields of a form share their data.
use jreen.Base.{
  ℕ, ◌+◌, Bool, true, false, none, List, [], ◌∷◌, ◌++◌, if◌then◌else◌, ltb, ◌==◌, get_or, take,
  drop, Text, text, text_eq,
}
use jreen.Prep.{Preps}
use jreen.Jid.{JidData, set_jid, empty_jid}
use jreen.Form.{FieldType, hidden, invalid_type, Field, DataForm}

-- `DataFormField(type, var, label)`
abbrev pub new_field : FieldType → Text → Text → Field
new_field t var label = record {
  kind = t;
  var = var;
  desc = [];
  label = label;
  values = [];
  required = false;
  options = [];
  media = none;
}

-- `DataFormField::value`, and that of the fields with one value; `setValue`
unfoldable pub value : Field → Text
value f = get_or f.values 0 []

unfoldable pub set_value : Text → Field → Field
set_value s f = record f { values = s ∷ [] }

-- `DataFormFieldHidden(var, value)`
abbrev pub hidden_field : Text → Text → Field
unfolding set_value
hidden_field var s = set_value s (new_field hidden var [])

-- `DataFormFieldBoolean`, for the `toBool` of `QVariant`
unfoldable pub is_on : (Text → Bool) → Field → Bool
unfolding value
is_on to_bool f = to_bool (value f)

unfoldable pub set_on : Bool → Field → Field
unfolding set_value
set_on b f = set_value (if b then text "1" else text "0") f

-- `QStringList::contains` and `removeOne`
unfoldable pub holds : Text → List Text → Bool
holds s [] = false
holds s (t ∷ ts) = if text_eq t s then true else holds s ts

unfoldable pub remove_one : Text → List Text → List Text
remove_one s [] = []
remove_one s (t ∷ ts) = let rest = remove_one s ts in if text_eq t s then ts else t ∷ rest

-- `DataFormFieldJidMulti`: the loop of `setValues`, and `values`
abbrev pub add_jids : List JidData → List Text → List Text
unfolding holds
add_jids [] vs = vs
add_jids (j ∷ js) vs = add_jids js (if holds j.full vs then vs else vs ++ j.full ∷ [])

unfoldable pub set_jids : List JidData → Field → Field
set_jids js f = record f { values = add_jids js [] }

module _ (p : Preps) where
  abbrev pub valid_jids : List Text → List JidData
  unfolding set_jid
  valid_jids [] = []
  valid_jids (s ∷ ss) =
      let (_, jid) = set_jid p empty_jid s in
      let rest = valid_jids ss in if jid.valid then jid ∷ rest else rest

  unfoldable pub jids : Field → List JidData
  jids f = valid_jids f.values

-- `DataFormOptionContainer`; `QList::value` of an index out of range is a pair of empty texts.
abbrev pub no_option : Text × Text
no_option = ([], [])

unfoldable pub option_label : ℕ → Field → Text
option_label i f = (get_or f.options i no_option).0

unfoldable pub option_value : ℕ → Field → Text
option_value i f = (get_or f.options i no_option).1

unfoldable pub add_option : Text → Text → Field → Field
add_option label s f = record f { options = f.options ++ (label, s) ∷ [] }

-- `removeAt` has an index in range.
unfoldable pub remove_option : ℕ → Field → Field
remove_option i f = record f { options = take i f.options ++ drop (i + 1) f.options }

-- `DataFormFieldListMulti`
unfoldable pub is_checked : ℕ → Field → Bool
unfolding option_value holds
is_checked i f = holds (option_value i f) f.values

-- One more than `DataFormValueLessThen::index`, for which a text that is no option is -1.
abbrev pub rank : Text → List (Text × Text) → ℕ
rank s options = go 1 options
  where
    go : ℕ → List (Text × Text) → ℕ
    go i [] = 0
    go i ((label, v) ∷ os) = if text_eq v s then i else go (i + 1) os

-- `setChecked`, where `lower_bound` is Qt's `qLowerBound` with a comparison, as an index into the
-- list.
module _ (lower_bound : (Text → Text → Bool) → List Text → Text → ℕ) where
  unfoldable pub place : Text → Field → ℕ
  place s f = lower_bound (λ a b. ltb (rank a f.options) (rank b f.options)) f.values s

  unfoldable pub check_value : Text → Field → Field
  unfolding place
  check_value s f = record f { values = take (place s f) f.values ++ s ∷ drop (place s f) f.values }

  unfoldable pub set_checked : ℕ → Bool → Field → Field
  unfolding option_value holds remove_one check_value
  set_checked i checked f =
      let s = option_value i f in
      if checked
      then if holds s f.values then f else check_value s f
      else record f { values = remove_one s f.values }

-- `DataFormFieldTextMulti`: `split` and `join` with a line feed
abbrev pub before_first : ℕ → List Text → List Text
before_first c [] = (c ∷ []) ∷ []
before_first c (l ∷ ls) = (c ∷ l) ∷ ls

unfoldable pub split_lines : Text → List Text
split_lines [] = [] ∷ []
split_lines (c ∷ s) =
    let rest = split_lines s in if c == b'\n' then [] ∷ rest else before_first c rest

unfoldable pub join_lines : List Text → Text
join_lines [] = []
join_lines (l ∷ []) = l
join_lines (l ∷ ls) = l ++ b'\n' ∷ join_lines ls

unfoldable pub text_of : Field → Text
unfolding join_lines
text_of f = join_lines f.values

unfoldable pub set_text : Text → Field → Field
unfolding split_lines
set_text s f = record f { values = split_lines s }

-- `DataFormFieldContainer`, by the fields it has
abbrev pub not_a_field : Field
not_a_field = new_field invalid_type [] []

unfoldable pub field_at : ℕ → List Field → Field
field_at i fs = get_or fs i not_a_field

unfoldable pub field_named : Text → List Field → Field
field_named name [] = not_a_field
field_named name (f ∷ fs) = if text_eq f.var name then f else field_named name fs

unfoldable pub remove_field : ℕ → DataForm → DataForm
remove_field i d = record d { fields = take i d.fields ++ drop (i + 1) d.fields }

unfoldable pub append_field : Field → DataForm → DataForm
append_field f d = record d { fields = d.fields ++ f ∷ [] }

-- What a change of the field that `field(name)` returns does to the fields.
abbrev pub change_named : Text → (Field → Field) → List Field → List Field
change_named name change [] = []
change_named name change (f ∷ fs) =
    let rest = change_named name change fs in if text_eq f.var name then change f ∷ fs else f ∷ rest

-- `DataForm::typeName` and `setTypeName`
abbrev pub form_type_var : Text
form_type_var = text "FORM_TYPE"

unfoldable pub type_name : DataForm → Text
unfolding value field_named
type_name d = value (field_named form_type_var d.fields)

abbrev pub is_invalid : FieldType → Bool
is_invalid invalid_type = true
is_invalid _ = false

unfoldable pub set_type_name : Text → DataForm → DataForm
unfolding field_named set_value
set_type_name s d =
    if is_invalid (field_named form_type_var d.fields).kind
    then record d { fields = hidden_field form_type_var s ∷ d.fields }
    else record d { fields = change_named form_type_var (set_value s) d.fields }
