-- ===== src/Form/Names.antt =====
-- The text of a field of several lines, and the name of the type of a form.
use jreen.Base.{
  ℕ, ◌==◌, ==-eq, is_empty, false, List, [], ◌∷◌, if◌then◌else◌, Text, text_eq, ◌≡◌, refl, ◌∙◌,
  arith, Bool-cases, inl, inr,
}
use jreen.Form.{Field, DataForm}
use jreen.Form.Fields.{
  split_lines, before_first, join_lines, text_of, set_text, value, set_value, field_named,
  change_named, hidden_field, form_type_var, type_name, set_type_name, is_invalid,
}

join_lines-before_first :
    (c : ℕ) (ls : List Text) → join_lines (before_first c ls) ≡ c ∷ join_lines ls
unfolding join_lines
join_lines-before_first c [] = refl
join_lines-before_first c (l ∷ []) = refl
join_lines-before_first c (l ∷ m ∷ ls) = refl

-- There is a first line.
split_lines-given : (s : Text) → is_empty (split_lines s) ≡ false
unfolding split_lines
split_lines-given [] = refl
split_lines-given (c ∷ s) = elim (Bool-cases (c == b'\n')) [
  | inl e ↦ rw e refl
  | inr e ↦ rw e (given c (split_lines s))
]
  where
    given : (c : ℕ) (ls : List Text) → is_empty (before_first c ls) ≡ false
    given c [] = refl
    given c (l ∷ ls) = refl

join_lines-empty_line :
    (ls : List Text) → is_empty ls ≡ false → join_lines ([] ∷ ls) ≡ b'\n' ∷ join_lines ls
unfolding join_lines
join_lines-empty_line [] h = absurd (ground arith)
join_lines-empty_line (l ∷ ls) h = refl

join_lines-split_lines : (s : Text) → join_lines (split_lines s) ≡ s
unfolding split_lines join_lines
join_lines-split_lines [] = refl
join_lines-split_lines (c ∷ s) =
    let read = join_lines-split_lines s in
    elim (Bool-cases (c == b'\n')) [
      | inl e ↦ rw e (
          rw (join_lines-empty_line (split_lines s) (split_lines-given s), read, ==-eq c b'\n' e)
            refl)
      | inr e ↦ rw e (rw (join_lines-before_first c (split_lines s), read) refl)
    ]

-- The text that a field of several lines is given is the text that it has.
pub text_of-set_text : (s : Text) (f : Field) → text_of (set_text s f) ≡ s
unfolding text_of set_text
text_of-set_text s f = join_lines-split_lines s

value-change_named :
    (name other s : Text) (fs : List Field)
    → is_invalid (field_named name fs).kind ≡ false
    → value (field_named other (change_named name (set_value s) fs))
      ≡ (if text_eq name other then s else value (field_named other fs))
unfolding value field_named set_value
value-change_named name other s [] h = absurd (ground (arith, h))
value-change_named name other s (f ∷ fs) h = ground (arith, h, value-change_named name other s fs)

value-hidden_field :
    (var s name : Text) (fs : List Field)
    → value (field_named name (hidden_field var s ∷ fs))
      ≡ (if text_eq var name then s else value (field_named name fs))
unfolding value field_named set_value
value-hidden_field var s name fs = ground arith

if-text_eq_self : (s : Text) (a b : Text) → (if text_eq s s then a else b) ≡ a
if-text_eq_self s a b = ground arith

-- The name of the type of a form is the one that it was last given, and the value of every other
-- field is the same as before.
pub type_name-set_type_name :
    (s : Text) (d : DataForm) (name : Text)
    → (type_name (set_type_name s d) ≡ s)
      × (value (field_named name (set_type_name s d).fields)
          ≡ (if text_eq form_type_var name then s else value (field_named name d.fields)))
unfolding type_name set_type_name
type_name-set_type_name s d name =
    elim (Bool-cases (is_invalid (field_named form_type_var d.fields).kind)) [
      | inl e ↦ rw e (
        value-hidden_field form_type_var s form_type_var d.fields
            ∙ if-text_eq_self form_type_var s (type_name d),
        value-hidden_field form_type_var s name d.fields,
      )
      | inr e ↦ rw e (
        value-change_named form_type_var form_type_var s d.fields e
            ∙ if-text_eq_self form_type_var s (type_name d),
        value-change_named form_type_var name s d.fields e,
      )
    ]
