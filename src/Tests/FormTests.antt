-- ===== src/Tests/FormTests.antt =====
-- Runs of the data forms.
use jreen.Base.{
  ℕ, suc, Bool, Text, List, take, drop, Bool-cases, inl, inr, arith, true, false, [], ◌∷◌, ◌≡◌,
  refl, none, text, text_eq, if◌then◌else◌, text_discrete,
}
use jreen.Form.{Field, DataForm, list_multi, submit}
use jreen.Form.Fields.{is_checked, set_checked, holds, option_value, not_a_field}
use jreen.Form.Payload.{feed, create_payload, new_factory, nowhere}
use jreen.Form.Writing.{serialize}
use jreen.Form.RoundTrip.{create_payload-serialize, fields_after}
use jreen.Form.Checks.{
  AllLess, NoneLess, IsSorted, by_key, IsLowerBound, InOrder, set_checked-InOrder,
  is_checked-set_checked,
}

abbrev colours : Field
colours = record {
  kind = list_multi;
  var = text "colours";
  desc = text "Pick";
  label = text "lost";
  values = text "green" ∷ [];
  required = true;
  options = (text "Red", text "red") ∷ ([], text "green") ∷ (text "Blue", text "blue") ∷ [];
  media = none;
}

abbrev poll : DataForm
poll = record {
  kind = submit;
  title = text "Poll";
  instructions = text "gone";
  fields = colours ∷ not_a_field ∷ [];
}

create_payload-serialize_example :
    (create_payload (feed (serialize poll) (new_factory nowhere false))).0 ≡ record {
      kind = submit;
      title = text "Poll";
      instructions = [];
      fields = fields_after (colours ∷ not_a_field ∷ []);
    }
create_payload-serialize_example = create_payload-serialize poll nowhere refl

colours-InOrder : InOrder colours
unfolding holds
colours-InOrder = ((refl, tt), (tt, tt))

-- A search from the front in place of that of Qt.
abbrev first_not_less : (Text → Text → Bool) → List Text → Text → ℕ
first_not_less less [] s = 0
first_not_less less (v ∷ vs) s =
    let rest = first_not_less less vs s in if less v s then suc rest else 0

module _ (key : Text → ℕ) (s : Text) where
  first-AllLess :
      (vs : List Text) → AllLess (by_key key) (take (first_not_less (by_key key) vs s) vs) s
  first-AllLess [] = tt
  first-AllLess (v ∷ vs) = elim (Bool-cases (by_key key v s)) [
    | inl e ↦ rw (e) (e, first-AllLess vs)
    | inr e ↦ rw (e) tt
  ]

  NoneLess-trans :
      (v : Text) (vs : List Text)
      → by_key key v s ≡ false
      → NoneLess (by_key key) vs v
      → NoneLess (by_key key) vs s
  NoneLess-trans v [] e h = tt
  NoneLess-trans v (w ∷ vs) e h = (ground (arith, e, h.0), NoneLess-trans v vs e h.1)

  first-NoneLess :
      (vs : List Text)
      → IsSorted (by_key key) vs
      → NoneLess (by_key key) (drop (first_not_less (by_key key) vs s) vs) s
  first-NoneLess [] h = tt
  first-NoneLess (v ∷ vs) h = elim (Bool-cases (by_key key v s)) [
    | inl e ↦ rw (e) (first-NoneLess vs h.1)
    | inr e ↦ rw (e) (e, NoneLess-trans v vs e h.0)
  ]

first-IsLowerBound : IsLowerBound first_not_less
first-IsLowerBound = record {
  less = λ key vs s h. first-AllLess key s vs;
  not_less = λ key vs s h. first-NoneLess key s vs h;
}

set_checked-InOrder_example : InOrder (set_checked first_not_less 0 true colours)
set_checked-InOrder_example =
    set_checked-InOrder first_not_less first-IsLowerBound 0 true colours colours-InOrder

checked_before : (set_checked first_not_less 0 true colours).values ≡ text "red" ∷ text "green" ∷ []
unfolding set_checked option_value text_discrete
checked_before = refl

is_checked-set_checked_example : is_checked 2 (set_checked first_not_less 0 true colours) ≡ (
    if text_eq (option_value 0 colours) (option_value 2 colours)
    then true
    else is_checked 2 colours)
is_checked-set_checked_example =
    is_checked-set_checked first_not_less 0 2 true colours colours-InOrder.0
