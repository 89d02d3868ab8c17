-- ===== src/Form/Checks.antt =====
-- `setChecked` of a field with a list of options: what is checked after it, and the order of what
-- is checked.
use jreen.Base.{
  ℕ, zero, suc, ◌≤◌, Bool, true, false, List, [], ◌∷◌, ◌++◌, if◌then◌else◌, ltb, take, drop, Text,
  text_eq, ◌≡◌, refl, arith, Bool-cases, inl, inr,
}
use jreen.Form.{Field}
use jreen.Form.Fields.{
  holds, remove_one, rank, place, option_value, check_value, is_checked, set_checked,
}

insert_at : ℕ → Text → List Text → List Text
insert_at k s vs = take k vs ++ s ∷ drop k vs

holds-insert_at :
    (k : ℕ) (s w : Text) (vs : List Text)
    → holds w (insert_at k s vs) ≡ (if text_eq s w then true else holds w vs)
unfolding holds insert_at
holds-insert_at zero s w vs = refl
holds-insert_at (suc k) s w [] = refl
holds-insert_at (suc k) s w (v ∷ vs) = ground (arith, holds-insert_at k s w vs)

abbrev pub NoDup : List Text → Type 0
NoDup [] = Unit {0}
NoDup (v ∷ vs) = (holds v vs ≡ false) × NoDup vs

holds-remove_one :
    (s w : Text) (vs : List Text)
    → NoDup vs
    → holds w (remove_one s vs) ≡ (if text_eq s w then false else holds w vs)
unfolding holds remove_one
holds-remove_one s w [] h = ground arith
holds-remove_one s w (v ∷ vs) h = ground (arith, h.0, holds-remove_one s w vs h.1)

insert_at-NoDup :
    (k : ℕ) (s : Text) (vs : List Text) → holds s vs ≡ false → NoDup vs → NoDup (insert_at k s vs)
unfolding holds insert_at
insert_at-NoDup zero s vs e h = (e, h)
insert_at-NoDup (suc k) s [] e h = (refl, tt)
insert_at-NoDup (suc k) s (v ∷ vs) e h =
    let fresh : holds s vs ≡ false = ground (arith, e) in
    (ground (arith, e, h.0, holds-insert_at k s v vs), insert_at-NoDup k s vs fresh h.1)

remove_one-NoDup : (s : Text) (vs : List Text) → NoDup vs → NoDup (remove_one s vs)
unfolding holds remove_one
remove_one-NoDup s [] h = h
remove_one-NoDup s (v ∷ vs) h =
    let same = holds-remove_one s v vs h.1 in
    elim (Bool-cases (text_eq v s)) [
      | inl e ↦ rw e (h.1)
      | inr e ↦ rw e (ground (arith, e, h.0, same), remove_one-NoDup s vs h.1)
    ]

-- What `qLowerBound` relies on and gives, for a comparison of keys: in a list that is sorted it finds
-- the index before which all items are less than the value and behind which none is.
module _ (less : Text → Text → Bool) where
  abbrev pub AllLess : List Text → Text → Type 0
  AllLess [] s = Unit {0}
  AllLess (v ∷ vs) s = (less v s ≡ true) × AllLess vs s

  abbrev pub NoneLess : List Text → Text → Type 0
  NoneLess [] s = Unit {0}
  NoneLess (v ∷ vs) s = (less v s ≡ false) × NoneLess vs s

  abbrev pub IsSorted : List Text → Type 0
  IsSorted [] = Unit {0}
  IsSorted (v ∷ vs) = NoneLess vs v × IsSorted vs

abbrev pub by_key : (Text → ℕ) → Text → Text → Bool
by_key key a b = ltb (key a) (key b)

pub record IsLowerBound (lower_bound : (Text → Text → Bool) → List Text → Text → ℕ) : Type 0 where
  pub less :
      (key : Text → ℕ) (vs : List Text) (s : Text)
      → IsSorted (by_key key) vs
      → AllLess (by_key key) (take (lower_bound (by_key key) vs s) vs) s
  pub not_less :
      (key : Text → ℕ) (vs : List Text) (s : Text)
      → IsSorted (by_key key) vs
      → NoneLess (by_key key) (drop (lower_bound (by_key key) vs s) vs) s

module _ (options : List (Text × Text)) where
  -- Every later text has no lower rank.
  abbrev pub AllAbove : Text → List Text → Type 0
  AllAbove v [] = Unit {0}
  AllAbove v (w ∷ ws) = (rank v options ≤ rank w options) × AllAbove v ws

  abbrev pub Ascending : List Text → Type 0
  Ascending [] = Unit {0}
  Ascending (v ∷ vs) = AllAbove v vs × Ascending vs

  abbrev pub below : Text → Text → Bool
  below s t = ltb (rank s options) (rank t options)

  AllAbove-insert_at :
      (v s : Text) (k : ℕ) (vs : List Text)
      → rank v options ≤ rank s options
      → AllAbove v vs
      → AllAbove v (insert_at k s vs)
  unfolding insert_at
  AllAbove-insert_at v s zero vs g h = (g, h)
  AllAbove-insert_at v s (suc k) [] g h = (g, tt)
  AllAbove-insert_at v s (suc k) (w ∷ vs) g h = (h.0, AllAbove-insert_at v s k vs g h.1)

  NoneBelow-AllAbove : (s : Text) (vs : List Text) → NoneLess below vs s → AllAbove s vs
  NoneBelow-AllAbove s [] h = tt
  NoneBelow-AllAbove s (v ∷ vs) h = (ground (arith, h.0), NoneBelow-AllAbove s vs h.1)

  Ascending-IsSorted : (vs : List Text) → Ascending vs → IsSorted below vs
  Ascending-IsSorted [] h = tt
  Ascending-IsSorted (v ∷ vs) h = (none_below v vs h.0, Ascending-IsSorted vs h.1)
    where
      none_below : (v : Text) (vs : List Text) → AllAbove v vs → NoneLess below vs v
      none_below v [] h = tt
      none_below v (w ∷ vs) h = (ground (arith, h.0), none_below v vs h.1)

  -- A text is put where all before it have a lower rank, and none behind it has.
  insert_at-Ascending :
      (s : Text) (k : ℕ) (vs : List Text)
      → AllLess below (take k vs) s
      → NoneLess below (drop k vs) s
      → Ascending vs
      → Ascending (insert_at k s vs)
  unfolding insert_at
  insert_at-Ascending s zero vs a n h = (NoneBelow-AllAbove s vs n, h)
  insert_at-Ascending s (suc k) [] a n h = (tt, tt)
  insert_at-Ascending s (suc k) (v ∷ vs) a n h =
      (AllAbove-insert_at v s k vs (ground (arith, a.0)) h.0, insert_at-Ascending s k vs a.1 n h.1)

  AllAbove-remove_one : (v s : Text) (vs : List Text) → AllAbove v vs → AllAbove v (remove_one s vs)
  unfolding remove_one
  AllAbove-remove_one v s [] h = h
  AllAbove-remove_one v s (w ∷ vs) h = elim (Bool-cases (text_eq w s)) [
    | inl e ↦ rw e (h.1)
    | inr e ↦ rw e (h.0, AllAbove-remove_one v s vs h.1)
  ]

  remove_one-Ascending : (s : Text) (vs : List Text) → Ascending vs → Ascending (remove_one s vs)
  unfolding remove_one
  remove_one-Ascending s [] h = h
  remove_one-Ascending s (v ∷ vs) h = elim (Bool-cases (text_eq v s)) [
    | inl e ↦ rw e (h.1)
    | inr e ↦ rw e (AllAbove-remove_one v s vs h.0, remove_one-Ascending s vs h.1)
  ]

-- No value stands twice, and they stand in the order of the options.
abbrev pub InOrder : Field → Type 0
InOrder f = NoDup f.values × Ascending f.options f.values

module _ (lower_bound : (Text → Text → Bool) → List Text → Text → ℕ) where
  check_value-InOrder :
      IsLowerBound lower_bound
      → (s : Text) (f : Field) → holds s f.values ≡ false
      → InOrder f
      → InOrder (check_value lower_bound s f)
  unfolding check_value insert_at
  check_value-InOrder law s f e h =
      let key : Text → ℕ = λ t. rank t f.options in
      let sorted = Ascending-IsSorted f.options f.values h.1 in
      (
        insert_at-NoDup (place lower_bound s f) s f.values e h.0,
        insert_at-Ascending f.options s (place lower_bound s f) f.values
            (law.less key f.values s sorted) (law.not_less key f.values s sorted) h.1,
      )

  -- Where `qLowerBound` does what Qt says of it, checking or unchecking any option keeps the values
  -- free of repetitions and in the order of the options.
  pub set_checked-InOrder :
      IsLowerBound lower_bound
      → (i : ℕ) (checked : Bool) (f : Field) → InOrder f
      → InOrder (set_checked lower_bound i checked f)
  unfolding set_checked
  set_checked-InOrder law i true f h =
      let s = option_value i f in
      elim (Bool-cases (holds s f.values)) [
        | inl e ↦ rw e h
        | inr e ↦ rw e (check_value-InOrder law s f e h)
      ]
  set_checked-InOrder law i false f h =
      let s = option_value i f in
      (remove_one-NoDup s f.values h.0, remove_one-Ascending f.options s f.values h.1)

  -- Where no value stands twice, what `setChecked` sets for an option `isChecked` then tells of it and
  -- of every option with the same value, and of every other option the same as before.
  pub is_checked-set_checked :
      (i j : ℕ) (checked : Bool) (f : Field)
      → NoDup f.values
      → is_checked j (set_checked lower_bound i checked f)
        ≡ (if text_eq (option_value i f) (option_value j f) then checked else is_checked j f)
  unfolding set_checked is_checked option_value insert_at
  is_checked-set_checked i j true f h = elim (Bool-cases (holds (option_value i f) f.values)) [
    | inl e ↦ rw e (ground (arith, e))
    | inr e ↦ rw e (
        holds-insert_at (place lower_bound (option_value i f) f) (option_value i f)
          (option_value j f) f.values)
  ]
  is_checked-set_checked i j false f h =
      holds-remove_one (option_value i f) (option_value j f) f.values h
