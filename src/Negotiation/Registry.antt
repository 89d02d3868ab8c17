-- ===== src/Negotiation/Registry.antt =====
-- The order in which `registerStreamFeature` keeps the features, and what the default
-- configuration makes of it.
use jreen.Base.{
  ℕ, true, false, none, List, [], ◌∷◌, ◌++◌, ◌≡◌, ◌≢◌, inl, inr, arith, Option-cases, take, drop,
  take-append-drop,
}
use mathlib.Core.List.{Perm, perm_middle}
use mathlib.Core.List.Perm
use jreen.Negotiation.{
  Feature, Session, activated, activate_feature, activate_one, missing, convert_to_feature,
  default_configs, registration_request, authorization, feature_less_than, register_stream_feature,
  register_all,
}
use jreen.Negotiation.Choice.{activate_feature_lem}

-- What is activated has all that it demands.
activated-missing :
    (s : Session) (f : Feature)
    → (activate_feature s).1 ≡ activated f ∷ []
    → missing (record s { current = none }) (convert_to_feature f.kind) ≡ none
unfolding activate_one
activated-missing s f e =
    let fresh : Session = record s { current = none } in
    elim (activate_feature_lem s) [
      | inl (p, q) ↦ ground (arith, q, e)
      | inr (g, p, q) ↦ elim (Option-cases (missing fresh (convert_to_feature g.kind))) [
        | inl m ↦ ground (arith, q, e, m)
        | inr (r, m) ↦ ground (arith, q, e, m)
      ]
    ]

-- In a session with the configuration of a new client, in which the user has not been authorized,
-- a registration feature is never activated, although it stands before the ones that authorize:
-- where it is offered the client disconnects.
pub registration_needs_authorization :
    (s : Session) (f : Feature)
    → s.configs ≡ default_configs
    → s.used authorization ≡ false
    → f.kind ≡ registration_request
    → (activate_feature s).1 ≢ activated f ∷ []
unfolding missing
registration_needs_authorization s f c u k e =
    let demanded = activated-missing s f e in ground (arith, demanded, c, u, k)

-- Each feature of a list is before `f`, in the sense of `featureLessThan`.
abbrev pub AllLess : List Feature → Feature → Type 0
AllLess [] f = Unit
AllLess (g ∷ gs) f = (feature_less_than g f ≡ true) × AllLess gs f

-- No feature of a list is before `f`.
abbrev pub NoneLess : Feature → List Feature → Type 0
NoneLess f [] = Unit
NoneLess f (g ∷ gs) = (feature_less_than g f ≡ false) × NoneLess f gs

-- No feature stands behind one that it is before.
abbrev pub IsSorted : List Feature → Type 0
IsSorted [] = Unit
IsSorted (f ∷ fs) = NoneLess f fs × IsSorted fs

-- What Qt documents of `qLowerBound` on a sorted list.
pub record IsLowerBound (lower_bound : List Feature → Feature → ℕ) : Type 0 where
  pub less :
      (fs : List Feature) (f : Feature) → IsSorted fs → AllLess (take (lower_bound fs f) fs) f
  pub not_less :
      (fs : List Feature) (f : Feature) → IsSorted fs → NoneLess f (drop (lower_bound fs f) fs)

less-asym : (f g : Feature) → feature_less_than f g ≡ true → feature_less_than g f ≡ false
unfolding feature_less_than
less-asym f g p = ground arith

NoneLess-insert :
    (g f : Feature) (xs ys : List Feature)
    → feature_less_than f g ≡ false
    → NoneLess g (xs ++ ys)
    → NoneLess g (xs ++ f ∷ ys)
NoneLess-insert g f [] ys p q = (p, q)
NoneLess-insert g f (x ∷ xs) ys p (h, q) = (h, NoneLess-insert g f xs ys p q)

IsSorted-insert :
    (f : Feature) (xs ys : List Feature)
    → AllLess xs f
    → NoneLess f ys
    → IsSorted (xs ++ ys)
    → IsSorted (xs ++ f ∷ ys)
IsSorted-insert f [] ys a n s = (n, s)
IsSorted-insert f (x ∷ xs) ys (h, a) n (p, s) =
    (NoneLess-insert x f xs ys (less-asym x f h) p, IsSorted-insert f xs ys a n s)

module _ (lower_bound : List Feature → Feature → ℕ) (law : IsLowerBound lower_bound) where
  register-IsSorted :
      (f : Feature) (s : Session)
      → IsSorted s.features
      → IsSorted (register_stream_feature lower_bound f s).features
  unfolding register_stream_feature
  register-IsSorted f s p =
      let i = lower_bound s.features f in
      IsSorted-insert f (take i s.features) (drop i s.features) (law.less s.features f p)
        (law.not_less s.features f p) (rw (take-append-drop i s.features) p)

  -- However many features are registered, in whatever order: the list stays sorted by type, and
  -- by falling priority within a type, if it was, and it holds exactly the features that it held
  -- and the registered ones.
  pub register_all-IsSorted :
      (fs : List Feature) (s : Session)
      → IsSorted s.features
      → IsSorted (register_all lower_bound fs s).features
        × Perm (register_all lower_bound fs s).features (fs ++ s.features)
  unfolding register_stream_feature
  register_all-IsSorted [] s p = (p, Perm.refl s.features)
  register_all-IsSorted (f ∷ fs) s p =
      let i = lower_bound s.features f in
      let (q, r) =
        register_all-IsSorted fs (register_stream_feature lower_bound f s)
          (register-IsSorted f s p) in
      (
        q,
        Perm.trans r (
            Perm.trans (Perm.append_left fs (perm_middle (take i s.features) (drop i s.features)))
              (rw (take-append-drop i s.features) (perm_middle fs s.features))),
      )
