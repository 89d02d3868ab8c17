-- ===== src/Negotiation/Choice.antt =====
-- Which feature `activateFeature` takes.
use jreen.Base.{true, false, none, List, [], ◌∷◌, ◌++◌, ◌≡◌, ◌⊎◌, inl, inr, refl, ap, Bool-cases}
use jreen.Negotiation.{
  Feature, Session, closed, activate_feature, choose, is_skipped, activate_one, missing,
  convert_to_feature, emit_disconnected, no_supported_feature, start_from, disconnected,
}

abbrev pub AllSkipped : Session → List Feature → Type 0
AllSkipped s [] = Unit
AllSkipped s (f ∷ fs) = (is_skipped s f ≡ true) × AllSkipped s fs

-- A feature is the first of the list that is not skipped.
pub record IsFirst (s : Session) (fs : List Feature) (f : Feature) : Type 0 where
  pub before : List Feature
  pub after : List Feature
  pub split : fs ≡ before ++ f ∷ after
  pub skipped : AllSkipped s before
  pub kept : is_skipped s f ≡ false

cons-IsFirst :
    (s : Session) (g : Feature) (fs : List Feature) (f : Feature)
    → is_skipped s g ≡ true
    → IsFirst s fs f
    → IsFirst s (g ∷ fs) f
cons-IsFirst s g fs f e p = record {
  before = g ∷ p.before;
  after = p.after;
  split = ap (λ xs. g ∷ xs) p.split;
  skipped = (e, p.skipped);
  kept = p.kept;
}

pub choose_lem :
    (fs : List Feature) (s : Session)
    → (AllSkipped s fs × (choose fs s ≡ emit_disconnected no_supported_feature s))
      ⊎ ((f : Feature) × IsFirst s fs f
          × (choose fs s ≡ activate_one f (missing s (convert_to_feature f.kind)) s))
unfolding choose
choose_lem [] s = inl (tt, refl)
choose_lem (g ∷ fs) s = elim (Bool-cases (is_skipped s g)) [
  | inl e ↦ elim (choose_lem fs s) [
    | inl (p, q) ↦ inl ((e, p), rw (e) q)
    | inr (f, p, q) ↦ inr (f, cons-IsFirst s g fs f e p, rw (e) q)
  ]
  | inr e ↦
      inr (g, record { before = []; after = fs; split = refl; skipped = tt; kept = e }, rw (e) refl)
]

-- The features are tried from the one behind the current feature on, and where there is no current
-- one from the start. If the features offer nothing that is not disabled, the client disconnects
-- for want of a feature. Otherwise the first that does is taken, and no later one: where something
-- that it demands is missing the client disconnects for that, and else the feature is activated.
pub activate_feature_lem :
    (s : Session)
    → let fresh : Session = record s { current = none } in
      let candidates = start_from s.current s.features in
      (AllSkipped fresh candidates
        × (activate_feature s ≡ (disconnected fresh, closed no_supported_feature ∷ [])))
      ⊎ ((f : Feature) × IsFirst fresh candidates f
          × (activate_feature s ≡ activate_one f (missing fresh (convert_to_feature f.kind)) fresh))
unfolding activate_feature
activate_feature_lem s = choose_lem (start_from s.current s.features) (record s { current = none })
