-- ===== src/Negotiation/Outcome.antt =====
-- What `activateFeature` comes to, in terms of the features, the configuration and the features that
-- have been used.
use jreen.Base.{
  ℕ, true, false, ◌||◌, Option, none, some, List, [], ◌∷◌, ◌++◌, ◌≡◌, ◌≢◌, ◌⊎◌, inl, inr, refl, ap,
  ◌∙◌, sym, subst, arith, Bool-cases, if◌then◌else◌, ◌==◌, ==-eq,
}
use jreen.Negotiation.{
  FeatureType, security_layer, compression_layer, registration_request, sasl, simple_authorization,
  custom, Feature, ClientFeature, compression, encryption, authorization, invalid_feature, same,
  force, disable, Reason, no_encryption_support, no_compression_support, no_authorization_support,
  no_supported_feature, Event, activated, closed, Session, feature_config, convert_to_feature,
  is_skipped, lacks, missing, mark_used, activate_one, behind, start_from, activate_feature,
  disconnected,
}
use jreen.Negotiation.Choice.{AllSkipped, activate_feature_lem}

-- The features from which on the search begins: those behind the current one, or all of them.
abbrev pub NoneNamed : ℕ → List Feature → Type 0
NoneNamed n [] = Unit {0}
NoneNamed n (f ∷ fs) = (f.name ≢ n) × NoneNamed n fs

abbrev pub Candidates : Option ℕ → List Feature → List Feature → Type 0
Candidates none fs cs = cs ≡ fs
Candidates (some n) fs cs =
    (NoneNamed n fs × (cs ≡ fs))
    ⊎ ((before : List Feature) × (f : Feature) × (fs ≡ before ++ f ∷ cs)
        × (f.name ≡ n)
        × NoneNamed n before)

-- The server offers the feature, and the application has not disabled it.
abbrev pub IsOffered : Session → Feature → Type 0
IsOffered s f =
    (s.activatable f.name ≡ true) × (feature_config (convert_to_feature f.kind) s ≢ disable)

abbrev pub NoneOffered : Session → List Feature → Type 0
NoneOffered s [] = Unit {0}
NoneOffered s (f ∷ fs) = ¬ IsOffered s f × NoneOffered s fs

-- What must have been used before, where it is forced, in the order in which it is looked at.
abbrev pub demanded : FeatureType → List ClientFeature
demanded security_layer = []
demanded compression_layer = []
demanded sasl = encryption ∷ []
demanded simple_authorization = encryption ∷ []
demanded registration_request = encryption ∷ compression ∷ authorization ∷ []
demanded custom = encryption ∷ compression ∷ authorization ∷ []

abbrev pub IsUnmet : Session → ClientFeature → Type 0
IsUnmet s c = (s.configs c ≡ force) × (s.used c ≡ false)

abbrev pub AllMet : Session → List ClientFeature → Type 0
AllMet s [] = Unit {0}
AllMet s (c ∷ cs) = ¬ IsUnmet s c × AllMet s cs

abbrev pub FirstUnmet : Session → List ClientFeature → ClientFeature → Type 0
FirstUnmet s [] g = ⊥
FirstUnmet s (c ∷ cs) g = (IsUnmet s c × (g ≡ c)) ⊎ (¬ IsUnmet s c × FirstUnmet s cs g)

abbrev pub reason_for : ClientFeature → Reason
reason_for encryption = no_encryption_support
reason_for compression = no_compression_support
reason_for authorization = no_authorization_support
reason_for invalid_feature = no_supported_feature

-- The session is over, and the rest of the client is told why.
abbrev pub Ends : Reason → Session → Session × List Event → Type 0
Ends reason s (t, events) =
    (t ≡ record s { is_connected = false; used = λ f. false; authorized = false; current = none })
    × (events ≡ closed reason ∷ [])

-- The feature is the current one, its use is noted, and nothing else changes.
abbrev pub Takes : Feature → Session → Session × List Event → Type 0
Takes f s (t, events) =
    (events ≡ activated f ∷ [])
    × (t ≡ record s { current = some f.name; used = t.used })
    × ((g : ClientFeature)
        → g ≢ invalid_feature
        → t.used g ≡ (same (convert_to_feature f.kind) g || s.used g))

first_lacking : Session → List ClientFeature → Option ClientFeature
first_lacking s [] = none
first_lacking s (c ∷ cs) = let rest = first_lacking s cs in if lacks s c then some c else rest

missing_lem :
    (s : Session) (k : FeatureType)
    → missing s (convert_to_feature k) ≡ first_lacking s (demanded k)
unfolding missing first_lacking
missing_lem s security_layer = refl
missing_lem s compression_layer = refl
missing_lem s registration_request = refl
missing_lem s sasl = refl
missing_lem s simple_authorization = refl
missing_lem s custom = refl

lacks-IsUnmet : (s : Session) (c : ClientFeature) → lacks s c ≡ true → IsUnmet s c
lacks-IsUnmet s c h = ground (arith, h)

has-not_IsUnmet : (s : Session) (c : ClientFeature) → lacks s c ≡ false → ¬ IsUnmet s c
has-not_IsUnmet s c h u = ground (arith, h, u.0, u.1)

first_lacking_lem :
    (s : Session) (cs : List ClientFeature)
    → (AllMet s cs × (first_lacking s cs ≡ none))
      ⊎ ((g : ClientFeature) × FirstUnmet s cs g × (first_lacking s cs ≡ some g))
unfolding first_lacking
first_lacking_lem s [] = inl (tt, refl)
first_lacking_lem s (c ∷ cs) = elim (Bool-cases (lacks s c)) [
  | inl e ↦ inr (c, inl (lacks-IsUnmet s c e, refl), rw (e) refl)
  | inr e ↦ elim (first_lacking_lem s cs) [
    | inl (a, q) ↦ inl ((has-not_IsUnmet s c e, a), rw (e) q)
    | inr (g, a, q) ↦ inr (g, inr (has-not_IsUnmet s c e, a), rw (e) q)
  ]
]

module _ (s : Session) where
  abbrev fresh : Session
  fresh = record s { current = none }

  config_lem : (c : ClientFeature) → feature_config c fresh ≡ feature_config c s
  config_lem compression = refl
  config_lem encryption = refl
  config_lem authorization = refl
  config_lem invalid_feature = refl

  skipped-not_IsOffered : (f : Feature) → is_skipped fresh f ≡ true → ¬ IsOffered s f
  skipped-not_IsOffered f h o = ground (arith, h, o.0, o.1, config_lem (convert_to_feature f.kind))

  kept-IsOffered : (f : Feature) → is_skipped fresh f ≡ false → IsOffered s f
  kept-IsOffered f h =
      (ground (arith, h), λ e. ground (arith, h, e, config_lem (convert_to_feature f.kind)))

  AllSkipped-NoneOffered : (fs : List Feature) → AllSkipped fresh fs → NoneOffered s fs
  AllSkipped-NoneOffered [] h = tt
  AllSkipped-NoneOffered (f ∷ fs) h = (skipped-not_IsOffered f h.0, AllSkipped-NoneOffered fs h.1)

  fresh-AllMet : (cs : List ClientFeature) → AllMet fresh cs → AllMet s cs
  fresh-AllMet [] h = tt
  fresh-AllMet (c ∷ cs) h = (h.0, fresh-AllMet cs h.1)

  fresh-FirstUnmet :
      (cs : List ClientFeature) (g : ClientFeature) → FirstUnmet fresh cs g → FirstUnmet s cs g
  fresh-FirstUnmet [] g h = h
  fresh-FirstUnmet (c ∷ cs) g (inl h) = inl h
  fresh-FirstUnmet (c ∷ cs) g (inr h) = inr (h.0, fresh-FirstUnmet cs g h.1)

  activate_one-Ends :
      (f : Feature) (g : ClientFeature) → Ends (reason_for g) s (activate_one f (some g) fresh)
  unfolding activate_one disconnected
  activate_one-Ends f compression = (refl, refl)
  activate_one-Ends f encryption = (refl, refl)
  activate_one-Ends f authorization = (refl, refl)
  activate_one-Ends f invalid_feature = (refl, refl)

  mark_used_lem :
      (c g : ClientFeature) → g ≢ invalid_feature → mark_used c s.used g ≡ (same c g || s.used g)
  unfolding mark_used
  mark_used_lem compression g h = refl
  mark_used_lem encryption g h = refl
  mark_used_lem authorization g h = refl
  mark_used_lem invalid_feature compression h = refl
  mark_used_lem invalid_feature encryption h = refl
  mark_used_lem invalid_feature authorization h = refl
  mark_used_lem invalid_feature invalid_feature h = absurd (h refl)

  activate_one-Takes : (f : Feature) → Takes f s (activate_one f none fresh)
  unfolding activate_one
  activate_one-Takes f = (refl, refl, mark_used_lem (convert_to_feature f.kind))

abbrev StandsBefore : ℕ → List Feature → List Feature → Type 0
StandsBefore n fs rest =
    (before : List Feature) × (f : Feature) × (fs ≡ before ++ f ∷ rest)
    × (f.name ≡ n)
    × NoneNamed n before

behind_lem :
    (n : ℕ) (fs : List Feature)
    → ((behind n fs ≡ none) × NoneNamed n fs)
      ⊎ ((rest : List Feature) × (behind n fs ≡ some rest) × StandsBefore n fs rest)
unfolding behind
behind_lem n [] = inl (refl, tt)
behind_lem n (f ∷ fs) = elim (Bool-cases (f.name == n)) [
  | inl e ↦ inr (fs, rw (e) refl, ([], f, refl, ==-eq f.name n e, tt))
  | inr e ↦
      let other : f.name ≢ n = λ q. ground (arith, e, q) in
      elim (behind_lem n fs) [
        | inl (h, none_named) ↦ inl (rw (e) h, (other, none_named))
        | inr (rest, h, (before, g, split, named, fresh_names)) ↦
            inr
              (rest, rw (e) h, (f ∷ before, g, ap (λ z. f ∷ z) split, named, (other, fresh_names)))
      ]
]

start_from_lem :
    (current : Option ℕ) (fs : List Feature) → Candidates current fs (start_from current fs)
start_from_lem none fs = refl
start_from_lem (some n) fs = elim (behind_lem n fs) [
  | inl (h, none_named) ↦ rw h (inl (none_named, refl))
  | inr (rest, h, stands) ↦ rw h (inr stands)
]

-- The search goes through the features behind the current one, or through all where there is no
-- current one among them. If none of these is offered by the server and not disabled, the session
-- ends for want of a feature. Otherwise the first of them that is offered is looked at, and no later
-- one: where something that it demands is forced and has not been used, the session ends for the
-- first such thing, and else the feature is activated, becomes the current one, and its use is noted.
pub activate_feature_outcome :
    (s : Session)
    → (cs : List Feature) × Candidates s.current s.features cs
      × ((NoneOffered s cs × Ends no_supported_feature s (activate_feature s))
          ⊎ ((f : Feature) × (before : List Feature) × (later : List Feature) × (cs
                ≡ before ++ f ∷ later)
              × NoneOffered s before
              × IsOffered s f
              × ((AllMet s (demanded f.kind) × Takes f s (activate_feature s))
                  ⊎ ((g : ClientFeature) × FirstUnmet s (demanded f.kind) g
                      × Ends (reason_for g) s (activate_feature s)))))
unfolding disconnected
activate_feature_outcome s = (
  start_from s.current s.features,
  start_from_lem s.current s.features,
  elim (activate_feature_lem s) [
    | inl (p, q) ↦ inl (
      AllSkipped-NoneOffered s (start_from s.current s.features) p,
      subst (λ (z : Session × List Event). Ends no_supported_feature s z) (sym q) (refl, refl),
    )
    | inr (f, p, q) ↦ inr (
      f,
      p.before,
      p.after,
      p.split,
      AllSkipped-NoneOffered s p.before p.skipped,
      kept-IsOffered s f p.kept,
      activated_or_not s f q,
    )
  ],
)
  where
    activated_or_not :
        (s : Session) (f : Feature)
        → activate_feature s
          ≡ activate_one f (missing (fresh s) (convert_to_feature f.kind)) (fresh s)
        → (AllMet s (demanded f.kind) × Takes f s (activate_feature s))
          ⊎ ((g : ClientFeature) × FirstUnmet s (demanded f.kind) g
              × Ends (reason_for g) s (activate_feature s))
    activated_or_not s f q = elim (first_lacking_lem (fresh s) (demanded f.kind)) [
      | inl (a, e) ↦ inl (
        fresh-AllMet s (demanded f.kind) a,
        subst (λ (z : Session × List Event). Takes f s z)
            (sym (q ∙ ap (λ z. activate_one f z (fresh s)) (missing_lem (fresh s) f.kind ∙ e)))
            (activate_one-Takes s f),
      )
      | inr (g, a, e) ↦ inr (
        g,
        fresh-FirstUnmet s (demanded f.kind) g a,
        subst (λ (z : Session × List Event). Ends (reason_for g) s z)
            (sym (q ∙ ap (λ z. activate_one f z (fresh s)) (missing_lem (fresh s) f.kind ∙ e)))
            (activate_one-Ends s f g),
      )
    ]
