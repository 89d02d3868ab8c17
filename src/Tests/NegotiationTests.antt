-- ===== src/Tests/NegotiationTests.antt =====
-- Negotiations with a server that offers encryption, authorization and registration.
use jreen.Base.{
  ℕ, Bool, true, false, some, List, [], ◌∷◌, ◌++◌, ◌≡◌, ◌⊎◌, inl, inr, refl, arith, Bool-cases,
  if◌then◌else◌, take, drop, suc, ◌==◌,
}
use mathlib.Core.List.{Perm}
use jreen.Negotiation.{
  Feature, Session, closed, activate_feature, activate_one, missing, default_configs,
  no_supported_feature, no_authorization_support, choose, behind, registration_request,
  security_layer, sasl, encryption, feature_less_than, register_all, force, ClientFeature, Config,
  Flags,
}
use jreen.Negotiation.Outcome.{
  activate_feature_outcome, Candidates, NoneOffered, Ends, IsOffered, AllMet, demanded, Takes,
  FirstUnmet, reason_for,
}
use jreen.Negotiation.Safety.{
  IsSafe, Knows, negotiate, negotiate-IsSafe, secured_after, features_read, feature_completed,
  connection_lost,
}
use jreen.Negotiation.Registry.{IsLowerBound, register_all-IsSorted, IsSorted, AllLess, NoneLess}

abbrev tls : Feature
tls = record { name = 1; kind = security_layer; priority = 10 }

abbrev registration : Feature
registration = record { name = 2; kind = registration_request; priority = 10 }

abbrev login : Feature
login = record { name = 3; kind = sasl; priority = 10 }

abbrev forced : ClientFeature → Config
forced encryption = force
forced f = default_configs f

abbrev start : (ClientFeature → Config) → Session
start configs = record {
  features = tls ∷ registration ∷ login ∷ [];
  activatable = λ n. true;
  current = some 1;
  configs = configs;
  used = λ f. false;
  authorized = false;
  is_connected = false;
}

registration_closes :
    (activate_feature (start default_configs)).1 ≡ closed no_authorization_support ∷ []
unfolding activate_feature choose behind missing activate_one
registration_closes = refl

activate_feature_outcome_example :
    let s = start default_configs in
    (cs : List Feature) × Candidates s.current s.features cs
    × ((NoneOffered s cs × Ends no_supported_feature s (activate_feature s))
        ⊎ ((f : Feature) × (before : List Feature) × (later : List Feature) × (cs
              ≡ before ++ f ∷ later)
            × NoneOffered s before
            × IsOffered s f
            × ((AllMet s (demanded f.kind) × Takes f s (activate_feature s))
                ⊎ ((g : ClientFeature) × FirstUnmet s (demanded f.kind) g
                    × Ends (reason_for g) s (activate_feature s)))))
activate_feature_outcome_example = activate_feature_outcome (start default_configs)

abbrev restart : Flags
restart = record {
  resend_header = true;
  authorized = false;
  activate_next = false;
  connected = false;
  authorization_failed = false;
}

abbrev all_offered : ℕ → Bool
all_offered n = true

abbrev only_login : ℕ → Bool
only_login n = n == 3

abbrev nothing : (ℕ → Bool) → ℕ → Bool
nothing offered n = false

negotiate-IsSafe_example :
    let (d, events) =
      negotiate nothing
        (features_read all_offered
          ∷ feature_completed restart
          ∷ features_read only_login
          ∷ connection_lost
          ∷ features_read only_login
          ∷ [])
        (start forced) in
    IsSafe false events × Knows (secured_after false events) d
negotiate-IsSafe_example =
    negotiate-IsSafe nothing
      (features_read all_offered
        ∷ feature_completed restart
        ∷ features_read only_login
        ∷ connection_lost
        ∷ features_read only_login
        ∷ [])
      false (start forced) (record { forced = refl; known = refl })

unfoldable first_not_less : List Feature → Feature → ℕ
first_not_less [] f = 0
first_not_less (g ∷ gs) f =
    let rest = first_not_less gs f in if feature_less_than g f then suc rest else 0

less_trans :
    (f g h : Feature)
    → feature_less_than h g ≡ false
    → feature_less_than g f ≡ false
    → feature_less_than h f ≡ false
unfolding feature_less_than
less_trans f g h p q = ground arith

NoneLess-trans :
    (f g : Feature) (fs : List Feature)
    → feature_less_than g f ≡ false
    → NoneLess g fs
    → NoneLess f fs
NoneLess-trans f g [] e p = tt
NoneLess-trans f g (h ∷ fs) e (q, p) = (less_trans f g h q e, NoneLess-trans f g fs e p)

first-AllLess : (fs : List Feature) (f : Feature) → AllLess (take (first_not_less fs f) fs) f
unfolding first_not_less
first-AllLess [] f = tt
first-AllLess (g ∷ gs) f = elim (Bool-cases (feature_less_than g f)) [
  | inl e ↦ rw (e) (e, first-AllLess gs f)
  | inr e ↦ rw (e) tt
]

first-NoneLess :
    (fs : List Feature) (f : Feature) → IsSorted fs → NoneLess f (drop (first_not_less fs f) fs)
unfolding first_not_less
first-NoneLess [] f s = tt
first-NoneLess (g ∷ gs) f (n, s) = elim (Bool-cases (feature_less_than g f)) [
  | inl e ↦ rw (e) (first-NoneLess gs f s)
  | inr e ↦ rw (e) (e, NoneLess-trans f g gs e n)
]

first-IsLowerBound : IsLowerBound first_not_less
first-IsLowerBound = record { less = λ fs f s. first-AllLess fs f; not_less = first-NoneLess }

abbrev bare_session : Session
bare_session = record (start default_configs) { features = [] }

register_all-IsSorted_example :
    IsSorted (register_all first_not_less (login ∷ tls ∷ registration ∷ []) bare_session).features
    × Perm
        (register_all first_not_less (login ∷ tls ∷ registration ∷ []) bare_session).features
        (login ∷ tls ∷ registration ∷ [])
register_all-IsSorted_example =
    register_all-IsSorted first_not_less first-IsLowerBound (login ∷ tls ∷ registration ∷ [])
      bare_session tt
