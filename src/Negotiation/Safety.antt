-- ===== src/Negotiation/Safety.antt =====
-- What a whole negotiation may do before the stream is encrypted.
use jreen.Base.{
  ℕ, Bool, true, false, ◌||◌, Option, none, some, List, [], ◌∷◌, ◌++◌, ◌≡◌, inl, inr, refl, sym,
  arith, Bool-cases,
}
use jreen.Negotiation.{
  Feature, security_layer, compression_layer, Session, Event, activated, closed, dropped,
  activate_feature, choose, activate_one, missing, convert_to_feature, convert_to_reason,
  emit_disconnected, no_supported_feature, start_from, force, encryption, disconnected, Flags,
  completed, then_if, ClientFeature, mark_used, emit_authorized, emit_connected, send_header,
  authorization_error, Reason,
}
use jreen.Negotiation.Choice.{choose_lem}

-- What can happen to a negotiation: the features of the server have been read, with what each
-- registered feature now answers, a feature has completed, or the connection is gone.
pub data Happening : Type 0 where
  features_read : (ℕ → Bool) → Happening
  feature_completed : Flags → Happening
  connection_lost : Happening

abbrev pub is_encryption : Feature → Bool
is_encryption f = elim f.kind [ security_layer ↦ true | _ ↦ false ]

-- Everything but encryption and compression: what is asked for in the name of the user.
abbrev pub is_confidential : Feature → Bool
is_confidential f = elim f.kind [ security_layer ↦ false | compression_layer ↦ false | _ ↦ true ]

-- Whether encryption has been activated in the present connection, kept up by hand.
abbrev pub track : Event → Bool → Bool
track (activated f) secured = is_encryption f || secured
track (closed r) secured = false
track dropped secured = false
track _ secured = secured

unfoldable pub secured_after : Bool → List Event → Bool
secured_after secured [] = secured
secured_after secured (e ∷ es) = secured_after (track e secured) es

abbrev pub demands : Event → Bool
demands (activated f) = is_confidential f
demands _ = false

-- No confidential feature is activated while the connection is not secured.
unfoldable pub IsSafe : Bool → List Event → Type 0
IsSafe secured [] = Unit
IsSafe secured (e ∷ es) = (demands e ≡ true → secured ≡ true) × IsSafe (track e secured) es

-- Encryption is demanded, and the session knows whether it has been activated.
pub record Knows (secured : Bool) (s : Session) : Type 0 where
  pub forced : s.configs encryption ≡ force
  pub known : s.used encryption ≡ secured

abbrev pub IsGood : Bool → Session × List Event → Type 0
IsGood secured (s, events) = IsSafe secured events × Knows (secured_after secured events) s

IsSafe-append :
    (secured : Bool) (es fs : List Event)
    → IsSafe secured es
    → IsSafe (secured_after secured es) fs
    → IsSafe secured (es ++ fs)
unfolding IsSafe secured_after
IsSafe-append secured [] fs p q = q
IsSafe-append secured (e ∷ es) fs (d, p) q = (d, IsSafe-append (track e secured) es fs p q)

secured_after-append :
    (secured : Bool) (es fs : List Event)
    → secured_after secured (es ++ fs) ≡ secured_after (secured_after secured es) fs
unfolding secured_after
secured_after-append secured [] fs = refl
secured_after-append secured (e ∷ es) fs = secured_after-append (track e secured) es fs

then_if-IsGood :
    (secured flag : Bool) (part : Session → Session × List Event) (r : Session × List Event)
    → ((b : Bool) (s : Session) → Knows b s → IsGood b (part s))
    → IsGood secured r
    → IsGood secured (then_if flag part r)
then_if-IsGood secured false part (s, es) g p = p
then_if-IsGood secured true part (s, es) g (p, k) =
    let (q, k') = g (secured_after secured es) s k in
    let (d, fs) = part s in
    (IsSafe-append secured es fs p q, rw (secured_after-append secured es fs) k')

emit_disconnected-IsGood :
    (secured : Bool) (reason : Reason) (s : Session)
    → Knows secured s
    → IsGood secured (emit_disconnected reason s)
unfolding disconnected IsSafe secured_after
emit_disconnected-IsGood secured reason s k =
    (((λ e. cc), tt), record { forced = k.forced; known = refl })

missing-none :
    (secured : Bool) (s : Session) (f : Feature)
    → Knows secured s
    → missing s (convert_to_feature f.kind) ≡ none
    → is_confidential f ≡ true
    → secured ≡ true
unfolding missing
missing-none secured s f k m c = ground (arith, k.forced, k.known)

marked_encryption :
    (f : Feature) (used : ClientFeature → Bool)
    → mark_used (convert_to_feature f.kind) used encryption ≡ (is_encryption f || used encryption)
unfolding mark_used
marked_encryption f used = ground arith

activate_one-IsGood :
    (secured : Bool) (s : Session) (f : Feature) (m : Option ClientFeature)
    → m ≡ missing s (convert_to_feature f.kind)
    → Knows secured s
    → IsGood secured (activate_one f m s)
unfolding activate_one IsSafe secured_after
activate_one-IsGood secured s f (some g) e k =
    emit_disconnected-IsGood secured (convert_to_reason g) s k
activate_one-IsGood secured s f none e k = (
  (missing-none secured s f k (sym e), tt),
  record { forced = k.forced; known = ground (arith, marked_encryption f s.used, k.known) },
)

choose-IsGood :
    (fs : List Feature) (secured : Bool) (s : Session)
    → Knows secured s
    → IsGood secured (choose fs s)
choose-IsGood fs secured s k = elim (choose_lem fs s) [
  | inl (p, e) ↦ rw (e) (emit_disconnected-IsGood secured no_supported_feature s k)
  | inr (f, p, e) ↦ rw (e) (activate_one-IsGood secured s f _ refl k)
]

activate_feature-IsGood :
    (secured : Bool) (s : Session) → Knows secured s → IsGood secured (activate_feature s)
unfolding activate_feature
activate_feature-IsGood secured s k =
    choose-IsGood (start_from s.current s.features) secured (record s { current = none })
      (record { forced = k.forced; known = k.known })

module _ (reset : (ℕ → Bool) → ℕ → Bool) where
  -- One thing that happens: `_q_stateChanged`, the end of the features in `handleEndElement`, or
  -- `completed`.
  unfoldable pub happen : Happening → Session → Session × List Event
  happen (features_read offered) s =
      activate_feature (record s { activatable = offered; current = none })
  happen (feature_completed flags) s = completed reset flags s
  happen connection_lost s = (disconnected s, dropped ∷ [])

  unfoldable pub negotiate : List Happening → Session → Session × List Event
  unfolding happen
  negotiate [] s = (s, [])
  negotiate (h ∷ hs) s =
      let (d, first) = happen h s in let (e, rest) = negotiate hs d in (e, first ++ rest)

  completed-IsGood :
      (flags : Flags) (secured : Bool) (s : Session)
      → Knows secured s
      → IsGood secured (completed reset flags s)
  unfolding completed IsSafe secured_after
  completed-IsGood flags secured s k = elim (Bool-cases flags.authorization_failed) [
    | inl e ↦ rw (e) (emit_disconnected-IsGood secured authorization_error s k)
    | inr e ↦ rw (e) (
        then_if-IsGood secured flags.connected emit_connected _
          (λ b t p. (((λ e. cc), tt), record { forced = p.forced; known = p.known }))
          (then_if-IsGood secured flags.activate_next activate_feature _ activate_feature-IsGood (
            then_if-IsGood secured flags.resend_header (send_header reset) _
              (λ b t p. (((λ e. cc), tt), record { forced = p.forced; known = p.known }))
              (then_if-IsGood secured flags.authorized emit_authorized (s, [])
                (λ b t p. (((λ e. cc), tt), record { forced = p.forced; known = p.known }))
                (tt, k)))))
  ]

  happen-IsGood :
      (h : Happening) (secured : Bool) (s : Session) → Knows secured s → IsGood secured (happen h s)
  unfolding happen disconnected IsSafe secured_after
  happen-IsGood (features_read offered) secured s k =
      activate_feature-IsGood secured (record s { activatable = offered; current = none })
        (record { forced = k.forced; known = k.known })
  happen-IsGood (feature_completed flags) secured s k = completed-IsGood flags secured s k
  happen-IsGood connection_lost secured s k =
      (((λ e. cc), tt), record { forced = k.forced; known = refl })

  -- Where encryption is forced, no sequence of happenings makes the client activate anything but
  -- encryption or compression in a connection in which it has not activated encryption before. At
  -- the end the session still knows whether it has, after any number of lost connections.
  pub negotiate-IsSafe :
      (hs : List Happening) (secured : Bool) (s : Session)
      → Knows secured s
      → let (d, events) = negotiate hs s in
        IsSafe secured events × Knows (secured_after secured events) d
  unfolding negotiate IsSafe secured_after
  negotiate-IsSafe [] secured s k = (tt, k)
  negotiate-IsSafe (h ∷ hs) secured s k =
      let (p, k') = happen-IsGood h secured s k in
      let (d, first) = happen h s in
      let (q, k'') = negotiate-IsSafe hs (secured_after secured first) d k' in
      let (e, rest) = negotiate hs d in
      (IsSafe-append secured first rest p q, rw (secured_after-append secured first rest) k'')
