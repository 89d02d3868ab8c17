-- ===== src/Parser/Delivery.antt =====
-- Runs of the parser: bytes that come in and events that are delivered, in any order.
use jreen.Base.{
  ℕ, zero, suc, ◌+◌, ◌≤◌, ◌<◌, true, false, List, [], ◌∷◌, ◌++◌, Text, length, append-nil,
  append_assoc, ◌≡◌, refl, sym, ap, ◌∙◌, arith, subst, inl, inr, ◌⊎◌, replicate,
}
use jreen.Parser.{Core, Parser, Readers, parse_data, append_data, hook, delivered}
use jreen.Parser.Arrival.{
  all_parts, all_parts-IsStuck, IsStuck, rest_of, Left, loop-Left, loop-drains,
}

pub data Step : Type 0 where
  arrive : Text → Step
  fire : Step

abbrev pub bytes : List Step → Text
bytes [] = []
bytes (arrive a ∷ steps) = a ++ bytes steps
bytes (fire ∷ steps) = bytes steps

abbrev pub fires : ℕ → List Step
fires n = replicate n fire

module _ {N R V S : Type 0} (q : Readers N R V S) where
  unfoldable pub step : Step → Parser N R V S → Parser N R V S
  unfolding append_data hook
  step (arrive a) s = append_data q a s
  step fire s = hook q s

  unfoldable pub run : List Step → Parser N R V S → Parser N R V S
  unfolding step
  run [] s = s
  run (t ∷ ts) s = run ts (step t s)

  -- A parser before any byte came in.
  abbrev pub fresh_parser : Core N R V S → Parser N R V S
  fresh_parser c = record { buffer = []; first = true; at_parsing = false; hooks = 0; core = c }

  -- Between the calls of the parser, an event is posted or nothing more can be read.
  pub record Steady (s : Parser N R V S) : Type 0 where
    pub stands : s.at_parsing ≡ false
    pub waits : (0 < s.hooks) ⊎ IsStuck q s.buffer s.first

  Left-Steady : {b : Text} {h : ℕ} {s : Parser N R V S} → Left q b h s → Steady s
  Left-Steady k = record {
    stands = k.stands;
    waits = elim k.waits [ inl w ↦ inl (omega (arith, w.0)) | inr w ↦ inr w.1 ];
  }

  parse_data-Left :
      (s : Parser N R V S) → s.at_parsing ≡ false → Left q s.buffer s.hooks (parse_data q s)
  unfolding parse_data
  parse_data-Left s e =
      rw e (loop-Left q (suc (length s.buffer)) s.buffer s.first s.hooks s.core (omega arith))

  parse_data-drains :
      (s : Parser N R V S) (a : Text)
      → s.at_parsing ≡ false
      → (rest_of q s a).balanced ≡ true
      → rest_of q (parse_data q s) a ≡ rest_of q s a
  unfolding parse_data
  parse_data-drains s a e g =
      rw e (loop-drains q (suc (length s.buffer)) s.buffer s.first s.hooks s.core a (omega arith) g)

  delivered-drains :
      (n : ℕ) (s : Parser N R V S) (a : Text)
      → s.at_parsing ≡ false
      → (rest_of q s a).balanced ≡ true
      → rest_of q (delivered q n s) a ≡ rest_of q s a
  unfolding delivered
  delivered-drains zero s a e g = refl
  delivered-drains (suc n) s a e g = parse_data-drains (record s { hooks = n }) a e g

  delivered-Steady : (n : ℕ) (s : Parser N R V S) → Steady s → Steady (delivered q n s)
  unfolding delivered
  delivered-Steady zero s k = k
  delivered-Steady (suc n) s k = Left-Steady (parse_data-Left (record s { hooks = n }) k.stands)

  step-Steady : (t : Step) (s : Parser N R V S) → Steady s → Steady (step t s)
  unfolding step hook
  step-Steady (arrive a) s k =
      Left-Steady (parse_data-Left (record s { buffer = s.buffer ++ a }) k.stands)
  step-Steady fire s k = delivered-Steady s.hooks s k

  -- Whatever comes in and whenever events are delivered, an event is posted as long as a complete
  -- part waits, and the parser is not caught in its loop.
  pub run-Steady : (ts : List Step) (s : Parser N R V S) → Steady s → Steady (run ts s)
  unfolding run
  run-Steady [] s k = k
  run-Steady (t ∷ ts) s k = run-Steady ts (step t s) (step-Steady t s k)

  -- What is read in the end depends on the bytes alone.
  pub run-drains :
      (ts : List Step) (s : Parser N R V S)
      → Steady s
      → (rest_of q s (bytes ts)).balanced ≡ true
      → rest_of q (run ts s) [] ≡ rest_of q s (bytes ts)
  unfolding run
  run-drains [] s k g = refl
  run-drains (arrive a ∷ ts) s k g =
      let t : Parser N R V S = record s { buffer = s.buffer ++ a } in
      let same : rest_of q t (bytes ts) ≡ rest_of q s (a ++ bytes ts) =
        ap (λ z. all_parts q z s.first s.core) (append_assoc s.buffer a (bytes ts)) in
      let g' = ap (λ z. z.balanced) same ∙ g in
      let one = parse_data-drains t (bytes ts) k.stands g' in
      run-drains ts (step (arrive a) s) (step-Steady (arrive a) s k)
        (ap (λ z. z.balanced) (unfold step in one) ∙ g')
      ∙ unfold step in one ∙ same
  run-drains (fire ∷ ts) s k g =
      let one = delivered-drains s.hooks s (bytes ts) k.stands g in
      run-drains ts (step fire s) (step-Steady fire s k)
        (ap (λ z. z.balanced) (unfold step in one) ∙ g)
      ∙ unfold step in one

  -- Each event that is delivered makes what is to be done smaller.
  delivered-smaller :
      (n : ℕ) (s : Parser N R V S)
      → s.at_parsing ≡ false
      → let t = delivered q (suc n) s in t.hooks + length t.buffer ≤ n + length s.buffer
  unfolding delivered
  delivered-smaller n s e =
      let k = parse_data-Left (record s { hooks = n }) e in
      elim k.waits [ inl w ↦ omega (arith, w) | inr w ↦ omega (arith, w.0, k.shorter) ]

  run-fires_idle : (k : ℕ) (s : Parser N R V S) → s.hooks ≡ 0 → run (fires k) s ≡ s
  unfolding run step hook delivered
  run-fires_idle zero s h = refl
  run-fires_idle (suc k) s h = ap (λ z. run (fires k) (delivered q z s)) h ∙ run-fires_idle k s h

  bytes-fires : (k : ℕ) → bytes (fires k) ≡ []
  bytes-fires zero = refl
  bytes-fires (suc k) = bytes-fires k

  run-fires :
      (k n : ℕ) (s : Parser N R V S)
      → s.hooks ≡ n
      → Steady s
      → n + length s.buffer ≤ k
      → (run (fires k) s).hooks ≡ 0
  unfolding run step hook
  run-fires zero n s h y l = omega (arith, h)
  run-fires (suc k) zero s h y l = ap (λ z. z.hooks) (run-fires_idle (suc k) s h) ∙ h
  run-fires (suc k) (suc n) s h y l =
      let t = delivered q (suc n) s in
      subst (λ z. (run (fires k) (delivered q z s)).hooks ≡ 0) (sym h)
        (run-fires k t.hooks t refl (delivered-Steady (suc n) s y)
          (omega (arith, l, delivered-smaller n s y.stands)))

  stuck_rest :
      (t : Parser N R V S)
      → Steady t
      → t.hooks ≡ 0
      → rest_of q t [] ≡ record { left = t.buffer; first = t.first; core = t.core; balanced = true }
  stuck_rest t k h = ap (λ z. all_parts q z t.first t.core) (append-nil t.buffer) ∙ (elim k.waits [
    | inl w ↦ absurd (omega (arith, w, h))
    | inr w ↦ all_parts-IsStuck q t.buffer t.first t.core w
  ])

  -- However the bytes came in and whichever events were delivered, after as many more events as are
  -- posted and bytes are left none is posted, and what has been read is all that the bytes hold, as
  -- long as no part has an end tag too many.
  pub all_is_read :
      (ts : List Step) (c : Core N R V S)
      → (all_parts q (bytes ts) true c).balanced ≡ true
      → let s = run ts (fresh_parser c) in
        let t = run (fires (s.hooks + length s.buffer)) s in
        let all = all_parts q (bytes ts) true c in
        (t.hooks ≡ 0) × (t.core ≡ all.core) × (t.buffer ≡ all.left) × (t.first ≡ all.first)
  all_is_read ts c g =
      let f = fresh_parser c in
      let steady : Steady f = record { stands = refl; waits = inr refl } in
      let s = run ts f in
      let n = s.hooks + length s.buffer in
      let t = run (fires n) s in
      let before = run-drains ts f steady g in
      let same : rest_of q s (bytes (fires n)) ≡ rest_of q s [] =
        ap (rest_of q s) (bytes-fires n) in
      let all = all_parts q (bytes ts) true c in
      let s_steady = run-Steady ts f steady in
      let after : rest_of q t [] ≡ all =
        run-drains (fires n) s s_steady (ap (λ z. z.balanced) (same ∙ before) ∙ g)
        ∙ same
        ∙ before in
      let none_left = run-fires n s.hooks s refl s_steady (omega arith) in
      let here = stuck_rest t (run-Steady (fires n) s s_steady) none_left in
      (
        none_left,
        ap (λ z. z.core) (sym here ∙ after),
        ap (λ z. z.left) (sym here ∙ after),
        ap (λ z. z.first) (sym here ∙ after),
      )
