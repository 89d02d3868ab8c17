-- ===== src/Parser/Arrival.antt =====
-- However the bytes of a stream are cut up when they come in, and whenever the events of the parser
-- are delivered, in the end the same parts have been read.
use jreen.Base.{
  ℕ, zero, suc, ◌+◌, ◌≤◌, ◌<◌, Bool, true, false, not, ◌&&◌, ◌||◌, [], ◌∷◌, ◌++◌, if◌then◌else◌,
  Text, is_empty, length, length-append, ◌≡◌, refl, sym, ap, ◌∙◌, arith, Bool-cases, inl, inr, ◌⊎◌,
}
use jreen.Framing.{Part, next_part}
use jreen.Framing.Stable.{overruns, overruns-append, overruns-more, next_part-append}
use jreen.Framing.Shorter.{next_part-shorter, next_part-more}
use jreen.Parser.{Core, Parser, Readers, deliver, loop}

-- What is left of the bytes, and what has been read of them; `balanced` as long as no part had an
-- end tag too many.
pub record Drained (N R V S : Type 0) : Type 0 where
  pub left : Text
  pub first : Bool
  pub core : Core N R V S
  pub balanced : Bool

module _ {N R V S : Type 0} (q : Readers N R V S) where
  -- The parts of the bytes, one after the other, with no event in between.
  unfoldable pub drain : ℕ → Text → Bool → Core N R V S → Drained N R V S
  unfolding overruns
  drain zero b f c = record { left = b; first = f; core = c; balanced = true }
  drain (suc n) b f c =
      let part = next_part q.stray b f in
      let rest = drain n part.rest false (deliver q part.result c).0 in
      if is_empty b || part.more
      then record { left = b; first = f; core = c; balanced = true }
      else record rest { balanced = not (overruns b f) && rest.balanced }

  unfoldable pub all_parts : Text → Bool → Core N R V S → Drained N R V S
  unfolding drain
  all_parts b f c = drain (length b) b f c

  drain-enough :
      (n m : ℕ) (b : Text) (f : Bool) (c : Core N R V S)
      → length b ≤ n
      → length b ≤ m
      → drain n b f c ≡ drain m b f c
  unfolding drain
  drain-enough zero zero b f c h k = refl
  drain-enough zero (suc m) [] f c h k = refl
  drain-enough zero (suc m) (x ∷ b) f c h k = absurd (omega arith)
  drain-enough (suc n) zero [] f c h k = refl
  drain-enough (suc n) zero (x ∷ b) f c h k = absurd (omega arith)
  drain-enough (suc n) (suc m) [] f c h k = refl
  drain-enough (suc n) (suc m) (x ∷ b) f c h k =
      let part = next_part q.stray (x ∷ b) f in
      elim (Bool-cases part.more) [
        | inl e ↦ rw e refl
        | inr e ↦
            let less = next_part-shorter q.stray (x ∷ b) f e in
            ap
              (λ (z : Drained N R V S).
                if part.more
                then record { left = x ∷ b; first = f; core = c; balanced = true }
                else record z { balanced = not (overruns (x ∷ b) f) && z.balanced })
              (drain-enough n m part.rest false (deliver q part.result c).0 (omega (arith, less))
                (omega (arith, less)))
      ]

  -- A complete part is the first one whatever comes in behind it.
  module _ (x : ℕ) (b a : Text) (f : Bool) (c : Core N R V S) where
    abbrev part : Part
    part = next_part q.stray (x ∷ b) f

    all_parts-step :
        part.more ≡ false
        → overruns (x ∷ b) f ≡ false
        → overruns (x ∷ (b ++ a)) f ≡ false
        → all_parts (x ∷ (b ++ a)) f c
          ≡ all_parts (part.rest ++ a) false (deliver q part.result c).0
    unfolding all_parts drain
    all_parts-step e o p =
        let whole = next_part-append q.stray (x ∷ b) a f o e in
        let long = part.rest ++ a in
        let after = (deliver q part.result c).0 in
        let less = next_part-shorter q.stray (x ∷ b) f e in
        rw (whole, e, p)
          (drain-enough (length (b ++ a)) (length long) long false after
            (omega (arith, less, length-append part.rest a, length-append b a)) (omega arith))

    overruns-before : overruns (x ∷ (b ++ a)) f ≡ false → overruns (x ∷ b) f ≡ false
    overruns-before h = elim (Bool-cases (overruns (x ∷ b) f)) [
      | inl e ↦ absurd (ground (arith, h, overruns-append (x ∷ b) a f e))
      | inr e ↦ e
    ]

  -- Of balanced bytes every part is.
  all_parts-overruns :
      (x : ℕ) (b : Text) (f : Bool) (c : Core N R V S)
      → (all_parts (x ∷ b) f c).balanced ≡ true
      → overruns (x ∷ b) f ≡ false
  unfolding all_parts drain
  all_parts-overruns x b f c h = elim (Bool-cases (overruns (x ∷ b) f)) [
    | inr o ↦ o
    | inl o ↦ let e = overruns-more q.stray (x ∷ b) f o in absurd (ground (arith, h, o, e))
  ]

  -- Nothing more can be read of these bytes.
  abbrev pub IsStuck : Text → Bool → Type 0
  IsStuck b f = (is_empty b || (next_part q.stray b f).more) ≡ true

  pub all_parts-IsStuck :
      (b : Text) (f : Bool) (c : Core N R V S)
      → IsStuck b f
      → all_parts b f c ≡ record { left = b; first = f; core = c; balanced = true }
  unfolding all_parts drain
  all_parts-IsStuck [] f c h = refl
  all_parts-IsStuck (x ∷ b) f c h = rw h refl

  abbrev pub rest_of : Parser N R V S → Text → Drained N R V S
  rest_of s a = all_parts (s.buffer ++ a) s.first s.core

  -- What the loop leaves: it stands, and either stopped for an event or can read nothing more.
  pub record Left (b : Text) (h : ℕ) (s : Parser N R V S) : Type 0 where
    pub stands : s.at_parsing ≡ false
    pub shorter : length s.buffer ≤ length b
    pub waits :
        ((s.hooks ≡ h + 1) × (length s.buffer < length b))
        ⊎ ((s.hooks ≡ h) × IsStuck s.buffer s.first)

  Left-longer :
      (b c : Text) (h : ℕ) (s : Parser N R V S) → length b < length c → Left b h s → Left c h s
  Left-longer b c h s less k = record {
    stands = k.stands;
    shorter = omega (arith, less, k.shorter);
    waits = elim k.waits [ inl w ↦ inl (w.0, omega (arith, w.1, less)) | inr w ↦ inr w ];
  }

  pub loop-Left :
      (n : ℕ) (b : Text) (f : Bool) (h : ℕ) (c : Core N R V S)
      → length b < n
      → Left b h (loop q n b f h c)
  unfolding loop
  loop-Left zero b f h c l = absurd (omega arith)
  loop-Left (suc n) [] f h c l = record {
    stands = refl;
    shorter = omega arith;
    waits = inr (refl, refl);
  }
  loop-Left (suc n) (x ∷ b) f h c l =
      let p = next_part q.stray (x ∷ b) f in
      let (d, stopped) = deliver q p.result c in
      elim (Bool-cases p.more) [
        | inl e ↦
            rw (e, next_part-more q.stray (x ∷ b) f e)
              (record { stands = refl; shorter = omega arith; waits = inr (refl, e) })
        | inr e ↦
            let less = next_part-shorter q.stray (x ∷ b) f e in
            elim (Bool-cases stopped) [
              | inl t ↦
                  rw (e, t)
                    (record {
                      stands = refl;
                      shorter = omega (arith, less);
                      waits = inl (refl, less);
                    })
              | inr t ↦
                  rw (e, t)
                    (Left-longer p.rest (x ∷ b) h (loop q n p.rest false h d) less
                      (loop-Left n p.rest false h d (omega (arith, less))))
            ]
      ]

  pub loop-drains :
      (n : ℕ) (b : Text) (f : Bool) (h : ℕ) (c : Core N R V S) (a : Text)
      → length b < n
      → (all_parts (b ++ a) f c).balanced ≡ true
      → rest_of (loop q n b f h c) a ≡ all_parts (b ++ a) f c
  unfolding loop
  loop-drains zero b f h c a l g = absurd (omega arith)
  loop-drains (suc n) [] f h c a l g = refl
  loop-drains (suc n) (x ∷ b) f h c a l g =
      let p = next_part q.stray (x ∷ b) f in
      let (d, stopped) = deliver q p.result c in
      elim (Bool-cases p.more) [
        | inl e ↦ rw (e, next_part-more q.stray (x ∷ b) f e) refl
        | inr e ↦
            let less = next_part-shorter q.stray (x ∷ b) f e in
            let o = all_parts-overruns x (b ++ a) f c g in
            let step = all_parts-step x b a f c e (overruns-before x b a f c o) o in
            elim (Bool-cases stopped) [
              | inl t ↦ rw (e, t) (sym step)
              | inr t ↦
                  rw (e, t)
                    (loop-drains n p.rest false h d a (omega (arith, less))
                        (ap (λ z. z.balanced) (sym step) ∙ g)
                      ∙ sym step)
            ]
      ]
