-- ===== src/Framing/Stable.antt =====
-- Bytes that come in later do not change a part that is complete.
use jreen.Base.{
  ℕ, zero, suc, ◌+◌, ◌-◌, ◌≤◌, ◌<◌, Bool, true, false, some, [], ◌∷◌, ◌++◌, Text, ◌≡◌, refl, sym,
  arith, length, drop, take, get_or, index_of, index_from, ap, ◌∙◌, ◌≢◌, Option-cases, inl, inr,
  length-append, subst, get_or-drop,
}
use mathlib.Core.Option
use jreen.Framing.{
  Cut, need_more, excess, out_of_fuel, upto, resume, close_tag, tag, at_end, at_start, scan,
  cut_part, next_part, Part, byte_before, begin_header, end_header, xml_header,
}
use jreen.Framing.Progress.{index_of-Below, index_from-Below, Below, Fits, scan-Fits}

pub index_of-append :
    (c : ℕ) (s t : Text) {i : ℕ} → index_of c s ≡ some i → index_of c (s ++ t) ≡ some i
unfolding index_of
index_of-append c [] t h = cc
index_of-append c (d ∷ s) t {i} h = elim (Option-cases (index_of c s)) [
  | inl e ↦ ground (arith, e)
  | inr (j, e) ↦ ground (arith, e, index_of-append c s t e)
]

get_or-index_of : (c : ℕ) (s : Text) {i : ℕ} → index_of c s ≡ some i → get_or s i 0 ≡ c
unfolding index_of
get_or-index_of c [] h = cc
get_or-index_of c (d ∷ s) {i} h = elim (Option-cases (index_of c s)) [
  | inl e ↦ ground (arith, e)
  | inr (j, e) ↦ ground (arith, e, get_or-index_of c s e)
]

drop-append_le : (k : ℕ) (s t : Text) → k ≤ length s → drop k (s ++ t) ≡ drop k s ++ t
drop-append_le zero s t h = refl
drop-append_le (suc k) [] t h = absurd (omega arith)
drop-append_le (suc k) (c ∷ s) t h = drop-append_le k s t (omega arith)

pub take-append_le : (k : ℕ) (s t : Text) → k ≤ length s → take k (s ++ t) ≡ take k s
take-append_le zero s t h = refl
take-append_le (suc k) [] t h = absurd (omega arith)
take-append_le (suc k) (c ∷ s) t h = ap (λ z. c ∷ z) (take-append_le k s t (omega arith))

get_or-append : (i : ℕ) (s t : Text) → i < length s → get_or (s ++ t) i 0 ≡ get_or s i 0
get_or-append i [] t h = absurd (omega arith)
get_or-append zero (c ∷ s) t h = refl
get_or-append (suc i) (c ∷ s) t h = get_or-append i s t (omega arith)

module _ (c : ℕ) (s t : Text) (k : ℕ) {i : ℕ} (found : index_from c s k ≡ some i) where
  pub index_from-bounds : (k ≤ i) × (i < length s)
  index_from-bounds = subst (λ o. Below k (length s) o) found (index_from-Below c s k)

  pub index_from-append : index_from c (s ++ t) k ≡ some i
  index_from-append =
      let within : k ≤ length s = omega (arith, index_from-bounds) in
      elim (Option-cases (index_of c (drop k s))) [
        | inl e ↦ ground (arith, e, found)
        | inr (j, e) ↦
            rw (drop-append_le k s t within, index_of-append c (drop k s) t e)
              (ap (λ o. Option.map (λ n. k + n) o) (sym e) ∙ found)
      ]

  pub get_or-index_from : get_or s i 0 ≡ c
  get_or-index_from = elim (Option-cases (index_of c (drop k s))) [
    | inl e ↦ ground (arith, e, found)
    | inr (j, e) ↦
        let place : i ≡ k + j = ground (arith, e, found) in
        rw (place, get_or-drop k j s 0) (get_or-index_of c (drop k s) e)
  ]

abbrev pub is_decided : Cut → Bool
is_decided (upto index) = true
is_decided excess = true
is_decided _ = false

-- What the rounds that are left decide, they decide on more bytes too.
abbrev Agree : (ℕ → ℕ → Cut) → (ℕ → ℕ → Cut) → Type 0
Agree next more = (j d : ℕ) → is_decided (next j d) ≡ true → more j d ≡ next j d

module _ (next more : ℕ → ℕ → Cut) (agree : Agree next more) where
  resume-Agree : (j d : ℕ) → is_decided (resume next j d) ≡ true → resume more j d ≡ resume next j d
  unfolding resume
  resume-Agree j zero h = refl
  resume-Agree j (suc d) h = agree j (suc d) h

  close_tag-Agree :
      (j d : ℕ) → is_decided (close_tag next j d) ≡ true → close_tag more j d ≡ close_tag next j d
  unfolding close_tag
  close_tag-Agree j zero h = refl
  close_tag-Agree j (suc d) h = resume-Agree j d h

  module _ (s t : Text) where
    tag-Agree :
        (start end d : ℕ)
        → start + 1 < length s
        → end - 1 < length s
        → is_decided (tag next s d start end) ≡ true
        → tag more (s ++ t) d start end ≡ tag next s d start end
    unfolding tag
    tag-Agree start end d h k e = ground (
      arith,
      get_or-append (start + 1) s t h,
      get_or-append (end - 1) s t k,
      close_tag-Agree (end + 1) d,
      resume-Agree (end + 1) d,
      resume-Agree (end + 1) (suc d),
    )

    at_end-Agree :
        (start d : ℕ)
        → start < length s
        → get_or s start 0 ≡ b'<'
        → is_decided (at_end next s d start (index_from b'>' s start)) ≡ true
        → at_end more (s ++ t) d start (index_from b'>' (s ++ t) start)
          ≡ at_end next s d start (index_from b'>' s start)
    unfolding at_end
    at_end-Agree start d l opening h = elim (Option-cases (index_from b'>' s start)) [
      | inl e ↦ absurd (ground (arith, e, h))
      | inr (end, e) ↦
          let b = index_from-bounds b'>' s t start e in
          let close = get_or-index_from b'>' s t start e in
          let apart : start ≢ end =
            (λ z. absurd (ground (arith, close, opening, ap (λ n. get_or s n 0) z))) in
          rw (e, index_from-append b'>' s t start e)
            (tag-Agree start end d (omega (arith, b, apart)) (omega (arith, b)) (rw e at h))
    ]

    at_start-Agree :
        (j d : ℕ)
        → is_decided (at_start next s d (index_from b'<' s j)) ≡ true
        → at_start more (s ++ t) d (index_from b'<' (s ++ t) j)
          ≡ at_start next s d (index_from b'<' s j)
    unfolding at_start
    at_start-Agree j d h = elim (Option-cases (index_from b'<' s j)) [
      | inl e ↦ absurd (ground (arith, e, h))
      | inr (start, e) ↦
          let b = index_from-bounds b'<' s t j e in
          let opening = get_or-index_from b'<' s t j e in
          rw (e, index_from-append b'<' s t j e) (at_end-Agree start d b.1 opening (rw e at h))
    ]

scan-append :
    (f g : ℕ) (s t : Text) (j d : ℕ)
    → f ≤ g
    → is_decided (scan f s j d) ≡ true
    → scan g (s ++ t) j d ≡ scan f s j d
unfolding scan
scan-append zero g s t j d h k = cc
scan-append (suc f) zero s t j d h k = absurd (omega arith)
scan-append (suc f) (suc g) s t j d h k =
    at_start-Agree (scan f s) (scan g (s ++ t)) (λ i e m. scan-append f g s t i e (omega arith) m) s
      t j d k

abbrev pub is_excess : Cut → Bool
is_excess excess = true
is_excess _ = false

-- An end tag too many, with which the loop takes all the bytes that are there.
unfoldable pub overruns : Text → Bool → Bool
overruns data' true = false
overruns data' false = is_excess (scan (suc (length data')) data' 0 0)

abbrev later : Part → Text → Part
later p t = record p { rest = p.rest ++ t }

cut_part-append :
    (c : Cut) (s t : Text)
    → is_excess c ≡ false
    → (cut_part c s).more ≡ false
    → Fits s c
    → cut_part c (s ++ t) ≡ later (cut_part c s) t
unfolding cut_part
cut_part-append need_more s t x h k = cc
cut_part-append excess s t x h k = cc
cut_part-append out_of_fuel s t x h k = cc
cut_part-append (upto index) s t x h k =
    rw (take-append_le index s t k.1, drop-append_le index s t k.1) refl

decided_parts : (c : Cut) (s : Text) → (cut_part c s).more ≡ false → is_decided c ≡ true
unfolding cut_part
decided_parts need_more s h = cc
decided_parts excess s h = refl
decided_parts out_of_fuel s h = cc
decided_parts (upto index) s h = refl

module _ (stray : ℕ) where
  end_header-append :
      (prefix s t : Text) (k : ℕ)
      → (end_header prefix s (index_from b'>' s k)).more ≡ false
      → end_header prefix (s ++ t) (index_from b'>' (s ++ t) k)
        ≡ later (end_header prefix s (index_from b'>' s k)) t
  unfolding end_header
  end_header-append prefix s t k h = elim (Option-cases (index_from b'>' s k)) [
    | inl e ↦ absurd (ground (arith, e, h))
    | inr (end, e) ↦
        let b = index_from-bounds b'>' s t k e in
        rw
          (
            e,
            index_from-append b'>' s t k e,
            take-append_le (end + 1) s t (omega (arith, b)),
            drop-append_le (end + 1) s t (omega (arith, b)),
          )
          refl
  ]

  byte_before-append :
      (i : ℕ) (s t : Text) → i < length s → byte_before stray i (s ++ t) ≡ byte_before stray i s
  unfolding byte_before
  byte_before-append zero s t h = refl
  byte_before-append (suc i) s t h = get_or-append i s t (omega arith)

  begin_header-some :
      (s t : Text) (begin : ℕ)
      → begin < length s
      → (begin_header stray s (some begin)).more ≡ false
      → begin_header stray (s ++ t) (some begin) ≡ later (begin_header stray s (some begin)) t
  unfolding begin_header
  begin_header-some s t begin b h = ground (
    arith,
    byte_before-append begin s t b,
    end_header-append [] s t (begin + 1),
    end_header-append xml_header s t 0,
  )

  begin_header-append :
      (s t : Text)
      → (begin_header stray s (index_of b'>' s)).more ≡ false
      → begin_header stray (s ++ t) (index_of b'>' (s ++ t))
        ≡ later (begin_header stray s (index_of b'>' s)) t
  unfolding begin_header
  begin_header-append s t h = elim (Option-cases (index_of b'>' s)) [
    | inl e ↦ absurd (ground (arith, e, h))
    | inr (begin, e) ↦
        let b : Below 0 (length s) (some begin) =
          subst (λ o. Below 0 (length s) o) e (index_of-Below b'>' s) in
        rw (e, index_of-append b'>' s t e)
          (begin_header-some s t begin b.1 (subst (λ o. (begin_header stray s o).more ≡ false) e h))
  ]

  -- A part that is complete, and not taken for want of a start tag, is the same part whatever comes
  -- in behind it.
  pub next_part-append :
      (s t : Text) (first : Bool)
      → overruns s first ≡ false
      → (next_part stray s first).more ≡ false
      → next_part stray (s ++ t) first ≡ later (next_part stray s first) t
  unfolding next_part overruns
  next_part-append s t true x h = begin_header-append s t h
  next_part-append s t false x h =
      let c = scan (suc (length s)) s 0 0 in
      let d = decided_parts c s h in
      ap (λ z. cut_part z (s ++ t))
        (scan-append (suc (length s)) (suc (length (s ++ t))) s t 0 0
          (omega (arith, length-append s t)) d)
      ∙ cut_part-append c s t x h (scan-Fits (suc (length s)) s 0 0 (omega arith) (omega arith))

excess_decided : (c : Cut) → is_excess c ≡ true → is_decided c ≡ true
excess_decided excess h = refl
excess_decided (upto index) h = refl
excess_decided need_more h = cc
excess_decided out_of_fuel h = cc

-- So bytes that overrun do so whatever comes in behind them.
pub overruns-append :
    (s t : Text) (first : Bool) → overruns s first ≡ true → overruns (s ++ t) first ≡ true
unfolding overruns
overruns-append s t true h = cc
overruns-append s t false h =
    let c = scan (suc (length s)) s 0 0 in
    ap is_excess (
      scan-append (suc (length s)) (suc (length (s ++ t))) s t 0 0
        (omega (arith, length-append s t)) (excess_decided c h))
    ∙ h

cut_part-excess : (c : Cut) (s : Text) → is_excess c ≡ true → (cut_part c s).more ≡ false
unfolding cut_part
cut_part-excess excess s h = refl
cut_part-excess (upto index) s h = cc
cut_part-excess need_more s h = cc
cut_part-excess out_of_fuel s h = cc

-- Bytes that overrun are a part.
pub overruns-more :
    (stray : ℕ) (s : Text) (first : Bool)
    → overruns s first ≡ true
    → (next_part stray s first).more ≡ false
unfolding next_part overruns
overruns-more stray s true h = cc
overruns-more stray s false h = cut_part-excess (scan (suc (length s)) s 0 0) s h
