-- ===== src/Framing/Scan.antt =====
-- One tag in the loop of `nextPart`, where the bytes at hand are text, then `<`, then what stands
-- in the tag, then `>`.
use jreen.Base.{
  ℕ, suc, ◌+◌, ◌-◌, false, [], ◌∷◌, ◌++◌, Text, ◌≡◌, refl, arith, length, ap, ◌∙◌, get_or, drop,
  get_or-drop, get_or-last, drop-length_suc, index_of-step, drop-add, drop-append, contains,
  index_of-append_self,
}
use jreen.Framing.{tag, at_end, at_start, scan}

first_of_inside :
    (inside rest : Text) → get_or (inside ++ b'>' ∷ rest) 0 0 ≡ get_or (inside ++ b'>' ∷ []) 0 0
first_of_inside [] rest = refl
first_of_inside (c ∷ inside) rest = refl

-- What stands in the tag behind `lead`, which the loop finds from `i` on.
pub record TagAt (data' lead inside rest : Text) (i : ℕ) : Type 0 where
  pub here : drop i data' ≡ lead ++ b'<' ∷ (inside ++ b'>' ∷ rest)
  pub no_open : contains b'<' lead ≡ false
  pub no_close : contains b'>' inside ≡ false

module _ {data' lead inside rest : Text} {i : ℕ} (t : TagAt data' lead inside rest i) where
  abbrev pub start : ℕ
  start = i + length lead

  abbrev pub end : ℕ
  end = start + suc (length inside)

  at_start_bytes : drop start data' ≡ b'<' ∷ (inside ++ b'>' ∷ rest)
  at_start_bytes =
      drop-add i (length lead) data'
      ∙ ap (drop (length lead)) t.here
      ∙ drop-append (length lead) lead _ refl

  pub behind : drop (end + 1) data' ≡ rest
  behind =
      let e : end + 1 ≡ start + (1 + (length inside + 1)) = omega arith in
      ap (λ n. drop n data') e
      ∙ drop-add start (1 + (length inside + 1)) data'
      ∙ ap (drop (1 + (length inside + 1))) at_start_bytes
      ∙ drop-add 1 (length inside + 1) (b'<' ∷ (inside ++ b'>' ∷ rest))
      ∙ drop-length_suc inside b'>' rest

  pub first_byte : get_or data' (start + 1) 0 ≡ get_or (inside ++ b'>' ∷ []) 0 0
  first_byte =
      get_or-drop start 1 data' 0
      ∙ ap (λ (s : Text). get_or s 1 0) at_start_bytes
      ∙ first_of_inside inside rest

  pub last_byte : get_or data' (end - 1) 0 ≡ get_or (b'<' ∷ inside) (length inside) 0
  last_byte =
      let e : end - 1 ≡ start + length inside = omega arith in
      ap (λ n. get_or data' n 0) e
      ∙ get_or-drop start (length inside) data' 0
      ∙ ap (λ (s : Text). get_or s (length inside) 0) at_start_bytes
      ∙ get_or-last b'<' inside (b'>' ∷ rest) 0

  pub scan-tag : (fuel d : ℕ) → scan (suc fuel) data' i d ≡ tag (scan fuel data') data' d start end
  unfolding scan at_start at_end
  scan-tag fuel d =
      rw (t.here, index_of-append_self b'<' lead (inside ++ b'>' ∷ rest) t.no_open)
        (rw (
          at_start_bytes,
          index_of-step b'>' b'<' _ refl (index_of-append_self b'>' inside rest t.no_close),
        ))
