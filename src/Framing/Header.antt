-- ===== src/Framing/Header.antt =====
-- `nextPart` on the head of a stream: the XML declaration, if there is one, and the stream tag.
use jreen.Base.{
  ℕ, ◌+◌, true, false, [], ◌∷◌, ◌++◌, Text, ◌≡◌, ◌≢◌, refl, arith, length, ap, ◌∙◌, sym, Option,
  some, index_from, contains, append_assoc, length-append, take-length, drop-length,
  drop-length_suc, index_of-append_self,
}
use mathlib.Core.Option
use jreen.Framing.{next_part, xml_header, byte_before, begin_header, end_header}

last_byte :
    (stray : ℕ) (s : Text) (c : ℕ) (k : Text)
    → byte_before stray (length (s ++ c ∷ [])) ((s ++ c ∷ []) ++ k) ≡ c
unfolding byte_before
last_byte stray [] c k = refl
last_byte stray (d ∷ []) c k = refl
last_byte stray (d ∷ e ∷ s) c k = last_byte stray (e ∷ s) c k

tag_end :
    (s k : Text) → contains b'>' s ≡ false → index_from b'>' (s ++ b'>' ∷ k) 0 ≡ some (0 + length s)
tag_end s k h = ap (λ (o : Option ℕ). Option.map (λ i. 0 + i) o) (index_of-append_self b'>' s k h)

-- Behind a declaration `d`.
second_end :
    (d t k : Text)
    → contains b'>' t ≡ false
    → index_from b'>' (d ++ b'>' ∷ (t ++ b'>' ∷ k)) (length d + 1) ≡ some (length d + 1 + length t)
second_end d t k h = rw (drop-length_suc d b'>' (t ++ b'>' ∷ k), index_of-append_self b'>' t k h)

cut_at :
    (prefix data' s k : Text) (end : ℕ)
    → data' ≡ s ++ k
    → end + 1 ≡ length s
    → end_header prefix data' (some end) ≡ record { result = prefix ++ s; rest = k; more = false }
unfolding end_header
cut_at prefix data' s k end e h = rw (e, h, take-length s k, drop-length s k)

module _ (stray : ℕ) where
  -- A head with no XML declaration ends at its first `>` and gets a declaration in front.
  pub next_part-stream_tag :
      (s : Text) (c : ℕ) (k : Text)
      → contains b'>' (s ++ c ∷ []) ≡ false
      → c ≢ b'?'
      → next_part stray ((s ++ c ∷ []) ++ b'>' ∷ k) true
        ≡ record { result = xml_header ++ ((s ++ c ∷ []) ++ b'>' ∷ []); rest = k; more = false }
  unfolding next_part begin_header
  next_part-stream_tag s c k plain h =
      let t = s ++ c ∷ [] in
      ap (begin_header stray (t ++ b'>' ∷ k)) (index_of-append_self b'>' t k plain)
      ∙ ground (
        arith,
        last_byte stray s c (b'>' ∷ k),
        tag_end t k plain,
        cut_at xml_header (t ++ b'>' ∷ k) (t ++ b'>' ∷ []) k (0 + length t)
            (sym (append_assoc t (b'>' ∷ []) k)) (omega (arith, length-append t (b'>' ∷ []))),
      )

  -- A head with an XML declaration, which ends in `?`, goes up to the end of the tag behind it.
  pub next_part-declaration :
      (s t k : Text)
      → contains b'>' (s ++ b'?' ∷ []) ≡ false
      → contains b'>' t ≡ false
      → next_part stray ((s ++ b'?' ∷ []) ++ b'>' ∷ (t ++ b'>' ∷ k)) true
        ≡ record { result = (s ++ b'?' ∷ []) ++ b'>' ∷ (t ++ b'>' ∷ []); rest = k; more = false }
  unfolding next_part begin_header
  next_part-declaration s t k plain h =
      let d = s ++ b'?' ∷ [] in
      let whole = d ++ b'>' ∷ (t ++ b'>' ∷ k) in
      ap (begin_header stray whole) (index_of-append_self b'>' d (t ++ b'>' ∷ k) plain)
      ∙ ground (
        arith,
        last_byte stray s b'?' (b'>' ∷ (t ++ b'>' ∷ k)),
        second_end d t k h,
        cut_at [] whole (d ++ b'>' ∷ (t ++ b'>' ∷ [])) k (length d + 1 + length t)
            (simp append_assoc)
            (omega (arith, length-append d (b'>' ∷ (t ++ b'>' ∷ [])), length-append t (b'>' ∷ []))),
      )
