-- ===== src/Framing/Shorter.antt =====
-- Every part that is cut off makes the bytes fewer, the header too.
use jreen.Base.{
  ℕ, ◌+◌, ◌<◌, suc, Bool, true, false, [], Option, none, some, Text, ◌≡◌, arith, length,
  length-drop, refl, index_of, index_from, inl, inr,
}
use jreen.Framing.{
  Cut, need_more, excess, out_of_fuel, upto, cut_part, scan, end_header, begin_header, xml_header,
  next_part,
}
use jreen.Framing.Progress.{Below, index_from-Below, later_part-progress}

end_header-shorter :
    (prefix s : Text) (k : ℕ) (o : Option ℕ)
    → Below k (length s) o
    → (end_header prefix s o).more ≡ false
    → length (end_header prefix s o).rest < length s
unfolding end_header
end_header-shorter prefix s k none b h = cc
end_header-shorter prefix s k (some end) b h = omega (arith, length-drop (end + 1) s)

begin_header-shorter :
    (stray : ℕ) (s : Text) (o : Option ℕ)
    → (begin_header stray s o).more ≡ false
    → length (begin_header stray s o).rest < length s
unfolding begin_header
begin_header-shorter stray s none h = cc
begin_header-shorter stray s (some begin) h = ground (
  arith,
  end_header-shorter [] s (begin + 1) (index_from b'>' s (begin + 1))
      (index_from-Below b'>' s (begin + 1)),
  end_header-shorter xml_header s 0 (index_from b'>' s 0) (index_from-Below b'>' s 0),
)

pub next_part-shorter :
    (stray : ℕ) (s : Text) (first : Bool)
    → (next_part stray s first).more ≡ false
    → length (next_part stray s first).rest < length s
next_part-shorter stray s true h =
    unfold next_part in begin_header-shorter stray s (index_of b'>' s) h
next_part-shorter stray s false h = elim (later_part-progress stray s) [
  | inl p ↦ absurd (cc)
  | inr p ↦ p.2
]

cut_part-more : (c : Cut) (s : Text) → (cut_part c s).more ≡ true → (cut_part c s).rest ≡ s
unfolding cut_part
cut_part-more need_more s h = refl
cut_part-more out_of_fuel s h = refl
cut_part-more excess s h = cc
cut_part-more (upto index) s h = cc

end_header-more :
    (prefix s : Text) (o : Option ℕ)
    → (end_header prefix s o).more ≡ true
    → (end_header prefix s o).rest ≡ s
unfolding end_header
end_header-more prefix s none h = refl
end_header-more prefix s (some end) h = cc

begin_header-more :
    (stray : ℕ) (s : Text) (o : Option ℕ)
    → (begin_header stray s o).more ≡ true
    → (begin_header stray s o).rest ≡ s
unfolding begin_header
begin_header-more stray s none h = refl
begin_header-more stray s (some begin) h = ground (
  arith,
  end_header-more [] s (index_from b'>' s (begin + 1)),
  end_header-more xml_header s (index_from b'>' s 0),
)

-- Where more is needed, nothing is taken.
pub next_part-more :
    (stray : ℕ) (s : Text) (first : Bool)
    → (next_part stray s first).more ≡ true
    → (next_part stray s first).rest ≡ s
unfolding next_part
next_part-more stray s true h = begin_header-more stray s (index_of b'>' s) h
next_part-more stray s false h = cut_part-more (scan (suc (length s)) s 0 0) s h
