-- ===== src/Framing/Progress.antt =====
-- `nextPart` always comes to an answer, loses no byte, and cuts off something whenever it does not
-- ask for more.
use jreen.Base.{
  ℕ, zero, suc, Bool, Bool-cases, false, take, ◌==◌, ◌+◌, ◌≤◌, ◌<◌, true, false, none, some, [],
  ◌∷◌, ◌++◌, Text, ◌≡◌, refl, arith, length, drop, append-nil, take-append-drop, index_of,
  index_from, inl, inr, ◌⊎◌, Option, length-drop,
}
use jreen.Framing.{
  Cut, need_more, excess, out_of_fuel, upto, resume, close_tag, tag, at_end, at_start, scan,
  cut_part, next_part, Part, xml_header, end_header, begin_header, byte_before,
}

-- What a cut may be for some bytes.
abbrev pub Fits : Text → Cut → Type 0
Fits data' need_more = Unit {0}
Fits data' excess = 0 < length data'
Fits data' out_of_fuel = ⊥
Fits data' (upto index) = (0 < index) × (index ≤ length data')

abbrev pub Below : ℕ → ℕ → Option ℕ → Type 0
Below low high none = Unit {0}
Below low high (some i) = (low ≤ i) × (i < high)

pub index_of-Below : (c : ℕ) (s : Text) → Below 0 (length s) (index_of c s)
unfolding index_of
index_of-Below c [] = tt
index_of-Below c (d ∷ s) = ground (arith, index_of-Below c s)

pub index_from-Below : (c : ℕ) (s : Text) (from : ℕ) → Below from (length s) (index_from c s from)
index_from-Below c s from = ground (arith, index_of-Below c (drop from s), length-drop from s)

module _ (data' : Text) (next : ℕ → ℕ → Cut) where
  -- The rounds that are left are good from `low` on.
  abbrev Sound : ℕ → Type 0
  Sound low = (j d : ℕ) → low < j → j ≤ length data' → Fits data' (next j d)

  resume-Fits :
      (low j d : ℕ) → Sound low → low < j → j ≤ length data' → Fits data' (resume next j d)
  unfolding resume
  resume-Fits low j zero sound l h = omega arith
  resume-Fits low j (suc d) sound l h = sound j (suc d) l h

  close_tag-Fits :
      (low j d : ℕ) → Sound low → low < j → j ≤ length data' → Fits data' (close_tag next j d)
  unfolding close_tag
  close_tag-Fits low j zero sound l h = omega arith
  close_tag-Fits low j (suc d) sound l h = resume-Fits low j d sound l h

  tag-Fits :
      (low start end d : ℕ)
      → Sound low
      → low ≤ end
      → end < length data'
      → Fits data' (tag next data' d start end)
  unfolding tag
  tag-Fits low start end d sound l h = ground (
    arith,
    close_tag-Fits low (end + 1) d sound,
    resume-Fits low (end + 1) d sound,
    resume-Fits low (end + 1) (suc d) sound,
  )

  at_end-Fits :
      (low start d : ℕ) (o : Option ℕ)
      → Sound low
      → low ≤ start
      → Below start (length data') o
      → Fits data' (at_end next data' d start o)
  unfolding at_end
  at_end-Fits low start d none sound l b = tt
  at_end-Fits low start d (some end) sound l b = tag-Fits low start end d sound (omega arith) b.1

  at_start-Fits :
      (low d : ℕ) (o : Option ℕ)
      → Sound low
      → Below low (length data') o
      → Fits data' (at_start next data' d o)
  unfolding at_start
  at_start-Fits low d none sound b = tt
  at_start-Fits low d (some start) sound b =
      at_end-Fits low start d _ sound b.0 (index_from-Below b'>' data' start)

pub scan-Fits :
    (fuel : ℕ) (data' : Text) (index d : ℕ)
    → index ≤ length data'
    → length data' < index + fuel
    → Fits data' (scan fuel data' index d)
unfolding scan
scan-Fits zero data' index d h f = absurd (omega arith)
scan-Fits (suc fuel) data' index d h f =
    at_start-Fits data' (scan fuel data') index d _
      (λ j e l k. scan-Fits fuel data' j e k (omega arith)) (index_from-Below b'<' data' index)

cut_part-progress :
    (data' : Text) (c : Cut)
    → Fits data' c
    → (((cut_part c data').more ≡ true)
        × ((cut_part c data').result ≡ [])
        × ((cut_part c data').rest ≡ data'))
      ⊎ (((cut_part c data').more ≡ false)
          × ((cut_part c data').result ++ (cut_part c data').rest ≡ data')
          × (length (cut_part c data').rest < length data'))
unfolding cut_part
cut_part-progress data' need_more h = inl (refl, refl, refl)
cut_part-progress data' excess h = inr (refl, append-nil data', h)
cut_part-progress data' out_of_fuel h = absurd h
cut_part-progress data' (upto index) h =
    inr (refl, take-append-drop index data', omega (arith, length-drop index data'))

-- Behind the header.
pub later_part-progress :
    (stray : ℕ) (data' : Text)
    → let p = next_part stray data' false in
      ((p.more ≡ true) × (p.result ≡ []) × (p.rest ≡ data'))
      ⊎ ((p.more ≡ false) × (p.result ++ p.rest ≡ data') × (length p.rest < length data'))
unfolding next_part
later_part-progress stray data' =
    cut_part-progress data' (scan (suc (length data')) data' 0 0)
      (scan-Fits (suc (length data')) data' 0 0 (omega arith) (omega arith))

-- Nothing is taken, or some bytes are, and the part is what was put in front and those bytes.
abbrev pub Progresses : Bool → Text → Part → Type 0
Progresses first data' p =
    ((p.more ≡ true) × (p.result ≡ []) × (p.rest ≡ data'))
    ⊎ ((p.more ≡ false)
        × (added : Text) × (taken : Text) × (p.result ≡ added ++ taken)
        × (taken ++ p.rest ≡ data')
        × (length p.rest < length data')
        × ((added ≡ []) ⊎ ((first ≡ true) × (added ≡ xml_header))))

end_header-Progresses :
    (prefix data' : Text) (k : ℕ) (o : Option ℕ)
    → (prefix ≡ []) ⊎ ((true ≡ true) × (prefix ≡ xml_header))
    → Below k (length data') o
    → Progresses true data' (end_header prefix data' o)
unfolding end_header
end_header-Progresses prefix data' k none h b = inl (refl, refl, refl)
end_header-Progresses prefix data' k (some end) h b = inr (
  refl,
  prefix,
  take (end + 1) data',
  refl,
  take-append-drop (end + 1) data',
  omega (arith, length-drop (end + 1) data'),
  h,
)

begin_header-Progresses :
    (stray : ℕ) (data' : Text) (o : Option ℕ) → Progresses true data' (begin_header stray data' o)
unfolding begin_header
begin_header-Progresses stray data' none = inl (refl, refl, refl)
begin_header-Progresses stray data' (some begin) =
    elim (Bool-cases (byte_before stray begin data' == b'?')) [
      | inl e ↦ rw e (
          end_header-Progresses [] data' (begin + 1) (index_from b'>' data' (begin + 1)) (inl refl)
            (index_from-Below b'>' data' (begin + 1)))
      | inr e ↦ rw e (
          end_header-Progresses xml_header data' 0 (index_from b'>' data' 0) (inr (refl, refl))
            (index_from-Below b'>' data' 0))
    ]

-- For the header of the stream and for every later part: where more is needed, nothing is taken and
-- nothing is given. Otherwise some bytes are taken, and they and the rest are the bytes given; the
-- part is those bytes, but that an XML declaration may stand in front of the header. So each part
-- that the loop of `parseData` gets makes the bytes fewer.
pub next_part-progress :
    (stray : ℕ) (data' : Text) (first : Bool) → Progresses first data' (next_part stray data' first)
unfolding next_part
next_part-progress stray data' true = begin_header-Progresses stray data' (index_of b'>' data')
next_part-progress stray data' false = elim (later_part-progress stray data') [
  | inl p ↦ inl p
  | inr (m, e, l) ↦ inr (m, [], (next_part stray data' false).result, refl, e, l, inl refl)
]
