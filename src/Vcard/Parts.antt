-- ===== src/Vcard/Parts.antt =====
-- The parts of a vCard, written one after the other, are read one after the other by VCardFactory of
-- src/vcardfactory.cpp.
use jreen.Base.{ℕ, true, none, some, List, [], ◌∷◌, ◌++◌, if◌then◌else◌, ◌≡◌, refl, sym, ap, ◌∙◌}
use jreen.Prep.{Preps}
use jreen.Xml.{NsEvent, opened, closed}
use jreen.Vcard.Structure.{
  Base64, Shape, Structure, handle_structure, write_structure, has_any_child, write_strings,
  write_arrays, write_flags, ns_vcard,
}
use jreen.Vcard.RoundTrip.{feed, at_depth, IsTable, Complete, Small, feed-write_structure}
use jreen.Vcard.Factory.{
  Conversions, Part, at_root, CardFactory, part_of, start_child, feed_part, handle_card,
}
use jreen.Vcard.Writing.{write_all}
use jreen.Vcard.Events.{
  write_strings-append, write_strings-Whole, write_arrays-append, write_arrays-Whole,
  write_flags-append, write_flags-Whole,
}
use jreen.Vcard.Inside.{
  feed_card, feed_card-append, feed_parts, in_part, after, feed_part-in_part, feed_card-inside,
}

abbrev pub idle : {DateTime Url : Type 0} → CardFactory DateTime Url → CardFactory DateTime Url
idle f = record f { depth = 1; current_parser = none; state = at_root }

-- The parts of a list that are written and read without a loss.
abbrev pub AllGood : {D : Type 0} → Shape D → D → List D → Type 0
AllGood s held [] = held ≡ held
AllGood s held (d ∷ ds) = (Small s.flags d × (has_any_child s held d ≡ true)) × AllGood s held ds

abbrev pub last : {D : Type 0} → D → List D → D
last d [] = d
last d (e ∷ es) = last e es

-- The parts go to the vCard in their order.
abbrev pub taken_all : {D F : Type 0} → (D → F → F) → List D → F → F
taken_all taken [] f = f
taken_all taken (d ∷ ds) f = taken_all taken ds (taken d f)

module _ {DateTime Url D : Type 0} (q : Conversions DateTime Url) (j : Preps) (b : Base64) where
  -- The parser of a part stands in the factory, and what it has read goes to the vCard.
  pub record IsHeld (s : Shape D) (k : Part)
      (holder : Structure D → CardFactory DateTime Url → CardFactory DateTime Url)
      (taken : D → CardFactory DateTime Url → CardFactory DateTime Url) : Type 0 where
    pub table : IsTable s
    pub named : part_of s.name ≡ some k
    pub feeds :
        (e : NsEvent) (p : Structure D) (f : CardFactory DateTime Url)
        → feed_part q j b (some k) e (holder p f) ≡ holder (handle_structure b s e p) f
    pub takes :
        (d : D) (f : CardFactory DateTime Url)
        → after q j b k (holder (at_depth 0 d) f) ≡ idle (holder (at_depth 0 d) (taken d f))

  module _ (s : Shape D) (k : Part)
      (holder : Structure D → CardFactory DateTime Url → CardFactory DateTime Url)
      (taken : D → CardFactory DateTime Url → CardFactory DateTime Url)
      (h : IsHeld s k holder taken)
      (decodes : (v : List ℕ) → b.from_base64 (b.to_base64 v) ≡ v) where
    parts_fed :
        (es : List NsEvent) (p : Structure D) (f : CardFactory DateTime Url)
        → feed_parts q j b k es (holder p f) ≡ holder (feed b s es p) f
    unfolding feed_parts feed
    parts_fed [] p f = refl
    parts_fed (e ∷ es) p f =
        ap (λ z. feed_parts q j b k es z) (h.feeds e p f)
        ∙ parts_fed es (handle_structure b s e p) f

    abbrev start : NsEvent
    start = opened s.name ns_vcard []

    entered :
        (p : Structure D) (f : CardFactory DateTime Url)
        → handle_card q j b start (idle (holder p f))
          ≡ in_part q j b k 1 (holder (handle_structure b s start p) f)
    unfolding handle_card
    entered p f =
        let g : CardFactory DateTime Url = record (idle (holder p f)) { depth = 2 } in
        ap
          (λ z.
            feed_part q j b (start_child q j z s.name g).current_parser start
              (start_child q j z s.name g))
          h.named
        ∙ feed_part-in_part q j b k start 1 (holder p f)
        ∙ ap (λ z. in_part q j b k 1 z) (h.feeds start p f)

    abbrev inside : D → List NsEvent → List NsEvent
    inside d es =
        write_strings s.strings d (write_arrays b s.byte_arrays d (write_flags s.flags d es))

    inside-append :
        (d : D) (rest : List NsEvent) → inside d (closed ∷ rest) ≡ inside d (closed ∷ []) ++ rest
    inside-append d rest =
        let end = closed ∷ [] in
        let flags = write_flags s.flags d end in
        ap (λ z. write_strings s.strings d (write_arrays b s.byte_arrays d z))
          (write_flags-append s.flags d end rest)
        ∙ ap (λ z. write_strings s.strings d z) (write_arrays-append b s.byte_arrays d flags rest)
        ∙ write_strings-append s.strings d (write_arrays b s.byte_arrays d flags) rest

    written :
        (held d : D) (rest : List NsEvent)
        → has_any_child s held d ≡ true
        → write_structure b s held d rest ≡ start ∷ inside d (closed ∷ rest)
    unfolding write_structure
    written held d rest child = ap (λ z. if z then start ∷ inside d (closed ∷ rest) else rest) child

    -- What is written of a part is read by its parser and goes to the vCard, and the factory is then
    -- at what is written after it.
    pub read_part :
        (held before d : D) (rest : List NsEvent) (f : CardFactory DateTime Url)
        → Complete s d before
        → Small s.flags d
        → has_any_child s held d ≡ true
        → feed_card q j b (write_structure b s held d rest) (idle (holder (at_depth 0 before) f))
          ≡ feed_card q j b rest (idle (holder (at_depth 0 d) (taken d f)))
    unfolding feed_card feed
    read_part held before d rest f complete small child =
        let xs = inside d (closed ∷ []) in
        let p = at_depth 0 before in
        let flags = write_flags s.flags d (closed ∷ []) in
        let whole = write_strings-Whole s.strings d (write_arrays b s.byte_arrays d flags) (
          write_arrays-Whole b s.byte_arrays d flags
            (write_flags-Whole s.flags d (closed ∷ []) refl)) in
        let read =
          ap (λ z. feed b s z p) (sym (written held d [] child))
          ∙ feed-write_structure s b held before d h.table decodes complete small child in
        ap (λ z. feed_card q j b z (idle (holder p f))) (written held d rest child)
        ∙ ap (λ z. feed_card q j b (inside d (closed ∷ rest)) z) (entered p f)
        ∙ ap (λ z. feed_card q j b z (in_part q j b k 1 (holder (handle_structure b s start p) f)))
            (inside-append d rest)
        ∙ feed_card-append q j b xs rest
            (in_part q j b k 1 (holder (handle_structure b s start p) f))
        ∙ ap (λ z. feed_card q j b rest z)
            (feed_card-inside q j b k xs 0 (holder (handle_structure b s start p) f) whole
              ∙ ap (λ z. after q j b k z) (parts_fed xs (handle_structure b s start p) f)
              ∙ ap (λ z. after q j b k (holder z f)) read
              ∙ h.takes d f)

    -- The parts of a list are read in their order, and their parser holds the last of them.
    pub read_all :
        (held before : D) (ds : List D) (rest : List NsEvent) (f : CardFactory DateTime Url)
        → ((d e : D) → Complete s d e)
        → AllGood s held ds
        → feed_card q j b (write_all b s held ds rest) (idle (holder (at_depth 0 before) f))
          ≡ feed_card q j b rest
              (idle (holder (at_depth 0 (last before ds)) (taken_all taken ds f)))
    unfolding write_all
    read_all held before [] rest f complete good = refl
    read_all held before (d ∷ ds) rest f complete good =
        read_part held before d (write_all b s held ds rest) f (complete d before) good.0.0 good.0.1
        ∙ read_all held d ds rest (taken d f) complete good.1
