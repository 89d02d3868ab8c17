-- ===== src/Vcard/RoundTrip.antt =====
-- What the parser of a struct writes it reads back, for any tables of fields that keep their
-- promise.
use jreen.Base.{
  ℕ, suc, ◌<◌, ◌^◌, Bool, true, false, none, some, List, [], ◌∷◌, if◌then◌else◌, Text, is_empty,
  ◌≡◌, refl, sym, ap, ◌∙◌,
}
use jreen.Xml.{NsEvent, opened, text_read, closed, given_element}
use jreen.Vcard.{has_bit, with_bit}
use jreen.Vcard.Bits.{if_bit, low_bits, low_bits-lt, low_bits-all, with_bit-low}
use jreen.Vcard.Structure.{
  Base64, Field, Flags, Shape, Structure, find_field, mark, cleared, choose, choose_array,
  handle_structure, has_any_child, write_strings, write_arrays, write_bits, write_flags,
  write_structure, ns_vcard,
}

-- The number of the bit after those of a table.
abbrev pub bits_after : List Text → ℕ → ℕ
bits_after [] j = j
bits_after (name ∷ table) j = bits_after table (suc j)

module _ {D : Type 0} where
  unfoldable pub feed : Base64 → Shape D → List NsEvent → Structure D → Structure D
  feed b s [] p = p
  feed b s (e ∷ es) p = feed b s es (handle_structure b s e p)

  abbrev pub at_depth : ℕ → D → Structure D
  at_depth k d = record { depth = k; content = d; current_string = none; current_array = none }

  -- All fields of `e` set to what they are in `d`.
  abbrev pub set_all : {V : Type 0} → List (Field D V) → D → D → D
  set_all [] d e = e
  set_all (f ∷ fs) d e = set_all fs d (f.set (f.get d) e)

  abbrev pub set_flags : List (Flags D) → D → D → D
  set_flags [] d e = e
  set_flags (f ∷ fs) d e = set_flags fs d (f.set (f.get d) e)

  -- A field is still empty when its turn comes.
  abbrev pub Fresh : {V : Type 0} → V → List (Field D V) → D → D → Type 0
  Fresh v [] d e = e ≡ e
  Fresh v (f ∷ fs) d e = (f.set v e ≡ e) × Fresh v fs d (f.set (f.get d) e)

  abbrev pub FreshFlags : List (Flags D) → D → D → Type 0
  FreshFlags [] d e = e ≡ e
  FreshFlags (f ∷ fs) d e = (f.set 0 e ≡ e) × FreshFlags fs d (f.set (f.get d) e)

  -- The flags of `d` have no bit that their table does not name.
  abbrev pub Small : List (Flags D) → D → Type 0
  Small [] d = d ≡ d
  Small (f ∷ fs) d = (f.get d < 2 ^ bits_after f.table 0) × Small fs d

  module _ (s : Shape D) where
    abbrev pub StringsFound : List (Field D Text) → Type 0
    StringsFound [] = s ≡ s
    StringsFound (f ∷ fs) = (find_field f.name s.strings ≡ some f) × StringsFound fs

    abbrev pub ArraysFound : List (Field D (List ℕ)) → Type 0
    ArraysFound [] = s ≡ s
    ArraysFound (f ∷ fs) =
        (find_field f.name s.strings ≡ none)
        × (find_field f.name s.byte_arrays ≡ some f)
        × ArraysFound fs

    abbrev pub Marks : Flags D → List Text → ℕ → Type 0
    Marks f [] j = s ≡ s
    Marks f (name ∷ table) j =
        (find_field name s.strings ≡ none)
        × (find_field name s.byte_arrays ≡ none)
        × ((e : D) → mark name s.flags e ≡ f.set (with_bit (f.get e) j) e)
        × Marks f table (suc j)

    abbrev pub FlagsFound : List (Flags D) → Type 0
    FlagsFound [] = s ≡ s
    FlagsFound (f ∷ fs) =
        ((x : ℕ) (e : D) → f.get (f.set x e) ≡ x)
        × ((x y : ℕ) (e : D) → f.set x (f.set y e) ≡ f.set x e)
        × Marks f f.table 0
        × FlagsFound fs

    -- What the tables of a parser promise: every name leads to its field, fields are apart from each
    -- other.
    pub record IsTable : Type 0 where
      pub strings_found : StringsFound s.strings
      pub arrays_found : ArraysFound s.byte_arrays
      pub flags_found : FlagsFound s.flags
      pub fresh_strings : (d e : D) → Fresh [] s.strings d (cleared s e)
      pub fresh_arrays : (d e : D) → Fresh [] s.byte_arrays d (set_all s.strings d (cleared s e))
      pub fresh_flags :
          (d e : D)
          → FreshFlags s.flags d (set_all s.byte_arrays d (set_all s.strings d (cleared s e)))

    -- The fields of the tables, set to what they are in `d`, make up `d`, whatever the struct was.
    abbrev pub Complete : D → D → Type 0
    Complete d e =
        set_flags s.flags d (set_all s.byte_arrays d (set_all s.strings d (cleared s e))) ≡ d

    module _ (b : Base64) where
      abbrev feed_in : List NsEvent → D → Structure D
      feed_in es e = feed b s es (at_depth 1 e)

      read_string :
          (f : Field D Text) (v : Text) (e : D) (rest : List NsEvent)
          → find_field f.name s.strings ≡ some f
          → f.set [] e ≡ e
          → feed_in (given_element f.name ns_vcard v rest) e ≡ feed_in rest (f.set v e)
      unfolding feed handle_structure
      read_string f [] e rest found empty = ap (λ z. feed_in rest z) (sym empty)
      read_string f (c ∷ v) e rest found empty =
          ap (λ z. feed b s (text_read (c ∷ v) ∷ closed ∷ rest) (choose z f.name s (at_depth 2 e)))
            found

      read_strings :
          (fs : List (Field D Text)) (d e : D) (rest : List NsEvent)
          → StringsFound fs
          → Fresh [] fs d e
          → feed_in (write_strings fs d rest) e ≡ feed_in rest (set_all fs d e)
      unfolding write_strings
      read_strings [] d e rest found fresh = refl
      read_strings (f ∷ fs) d e rest found fresh =
          read_string f (f.get d) e (write_strings fs d rest) found.0 fresh.0
          ∙ read_strings fs d (f.set (f.get d) e) rest found.1 fresh.1

      abbrev array_events : Field D (List ℕ) → List ℕ → List NsEvent → List NsEvent
      array_events f v rest =
          if is_empty v
          then rest
          else opened f.name ns_vcard [] ∷ text_read (b.to_base64 v) ∷ closed ∷ rest

      module _ (decodes : (v : List ℕ) → b.from_base64 (b.to_base64 v) ≡ v) where
        read_array :
            (f : Field D (List ℕ)) (v : List ℕ) (e : D) (rest : List NsEvent)
            → find_field f.name s.strings ≡ none
            → find_field f.name s.byte_arrays ≡ some f
            → f.set [] e ≡ e
            → feed_in (array_events f v rest) e ≡ feed_in rest (f.set v e)
        unfolding feed handle_structure
        read_array f [] e rest other found none_yet = ap (λ z. feed_in rest z) (sym none_yet)
        read_array f (c ∷ v) e rest other found none_yet =
            let inside = text_read (b.to_base64 (c ∷ v)) ∷ closed ∷ rest in
            ap (λ z. feed b s inside (choose z f.name s (at_depth 2 e))) other
            ∙ ap (λ z. feed b s inside (choose_array z f.name s (at_depth 2 e))) found
            ∙ ap (λ z. feed_in rest (f.set z e)) (decodes (c ∷ v))

        read_arrays :
            (fs : List (Field D (List ℕ))) (d e : D) (rest : List NsEvent)
            → ArraysFound fs
            → Fresh [] fs d e
            → feed_in (write_arrays b fs d rest) e ≡ feed_in rest (set_all fs d e)
        unfolding write_arrays
        read_arrays [] d e rest found fresh = refl
        read_arrays (f ∷ fs) d e rest found fresh =
            read_array f (f.get d) e (write_arrays b fs d rest) found.0 found.1 fresh.0
            ∙ read_arrays fs d (f.set (f.get d) e) rest found.2 fresh.1

      -- One bit that is set, and one that is not.
      read_bit :
          (f : Flags D) (name : Text) (x j : ℕ) (bit : Bool) (e : D) (rest : List NsEvent)
          → Marks f (name ∷ []) j
          → ((x : ℕ) (e : D) → f.get (f.set x e) ≡ x)
          → ((x y : ℕ) (e : D) → f.set x (f.set y e) ≡ f.set x e)
          → x < 2 ^ j
          → feed_in (if bit then opened name ns_vcard [] ∷ closed ∷ rest else rest) (f.set x e)
            ≡ feed_in rest (f.set (if_bit bit x j) e)
      unfolding feed handle_structure
      read_bit f name x j false e rest found get_set set_set h = refl
      read_bit f name x j true e rest found get_set set_set h =
          let e' = f.set x e in
          ap (λ z. feed b s (closed ∷ rest) (choose z name s (at_depth 2 e'))) found.0
          ∙ ap (λ z. feed b s (closed ∷ rest) (choose_array z name s (at_depth 2 e'))) found.1
          ∙ ap (λ z. feed_in rest z)
              (found.2 e'
                ∙ ap (λ z. f.set (with_bit z j) e') (get_set x e)
                ∙ set_set (with_bit x j) x e
                ∙ ap (λ z. f.set z e) (with_bit-low x j h))

      read_bits :
          (f : Flags D) (table : List Text) (v j : ℕ) (e : D) (rest : List NsEvent)
          → Marks f table j
          → ((x : ℕ) (e : D) → f.get (f.set x e) ≡ x)
          → ((x y : ℕ) (e : D) → f.set x (f.set y e) ≡ f.set x e)
          → feed_in (write_bits table j v rest) (f.set (low_bits v j) e)
            ≡ feed_in rest (f.set (low_bits v (bits_after table j)) e)
      unfolding write_bits low_bits
      read_bits f [] v j e rest found get_set set_set = refl
      read_bits f (name ∷ table) v j e rest found get_set set_set =
          read_bit f name (low_bits v j) j (has_bit v j) e (write_bits table (suc j) v rest)
            (found.0, found.1, found.2, refl) get_set set_set (low_bits-lt v j)
          ∙ read_bits f table v (suc j) e rest found.3 get_set set_set

      read_flags :
          (fs : List (Flags D)) (d e : D) (rest : List NsEvent)
          → FlagsFound fs
          → FreshFlags fs d e
          → Small fs d
          → feed_in (write_flags fs d rest) e ≡ feed_in rest (set_flags fs d e)
      unfolding write_flags low_bits
      read_flags [] d e rest found fresh small = refl
      read_flags (f ∷ fs) d e rest found fresh small =
          ap (λ z. feed_in (write_bits f.table 0 (f.get d) (write_flags fs d rest)) z) (sym fresh.0)
          ∙ read_bits f f.table (f.get d) 0 e (write_flags fs d rest) found.2 found.0 found.1
          ∙ ap (λ z. feed_in (write_flags fs d rest) (f.set z e))
              (low_bits-all (f.get d) (bits_after f.table 0) small.0)
          ∙ read_flags fs d (f.set (f.get d) e) rest found.3 fresh.1 small.1

  -- The parser of a struct, from outside an element, reads what it has written of `d` and ends there
  -- with `d`, where the tables keep their promise, what is no field of the tables is in `d` as the
  -- parser held it before, the base64 is decoded as it was encoded, the flags of `d` have no bit
  -- beyond their table, and something of `d` is found to be written.
  pub feed-write_structure :
      (s : Shape D) (b : Base64) (held before d : D)
      → IsTable s
      → ((v : List ℕ) → b.from_base64 (b.to_base64 v) ≡ v)
      → Complete s d before
      → Small s.flags d
      → has_any_child s held d ≡ true
      → feed b s (write_structure b s held d []) (at_depth 0 before) ≡ at_depth 0 d
  unfolding feed handle_structure write_structure
  feed-write_structure s b held before d t decodes complete small child =
      let start = cleared s before in
      let with_strings = set_all s.strings d start in
      let with_arrays = set_all s.byte_arrays d with_strings in
      let flags = write_flags s.flags d (closed ∷ []) in
      let arrays = write_arrays b s.byte_arrays d flags in
      let strings = write_strings s.strings d arrays in
      ap (λ z. feed b s (if z then opened s.name ns_vcard [] ∷ strings else []) (at_depth 0 before))
        child
      ∙ read_strings s b s.strings d start arrays t.strings_found (t.fresh_strings d before)
      ∙ read_arrays s b decodes s.byte_arrays d with_strings flags t.arrays_found
          (t.fresh_arrays d before)
      ∙ read_flags s b s.flags d with_arrays (closed ∷ []) t.flags_found (t.fresh_flags d before)
          small
      ∙ ap (λ z. at_depth 0 z) complete
