-- ===== src/Vcard/Events.antt =====
-- The events that the parsers of the structs in src/vcardfactory.cpp write stay inside one element,
-- and what is written after them follows them.
use jreen.Base.{
  ℕ, suc, Bool, true, false, List, [], ◌∷◌, ◌++◌, if◌then◌else◌, Text, is_empty, ◌≡◌, refl, ap, ◌∙◌,
}
use jreen.Xml.{NsEvent, opened, text_read, closed, given_element}
use jreen.Form.Whole.{Whole, given_element-Whole}
use jreen.Vcard.{has_bit}
use jreen.Vcard.Structure.{
  Base64, Field, Flags, write_strings, write_arrays, write_bits, write_flags, ns_vcard,
}

given_element-append :
    (name uri v : Text) (es rest : List NsEvent)
    → given_element name uri v (es ++ rest) ≡ given_element name uri v es ++ rest
given_element-append name uri [] es rest = refl
given_element-append name uri (c ∷ v) es rest = refl

abbrev bit_events : Text → Bool → List NsEvent → List NsEvent
bit_events name bit es = if bit then opened name ns_vcard [] ∷ closed ∷ es else es

bit_events-append :
    (name : Text) (bit : Bool) (es rest : List NsEvent)
    → bit_events name bit (es ++ rest) ≡ bit_events name bit es ++ rest
bit_events-append name true es rest = refl
bit_events-append name false es rest = refl

bit_events-Whole :
    (name : Text) (bit : Bool) (es : List NsEvent) → Whole 1 es → Whole 1 (bit_events name bit es)
bit_events-Whole name true es h = h
bit_events-Whole name false es h = h

write_bits-append :
    (table : List Text) (j v : ℕ) (es rest : List NsEvent)
    → write_bits table j v (es ++ rest) ≡ write_bits table j v es ++ rest
unfolding write_bits
write_bits-append [] j v es rest = refl
write_bits-append (name ∷ table) j v es rest =
    ap (λ z. bit_events name (has_bit v j) z) (write_bits-append table (suc j) v es rest)
    ∙ bit_events-append name (has_bit v j) (write_bits table (suc j) v es) rest

write_bits-Whole :
    (table : List Text) (j v : ℕ) (es : List NsEvent)
    → Whole 1 es
    → Whole 1 (write_bits table j v es)
unfolding write_bits
write_bits-Whole [] j v es h = h
write_bits-Whole (name ∷ table) j v es h =
    bit_events-Whole name (has_bit v j) (write_bits table (suc j) v es)
      (write_bits-Whole table (suc j) v es h)

module _ (b : Base64) where
  abbrev array_events : Text → List ℕ → List NsEvent → List NsEvent
  array_events name v es =
      if is_empty v then es else opened name ns_vcard [] ∷ text_read (b.to_base64 v) ∷ closed ∷ es

  array_events-append :
      (name : Text) (v : List ℕ) (es rest : List NsEvent)
      → array_events name v (es ++ rest) ≡ array_events name v es ++ rest
  array_events-append name [] es rest = refl
  array_events-append name (c ∷ v) es rest = refl

  array_events-Whole :
      (name : Text) (v : List ℕ) (es : List NsEvent) → Whole 1 es → Whole 1 (array_events name v es)
  array_events-Whole name [] es h = h
  array_events-Whole name (c ∷ v) es h = h

  module _ {D : Type 0} where
    pub write_arrays-append :
        (fs : List (Field D (List ℕ))) (d : D) (es rest : List NsEvent)
        → write_arrays b fs d (es ++ rest) ≡ write_arrays b fs d es ++ rest
    unfolding write_arrays
    write_arrays-append [] d es rest = refl
    write_arrays-append (f ∷ fs) d es rest =
        ap (λ z. array_events f.name (f.get d) z) (write_arrays-append fs d es rest)
        ∙ array_events-append f.name (f.get d) (write_arrays b fs d es) rest

    pub write_arrays-Whole :
        (fs : List (Field D (List ℕ))) (d : D) (es : List NsEvent)
        → Whole 1 es
        → Whole 1 (write_arrays b fs d es)
    unfolding write_arrays
    write_arrays-Whole [] d es h = h
    write_arrays-Whole (f ∷ fs) d es h =
        array_events-Whole f.name (f.get d) (write_arrays b fs d es) (write_arrays-Whole fs d es h)

module _ {D : Type 0} where
  pub write_strings-append :
      (fs : List (Field D Text)) (d : D) (es rest : List NsEvent)
      → write_strings fs d (es ++ rest) ≡ write_strings fs d es ++ rest
  unfolding write_strings
  write_strings-append [] d es rest = refl
  write_strings-append (f ∷ fs) d es rest =
      ap (λ z. given_element f.name ns_vcard (f.get d) z) (write_strings-append fs d es rest)
      ∙ given_element-append f.name ns_vcard (f.get d) (write_strings fs d es) rest

  pub write_strings-Whole :
      (fs : List (Field D Text)) (d : D) (es : List NsEvent)
      → Whole 1 es
      → Whole 1 (write_strings fs d es)
  unfolding write_strings
  write_strings-Whole [] d es h = h
  write_strings-Whole (f ∷ fs) d es h =
      given_element-Whole 0 f.name ns_vcard (f.get d) (write_strings fs d es)
        (write_strings-Whole fs d es h)

  pub write_flags-append :
      (fs : List (Flags D)) (d : D) (es rest : List NsEvent)
      → write_flags fs d (es ++ rest) ≡ write_flags fs d es ++ rest
  unfolding write_flags
  write_flags-append [] d es rest = refl
  write_flags-append (f ∷ fs) d es rest =
      ap (λ z. write_bits f.table 0 (f.get d) z) (write_flags-append fs d es rest)
      ∙ write_bits-append f.table 0 (f.get d) (write_flags fs d es) rest

  pub write_flags-Whole :
      (fs : List (Flags D)) (d : D) (es : List NsEvent) → Whole 1 es → Whole 1 (write_flags fs d es)
  unfolding write_flags
  write_flags-Whole [] d es h = h
  write_flags-Whole (f ∷ fs) d es h =
      write_bits-Whole f.table 0 (f.get d) (write_flags fs d es) (write_flags-Whole fs d es h)
