-- ===== src/Vcard/Structure.antt =====
-- AbstractStructureParser of src/vcardfactory.cpp: a parser for the elements of a struct. A pointer
-- into the struct is a field that is read and set; `D` is the struct. The base64 of Qt is a
-- parameter.
use jreen.Base.{
  ℕ, suc, ◌+◌, ◌-◌, Bool, false, not, ◌||◌, Option, none, some, List, [], ◌∷◌, if◌then◌else◌, ◌==◌,
  Text, text, text_eq, is_empty,
}
use jreen.Xml.{NsEvent, opened, text_read, closed, given_element}
use jreen.Vcard.{has_bit, with_bit}

pub record Base64 : Type 0 where
  pub to_base64 : List ℕ → Text
  pub from_base64 : Text → List ℕ

pub record Field (D V : Type 0) : Type 0 where
  pub name : Text
  pub get : D → V
  pub set : V → D → D

-- `FlagInfo`
pub record Flags (D : Type 0) : Type 0 where
  pub table : List Text
  pub get : D → ℕ
  pub set : ℕ → D → D

-- What the constructor of a parser has added.
pub record Shape (D : Type 0) : Type 0 where
  pub name : Text
  pub strings : List (Field D Text)
  pub byte_arrays : List (Field D (List ℕ))
  pub flags : List (Flags D)

-- What changes while it reads.
pub record Structure (D : Type 0) : Type 0 where
  pub depth : ℕ
  pub content : D
  pub current_string : Option (Field D Text)
  pub current_array : Option (Field D (List ℕ))

abbrev pub ns_vcard : Text
ns_vcard = text "vcard-temp"

unfoldable pub reset_fields : {D V : Type 0} → V → List (Field D V) → D → D
reset_fields v [] d = d
reset_fields v (f ∷ fs) d = reset_fields v fs (f.set v d)

unfoldable pub reset_flags : {D : Type 0} → List (Flags D) → D → D
reset_flags [] d = d
reset_flags (f ∷ fs) d = reset_flags fs (f.set 0 d)

unfoldable pub find_field : {D V : Type 0} → Text → List (Field D V) → Option (Field D V)
find_field name [] = none
find_field name (f ∷ fs) =
    let rest = find_field name fs in if text_eq f.name name then some f else rest

unfoldable pub find_bit : Text → List Text → ℕ → Option ℕ
find_bit name [] j = none
find_bit name (s ∷ table) j =
    let rest = find_bit name table (suc j) in if text_eq s name then some j else rest

unfoldable pub write_bits : List Text → ℕ → ℕ → List NsEvent → List NsEvent
write_bits [] j value rest = rest
write_bits (s ∷ table) j value rest =
    let others = write_bits table (suc j) value rest in
    if has_bit value j then opened s ns_vcard [] ∷ closed ∷ others else others

module _ {D : Type 0} where
  abbrev pub mark_in : Option ℕ → Flags D → D → D → D
  mark_in none f d rest = rest
  mark_in (some j) f d rest = f.set (with_bit (f.get d) j) d

  unfoldable pub mark : Text → List (Flags D) → D → D
  mark name [] d = d
  mark name (f ∷ fs) d = mark_in (find_bit name f.table 0) f d (mark name fs d)

  -- The first table that has the name decides.
  abbrev pub choose_array : Option (Field D (List ℕ)) → Text → Shape D → Structure D → Structure D
  choose_array (some f) name s p = record p { current_array = some f }
  choose_array none name s p = record p { content = mark name s.flags p.content }

  abbrev pub choose : Option (Field D Text) → Text → Shape D → Structure D → Structure D
  choose (some f) name s p = record p { current_string = some f }
  choose none name s p = choose_array (find_field name s.byte_arrays) name s p

  abbrev pub cleared : Shape D → D → D
  cleared s d = reset_flags s.flags (reset_fields [] s.byte_arrays (reset_fields [] s.strings d))

  abbrev pub set_array : Base64 → Text → Option (Field D (List ℕ)) → Structure D → Structure D
  set_array b s none p = p
  set_array b s (some f) p = record p {
    content = f.set (b.from_base64 s) p.content;
    current_array = none;
  }

  abbrev pub set_current : Base64 → Text → Option (Field D Text) → Structure D → Structure D
  set_current b s none p = set_array b s p.current_array p
  set_current b s (some f) p = record p { content = f.set s p.content; current_string = none }

  unfoldable pub handle_structure : Base64 → Shape D → NsEvent → Structure D → Structure D
  handle_structure b s (opened name uri attributes) p =
      let depth = p.depth + 1 in
      let next : Structure D = record {
        depth = depth;
        content = p.content;
        current_string = none;
        current_array = none;
      } in
      if depth == 1
      then record next { content = cleared s p.content }
      else if depth == 2
      then choose (find_field name s.strings) name s next
      else next
  handle_structure b s (text_read v) p = set_current b v p.current_string p
  handle_structure b s closed p = record {
    depth = p.depth - 1;
    content = p.content;
    current_string = none;
    current_array = none;
  }

  -- The three parts of `serialize`.
  unfoldable pub has_field : {V : Type 0} → List (Field D (List V)) → D → Bool
  has_field [] d = false
  has_field (f ∷ fs) d = not (is_empty (f.get d)) || has_field fs d

  unfoldable pub has_flag : List (Flags D) → D → Bool
  has_flag [] d = false
  has_flag (f ∷ fs) d = not (f.get d == 0) || has_flag fs d

  unfoldable pub write_strings : List (Field D Text) → D → List NsEvent → List NsEvent
  write_strings [] d rest = rest
  write_strings (f ∷ fs) d rest = given_element f.name ns_vcard (f.get d) (write_strings fs d rest)

  unfoldable pub write_arrays : Base64 → List (Field D (List ℕ)) → D → List NsEvent → List NsEvent
  write_arrays b [] d rest = rest
  write_arrays b (f ∷ fs) d rest =
      let others = write_arrays b fs d rest in
      if is_empty (f.get d)
      then others
      else opened f.name ns_vcard [] ∷ text_read (b.to_base64 (f.get d)) ∷ closed ∷ others

  unfoldable pub write_flags : List (Flags D) → D → List NsEvent → List NsEvent
  write_flags [] d rest = rest
  write_flags (f ∷ fs) d rest = write_bits f.table 0 (f.get d) (write_flags fs d rest)

  -- The flags that decide whether there is a child are those that the parser holds itself, `held`,
  -- and not those of the data that is written.
  abbrev pub has_any_child : Shape D → D → D → Bool
  has_any_child s held d =
      has_field s.strings d || (has_field s.byte_arrays d || has_flag s.flags held)

  unfoldable pub write_structure : Base64 → Shape D → D → D → List NsEvent → List NsEvent
  write_structure b s held d rest =
      if has_any_child s held d
      then (opened s.name ns_vcard []
          ∷ write_strings s.strings d
              (write_arrays b s.byte_arrays d (write_flags s.flags d (closed ∷ rest))))
      else rest
