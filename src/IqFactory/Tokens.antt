-- ===== src/IqFactory/Tokens.antt =====
-- A stanza that was read is written again from its tokens.
use mathlib.Core.List.{reverse, reverse-cons, reverse-reverse}
use jreen.Base.{
  ℕ, zero, suc, ◌+◌, ◌-◌, Bool, true, false, List, [], ◌∷◌, ◌++◌, if◌then◌else◌, ◌==◌, Text,
  text_eq, is_empty, Hash, ◌≡◌, refl, sym, ap, ◌∙◌, arith, append_assoc, length, Bool-cases, inl,
  inr,
}
use jreen.Prep.{Preps}
use jreen.Xml.{NsEvent, opened, text_read, closed}
use jreen.Form.Whole.{Whole}
use jreen.Stanza.Header.{ns_client}
use jreen.Payloads.{Factories}
use jreen.IqFactory.{IqPrivate, Factory, handle_event, feed, push_start, push_text, serialize}

-- The namespace that an element has which is written with its default namespace, or without.
abbrev pub namespace_of : Text → Text → List Text → List Text → Text
namespace_of current uri [] spaces = uri
namespace_of current uri (top ∷ uris) [] = uri
namespace_of current uri (top ∷ uris) (space ∷ spaces) = if text_eq top current then space else uri

abbrev pub pop : List Text → List Text
pop [] = []
pop (s ∷ ss) = ss

-- `StanzaFactory::serialize`: the loop, where `uris` is its stack and `spaces` are the namespaces
-- of the elements that are open.
unfoldable pub write_tokens : Bool → List NsEvent → List Text → List Text → List NsEvent
write_tokens first [] uris spaces = []
write_tokens first (opened name uri attributes ∷ ts) uris spaces =
    let current = if first then ns_client else uri in
    let space = namespace_of current uri uris spaces in
    opened name space attributes ∷ write_tokens false ts (current ∷ uris) (space ∷ spaces)
write_tokens first (text_read s ∷ ts) uris spaces = text_read s ∷ write_tokens false ts uris spaces
write_tokens first (closed ∷ ts) uris spaces =
    closed ∷ write_tokens false ts (pop uris) (pop spaces)

unfoldable pub replay : {P : Type 0} → IqPrivate P → List NsEvent
unfolding write_tokens
replay i = write_tokens true (reverse i.tokens) [] []

-- `IqFactory::serialize`: a stanza that has tokens is written by them.
unfoldable pub write_iq : {P G : Type 0} → Factories P G → IqPrivate P → List NsEvent
unfolding replay serialize
write_iq q i = if is_empty i.tokens then serialize q i else replay i

-- No text stands before a start or behind an end or a text.
abbrev pub Unmixed : NsEvent → List NsEvent → Type 0
Unmixed last [] = Unit {0}
Unmixed (text_read s) (closed ∷ es) = Unmixed closed es
Unmixed (text_read s) (_ ∷ es) = ⊥
Unmixed closed (text_read s ∷ es) = ⊥
Unmixed _ (e ∷ es) = Unmixed e es

namespace_of-same : (u uri : Text) → (if text_eq u uri then u else uri) ≡ uri
namespace_of-same u uri = ground arith

write_tokens-inside :
    (es : List NsEvent) (u : Text) (us : List Text)
    → Whole (suc (length us)) es
    → write_tokens false es (u ∷ us) (u ∷ us) ≡ es
unfolding write_tokens
write_tokens-inside [] u us w = absurd w
write_tokens-inside (opened name uri attributes ∷ es) u us w =
    (λ i.
      opened name (space i) attributes ∷ write_tokens false es (uri ∷ u ∷ us) (space i ∷ u ∷ us))
    ∙ ap (λ z. opened name uri attributes ∷ z) (write_tokens-inside es uri (u ∷ us) w)
  where
    space : namespace_of uri uri (u ∷ us) (u ∷ us) ≡ uri
    space = namespace_of-same u uri
write_tokens-inside (text_read s ∷ es) u us w =
    ap (λ z. text_read s ∷ z) (write_tokens-inside es u us w)
write_tokens-inside (closed ∷ es) u [] w =
    ap (λ z. closed ∷ write_tokens false z [] []) w ∙ ap (λ z. closed ∷ z) (sym w)
write_tokens-inside (closed ∷ es) u (v ∷ us) w =
    ap (λ z. closed ∷ z) (write_tokens-inside es v us w)

-- What the handlers note of events inside the stanza.
abbrev note_all : List NsEvent → List NsEvent → List NsEvent
unfolding push_start push_text
note_all [] ts = ts
note_all (opened name uri attributes ∷ es) ts =
    note_all es (push_start (opened name uri attributes) ts)
note_all (text_read s ∷ es) ts = note_all es (push_text s ts)
note_all (closed ∷ es) ts = note_all es (closed ∷ ts)

is_empty-last : (es : List NsEvent) (e : NsEvent) → is_empty (es ++ e ∷ []) ≡ false
is_empty-last [] e = refl
is_empty-last (d ∷ es) e = refl

moved : (e : NsEvent) (es ts : List NsEvent) → reverse es ++ e ∷ ts ≡ reverse (e ∷ es) ++ ts
moved e es ts =
    sym (append_assoc (reverse es) (e ∷ []) ts) ∙ ap (λ z. z ++ ts) (sym (reverse-cons e es))

note_all-Unmixed :
    (es : List NsEvent) (last : NsEvent) (ts : List NsEvent)
    → Unmixed last es
    → note_all es (last ∷ ts) ≡ reverse es ++ last ∷ ts
unfolding push_start push_text note_all
note_all-Unmixed [] last ts h = refl
note_all-Unmixed (opened name uri attributes ∷ es) (opened n u a) ts h =
    note_all-Unmixed es (opened name uri attributes) (opened n u a ∷ ts) h
    ∙ moved (opened name uri attributes) es (opened n u a ∷ ts)
note_all-Unmixed (opened name uri attributes ∷ es) closed ts h =
    note_all-Unmixed es (opened name uri attributes) (closed ∷ ts) h
    ∙ moved (opened name uri attributes) es (closed ∷ ts)
note_all-Unmixed (opened name uri attributes ∷ es) (text_read s) ts h = absurd h
note_all-Unmixed (text_read s ∷ es) (opened n u a) ts h =
    note_all-Unmixed es (text_read s) (opened n u a ∷ ts) h
    ∙ moved (text_read s) es (opened n u a ∷ ts)
note_all-Unmixed (text_read s ∷ es) closed ts h = absurd h
note_all-Unmixed (text_read s ∷ es) (text_read t) ts h = absurd h
note_all-Unmixed (closed ∷ es) (opened n u a) ts h =
    note_all-Unmixed es closed (opened n u a ∷ ts) h ∙ moved closed es (opened n u a ∷ ts)
note_all-Unmixed (closed ∷ es) closed ts h =
    note_all-Unmixed es closed (closed ∷ ts) h ∙ moved closed es (closed ∷ ts)
note_all-Unmixed (closed ∷ es) (text_read t) ts h =
    note_all-Unmixed es closed (text_read t ∷ ts) h ∙ moved closed es (text_read t ∷ ts)

module _ {P G : Type 0} (q : Factories P G) (p : Preps) where
  abbrev note : NsEvent → List NsEvent → List NsEvent
  unfolding push_start push_text
  note (opened name uri attributes) ts = push_start (opened name uri attributes) ts
  note (text_read s) ts = push_text s ts
  note closed ts = closed ∷ ts

  noted :
      (k : ℕ) (e : NsEvent) (f : Factory P G)
      → f.depth ≡ suc k
      → (handle_event q p e f).stanza.tokens ≡ note e f.stanza.tokens
  unfolding handle_event note
  noted k (opened name uri attributes) f d =
      let not_one : (f.depth + 1 == 1) ≡ false = ground (arith, d) in rw not_one refl
  noted k (text_read s) f d = refl
  noted k closed f d = elim (Bool-cases (f.depth == 2)) [ inl e ↦ rw e refl | inr e ↦ rw e refl ]

  depth_opened :
      (name uri : Text) (attributes : Hash Text) (f : Factory P G)
      → (handle_event q p (opened name uri attributes) f).depth ≡ f.depth + 1
  unfolding handle_event
  depth_opened name uri attributes f = elim (Bool-cases (f.depth + 1 == 1)) [
    | inl e ↦ rw e refl
    | inr e ↦ rw e refl
  ]

  depth_closed : (f : Factory P G) → (handle_event q p closed f).depth ≡ f.depth - 1
  unfolding handle_event
  depth_closed f = elim (Bool-cases (f.depth == 2)) [ inl e ↦ rw e refl | inr e ↦ rw e refl ]

  first_noted :
      (name : Text) (attributes : Hash Text) (before : Factory P G)
      → before.depth ≡ 0
      → (handle_event q p (opened name ns_client attributes) before).stanza.tokens
        ≡ opened name ns_client attributes ∷ []
  unfolding handle_event push_start
  first_noted name attributes before d = rw d refl

  tokens-feed :
      (k : ℕ) (es : List NsEvent) (f : Factory P G)
      → Whole (suc k) es
      → f.depth ≡ suc k
      → (feed q p es f).stanza.tokens ≡ note_all es f.stanza.tokens
  unfolding feed handle_event note_all note
  tokens-feed k [] f w d = absurd w
  tokens-feed k (opened name uri attributes ∷ es) f w d =
      let e = opened name uri attributes in
      tokens-feed (suc k) es (handle_event q p e f) w
        (omega (arith, d, depth_opened name uri attributes f))
      ∙ ap (note_all es) (noted k e f d)
  tokens-feed k (text_read s ∷ es) f w d = tokens-feed k es (handle_event q p (text_read s) f) w d
  tokens-feed zero (closed ∷ es) f w d =
      ap (λ z. (feed q p z (handle_event q p closed f)).stanza.tokens) w
      ∙ noted zero closed f d
      ∙ ap (λ z. note_all z (closed ∷ f.stanza.tokens)) (sym w)
  tokens-feed (suc k) (closed ∷ es) f w d =
      tokens-feed k es (handle_event q p closed f) w (omega (arith, d, depth_closed f))
      ∙ ap (note_all es) (noted (suc k) closed f d)

  -- An IQ that was read is written again as it came in, where no text stands beside an element.
  pub replay-feed :
      (name : Text) (attributes : Hash Text) (es : List NsEvent) (before : Factory P G)
      → before.depth ≡ 0
      → Whole 1 es
      → Unmixed (opened name ns_client attributes) es
      → write_iq q (feed q p (opened name ns_client attributes ∷ es) before).stanza
        ≡ opened name ns_client attributes ∷ es
  unfolding feed replay write_iq
  replay-feed name attributes es before d w u =
      let start = opened name ns_client attributes in
      let f = handle_event q p start before in
      let begun : f.stanza.tokens ≡ start ∷ [] = first_noted name attributes before d in
      let notes =
        tokens-feed 0 es f w (omega (arith, d, depth_opened name ns_client attributes before))
        ∙ ap (note_all es) begun
        ∙ note_all-Unmixed es start [] u in
      let turned : reverse (reverse es ++ start ∷ []) ≡ start ∷ es =
        ap reverse (sym (reverse-cons start es)) ∙ reverse-reverse (start ∷ es) in
      let i = (feed q p es f).stanza in
      ap (λ z. if is_empty z then serialize q i else write_tokens true (reverse z) [] []) notes
      ∙ ap
          (λ b.
            if b
            then serialize q i
            else write_tokens true (reverse (reverse es ++ start ∷ [])) [] [])
          (is_empty-last (reverse es) start)
      ∙ ap (λ z. write_tokens true z [] []) turned
      ∙ ap (λ z. start ∷ z) (write_tokens-inside es ns_client [] w)
