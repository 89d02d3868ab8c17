-- ===== src/Payloads/Lawful.antt =====
-- The factories of the small payloads keep what the stanza factories rely on.
use jreen.Base.{
  ℕ, suc, true, List, [], ◌∷◌, Text, text, text_discrete, get, Hash, ◌≡◌, refl, ap, sym, subst, ◌∙◌,
}
use jreen.Xml.{NsEvent, opened, closed, given, given_element}
use jreen.Stanza.Header.{characters}
use jreen.Form.Whole.{Whole, given_element-Whole}
use jreen.Payloads.{Element, IsLawful, is_known, feed_one, parsers_in}
use jreen.Payloads.Simple.{
  chat_state_of, chat_state_text, receipt_attributes, receipt_text, ReceiptType, is_state,
  is_receipt, VersionFactory, UpdateFactory, PgpFactory, text_element, ns_version, ns_signed,
  ns_encrypted, SimplePayload, Stores, ping, attention, chat_state, receipt, nickname, version,
  update, signed, encrypted, ChatState, active, inactive, gone, composing, paused, unknown_state,
  request, received, invalid_receipt, Version, Update, handle_chat, handle_receipt, handle_nick,
  handle_version, handle_update, handle_pgp, create_update, write_version, write_update,
}
use jreen.Payloads.Registered.{number, registered, IsGood, IsIdle, handle, write}

characters-Whole :
    (k : ℕ) (s : Text) (es : List NsEvent) → Whole (suc k) es → Whole (suc k) (characters s es)
characters-Whole k [] es h = h
characters-Whole k (c ∷ s) es h = h

element_of :
    (p : SimplePayload) (name uri : Text) (attributes : Hash Text) (inside : List NsEvent)
    → write p ≡ opened name uri attributes ∷ inside
    → Whole 1 inside
    → parsers_in registered registered.types name uri attributes ≡ number p ∷ []
    → Element registered p
element_of p name uri attributes inside w h s = record {
  name = name;
  uri = uri;
  attributes = attributes;
  inside = inside;
  written = w;
  whole = h;
  sole = s;
}

chat_element : (s : ChatState) → is_state s ≡ true → Element registered (chat_state s)
unfolding text_discrete parsers_in
chat_element unknown_state h = cc
chat_element active h = element_of _ _ _ _ _ refl refl refl
chat_element inactive h = element_of _ _ _ _ _ refl refl refl
chat_element gone h = element_of _ _ _ _ _ refl refl refl
chat_element composing h = element_of _ _ _ _ _ refl refl refl
chat_element paused h = element_of _ _ _ _ _ refl refl refl

receipt_element :
    (t : ReceiptType) (id : Text)
    → is_receipt t ≡ true
    → Element registered (receipt (record { type_of = t; id = id }))
unfolding text_discrete parsers_in
receipt_element invalid_receipt id h = cc
receipt_element request id h = element_of _ _ _ _ _ refl refl refl
receipt_element received id h = element_of _ _ _ _ _ refl refl refl

element : (p : SimplePayload) → IsGood p → Element registered p
unfolding text_discrete parsers_in write_version write_update
element ping h = element_of _ _ _ _ _ refl refl refl
element attention h = element_of _ _ _ _ _ refl refl refl
element (chat_state s) h = chat_element s h
element (receipt r) h = receipt_element r.type_of r.id h
element (nickname s) h = element_of _ _ _ _ _ refl (characters-Whole 0 s (closed ∷ []) refl) refl
element (version v) h =
    let os = given_element (text "os") ns_version v.os (closed ∷ []) in
    let number = given_element (text "version") ns_version v.version os in
    element_of _ _ _ _ _ refl
      (given_element-Whole 0 (text "name") ns_version v.name number (
        given_element-Whole 0 (text "version") ns_version v.version os
          (given_element-Whole 0 (text "os") ns_version v.os (closed ∷ []) refl)))
      refl
element (update u) h =
    element_of _ _ _ _ _ refl (characters-Whole 1 u.photo_hash (closed ∷ closed ∷ []) refl) refl
element (signed s) h = element_of _ _ _ _ _ refl (characters-Whole 0 s (closed ∷ []) refl) refl
element (encrypted s) h = element_of _ _ _ _ _ refl (characters-Whole 0 s (closed ∷ []) refl) refl

-- Events for one of the factories change that one alone.
abbrev fold : {F : Type 0} → (NsEvent → F → F) → List NsEvent → F → F
fold f [] s = s
fold f (e ∷ es) s = fold f es (f e s)

feed_one-version :
    (es : List NsEvent) (g : Stores)
    → feed_one registered 6 es g
      ≡ record g { version_factory = fold handle_version es g.version_factory }
unfolding feed_one handle
feed_one-version [] g = refl
feed_one-version (e ∷ es) g =
    feed_one-version es (record g { version_factory = handle_version e g.version_factory })

feed_one-update :
    (es : List NsEvent) (g : Stores)
    → feed_one registered 7 es g
      ≡ record g { update_factory = fold handle_update es g.update_factory }
unfolding feed_one handle
feed_one-update [] g = refl
feed_one-update (e ∷ es) g =
    feed_one-update es (record g { update_factory = handle_update e g.update_factory })

feed_one-signed :
    (es : List NsEvent) (g : Stores)
    → feed_one registered 8 es g ≡ record g { signed_factory = fold handle_pgp es g.signed_factory }
unfolding feed_one handle
feed_one-signed [] g = refl
feed_one-signed (e ∷ es) g =
    feed_one-signed es (record g { signed_factory = handle_pgp e g.signed_factory })

feed_one-encrypted :
    (es : List NsEvent) (g : Stores)
    → feed_one registered 9 es g
      ≡ record g { encrypted_factory = fold handle_pgp es g.encrypted_factory }
unfolding feed_one handle
feed_one-encrypted [] g = refl
feed_one-encrypted (e ∷ es) g =
    feed_one-encrypted es (record g { encrypted_factory = handle_pgp e g.encrypted_factory })

version_read :
    (n v o : Text) (f : VersionFactory)
    → let w : Version = record { name = n; version = v; os = o } in
      let after = fold handle_version (write_version w) (record f { depth = 0 }) in
      (after.read ≡ w) × (after.depth ≡ 0)
unfolding handle_version write_version text_discrete
version_read [] [] [] f = (refl, refl)
version_read [] [] (z ∷ o) f = (refl, refl)
version_read [] (y ∷ v) [] f = (refl, refl)
version_read [] (y ∷ v) (z ∷ o) f = (refl, refl)
version_read (x ∷ n) [] [] f = (refl, refl)
version_read (x ∷ n) [] (z ∷ o) f = (refl, refl)
version_read (x ∷ n) (y ∷ v) [] f = (refl, refl)
version_read (x ∷ n) (y ∷ v) (z ∷ o) f = (refl, refl)

update_read :
    (s : Text) (f : UpdateFactory)
    → let u : Update = record { photo_hash = s; has_photo_info = true } in
      let after = fold handle_update (write_update u) (record f { depth = 0 }) in
      (create_update after ≡ u) × (after.depth ≡ 0)
unfolding handle_update write_update create_update text_discrete
update_read [] f = (refl, refl)
update_read (c ∷ s) f = (refl, refl)

pgp_read :
    (uri s : Text) (f : PgpFactory)
    → fold handle_pgp (text_element (text "x") uri s) (record f { depth = 0 })
      ≡ record { depth = 0; query = s }
unfolding handle_pgp
pgp_read uri [] f = refl
pgp_read uri (c ∷ s) f = refl

chat_read : (s : ChatState) → is_state s ≡ true → chat_state_of (chat_state_text s) ≡ s
unfolding text_discrete
chat_read unknown_state h = cc
chat_read active h = refl
chat_read inactive h = refl
chat_read gone h = refl
chat_read composing h = refl
chat_read paused h = refl

receipt_read :
    (t : ReceiptType) (id : Text)
    → is_receipt t ≡ true
    → receipt_attributes (given (text "id") id []) (receipt_text t)
      ≡ record { type_of = t; id = id }
unfolding text_discrete get
receipt_read invalid_receipt id h = cc
receipt_read request [] h = refl
receipt_read request (c ∷ id) h = refl
receipt_read received [] h = refl
receipt_read received (c ∷ id) h = refl

-- What a payload is after its events: the factories give it out and are idle.
abbrev Right : SimplePayload → Stores → Type 0
Right p g = ((registered.create (number p) g).0 ≡ p) × IsIdle (registered.create (number p) g).1

abbrev Reads : SimplePayload → Stores → Type 0
Reads p g = Right p (feed_one registered (number p) (write p) g)

read_version : (v : Version) (g : Stores) → IsIdle g → Reads (version v) g
read_version v g (d, u, s, e) =
    let f = g.version_factory in
    let (right, idle) =
      subst
        (λ z.
          let after = fold handle_version (write_version v) z in
          (after.read ≡ v) × (after.depth ≡ 0))
        (ap (λ n. record f { depth = n }) (sym d)) (version_read v.name v.version v.os f) in
    subst (Right (version v)) (sym (feed_one-version (write_version v) g))
      (ap version right, (idle, u, s, e))

read_update :
    (s : Text) (g : Stores)
    → IsIdle g
    → Reads (update (record { photo_hash = s; has_photo_info = true })) g
read_update s g (d, u, h, e) =
    let f = g.update_factory in
    let w : Update = record { photo_hash = s; has_photo_info = true } in
    let (right, idle) =
      subst
        (λ z.
          let after = fold handle_update (write_update w) z in
          (create_update after ≡ w) × (after.depth ≡ 0))
        (ap (λ n. record f { depth = n }) (sym u)) (update_read s f) in
    subst (Right (update w)) (sym (feed_one-update (write_update w) g))
      (ap update right, (d, idle, h, e))

read_signed : (s : Text) (g : Stores) → IsIdle g → Reads (signed s) g
read_signed s g (d, u, h, e) =
    let f = g.signed_factory in
    let done =
      ap (λ n. fold handle_pgp (text_element (text "x") ns_signed s) (record f { depth = n })) h
      ∙ pgp_read ns_signed s f in
    subst (Right (signed s)) (sym (feed_one-signed (text_element (text "x") ns_signed s) g))
      (ap (λ z. signed z.query) done, (d, u, ap (λ z. z.depth) done, e))

read_encrypted : (s : Text) (g : Stores) → IsIdle g → Reads (encrypted s) g
read_encrypted s g (d, u, h, e) =
    let f = g.encrypted_factory in
    let done =
      ap (λ n. fold handle_pgp (text_element (text "x") ns_encrypted s) (record f { depth = n })) e
      ∙ pgp_read ns_encrypted s f in
    subst (Right (encrypted s))
      (sym (feed_one-encrypted (text_element (text "x") ns_encrypted s) g))
      (ap (λ z. encrypted z.query) done, (d, u, h, ap (λ z. z.depth) done))

read : (p : SimplePayload) (g : Stores) → IsGood p → IsIdle g → Reads p g
unfolding feed_one handle handle_chat handle_receipt handle_nick
read ping g h i = (refl, i)
read attention g h i = (refl, i)
read (chat_state s) g h i = (ap chat_state (chat_read s h), i)
read (receipt r) g h i = (ap receipt (receipt_read r.type_of r.id h), i)
read (nickname []) g h i = absurd (h refl)
read (nickname (c ∷ s)) g h i = (refl, i)
read (version v) g h i = read_version v g i
read (update u) g h i =
    subst (λ b. Reads (update (record u { has_photo_info = b })) g) (sym h)
      (read_update u.photo_hash g i)
read (signed s) g h i = read_signed s g i
read (encrypted s) g h i = read_encrypted s g i

known : (p : SimplePayload) → IsGood p → is_known registered (number p) registered.types ≡ true
known ping h = refl
known attention h = refl
known (chat_state s) h = refl
known (receipt r) h = refl
known (nickname s) h = refl
known (version v) h = refl
known (update u) h = refl
known (signed s) h = refl
known (encrypted s) h = refl

-- Each small payload that is good is written as one element that its own factory alone can parse,
-- and that the factory reads back, whatever it read before.
pub registered-IsLawful : IsLawful registered IsGood IsIdle
registered-IsLawful = record { element = element; read = read; known = known }
