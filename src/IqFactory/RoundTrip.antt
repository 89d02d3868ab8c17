-- ===== src/IqFactory/RoundTrip.antt =====
-- An IQ that is written and read has the same header and the same payloads, for any factories of
-- payloads that keep their promise.
use jreen.Base.{
  ℕ, zero, suc, ◌+◌, ◌-◌, ◌≤◌, ◌<◌, append-nil, Bool, false, List, [], ◌∷◌, ◌++◌, if◌then◌else◌,
  ◌==◌, Text, text, text_discrete, Hash, ◌≡◌, ◌≢◌, refl, sym, ap, ◌∙◌, arith, append_assoc,
}
use jreen.Prep.{Preps}
use jreen.Jid.Attributes.{jid_after, IsRead}
use jreen.Xml.{NsEvent, opened, text_read, closed, given}
use jreen.Form.Whole.{Whole}
use jreen.Stanza.{IqType, invalid_iq}
use jreen.Stanza.Header.{ns_client, header, header-Reads}
use jreen.Payloads.{Factories, feed_one, IsLawful}
use jreen.IqFactory.{
  IqPrivate, type_text, type_of, Factory, insert, handle_event, feed, write_payloads,
  unless_invalid, serialize, push_start, push_text,
}

module _ {P G : Type 0} (q : Factories P G) (p : Preps) where
  feed-append :
      (es fs : List NsEvent) (f : Factory P G) → feed q p (es ++ fs) f ≡ feed q p fs (feed q p es f)
  unfolding feed
  feed-append [] fs f = refl
  feed-append (e ∷ es) fs f = feed-append es fs (handle_event q p e f)

  module _ (h : IqPrivate P) where
    -- The factory between two payloads, and inside one that factory `i` reads.
    abbrev between : List P → List NsEvent → G → Factory P G
    between ps tokens g = record {
      depth = 1;
      stanza = record h { extensions = ps; tokens = tokens };
      parsers = [];
      store = g;
    }

    abbrev inside : ℕ → ℕ → List P → List NsEvent → G → Factory P G
    inside i k ps tokens g = record {
      depth = suc (suc k);
      stanza = record h { extensions = ps; tokens = tokens };
      parsers = i ∷ [];
      store = g;
    }

    start_inside :
        (i k : ℕ) (name uri : Text) (attributes : Hash Text) (ps : List P) (tokens : List NsEvent)
        (g : G)
        → let e = opened name uri attributes in
          handle_event q p e (inside i k ps tokens g)
          ≡ inside i (suc k) ps (push_start e tokens) (q.handle i e g)
    unfolding handle_event
    start_inside i k name uri attributes ps tokens g =
        let deeper : suc (suc k) + 1 ≡ suc (suc (suc k)) = omega arith in
        let not_one : (suc (suc (suc k)) == 1) ≡ false = ground arith in
        let not_two : (suc (suc (suc k)) == 2) ≡ false = ground arith in
        rw (deeper, not_one, not_two) refl

    end_inside :
        (i k : ℕ) (ps : List P) (tokens : List NsEvent) (g : G)
        → handle_event q p closed (inside i (suc k) ps tokens g)
          ≡ inside i k ps (closed ∷ tokens) (q.handle i closed g)
    unfolding handle_event
    end_inside i k ps tokens g =
        let shallower : suc (suc (suc k)) - 1 ≡ suc (suc k) = omega arith in
        let not_two : (suc (suc (suc k)) == 2) ≡ false = ground arith in
        rw (shallower, not_two) refl

    -- A payload is read by its factory alone, up to the end of its element.
    inside_payload :
        (i k : ℕ) (es : List NsEvent) (ps : List P) (tokens : List NsEvent) (g : G)
        → Whole (suc k) es
        → let (r, after) = q.create i (feed_one q i es g) in
          (more : List NsEvent) × (feed q p es (inside i k ps tokens g)
            ≡ between (insert q r ps) more after)
    unfolding feed handle_event feed_one
    inside_payload i k [] ps tokens g w = absurd w
    inside_payload i k (opened name uri attributes ∷ es) ps tokens g w =
        let e = opened name uri attributes in
        let (more, rest) =
          inside_payload i (suc k) es ps (push_start e tokens) (q.handle i e g) w in
        (more, ap (feed q p es) (start_inside i k name uri attributes ps tokens g) ∙ rest)
    inside_payload i k (text_read s ∷ es) ps tokens g w =
        inside_payload i k es ps (push_text s tokens) (q.handle i (text_read s) g) w
    inside_payload i zero (closed ∷ es) ps tokens g w = (closed ∷ tokens, rw w refl)
    inside_payload i (suc k) (closed ∷ es) ps tokens g w =
        let (more, rest) = inside_payload i k es ps (closed ∷ tokens) (q.handle i closed g) w in
        (more, ap (feed q p es) (end_inside i k ps tokens g) ∙ rest)

  -- What the map of the payloads is after these are read.
  abbrev pub insert_all : List P → List P → List P
  insert_all [] ps = ps
  insert_all (r ∷ rs) ps = insert_all rs (insert q r ps)

  -- No two payloads have the same type, and they are listed by their types.
  abbrev pub Ascending : ℕ → List P → Type 0
  Ascending b [] = Unit {0}
  Ascending b (r ∷ rs) = (b ≤ q.type_of r) × Ascending (suc (q.type_of r)) rs

  abbrev AllBelow : ℕ → List P → Type 0
  AllBelow b [] = Unit {0}
  AllBelow b (r ∷ rs) = (q.type_of r < b) × AllBelow b rs

  AllBelow-append :
      (b c : ℕ) (r : P) (ps : List P)
      → b ≤ c
      → q.type_of r < c
      → AllBelow b ps
      → AllBelow c (ps ++ r ∷ [])
  AllBelow-append b c r [] l m h = (m, tt)
  AllBelow-append b c r (s ∷ ps) l m h = (omega (arith, h.0), AllBelow-append b c r ps l m h.1)

  insert-last :
      (b : ℕ) (r : P) (ps : List P) → AllBelow b ps → b ≤ q.type_of r → insert q r ps ≡ ps ++ r ∷ []
  unfolding insert
  insert-last b r [] h l = refl
  insert-last b r (s ∷ ps) h l = ground (arith, insert-last b r ps h.1 l, h.0)

  insert_all-Ascending :
      (b : ℕ) (rs ps : List P) → AllBelow b ps → Ascending b rs → insert_all rs ps ≡ ps ++ rs
  insert_all-Ascending b [] ps h a = sym (append-nil ps)
  insert_all-Ascending b (r ∷ rs) ps h a =
      ap (insert_all rs) (insert-last b r ps h a.0)
      ∙ insert_all-Ascending (suc (q.type_of r)) rs (ps ++ r ∷ [])
          (AllBelow-append b (suc (q.type_of r)) r ps (omega (arith, a.0)) (omega arith) h) a.1
      ∙ append_assoc ps (r ∷ []) rs

  type_of-type_text : (t : IqType) → t ≢ invalid_iq → type_of (type_text t) ≡ t
  unfolding text_discrete
  type_of-type_text invalid_iq h = absurd (h refl)
  type_of-type_text _ h = refl

  unless_invalid-valid :
      (t : IqType) (es : List NsEvent) → t ≢ invalid_iq → unless_invalid q t es ≡ es
  unless_invalid-valid invalid_iq es h = absurd (h refl)
  unless_invalid-valid _ es h = refl

  start_right :
      (i : IqPrivate P) (before : Factory P G)
      → i.subtype ≢ invalid_iq
      → IsRead p i.from
      → IsRead p i.to
      → before.depth ≡ 0
      → before.parsers ≡ []
      → let start =
          opened
            (text "iq")
            ns_client
            (header i.from i.to i.id (given (text "type") (type_text i.subtype) [])) in
        handle_event q p start before
        ≡ between
            (record i {
              from = jid_after i.from;
              to = jid_after i.to;
              extensions = [];
              tokens = [];
            })
            []
            (start ∷ [])
            before.store
  unfolding handle_event push_start
  start_right i before valid f t d r =
      let w = header-Reads p i.from i.to i.id (type_text i.subtype) f t in
      rw
        (
          d,
          r,
          w.from_right,
          w.to_right,
          w.id_right,
          w.type_right,
          type_of-type_text i.subtype valid,
        )
        refl

  module _ (Good : P → Type 0) (Idle : G → Type 0) (law : IsLawful q Good Idle) where
    abbrev pub AllGood : List P → Type 0
    AllGood [] = Unit {0}
    AllGood (r ∷ rs) = Good r × AllGood rs

    read_payload :
        (h : IqPrivate P) (r : P) (ps : List P) (tokens : List NsEvent) (g : G)
        → Good r
        → Idle g
        → (more : List NsEvent) × (after : G) × Idle after
          × (feed q p (q.write (q.type_of r) r) (between h ps tokens g)
              ≡ between h (insert q r ps) more after)
    unfolding feed handle_event feed_one
    read_payload h r ps tokens g good idle =
        let i = q.type_of r in
        let el = law.element r good in
        let e = opened el.name el.uri el.attributes in
        let (back, still) = law.read r g good idle in
        let (more, inner) =
          inside_payload h i 0 el.inside ps (push_start e tokens) (q.handle i e g) el.whole in
        let same = ap (λ z. q.create i (feed_one q i z g)) el.written in
        let start : handle_event q p e (between h ps tokens g)
            ≡ inside h i 0 ps (push_start e tokens) (q.handle i e g) =
          rw el.sole refl in
        (
          more,
          (q.create i (feed_one q i (q.write i r) g)).1,
          still,
          ap (λ z. feed q p z (between h ps tokens g)) el.written
              ∙ ap (feed q p el.inside) start
              ∙ inner
              ∙ ap (λ z. between h (insert q z.0 ps) more z.1) (sym same)
              ∙ ap
                  (λ z.
                    between h (insert q z ps) more (q.create i (feed_one q i (q.write i r) g)).1)
                  back,
        )

    read_payloads :
        (h : IqPrivate P) (rs ps : List P) (tokens : List NsEvent) (g : G)
        → AllGood rs
        → Idle g
        → (more : List NsEvent) × ((feed q p
              (write_payloads q rs ++ closed ∷ [])
              (between h ps tokens g)).stanza
            ≡ record h { extensions = insert_all rs ps; tokens = more })
    unfolding feed write_payloads handle_event
    read_payloads h [] ps tokens g good idle = (closed ∷ tokens, refl)
    read_payloads h (r ∷ rs) ps tokens g good idle =
        let known = law.known r good.0 in
        let (more, after, still, one) = read_payload h r ps tokens g good.0 idle in
        let (last, rest) = read_payloads h rs (insert q r ps) more after good.1 still in
        let written = q.write (q.type_of r) r in
        let end = write_payloads q rs ++ closed ∷ [] in
        (
          last,
          ap
                (λ (b : Bool).
                  (feed q p (((if b then written else []) ++ write_payloads q rs) ++ closed ∷ [])
                    (between h ps tokens g)).stanza)
                known
              ∙ ap (λ z. (feed q p z (between h ps tokens g)).stanza)
                  (append_assoc written (write_payloads q rs) (closed ∷ []))
              ∙ ap (λ z. z.stanza)
                  (feed-append written end (between h ps tokens g) ∙ ap (feed q p end) one)
              ∙ rest,
        )

    -- An IQ that is written and read has the same type, header and payloads, but that a JID that is
    -- not valid is read as the empty one. Its type is not invalid, its JIDs read as themselves, its
    -- payloads are good, none has the type of another, and they stand by their types.
    pub iq-serialize :
        (i : IqPrivate P) (before : Factory P G)
        → i.subtype ≢ invalid_iq
        → IsRead p i.from
        → IsRead p i.to
        → AllGood i.extensions
        → Ascending 0 i.extensions
        → before.depth ≡ 0
        → before.parsers ≡ []
        → Idle before.store
        → (more : List NsEvent) × ((feed q p (serialize q i) before).stanza
            ≡ record i { from = jid_after i.from; to = jid_after i.to; tokens = more })
    unfolding serialize feed handle_event
    iq-serialize i before valid f t good asc d r idle =
        let start =
          opened (text "iq") ns_client
            (header i.from i.to i.id (given (text "type") (type_text i.subtype) [])) in
        let body = write_payloads q i.extensions ++ closed ∷ [] in
        let h : IqPrivate P = record i {
          from = jid_after i.from;
          to = jid_after i.to;
          extensions = [];
          tokens = [];
        } in
        let (more, rest) = read_payloads h i.extensions [] (start ∷ []) before.store good idle in
        (
          more,
          ap (λ z. (feed q p z before).stanza) (unless_invalid-valid i.subtype (start ∷ body) valid)
              ∙ ap (λ z. (feed q p body z).stanza) (start_right i before valid f t d r)
              ∙ rest
              ∙ ap (λ z. record h { extensions = z; tokens = more })
                  (insert_all-Ascending 0 i.extensions [] tt asc),
        )
