-- ===== src/Presence/RoundTrip.antt =====
-- What the presence factory writes it reads back.
use jreen.Base.{
  ℤ, List, [], ◌∷◌, ◌++◌, Text, text, text_discrete, Hash, get, append_assoc, append-nil, ◌≡◌, ◌≢◌,
  refl, ap, ◌∙◌, sym,
}
use jreen.Prep.{Preps}
use jreen.Jid.Attributes.{jid_after, IsRead}
use jreen.Xml.{NsEvent, opened, closed, given_element}
use jreen.LangMap.Entries.{Listed, put-append, value-other}
use jreen.LangMap.{LangMap, set_value, langs, value, value_or, keys}
use jreen.Stanza.Header.{write_langs-append, ns_client, characters, write_langs, header-Reads}
use jreen.Presence.{
  PresenceType, invalid, available, subscribe, unsubscribe, subscribed, unsubscribed, empty,
  Presence, no_presence,
}
use jreen.Presence.Factory.{
  at_nowhere, at_status, Factory, new_factory, type_of, type_text, show_text, header_attributes,
  handle_event, feed, serialize, unless_invalid,
}

-- What the type is read as; the first three are written without a type or a text to show.
abbrev pub type_after : PresenceType → PresenceType
type_after invalid = available
type_after empty = available
type_after subscribed = subscribe
type_after unsubscribed = unsubscribe
type_after t = t

abbrev pub presence_after : Presence → Presence
presence_after p = record p {
  from = jid_after p.from;
  to = jid_after p.to;
  subtype = type_after p.subtype;
}

module _ (p : Preps) (to_int : Text → ℤ) where
  -- The factory between two children of a presence, of which the status before this was read.
  abbrev between : Text → Presence → Factory
  between lang s = record { depth = 1; state = at_nowhere; xml_lang = lang; stanza = s }

  abbrev with_status : Presence → Text → Hash Text → Presence
  with_status s base other = record s { status = record { base = base; other = other } }

  start_right :
      (s : Presence)
      → IsRead p s.from
      → IsRead p s.to
      → handle_event p to_int (opened (text "presence") ns_client (header_attributes s)) new_factory
        ≡ between [] (record no_presence {
          from = jid_after s.from;
          to = jid_after s.to;
          id = s.id;
          subtype = type_of (type_text s.subtype);
        })
  unfolding handle_event header_attributes
  start_right s f t =
      let r = header-Reads p s.from s.to s.id (type_text s.subtype) f t in
      rw (r.from_right, r.to_right, r.id_right, r.type_right) refl

  in_status : Text → Presence → Hash Text → Factory
  in_status lang s before = record {
    depth = 2;
    state = at_status;
    xml_lang = lang;
    stanza = with_status s [] before;
  }

  feed-write_status :
      (s : Presence) (lang base : Text) (before m : Hash Text) (all : LangMap) (rest : List NsEvent)
      → Listed before m
      → all ≡ record { base = base; other = before ++ m }
      → (last : Text) × (feed p to_int
            (write_langs (text "status") all (keys m) rest)
            (between lang (with_status s [] before))
          ≡ feed p to_int rest (between last (with_status s [] (before ++ m))))
  unfolding feed handle_event write_langs text_discrete get set_value in_status
  feed-write_status s lang base before [] all rest h e = (
    lang,
    ap (λ z. feed p to_int rest (between lang (with_status s [] z))) (sym (append-nil before)),
  )
  feed-write_status s lang base before (([], t) ∷ m) all rest h e = absurd (h.0 refl)
  feed-write_status s lang base before ((k, []) ∷ m) all rest h e = absurd (h.1 refl)
  feed-write_status s lang base before ((c ∷ k, d ∷ t) ∷ m) all rest h e =
      let entry : Text × Text = (c ∷ k, d ∷ t) in
      let others = write_langs (text "status") all (keys m) rest in
      let joined = append_assoc before (entry ∷ []) m in
      let (last, read) =
        feed-write_status s (c ∷ k) base (before ++ entry ∷ []) m all rest h.3
          (e ∙ ap (λ (z : Hash Text). record { base = base; other = z }) (sym joined)) in
      (
        last,
        ap (λ z. feed p to_int (characters z (closed ∷ others)) (in_status (c ∷ k) s before))
              (ap (value (c ∷ k)) e ∙ value-other c k (d ∷ t) base before m h.2)
            ∙ ap (λ z. feed p to_int others (between (c ∷ k) (with_status s [] z)))
                (put-append (c ∷ k) (d ∷ t) before h.2)
            ∙ read
            ∙ ap (λ z. feed p to_int rest (between last (with_status s [] z))) joined,
      )

  -- All of the status, from the first language to the one without a name.
  feed-write_langs :
      (s : Presence) (base : Text) (other : Hash Text) (rest : List NsEvent)
      → Listed [] other
      → let all : LangMap = record { base = base; other = other } in
        (last : Text) × (feed p to_int
            (write_langs (text "status") all (langs all) rest)
            (between [] (with_status s [] []))
          ≡ feed p to_int rest (between last (with_status s base other)))
  unfolding langs feed handle_event write_langs value_or text_discrete set_value get
  feed-write_langs s [] other rest h =
      feed-write_status s [] [] [] other (record { base = []; other = other }) rest h refl
  feed-write_langs s (c ∷ base) other rest h =
      let all : LangMap = record { base = c ∷ base; other = other } in
      let final = write_langs (text "status") all ([] ∷ []) rest in
      let (last, read) = feed-write_status s [] (c ∷ base) [] other all final h refl in
      (
        [],
        ap (λ z. feed p to_int z (between [] (with_status s [] [])))
              (write_langs-append (text "status") all (keys other) ([] ∷ []) rest)
            ∙ read
            ∙ refl,
      )

  read_show :
      (t : PresenceType) (lang : Text) (s : Presence)
      → (feed p to_int
          (given_element (text "show") ns_client (show_text t) (closed ∷ []))
          (between lang (record s { subtype = type_of (type_text t) }))).stanza
        ≡ record s { subtype = type_after t }
  unfolding feed handle_event text_discrete
  read_show invalid lang s = refl
  read_show _ lang s = refl

  read_priority :
      (digits : Text) (s : Presence) (rest : List NsEvent)
      → digits ≢ []
      → feed p to_int
          (opened (text "priority") ns_client [] ∷ characters digits (closed ∷ rest))
          (between [] s)
        ≡ feed p to_int rest (between [] (record s { priority = to_int digits }))
  unfolding feed handle_event text_discrete
  read_priority [] s rest h = absurd (h refl)
  read_priority (c ∷ digits) s rest h = refl

  unless_invalid-valid :
      (t : PresenceType) (es : List NsEvent) → t ≢ invalid → unless_invalid t es ≡ es
  unless_invalid-valid invalid es h = absurd (h refl)
  unless_invalid-valid _ es h = refl

  -- A presence that is written and read is the same presence, but that subscribed is read as
  -- subscribe, unsubscribed as unsubscribe and empty as available, and that a JID that is not valid
  -- is read as the empty one. Its type is not invalid, its JIDs read as themselves, the texts of its
  -- status in other languages and their languages are not empty and no language is listed twice, and
  -- its priority is written as a text that is read as it.
  pub stanza-serialize :
      (number : ℤ → Text) (s : Presence)
      → s.subtype ≢ invalid
      → IsRead p s.from
      → IsRead p s.to
      → Listed [] s.status.other
      → number s.priority ≢ []
      → to_int (number s.priority) ≡ s.priority
      → (feed p to_int (serialize number s) new_factory).stanza ≡ presence_after s
  unfolding serialize feed handle_event
  stanza-serialize number s valid f t listed digits same =
      let show = given_element (text "show") ns_client (show_text s.subtype) (closed ∷ []) in
      let status = write_langs (text "status") s.status (langs s.status) show in
      let priority =
        opened (text "priority") ns_client [] ∷ characters (number s.priority) (closed ∷ status) in
      let header = opened (text "presence") ns_client (header_attributes s) in
      let head : Presence = record no_presence {
        from = jid_after s.from;
        to = jid_after s.to;
        id = s.id;
        subtype = type_of (type_text s.subtype);
      } in
      let read : Presence = record head { priority = s.priority } in
      let (last, all) = feed-write_langs read s.status.base s.status.other show listed in
      ap (λ z. (feed p to_int z new_factory).stanza)
        (unless_invalid-valid s.subtype (header ∷ priority) valid)
      ∙ ap (λ z. (feed p to_int priority z).stanza) (start_right s f t)
      ∙ ap (λ z. z.stanza) (read_priority (number s.priority) head status digits)
      ∙ ap (λ (z : ℤ). (feed p to_int status (between [] (record head { priority = z }))).stanza)
          same
      ∙ ap (λ z. z.stanza) all
      ∙ read_show s.subtype last (record read { status = s.status })
