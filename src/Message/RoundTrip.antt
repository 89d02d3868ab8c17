-- ===== src/Message/RoundTrip.antt =====
-- What the message factory writes it reads back, as far as it keeps languages apart.
use jreen.Base.{
  arith, List, [], ◌∷◌, ◌++◌, if◌then◌else◌, Text, text, text_discrete, is_empty, Hash,
  append_assoc, ◌≡◌, ◌≢◌, refl, ap, ◌∙◌, sym,
}
use jreen.Prep.{Preps}
use jreen.Jid.Attributes.{jid_after, IsRead}
use jreen.Xml.{NsEvent, opened, closed, given, given_element}
use jreen.LangMap.{LangMap, langs, value, keys, value_or}
use jreen.LangMap.Entries.{Listed, value-other}
use jreen.Stanza.Header.{
  write_langs-append, ns_client, header, header-Reads, characters, write_langs,
}
use jreen.Sessions.{MessageType, invalid}
use jreen.Message.{
  MessagePrivate, no_message, type_text, type_of, at_message, Factory, new_factory, plain,
  handle_event, feed, unless_invalid, serialize,
}

-- The text that is read last: the one without a language, or that of the last language.
abbrev pub last_text : Hash Text → Text → Text
last_text [] d = d
last_text ((k, s) ∷ m) d = last_text m s

abbrev pub text_after : LangMap → Text
text_after m = if is_empty m.base then last_text m.other [] else m.base

abbrev pub message_after : MessagePrivate → MessagePrivate
message_after m = record m {
  from = jid_after m.from;
  to = jid_after m.to;
  body = plain (text_after m.body);
  subject = plain (text_after m.subject);
}

-- The parts of a message that have several languages.
data Part : Type 0 where
  body_part subject_part : Part

abbrev tag_of : Part → Text
tag_of body_part = text "body"
tag_of subject_part = text "subject"

abbrev put_part : Part → Text → MessagePrivate → MessagePrivate
put_part body_part s m = record m { body = plain s }
put_part subject_part s m = record m { subject = plain s }

put_part-put_part :
    (part : Part) (s d : Text) (m : MessagePrivate)
    → put_part part s (put_part part d m) ≡ put_part part s m
put_part-put_part body_part s d m = refl
put_part-put_part subject_part s d m = refl

module _ (p : Preps) where
  abbrev between : MessagePrivate → Factory
  between m = record { depth = 1; state = at_message; stanza = m }

  read_text :
      (part : Part) (lang s : Text) (m : MessagePrivate) (rest : List NsEvent)
      → s ≢ []
      → feed p
          (opened (tag_of part) ns_client (given (text "xml:lang") lang [])
            ∷ characters s (closed ∷ rest))
          (between m)
        ≡ feed p rest (between (put_part part s m))
  unfolding feed handle_event text_discrete
  read_text part lang [] m rest h = absurd (h refl)
  read_text body_part lang (c ∷ s) m rest h = refl
  read_text subject_part lang (c ∷ s) m rest h = refl

  feed-write_others :
      (part : Part) (d base : Text) (m : MessagePrivate) (before other : Hash Text) (all : LangMap)
      (rest : List NsEvent)
      → Listed before other
      → all ≡ record { base = base; other = before ++ other }
      → feed p (write_langs (tag_of part) all (keys other) rest) (between (put_part part d m))
        ≡ feed p rest (between (put_part part (last_text other d) m))
  unfolding write_langs
  feed-write_others part d base m before [] all rest h e = refl
  feed-write_others part d base m before (([], s) ∷ other) all rest h e = absurd (h.0 refl)
  feed-write_others part d base m before ((c ∷ k, s) ∷ other) all rest h e =
      let entry : Text × Text = (c ∷ k, s) in
      let others = write_langs (tag_of part) all (keys other) rest in
      let found = ap (value (c ∷ k)) e ∙ value-other c k s base before other h.2 in
      ap
        (λ z.
          feed p
            (opened (tag_of part) ns_client (given (text "xml:lang") (c ∷ k) [])
              ∷ characters z (closed ∷ others))
            (between (put_part part d m)))
        found
      ∙ read_text part (c ∷ k) s (put_part part d m) others h.1
      ∙ ap (λ z. feed p others (between z)) (put_part-put_part part s d m)
      ∙ feed-write_others part s base m (before ++ entry ∷ []) other all rest h.3 (
          e
          ∙ ap (λ (z : Hash Text). record { base = base; other = z })
              (sym (append_assoc before (entry ∷ []) other)))

  -- All texts of a part, from the first language to the one without a name.
  feed-write_langs :
      (part : Part) (base : Text) (other : Hash Text) (m : MessagePrivate) (rest : List NsEvent)
      → Listed [] other
      → let all : LangMap = record { base = base; other = other } in
        feed p (write_langs (tag_of part) all (langs all) rest) (between (put_part part [] m))
        ≡ feed p rest (between (put_part part (text_after all) m))
  unfolding langs write_langs value_or
  feed-write_langs part [] other m rest h =
      feed-write_others part [] [] m [] other (record { base = []; other = other }) rest h refl
  feed-write_langs part (c ∷ base) other m rest h =
      let all : LangMap = record { base = c ∷ base; other = other } in
      let final = write_langs (tag_of part) all ([] ∷ []) rest in
      let last = last_text other [] in
      ap (λ z. feed p z (between (put_part part [] m)))
        (write_langs-append (tag_of part) all (keys other) ([] ∷ []) rest)
      ∙ feed-write_others part [] (c ∷ base) m [] other all final h refl
      ∙ read_text part [] (c ∷ base) (put_part part last m) rest (λ e. ground arith)
      ∙ ap (λ z. feed p rest (between z)) (put_part-put_part part (c ∷ base) last m)

  read_thread :
      (s : Text) (m : MessagePrivate)
      → (feed p
          (given_element (text "thread") ns_client s (closed ∷ []))
          (between (record m { thread = [] }))).stanza
        ≡ record m { thread = s }
  unfolding feed handle_event text_discrete
  read_thread [] m = refl
  read_thread (c ∷ s) m = refl

  start_right :
      (m : MessagePrivate)
      → IsRead p m.from
      → IsRead p m.to
      → handle_event p
          (opened
            (text "message")
            ns_client
            (header m.from m.to m.id (given (text "type") (type_text m.subtype) [])))
          new_factory
        ≡ between (record no_message {
          from = jid_after m.from;
          to = jid_after m.to;
          id = m.id;
          subtype = type_of (type_text m.subtype);
        })
  unfolding handle_event
  start_right m f t =
      let r = header-Reads p m.from m.to m.id (type_text m.subtype) f t in
      rw (r.from_right, r.to_right, r.id_right, r.type_right) refl

  type_of-type_text : (t : MessageType) → t ≢ invalid → type_of (type_text t) ≡ t
  unfolding text_discrete
  type_of-type_text invalid h = absurd (h refl)
  type_of-type_text _ h = refl

  unless_invalid-valid :
      (t : MessageType) (es : List NsEvent) → t ≢ invalid → unless_invalid t es ≡ es
  unless_invalid-valid invalid es h = absurd (h refl)
  unless_invalid-valid _ es h = refl

  -- A message that is written and read is the same message, but that of its subject and of its body
  -- only one text is left, the one without a language or else that of the last language, and that a
  -- JID that is not valid is read as the empty one. Its type is not invalid, its JIDs read as
  -- themselves, and no text in another language and no language is empty or listed twice.
  pub message-serialize :
      (m : MessagePrivate)
      → m.subtype ≢ invalid
      → IsRead p m.from
      → IsRead p m.to
      → Listed [] m.body.other
      → Listed [] m.subject.other
      → (feed p (serialize m) new_factory).stanza ≡ message_after m
  unfolding serialize feed handle_event
  message-serialize m valid f t bodies subjects =
      let thread = given_element (text "thread") ns_client m.thread (closed ∷ []) in
      let body = write_langs (text "body") m.body (langs m.body) thread in
      let subject = write_langs (text "subject") m.subject (langs m.subject) body in
      let start =
        opened (text "message") ns_client
          (header m.from m.to m.id (given (text "type") (type_text m.subtype) [])) in
      let head : MessagePrivate = record no_message {
        from = jid_after m.from;
        to = jid_after m.to;
        id = m.id;
      } in
      let typed : MessagePrivate = record head { subtype = m.subtype } in
      let titled : MessagePrivate = record typed { subject = plain (text_after m.subject) } in
      ap (λ z. (feed p z new_factory).stanza)
        (unless_invalid-valid m.subtype (start ∷ subject) valid)
      ∙ ap (λ z. (feed p subject z).stanza) (start_right m f t)
      ∙ ap (λ z. (feed p subject (between (record head { subtype = z }))).stanza)
          (type_of-type_text m.subtype valid)
      ∙ ap (λ z. z.stanza)
          (feed-write_langs subject_part m.subject.base m.subject.other typed body subjects
            ∙ feed-write_langs body_part m.body.base m.body.other titled thread bodies)
      ∙ read_thread m.thread (record titled { body = plain (text_after m.body) })
