-- ===== src/Client/Replies.antt =====
-- Requests of the client and the answers to them.
use jreen.Base.{
  ℕ, true, ◌++◌, is_empty, if◌then◌else◌, ◌||◌, none, some, [], ◌∷◌, Text, get, put, remove,
  get-put, get-remove, ◌≡◌, ◌≢◌, refl, arith,
}
use jreen.Stanza.{Payload, Iq, iq, is_request, is_answer}
use jreen.Client.{
  Client, Track, sent, answered, Application, send, with_id, get_id, handle_stanza, fill_from,
}

module _ (type_of : Payload → ℕ) (prefix : Text) (number : ℕ → Text) (now : Text)
    (app : Application) where
  -- The request as it is sent: with its own id, or with a new one where it has none.
  abbrev pub identified : Client → Iq → Iq
  identified c request =
      if is_empty request.id then record request { id = prefix ++ number c.current_id } else request

  send_lem :
      (c : Client) (track : Track) (request : Iq)
      → c.conn_open ≡ true
      → (c.is_connected || request.connection) ≡ true
      → is_request request.kind ≡ true
      → let j = identified c request in
        let (waiting, written) = send type_of prefix number now track request c in
        (waiting.iq_tracks ≡ put j.id track c.iq_tracks) × (written ≡ sent (fill_from c j) ∷ [])
  unfolding send with_id get_id fill_from
  send_lem c track request o k r = ground arith

  answer_lem :
      (c : Client) (i : Iq) (track : Track)
      → is_answer i.kind ≡ true
      → get i.id c.iq_tracks ≡ some track
      → handle_stanza type_of prefix number now app (iq i) c
        ≡ (record c { iq_tracks = remove i.id c.iq_tracks }, answered track i ∷ [])
  unfolding handle_stanza
  answer_lem c i track a e = rw (a, handle_stanza) (ground arith)

  no_answer_lem :
      (c : Client) (i : Iq)
      → is_answer i.kind ≡ true
      → get i.id c.iq_tracks ≡ none
      → handle_stanza type_of prefix number now app (iq i) c ≡ (c, [])
  unfolding handle_stanza
  no_answer_lem c i a e = rw (a, handle_stanza) (ground arith)

  -- Where the client can send, a request is sent under its own id, or under a new one where it has
  -- none. An answer with that id goes to the one who sent that request, once: a second answer with
  -- the same id goes to nobody. No track under another id is lost.
  pub answer_once :
      (c : Client) (track : Track) (request first second : Iq)
      → c.conn_open ≡ true
      → (c.is_connected || request.connection) ≡ true
      → is_request request.kind ≡ true
      → is_answer first.kind ≡ true
      → is_answer second.kind ≡ true
      → first.id ≡ (identified c request).id
      → second.id ≡ (identified c request).id
      → let id = (identified c request).id in
        let (waiting, written) = send type_of prefix number now track request c in
        let (done, told) = handle_stanza type_of prefix number now app (iq first) waiting in
        (written ≡ sent (fill_from c (identified c request)) ∷ [])
        × (told ≡ answered track first ∷ [])
        × (handle_stanza type_of prefix number now app (iq second) done ≡ (done, []))
        × ((j : Text) → j ≢ id → get j done.iq_tracks ≡ get j c.iq_tracks)
  answer_once c track request first second o k r a b e f =
      let id = (identified c request).id in
      let waiting = (send type_of prefix number now track request c).0 in
      let (tracks, written) = send_lem c track request o k r in
      let done : Client = record waiting { iq_tracks = remove first.id waiting.iq_tracks } in
      let found : get first.id waiting.iq_tracks ≡ some track =
        ground (arith, tracks, get-put id first.id track c.iq_tracks) in
      let gone : get second.id done.iq_tracks ≡ none =
        ground (arith, get-remove first.id second.id waiting.iq_tracks) in
      rw (answer_lem waiting first track a found) (
        written,
        refl,
        no_answer_lem done second b gone,
        λ j ne. ground (
          arith,
          tracks,
          get-remove first.id j waiting.iq_tracks,
          get-put id j track c.iq_tracks,
        ),
      )
