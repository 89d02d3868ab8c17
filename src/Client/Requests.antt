-- ===== src/Client/Requests.antt =====
-- Requests of others: who is heard, and what they are told.
use jreen.Base.{
  ℕ, Bool, true, false, none, some, List, [], ◌∷◌, ◌++◌, Text, get, ◌≡◌, ◌≢◌, ◌⊎◌, refl, arith, ltb,
  Bool-cases, inl, inr, ap, ◌∙◌, subst, append-nil, if◌then◌else◌,
}
use mathlib.Core.List.{Perm, perm_middle}
use mathlib.Core.List.Perm
use jreen.Jid.{JidData, is_domain, empty_jid}
use jreen.Roster.{Roster, RosterItem, RosterQuery, none_given, to, handle_push, Signal}
use jreen.Stanza.{
  Payload, Iq, iq, is_request, is_answer, subscription_required, service_unavailable, result_iq,
  roster_payload, contains_ping, contains_time, make_iq, IqType, insert, add_extension,
  add_extensions, error_iq, error_payload,
}
use jreen.Client.{
  Client, Action, sent, iq_received, roster_signals, Application, send, handle_stanza,
  handle_request, fill_from, is_heard, handle_iq, answer_ping, answer_time, roster_slot, with_id,
  get_id, refusal, unless_accepted,
}

-- Nothing is known of the sender: a valid JID with a node or a resource, of another account and
-- of no room, that the roster does not hold or holds with no subscription to us.
pub record IsStranger (c : Client) (j : JidData) : Type 0 where
  pub valid : j.valid ≡ true
  pub not_domain : is_domain j ≡ false
  pub no_room : get j.bare c.rooms ≡ none
  pub not_self : j.bare ≢ c.jid.bare
  pub roster : Roster
  pub has_roster : c.roster ≡ some roster
  pub unknown :
      (get j.bare roster.items ≡ none)
      ⊎ ((item : RosterItem) × (get j.bare roster.items ≡ some item)
          × ((item.subscription ≡ none_given) ⊎ (item.subscription ≡ to)))

stranger-is_heard : (c : Client) (j : JidData) → IsStranger c j → is_heard j c ≡ false
unfolding is_heard
stranger-is_heard c j s =
    ground (arith, s.unknown, s.not_self, s.has_roster, s.valid, s.no_room, s.not_domain)

request-not_answer : (k : IqType) → is_request k ≡ true → is_answer k ≡ false
request-not_answer k r = ground arith

module _ (type_of : Payload → ℕ) where
  insert-Perm : (p : Payload) (ps : List Payload) → Perm (insert type_of p ps) (p ∷ ps)
  unfolding insert
  insert-Perm p [] = Perm.refl (p ∷ [])
  insert-Perm p (q ∷ qs) = elim (Bool-cases (ltb (type_of q) (type_of p))) [
    | inl e ↦ rw e (Perm.trans (Perm.cons q (insert-Perm p qs)) (Perm.swap p q qs))
    | inr e ↦ rw e (Perm.refl (p ∷ q ∷ qs))
  ]

  -- Adding payloads changes nothing else.
  add_extensions-Perm :
      (ps : List Payload) (i : Iq)
      → Perm (add_extensions type_of ps i).payloads (ps ++ i.payloads)
        × (add_extensions type_of ps i
            ≡ record i { payloads = (add_extensions type_of ps i).payloads })
  add_extensions-Perm [] i = (Perm.refl i.payloads, refl)
  add_extensions-Perm (p ∷ ps) i =
      let (perm, rest) = add_extensions-Perm ps (add_extension type_of p i) in
      (
        Perm.trans perm (
            Perm.trans (Perm.append_left ps (insert-Perm p i.payloads))
              (perm_middle ps i.payloads)),
        rest,
      )

module _ (type_of : Payload → ℕ) (prefix : Text) (number : ℕ → Text) (now : Text)
    (app : Application) where
  -- A request of a stranger gets one answer and has no other effect: an error under its own id, for
  -- the one who sent it and in the name of a client that is connected, with its payloads and the
  -- condition subscription-required. The client stays as it was, whatever the request asks, and the
  -- application never sees it.
  pub strangers_refused :
      (c : Client) (i : Iq)
      → is_request i.kind ≡ true
      → IsStranger c i.from
      → (answer : Iq) × (handle_stanza type_of prefix number now app (iq i) c
          ≡ (c, sent answer ∷ []))
        × (answer.kind ≡ error_iq)
        × (answer.id ≡ i.id)
        × (answer.to ≡ i.from)
        × (answer.from ≡ (if c.is_connected then c.jid else empty_jid))
        × Perm answer.payloads (error_payload subscription_required ∷ i.payloads)
  unfolding handle_stanza handle_request unless_accepted fill_from
  strangers_refused c i r s =
      let start = make_iq error_iq i.from i.id in
      let (perm, same) = add_extensions-Perm type_of i.payloads start in
      let payloads = (add_extensions type_of i.payloads start).payloads in
      let e = error_payload subscription_required in
      let answer : Iq = record start {
        from = if c.is_connected then c.jid else empty_jid;
        payloads = insert type_of e payloads;
      } in
      let filled : fill_from c (add_extension type_of e (record start { payloads = payloads }))
          ≡ answer =
        ground arith in
      let made : fill_from c (refusal type_of i i.payloads subscription_required) ≡ answer =
        ap (λ z. fill_from c (add_extension type_of e z)) same ∙ filled in
      (
        answer,
        rw (request-not_answer i.kind r, r, stranger-is_heard c i.from s, handle_stanza)
            (ap (λ z. (c, sent z ∷ [])) made),
        refl,
        refl,
        refl,
        refl,
        Perm.trans (insert-Perm type_of e payloads) (
            Perm.cons e
              (subst (λ (z : List Payload). Perm payloads z) (append-nil i.payloads) perm)),
      )

  no_ping_lem :
      (c : Client) (i : Iq)
      → contains_ping i.payloads ≡ false
      → answer_ping type_of prefix number now i c ≡ (c, [])
  unfolding answer_ping
  no_ping_lem c i p = rw (p, answer_ping) refl

  no_time_lem :
      (c : Client) (i : Iq)
      → contains_time i.payloads ≡ false
      → answer_time type_of prefix number now i c ≡ (c, [])
  unfolding answer_time
  no_time_lem c i p = rw (p, answer_time) refl

  no_query_lem :
      (c : Client) (i : Iq)
      → roster_payload i.payloads ≡ none
      → roster_slot type_of prefix number now i c ≡ (false, c, [])
  unfolding roster_slot
  no_query_lem c i q = rw (q, roster_slot) refl

  query_lem :
      (c : Client) (i : Iq) (query : RosterQuery) (r s : Roster) (signals : List Signal)
      → roster_payload i.payloads ≡ some query
      → c.roster ≡ some r
      → handle_push query r ≡ (s, signals)
      → roster_slot type_of prefix number now i c
        ≡ (true, record c { roster = some s }, roster_signals signals ∷ [])
  unfolding roster_slot
  query_lem c i query r s signals q e h = rw (q, e, h, roster_slot) refl

  quiet_lem :
      (c d : Client) (i : Iq) (mine : Bool) (actions : List Action)
      → contains_ping i.payloads ≡ false
      → contains_time i.payloads ≡ false
      → roster_payload i.payloads ≡ none
      → app i c ≡ (mine, d, actions)
      → handle_iq type_of prefix number now app i c ≡ (mine, d, iq_received i ∷ actions)
  unfolding handle_iq
  quiet_lem c d i mine actions p t q a =
      rw (no_ping_lem c i p, no_time_lem c i t, no_query_lem c i q, a, p, t, handle_iq) refl

  -- A request that is heard, has none of the payloads that the client knows and is not accepted by
  -- the application gets the error service-unavailable under its own id, after the actions of the
  -- application; no other answer is written. The client is the one that the application leaves.
  pub unknown_requests_refused :
      (c d : Client) (i : Iq) (actions : List Action)
      → is_request i.kind ≡ true
      → is_heard i.from c ≡ true
      → contains_ping i.payloads ≡ false
      → contains_time i.payloads ≡ false
      → roster_payload i.payloads ≡ none
      → app i c ≡ (false, d, actions)
      → handle_stanza type_of prefix number now app (iq i) c ≡ (
        d,
        (iq_received i ∷ actions)
            ++ sent (fill_from d (refusal type_of i [] service_unavailable)) ∷ [],
      )
  unfolding handle_stanza handle_request unless_accepted
  unknown_requests_refused c d i actions r h p t q a =
      rw (request-not_answer i.kind r, r, h, quiet_lem c d i false actions p t q a, handle_stanza)
        refl

  ping-roster :
      (c : Client) (i : Iq) → (answer_ping type_of prefix number now i c).0.roster ≡ c.roster
  unfolding answer_ping send with_id get_id
  ping-roster c i = ground arith

  time-roster :
      (c : Client) (i : Iq) → (answer_time type_of prefix number now i c).0.roster ≡ c.roster
  unfolding answer_time send with_id get_id
  time-roster c i = ground arith

  slot-roster :
      (c : Client) (i : Iq) (query : RosterQuery) (r : Roster)
      → roster_payload i.payloads ≡ some query
      → c.roster ≡ some r
      → (roster_slot type_of prefix number now i c).1.roster ≡ some (handle_push query r).0
  unfolding roster_slot
  slot-roster c i query r q e = rw (q, e, roster_slot) refl

  contact-is_heard :
      (c : Client) (j : JidData) (r : Roster) (item : RosterItem)
      → c.roster ≡ some r
      → get j.bare r.items ≡ some item
      → item.subscription ≢ none_given
      → item.subscription ≢ to
      → is_heard j c ≡ true
  unfolding is_heard
  contact-is_heard c j r item e g n t = ground (arith, e, g, n, t)

  -- Any contact of the roster whose subscription is neither none nor to can push to the roster: a get
  -- or set of that contact with a roster query, whatever else it holds, leaves the roster as a push of
  -- the server with that query would, unless the application changes it.
  pub pushes_of_contacts :
      (c : Client) (i : Iq) (query : RosterQuery) (r : Roster) (item : RosterItem)
      → ((j : Iq) (d : Client) → (app j d).1.roster ≡ d.roster)
      → is_request i.kind ≡ true
      → c.roster ≡ some r
      → get i.from.bare r.items ≡ some item
      → item.subscription ≢ none_given
      → item.subscription ≢ to
      → roster_payload i.payloads ≡ some query
      → (handle_stanza type_of prefix number now app (iq i) c).0.roster
        ≡ some (handle_push query r).0
  unfolding handle_stanza handle_request handle_iq unless_accepted
  pushes_of_contacts c i query r item quiet k e g n t q =
      let c₁ = (answer_ping type_of prefix number now i c).0 in
      let c₂ = (answer_time type_of prefix number now i c₁).0 in
      let c₃ = (roster_slot type_of prefix number now i c₂).1 in
      let roster = time-roster c₁ i ∙ ping-roster c i ∙ e in
      rw (request-not_answer i.kind k, k, contact-is_heard c i.from r item e g n t, handle_stanza)
        (accepted_lem (handle_iq type_of prefix number now app i c) i
          ∙ quiet i c₃
          ∙ slot-roster c₂ i query r q roster)
    where
      accepted_lem :
          (x : Bool × Client × List Action) (i : Iq)
          → (unless_accepted type_of i x).0.roster ≡ x.1.roster
      accepted_lem (true, d, actions) i = refl
      accepted_lem (false, d, actions) i = refl

  pong_lem :
      (c : Client) (i : Iq)
      → c.conn_open ≡ true
      → c.is_connected ≡ true
      → i.id ≢ []
      → contains_ping i.payloads ≡ true
      → answer_ping type_of prefix number now i c
        ≡ (c, sent (fill_from c (record (make_iq result_iq i.from i.id) { from = c.jid })) ∷ [])
  unfolding answer_ping send with_id
  pong_lem c i o k ne p = rw (p, answer_ping) (ground arith)

  -- A ping that is heard is answered first of all, while the client is connected: the answer is a
  -- result with the id of the ping, for its sender, in the name of this client. What the other
  -- slots do comes after it.
  pub ping_answered :
      (c : Client) (i : Iq)
      → c.conn_open ≡ true
      → c.is_connected ≡ true
      → i.id ≢ []
      → is_request i.kind ≡ true
      → is_heard i.from c ≡ true
      → contains_ping i.payloads ≡ true
      → let (d, actions) = handle_stanza type_of prefix number now app (iq i) c in
        (rest : List Action) × (actions
          ≡ sent (fill_from c (record (make_iq result_iq i.from i.id) { from = c.jid })) ∷ rest)
  unfolding handle_stanza handle_request handle_iq unless_accepted
  ping_answered c i o k ne r h p =
      rw (request-not_answer i.kind r, r, h, handle_stanza)
        (rw (pong_lem c i o k ne p, p, handle_iq) (_, refl))
