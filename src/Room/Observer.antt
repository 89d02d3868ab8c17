-- ===== src/Room/Observer.antt =====
-- The participants of a room against the list that a listener makes from the presences it is told.
use jreen.Base.{
  Bool, Option, none, some, List, [], ◌∷◌, ◌++◌, if◌then◌else◌, Text, text_eq, Hash, get, put,
  remove, get-put, get-remove, ◌≡◌, ◌≢◌, refl, ap, subst, ◌∙◌, sym, append_assoc, ◌⊎◌, arith,
  Bool-cases, inl, inr,
}
use jreen.Prep.{Preps}
use jreen.Jid.{JidData, bare_jid}
use jreen.Room.{
  Room, UserQuery, RoomPresence, Action, presence_received, leaved, hooks, enter, own_presence,
  own_part, renick, enter_or_leave, occupant, with_query, with_error, handle_presence, set_nick,
  handle_message, join, leave, set_presence, on_connected, on_disconnected, is_unavailable,
  with_resource, is_new,
}
use jreen.Room.Signals.{
  Happening, presence, message, joining, leaving, nick_set, presence_set, connected, disconnected,
  happen, run,
}

-- The list of a listener, after one action.
abbrev pub follow_one : Action → Hash UserQuery → Hash UserQuery
follow_one (presence_received j t q new) m =
    if is_unavailable t then remove j.resource m else put j.resource q m
follow_one leaved m = []
follow_one _ m = m

unfoldable pub follow : List Action → Hash UserQuery → Hash UserQuery
follow [] m = m
follow (a ∷ as') m = follow as' (follow_one a m)

-- Whom the first list holds the second holds too, with the same query.
unfoldable pub Covers : Hash UserQuery → Hash UserQuery → Type 0
Covers small large = (k : Text) (q : UserQuery) → get k small ≡ some q → get k large ≡ some q

pub follow-append :
    (xs ys : List Action) (m : Hash UserQuery) → follow (xs ++ ys) m ≡ follow ys (follow xs m)
unfolding follow
follow-append [] ys m = refl
follow-append (x ∷ xs) ys m = follow-append xs ys (follow_one x m)

Covers-refl : (m : Hash UserQuery) → Covers m m
unfolding Covers
Covers-refl m k q h = h

remove-Covers : (k : Text) (m l : Hash UserQuery) → Covers m l → Covers (remove k m) l
unfolding Covers
remove-Covers k m l c j q h = ground (arith, get-remove k j m, c j q)

remove-Covers-remove :
    (k : Text) (m l : Hash UserQuery) → Covers m l → Covers (remove k m) (remove k l)
unfolding Covers
remove-Covers-remove k m l c j q h = ground (arith, get-remove k j m, get-remove k j l, c j q)

put-Covers-put :
    (k : Text) (v : UserQuery) (m l : Hash UserQuery) → Covers m l → Covers (put k v m) (put k v l)
unfolding Covers
put-Covers-put k v m l c j q h = ground (arith, get-put k j v m, get-put k j v l, c j q)

nil-Covers : (l : Hash UserQuery) → Covers [] l
unfolding Covers get
nil-Covers l k q h = cc

module _ (p : Preps) where
  hooks-Covers :
      (j : JidData) (nicks m l : Hash UserQuery)
      → Covers m l
      → Covers (follow (hooks p j nicks) m) l
  unfolding follow hooks
  hooks-Covers j [] m l c = c
  hooks-Covers j ((nick, q) ∷ nicks) m l c =
      hooks-Covers j nicks (remove (with_resource p j nick).resource m) l
        (remove-Covers (with_resource p j nick).resource m l c)

  -- The hooks, then the presence itself.
  occupied-Covers :
      (pres : RoomPresence) (q : UserQuery) (r : Room) (new : Bool) (m : Hash UserQuery)
      → Covers m r.participants
      → let (s, gone) = enter_or_leave p pres q r in
        Covers
          (follow (gone ++ presence_received pres.from pres.subtype q new ∷ []) m)
          s.participants
  unfolding enter follow
  occupied-Covers pres q r new m c = elim (Bool-cases (is_unavailable pres.subtype)) [
    | inl e ↦ rw (e) (rw (e) (remove-Covers-remove pres.from.resource m r.participants c))
    | inr e ↦ elim (Bool-cases r.started_joining) [
      | inl j ↦
          let gone = hooks p (bare_jid r.jid) r.participants in
          rw (e) (
            rw (j) (
              rw (follow-append gone (presence_received pres.from pres.subtype q new ∷ []) m) (
                rw (e) (
                  put-Covers-put pres.from.resource q (follow gone m) r.participants
                    (hooks-Covers (bare_jid r.jid) r.participants m r.participants c)))))
      | inr j ↦ rw (e) (rw (j) (rw (e) (put-Covers-put pres.from.resource q m r.participants c)))
    ]
  ]

  own_part-Covers :
      (pres : RoomPresence) (q : UserQuery) (r : Room) (m : Hash UserQuery)
      → Covers m r.participants
      → let (s, own) = own_part p pres q r in Covers (follow own m) s.participants
  unfolding own_presence follow
  own_part-Covers pres q r m c = elim (Bool-cases (text_eq pres.from.resource r.jid.resource)) [
    | inl e ↦ elim (Bool-cases (is_unavailable pres.subtype)) [
      | inl u ↦ rw (e) (rw (u) (Covers-refl []))
      | inr u ↦ elim (Bool-cases r.is_joined) [
        | inl b ↦ rw (e) (rw (u) (rw (b) c))
        | inr b ↦ rw (e) (rw (u) (rw (b) c))
      ]
    ]
    | inr e ↦ rw (e) c
  ]

  renick-participants :
      (nick : Text) (q : UserQuery) (r : Room) → (renick p nick q r).participants ≡ r.participants
  renick-participants nick q r = ground arith

  occupant-Covers :
      (pres : RoomPresence) (q : UserQuery) (r : Room) (m : Hash UserQuery)
      → Covers m r.participants
      → let (s, actions) = occupant p pres q r in Covers (follow actions m) s.participants
  unfolding occupant
  occupant-Covers pres q r m c =
      let (s, gone) = enter_or_leave p pres q r in
      let told = presence_received pres.from pres.subtype q (is_new p pres r) in
      let renamed = renick p pres.from.resource q s in
      let (t, own) = own_part p pres q renamed in
      let before = follow (gone ++ told ∷ []) m in
      let same : follow own before ≡ follow (gone ++ told ∷ own) m =
        sym (follow-append (gone ++ told ∷ []) own m)
        ∙ ap (λ xs. follow xs m) (append_assoc gone (told ∷ []) own) in
      subst (λ o. Covers o t.participants) same
        (own_part-Covers pres q renamed before (
          subst (λ l. Covers before l) (sym (renick-participants pres.from.resource q s))
            (occupied-Covers pres q r (is_new p pres r) m c)))

  with_query-Covers :
      (q : Option UserQuery) (pres : RoomPresence) (r : Room) (m : Hash UserQuery)
      → Covers m r.participants
      → let (s, actions) = with_query p q pres r in Covers (follow actions m) s.participants
  unfolding with_query follow
  with_query-Covers none pres r m c = c
  with_query-Covers (some q) pres r m c = occupant-Covers pres q r m c

  with_error-Covers :
      (e : Option Text) (pres : RoomPresence) (r : Room) (m : Hash UserQuery)
      → Covers m r.participants
      → let (s, actions) = with_error p e pres r in Covers (follow actions m) s.participants
  unfolding with_error follow
  with_error-Covers none pres r m c = with_query-Covers pres.query pres r m c
  with_error-Covers (some e) pres r m c = c

  -- What else happens changes no list, but that the list is emptied with the room.
  quiet_lem :
      (h : Happening) (r : Room) (m : Hash UserQuery)
      → ((pres : RoomPresence) → h ≢ presence pres)
      → let (s, actions) = happen p h r in
        ((follow actions m ≡ m) × (s.participants ≡ r.participants)) ⊎ (follow actions m ≡ [])
  unfolding happen handle_message join leave set_nick set_presence on_connected on_disconnected
      follow
  quiet_lem (presence pres) r m ne = absurd (ne pres refl)
  quiet_lem h r m ne = ground arith

  quiet-Covers :
      (h : Happening) (r : Room) (m : Hash UserQuery)
      → Covers m r.participants
      → ((pres : RoomPresence) → h ≢ presence pres)
      → let (s, actions) = happen p h r in Covers (follow actions m) s.participants
  quiet-Covers h r m c ne = elim (quiet_lem h r m ne) [
    | inl (a, b) ↦ rw (a) (rw (b) c)
    | inr a ↦ rw (a) (nil-Covers (happen p h r).0.participants)
  ]

  happen-Covers :
      (h : Happening) (r : Room) (m : Hash UserQuery)
      → Covers m r.participants
      → let (s, actions) = happen p h r in Covers (follow actions m) s.participants
  unfolding happen handle_presence
  happen-Covers (presence pres) r m c = with_error-Covers pres.error pres r m c
  happen-Covers (message x) r m c = quiet-Covers (message x) r m c (λ pres e. cc)
  happen-Covers (joining t x n) r m c = quiet-Covers (joining t x n) r m c (λ pres e. cc)
  happen-Covers (leaving x) r m c = quiet-Covers (leaving x) r m c (λ pres e. cc)
  happen-Covers (nick_set x) r m c = quiet-Covers (nick_set x) r m c (λ pres e. cc)
  happen-Covers (presence_set t x n) r m c = quiet-Covers (presence_set t x n) r m c (λ pres e. cc)
  happen-Covers connected r m c = quiet-Covers connected r m c (λ pres e. cc)
  happen-Covers disconnected r m c = quiet-Covers disconnected r m c (λ pres e. cc)

  -- One who lists the participants by the presences that the room reports, and forgets them all
  -- when the user has left, lists nobody whom the room does not know, and each with the query that
  -- the room has; whatever happens to the room, in whatever order.
  pub run-Covers :
      (hs : List Happening) (r : Room) (m : Hash UserQuery)
      → Covers m r.participants
      → let (s, actions) = run p hs r in Covers (follow actions m) s.participants
  unfolding run follow
  run-Covers [] r m c = c
  run-Covers (h ∷ hs) r m c =
      let (s, first) = happen p h r in
      let (t, rest) = run p hs s in
      subst (λ o. Covers o t.participants) (sym (follow-append first rest m))
        (run-Covers hs s (follow first m) (happen-Covers h r m c))
