-- ===== src/Room/Nick.antt =====
-- What happens to the user's own nick.
use jreen.Base.{
  Bool-cases, inl, inr, Option, if◌then◌else◌, true, false, none, some, List, [], ◌∷◌, Text, remove,
  ◌≡◌, ◌≢◌, refl, ap, ◌∙◌, sym, arith,
}
use jreen.Prep.{Preps}
use jreen.Room.{
  Room, UserQuery, RoomPresence, Action, presence_received, leaved, error_received, own_presence,
  own_part, renick, occupant, with_query, with_error, handle_presence, is_unavailable,
  with_resource, finish, enter_or_leave, is_new,
}

abbrev attach : Action → Room × List Action → Room × List Action
attach told (r, own) = (r, told ∷ own)

abbrev no_actions : List Action
no_actions = []

module _ (p : Preps) where
  renamed_lem :
      (nick : Text) (q : UserQuery) (r : Room)
      → q.nick_changed ≡ true
      → nick ≡ r.jid.resource
      → renick p nick q r ≡ record r { jid = with_resource p r.jid q.item.nick }
  renamed_lem nick q r c e = ground arith

  not_own :
      (pres : RoomPresence) (q : UserQuery) (r : Room)
      → pres.from.resource ≢ r.jid.resource
      → own_part p pres q r ≡ (r, [])
  not_own pres q r o = ground arith

  own_leaves :
      (pres : RoomPresence) (q : UserQuery) (r : Room)
      → is_unavailable pres.subtype ≡ true
      → pres.from.resource ≡ r.jid.resource
      → own_part p pres q r ≡ (
        record r {
          role = q.item.role;
          affiliation = q.item.affiliation;
          participants = [];
          is_joined = false;
        },
        leaved ∷ [],
      )
  unfolding own_presence
  own_leaves pres q r u o = ground arith

  occupant_lem :
      (r : Room) (pres : RoomPresence) (q : UserQuery)
      → pres.error ≡ none
      → pres.query ≡ some q
      → is_unavailable pres.subtype ≡ true
      → handle_presence p pres r
        ≡ finish p pres q
            (is_new p pres r)
            (record r { participants = remove pres.from.resource r.participants }, [])
  unfolding handle_presence with_error with_query occupant
  occupant_lem r pres q e h u =
      let s : Room = record r { participants = remove pres.from.resource r.participants } in
      let gone : enter_or_leave p pres q r ≡ (s, []) = rw (u) refl in
      ap (λ x. with_error p x pres r) e
      ∙ ap (λ x. with_query p x pres r) h
      ∙ ap (finish p pres q (is_new p pres r)) gone

  -- What becomes of the user on an own presence of type unavailable, with its error and its query.
  abbrev pub after_unavailable :
      Room → RoomPresence → Option Text → Option UserQuery → Room × List Action
  after_unavailable r pres (some e) query =
      (record r { started_joining = false }, error_received e ∷ [])
  after_unavailable r pres none none = (r, [])
  after_unavailable r pres none (some q) =
      let told = presence_received pres.from pres.subtype q false in
      let others = remove pres.from.resource r.participants in
      if q.nick_changed
      then (record r { jid = with_resource p r.jid q.item.nick; participants = others }, told ∷ [])
      else (
        record r {
          role = q.item.role;
          affiliation = q.item.affiliation;
          participants = [];
          is_joined = false;
        },
        told ∷ leaved ∷ [],
      )

  known_lem :
      (r : Room) (pres : RoomPresence) (q : UserQuery)
      → pres.error ≡ none
      → pres.query ≡ some q
      → is_unavailable pres.subtype ≡ true
      → pres.from.resource ≡ r.jid.resource
      → (q.nick_changed ≡ true → (with_resource p r.jid q.item.nick).resource ≢ r.jid.resource)
      → handle_presence p pres r ≡ after_unavailable r pres none (some q)
  known_lem r pres q e h u o new =
      let s : Room = record r { participants = remove pres.from.resource r.participants } in
      let t : Room = record s { jid = with_resource p r.jid q.item.nick } in
      let told = presence_received pres.from pres.subtype q in
      let no_news : is_new p pres r ≡ false = rw (u) refl in
      let known =
        occupant_lem r pres q e h u ∙ ap (λ b. finish p pres q b (s, no_actions)) no_news in
      elim (Bool-cases q.nick_changed) [
        | inl c ↦
            known
            ∙ ap (λ (x : Room). attach (told false) (own_part p pres q x))
                (renamed_lem pres.from.resource q s c o)
            ∙ ap (attach (told false)) (not_own pres q t (λ w. new c (sym w ∙ o)))
            ∙ rw (c) refl
        | inr c ↦
            known
            ∙ ap (λ (x : Room). attach (told false) (own_part p pres q x)) (not_renamed q s c)
            ∙ ap (attach (told false)) (own_leaves pres q s u o)
            ∙ rw (c) refl
      ]
    where
      not_renamed :
          (q : UserQuery) (s : Room) → q.nick_changed ≡ false → renick p pres.from.resource q s ≡ s
      not_renamed q s c = ground arith

  -- The user's own presence of type unavailable. With an error the room is no longer joining, and
  -- without a query of the room nothing changes; in both cases the user stays in the room. With a
  -- query that gives a new nick, which is another one than the old, the room takes the new nick and
  -- the user stays in it: nothing but the participant under the old nick goes, and no other signal is
  -- emitted than that presence. With a query that gives no new nick the user is out of the room, and
  -- so are all participants.
  pub own_unavailable :
      (r : Room) (pres : RoomPresence)
      → is_unavailable pres.subtype ≡ true
      → pres.from.resource ≡ r.jid.resource
      → ((q : UserQuery)
          → pres.query ≡ some q
          → q.nick_changed ≡ true
          → (with_resource p r.jid q.item.nick).resource ≢ r.jid.resource)
      → handle_presence p pres r ≡ after_unavailable r pres pres.error pres.query
  unfolding handle_presence with_error with_query
  own_unavailable r pres u o new = by_cases pres.error pres.query refl refl
    where
      by_cases :
          (error : Option Text) (query : Option UserQuery)
          → pres.error ≡ error
          → pres.query ≡ query
          → handle_presence p pres r ≡ after_unavailable r pres error query
      by_cases (some e) query h k = ap (λ x. with_error p x pres r) h
      by_cases none none h k = ap (λ x. with_error p x pres r) h ∙ ap (λ x. with_query p x pres r) k
      by_cases none (some q) h k = known_lem r pres q h k u o (new q k)
