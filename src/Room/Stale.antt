-- ===== src/Room/Stale.antt =====
-- The participants of the session before, which a room keeps after it has told that they are gone.
use jreen.Base.{
  true, false, none, some, List, [], ◌∷◌, ◌++◌, Text, text_eq, Hash, get, put, remove, get-put,
  get-remove, ◌≡◌, ◌≢◌, refl, ap, ◌∙◌, arith, Bool-cases, inl, inr,
}
use jreen.Prep.{Preps}
use jreen.Jid.{JidData, bare_jid}
use jreen.Room.{
  Room, UserQuery, RoomPresence, Action, presence_received, hooks, enter, own_part, renick,
  occupant, with_query, with_error, handle_presence, is_unavailable, with_resource, is_new, finish,
}
use jreen.Room.Observer.{follow, follow-append}

module _ (p : Preps) where
  hooks_keep :
      (j : JidData) (k : Text) (nicks m : Hash UserQuery)
      → get k m ≡ none
      → get k (follow (hooks p j nicks) m) ≡ none
  unfolding follow hooks
  hooks_keep j k [] m h = h
  hooks_keep j k ((nick, q) ∷ nicks) m h =
      let gone = (with_resource p j nick).resource in
      hooks_keep j k nicks (remove gone m) (ground (arith, get-remove gone k m))

  hooks_remove :
      (j : JidData) (k : Text) (q : UserQuery) (nicks m : Hash UserQuery)
      → (with_resource p j k).resource ≡ k
      → get k nicks ≡ some q
      → get k (follow (hooks p j nicks) m) ≡ none
  unfolding follow hooks get
  hooks_remove j k q [] m w h = cc
  hooks_remove j k q ((nick, v) ∷ nicks) m w h =
      let gone = (with_resource p j nick).resource in
      elim (Bool-cases (text_eq nick k)) [
        | inl e ↦ hooks_keep j k nicks (remove gone m) (ground (arith, get-remove gone k m))
        | inr e ↦ hooks_remove j k q nicks (remove gone m) w (rw (e) at h)
      ]

  entered :
      (r : Room) (q : UserQuery) (nick : Text)
      → r.started_joining ≡ true
      → enter p q nick r ≡ (
        record r { started_joining = false; participants = put nick q r.participants },
        hooks p (bare_jid r.jid) r.participants,
      )
  unfolding enter
  entered r q nick j = ground arith

  not_own :
      (pres : RoomPresence) (q : UserQuery) (r : Room)
      → pres.from.resource ≢ r.jid.resource
      → own_part p pres q r ≡ (r, [])
  not_own pres q r o = ground arith

  not_renamed :
      (nick : Text) (q : UserQuery) (r : Room) → q.nick_changed ≡ false → renick p nick q r ≡ r
  not_renamed nick q r c = ground arith

  other_enters :
      (r : Room) (pres : RoomPresence) (q : UserQuery)
      → r.started_joining ≡ true
      → pres.error ≡ none
      → pres.query ≡ some q
      → is_unavailable pres.subtype ≡ false
      → q.nick_changed ≡ false
      → pres.from.resource ≢ r.jid.resource
      → handle_presence p pres r ≡ (
        record r {
          started_joining = false;
          participants = put pres.from.resource q r.participants;
        },
        hooks p (bare_jid r.jid) r.participants
            ++ presence_received pres.from pres.subtype q (is_new p pres r) ∷ [],
      )
  unfolding handle_presence with_error with_query occupant
  other_enters r pres q j e h u c o =
      let s : Room = record r {
        started_joining = false;
        participants = put pres.from.resource q r.participants;
      } in
      let gone = hooks p (bare_jid r.jid) r.participants in
      let told = presence_received pres.from pres.subtype q (is_new p pres r) in
      ap (λ x. with_error p x pres r) e
      ∙ ap (λ x. with_query p x pres r) h
      ∙ ap (finish p pres q (is_new p pres r)) (rw (u) (entered r q pres.from.resource j))
      ∙ ap (λ (x : Room). let (t, own) = own_part p pres q x in (t, gone ++ told ∷ own))
          (not_renamed pres.from.resource q s c)
      ∙ ap (λ (x : Room × List Action). let (t, own) = x in (t, gone ++ told ∷ own))
          (not_own pres q s o)

  -- The first presence after `join` reports every participant known before as gone, but the room
  -- keeps them: where another participant than the user comes in, with a query and without an error
  -- and a change of nick, one with another nick, which the preparation leaves as it is, is gone for
  -- the listener and still there for the room.
  pub stale_participants :
      (r : Room) (pres : RoomPresence) (new old : UserQuery) (nick : Text)
      → r.started_joining ≡ true
      → pres.error ≡ none
      → pres.query ≡ some new
      → is_unavailable pres.subtype ≡ false
      → new.nick_changed ≡ false
      → pres.from.resource ≢ r.jid.resource
      → nick ≢ pres.from.resource
      → (with_resource p (bare_jid r.jid) nick).resource ≡ nick
      → get nick r.participants ≡ some old
      → let (s, actions) = handle_presence p pres r in
        (get nick (follow actions r.participants) ≡ none) × (get nick s.participants ≡ some old)
  unfolding follow
  stale_participants r pres new old nick j e q u c o ne w h =
      let gone = hooks p (bare_jid r.jid) r.participants in
      let left : get nick (follow gone r.participants) ≡ none =
        hooks_remove (bare_jid r.jid) nick old r.participants r.participants w h in
      let told = presence_received pres.from pres.subtype new (is_new p pres r) in
      let last : follow (gone ++ told ∷ []) r.participants
          ≡ put pres.from.resource new (follow gone r.participants) =
        follow-append gone (told ∷ []) r.participants ∙ rw (u) refl in
      rw (other_enters r pres new j e q u c o) (
        rw (last)
            (ground (arith, get-put pres.from.resource nick new (follow gone r.participants))),
        ground (arith, get-put pres.from.resource nick new r.participants),
      )
