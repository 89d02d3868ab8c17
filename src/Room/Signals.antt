-- ===== src/Room/Signals.antt =====
-- The `joined` and `leaved` signals of a room, over everything that can happen to it.
use jreen.Base.{
  Bool, true, false, Option, none, some, List, [], ◌∷◌, ◌++◌, if◌then◌else◌, Text, Hash, ◌≡◌, refl,
  ap, subst, ◌∙◌, arith, Bool-cases, inl, inr, ℤ,
}
use jreen.Prep.{Preps}
use jreen.Jid.{JidData, bare_jid}
use jreen.Presence.{PresenceType}
use jreen.Room.{
  Room, UserQuery, RoomPresence, RoomMessage, Action, presence_received, joined, leaved, hooks,
  enter, own_presence, own_part, renick, enter_or_leave, occupant, with_query, with_error,
  handle_presence, set_nick, handle_message, join, leave, set_presence, on_connected,
  on_disconnected,
}

-- What happens to a room: stanzas of the room, calls of the application, and the connection.
pub data Happening : Type 0 where
  presence : RoomPresence → Happening
  message : RoomMessage → Happening
  joining : PresenceType → Text → ℤ → Happening
  leaving nick_set : Text → Happening
  presence_set : PresenceType → Text → ℤ → Happening
  connected disconnected : Happening

-- Whether a listener takes the user to be in the room, after one action; `none` where it is told
-- `joined` while it already does.
abbrev pub told : Bool → Action → Option Bool
told b joined = if b then none else some true
told b leaved = some false
told b _ = some b

abbrev pub told_more : Option Bool → (Bool → Option Bool) → Option Bool
told_more none next = none
told_more (some b) next = next b

unfoldable pub tells : Bool → List Action → Option Bool
tells b [] = some b
tells b (a ∷ as') = told_more (told b a) (λ c. tells c as')

tells-append :
    (b : Bool) (xs ys : List Action) → tells b (xs ++ ys) ≡ told_more (tells b xs) (λ c. tells c ys)
unfolding tells
tells-append b [] ys = refl
tells-append b (joined ∷ xs) ys = elim (Bool-cases b) [
  | inl e ↦ rw (e) refl
  | inr e ↦ rw (e) (tells-append true xs ys)
]
tells-append b (leaved ∷ xs) ys = tells-append false xs ys
tells-append b (_ ∷ xs) ys = tells-append b xs ys

tells-then :
    (b c d : Bool) (xs ys : List Action)
    → tells b xs ≡ some c
    → tells c ys ≡ some d
    → tells b (xs ++ ys) ≡ some d
tells-then b c d xs ys p q = tells-append b xs ys ∙ rw (p) q

after_presence :
    (b c d : Bool) (gone own : List Action) (j : JidData) (t : PresenceType) (q : UserQuery)
    (new : Bool)
    → tells b gone ≡ some b
    → c ≡ b
    → tells c own ≡ some d
    → tells b (gone ++ presence_received j t q new ∷ own) ≡ some d
unfolding tells
after_presence b c d gone own j t q new g e h =
    tells-append b gone (presence_received j t q new ∷ own)
    ∙ rw (g) (subst (λ x. tells x own ≡ some d) e h)

-- The state and the actions of an operation tell the same story.
abbrev Agrees : Room → Room × List Action → Type 0
Agrees r (s, actions) = tells r.is_joined actions ≡ some s.is_joined

module _ (p : Preps) where
  tells-hooks : (b : Bool) (j : JidData) (m : Hash UserQuery) → tells b (hooks p j m) ≡ some b
  unfolding tells hooks
  tells-hooks b j [] = refl
  tells-hooks b j ((nick, q) ∷ m) = tells-hooks b j m

  own_part-Agrees :
      (pres : RoomPresence) (q : UserQuery) (r : Room) → Agrees r (own_part p pres q r)
  unfolding own_presence tells
  own_part-Agrees pres q r = ground arith

  enter_or_leave-Agrees :
      (pres : RoomPresence) (q : UserQuery) (r : Room)
      → Agrees r (enter_or_leave p pres q r)
        × ((enter_or_leave p pres q r).0.is_joined ≡ r.is_joined)
  unfolding enter tells
  enter_or_leave-Agrees pres q r =
      ground (arith, tells-hooks r.is_joined (bare_jid r.jid) r.participants)

  renick_keeps :
      (nick : Text) (q : UserQuery) (r : Room) → (renick p nick q r).is_joined ≡ r.is_joined
  renick_keeps nick q r = ground arith

  occupant-Agrees :
      (pres : RoomPresence) (q : UserQuery) (r : Room) → Agrees r (occupant p pres q r)
  unfolding occupant tells
  occupant-Agrees pres q r =
      let (s, gone) = enter_or_leave p pres q r in
      let renamed = renick p pres.from.resource q s in
      let (told_gone, kept) = enter_or_leave-Agrees pres q r in
      let (t, own) = own_part p pres q renamed in
      let e : s.is_joined ≡ r.is_joined = kept in
      after_presence r.is_joined renamed.is_joined t.is_joined gone own pres.from pres.subtype q _
        (told_gone ∙ ap (λ b. some b) e) (renick_keeps pres.from.resource q s ∙ e)
        (own_part-Agrees pres q renamed)

  with_query-Agrees :
      (q : Option UserQuery) (pres : RoomPresence) (r : Room) → Agrees r (with_query p q pres r)
  unfolding with_query tells
  with_query-Agrees none pres r = refl
  with_query-Agrees (some q) pres r = occupant-Agrees pres q r

  with_error-Agrees :
      (e : Option Text) (pres : RoomPresence) (r : Room) → Agrees r (with_error p e pres r)
  unfolding with_error tells
  with_error-Agrees none pres r = with_query-Agrees pres.query pres r
  with_error-Agrees (some e) pres r = refl

  unfoldable pub happen : Happening → Room → Room × List Action
  happen (presence pres) r = handle_presence p pres r
  happen (message m) r = handle_message m r
  happen (joining t status priority) r = join t status priority r
  happen (leaving reason) r = leave reason r
  happen (nick_set nick) r = set_nick p nick r
  happen (presence_set t status priority) r = set_presence t status priority r
  happen connected r = on_connected r
  happen disconnected r = on_disconnected r

  unfoldable pub run : List Happening → Room → Room × List Action
  unfolding happen
  run [] r = (r, [])
  run (h ∷ hs) r = let (s, first) = happen h r in let (t, rest) = run hs s in (t, first ++ rest)

  happen-Agrees : (h : Happening) (r : Room) → Agrees r (happen h r)
  unfolding happen handle_presence handle_message join leave set_nick set_presence on_connected
      on_disconnected tells
  happen-Agrees (presence pres) r = with_error-Agrees pres.error pres r
  happen-Agrees h r = ground arith

  -- Through all that can happen to a room, `joined` is never told to one who takes the user to be
  -- in the room already, and one who goes by the two signals takes the user to be in the room at
  -- the end just when the room does.
  pub tells-run :
      (hs : List Happening) (r : Room)
      → tells r.is_joined (run hs r).1 ≡ some (run hs r).0.is_joined
  unfolding run tells
  tells-run [] r = refl
  tells-run (h ∷ hs) r =
      let (s, first) = happen h r in
      let (t, rest) = run hs s in
      tells-then r.is_joined s.is_joined t.is_joined first rest (happen-Agrees h r) (tells-run hs s)
