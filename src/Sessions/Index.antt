-- ===== src/Sessions/Index.antt =====
-- The two indices hold the sessions under their own JIDs, whatever happens to the sessions.
use jreen.Base.{
  ℕ, ◌+◌, ◌<◌, Bool, true, false, ◌&&◌, Option, none, some, List, [], ◌∷◌, ◌==◌, if◌then◌else◌,
  Text, text_eq, ◌≡◌, inl, inr, refl, sym, ap, ◌∙◌, subst, arith, Bool-cases, ==-eq,
}
use jreen.Jid.{JidData}
use jreen.Sessions.{Talk, Sessions, remove_entry, remove_null, set_talk, is_null}

-- The sessions of an index are older than the next one, and each entry of a live session stands
-- under what `key` makes of its JID.
unfoldable pub Indexed : (JidData → Text) → (ℕ → Option Talk) → ℕ → List (Text × ℕ) → Type 0
Indexed key talks next [] = Unit
Indexed key talks next ((k, n) ∷ m) =
    (n < next) × ((t : Talk) → talks n ≡ some t → key t.jid ≡ k) × Indexed key talks next m

abbrev pub full_key : JidData → Text
full_key j = j.full

abbrev pub bare_key : JidData → Text
bare_key j = j.bare

pub record IsIndexed (s : Sessions) : Type 0 where
  pub full : Indexed full_key s.talks s.next s.full_sessions
  pub bare : Indexed bare_key s.talks s.next s.bare_sessions
  pub fresh : (n : ℕ) (t : Talk) → s.talks n ≡ some t → n < s.next

set_talk-other :
    (n o : ℕ) (new : Talk) (talks : ℕ → Option Talk)
    → (o == n) ≡ false
    → set_talk n new talks o ≡ talks o
set_talk-other n o new talks e = rw (e) refl

set_talk_self :
    (n o : ℕ) (new t : Talk) (talks : ℕ → Option Talk)
    → (o == n) ≡ true
    → set_talk n new talks o ≡ some t
    → new ≡ t
set_talk_self n o new t talks e q = ground arith

-- An entry stays right when a session changes, if the changed session belongs there.
entry_lem :
    (key : JidData → Text) (n o : ℕ) (new : Talk) (talks : ℕ → Option Talk) (k : Text)
    → ((t : Talk) → talks o ≡ some t → key t.jid ≡ k)
    → ((o == n) ≡ true → key new.jid ≡ k)
    → (t : Talk) → set_talk n new talks o ≡ some t
    → key t.jid ≡ k
entry_lem key n o new talks k h w t q = elim (Bool-cases (o == n)) [
  | inl e ↦ subst (λ u. key u.jid ≡ k) (set_talk_self n o new t talks e q) (w e)
  | inr e ↦ h t (sym (set_talk-other n o new talks e) ∙ q)
]

found_lem :
    (n o : ℕ) (old : Talk) (talks : ℕ → Option Talk)
    → talks n ≡ some old
    → (o == n) ≡ true
    → talks o ≡ some old
found_lem n o old talks e q = subst (λ x. talks x ≡ some old) (sym (==-eq o n q)) e

stands_elsewhere : (a b : Text) (c : Bool) → c ≡ true → b ≡ a → (text_eq a b && c) ≡ false → ⊥
stands_elsewhere a b c e p q = ground arith

pub remove_entry-Indexed :
    (key : JidData → Text) (n next : ℕ) (old new : Talk) (talks : ℕ → Option Talk)
    (m : List (Text × ℕ))
    → talks n ≡ some old
    → Indexed key talks next m
    → Indexed key (set_talk n new talks) next (remove_entry (key old.jid) n m)
unfolding Indexed remove_entry
remove_entry-Indexed key n next old new talks [] e p = tt
remove_entry-Indexed key n next old new talks ((k, o) ∷ m) e (b, h, p) =
    let rest = remove_entry-Indexed key n next old new talks m e p in
    elim (Bool-cases (text_eq k (key old.jid) && o == n)) [
      | inl r ↦ rw (r) rest
      | inr r ↦ rw (r) (
        b,
        entry_lem key n o new talks k h (λ q.
            absurd (
              stands_elsewhere k (key old.jid) (o == n) q (h old (found_lem n o old talks e q)) r)),
        rest,
      )
    ]

-- A change that leaves the JID of a session keeps an index.
pub set_talk-Indexed :
    (key : JidData → Text) (n next : ℕ) (old new : Talk) (talks : ℕ → Option Talk)
    (m : List (Text × ℕ))
    → talks n ≡ some old
    → new.jid ≡ old.jid
    → Indexed key talks next m
    → Indexed key (set_talk n new talks) next m
unfolding Indexed
set_talk-Indexed key n next old new talks [] e j p = tt
set_talk-Indexed key n next old new talks ((k, o) ∷ m) e j (b, h, p) = (
  b,
  entry_lem key n o new talks k h (λ q. ap key j ∙ h old (found_lem n o old talks e q)),
  set_talk-Indexed key n next old new talks m e j p,
)

pub fresh-Indexed :
    (key : JidData → Text) (next : ℕ) (new : Talk) (talks : ℕ → Option Talk) (m : List (Text × ℕ))
    → Indexed key talks next m
    → Indexed key (set_talk next new talks) (next + 1) m
unfolding Indexed
fresh-Indexed key next new talks [] p = tt
fresh-Indexed key next new talks ((k, o) ∷ m) (b, h, p) = (
  omega arith,
  entry_lem key next o new talks k h (λ q. absurd (ground (arith, ==-eq o next q))),
  fresh-Indexed key next new talks m p,
)

pub remove_null-Indexed :
    (key : JidData → Text) (next : ℕ) (talks : ℕ → Option Talk) (k : Text) (m : List (Text × ℕ))
    → Indexed key talks next m
    → Indexed key talks next (remove_null talks k m)
unfolding Indexed remove_null
remove_null-Indexed key next talks k [] p = tt
remove_null-Indexed key next talks k ((j, o) ∷ m) (b, h, p) =
    elim (Bool-cases (text_eq j k && is_null (talks o))) [
      | inl e ↦ rw (e) (remove_null-Indexed key next talks k m p)
      | inr e ↦ rw (e) (b, h, remove_null-Indexed key next talks k m p)
    ]

pub destroyed-Indexed :
    (key : JidData → Text) (k : Text) (n next : ℕ) (talks : ℕ → Option Talk) (m : List (Text × ℕ))
    → Indexed key talks next m
    → Indexed key (λ o. if o == n then none else talks o) next (remove_entry k n m)
unfolding Indexed remove_entry
destroyed-Indexed key k n next talks [] p = tt
destroyed-Indexed key k n next talks ((j, o) ∷ m) (b, h, p) =
    let rest = destroyed-Indexed key k n next talks m p in
    elim (Bool-cases (text_eq j k && o == n)) [
      | inl e ↦ rw (e) rest
      | inr e ↦ rw (e) (
        b,
        (λ t q. elim (Bool-cases (o == n)) [
          | inl r ↦ absurd (ground (arith, q, r))
          | inr r ↦ h t (ground (arith, q, r))
        ]),
        rest,
      )
    ]
