-- ===== src/Sessions/Upkeep.antt =====
-- Every operation on sessions keeps the indices right.
use jreen.Base.{
  ℕ, ◌+◌, ◌<◌, Bool, true, false, not, ◌&&◌, Option, none, some, [], ◌∷◌, ◌==◌, if◌then◌else◌, Text,
  text_eq, ◌≡◌, inl, inr, refl, ap, arith, Bool-cases, ==-eq, ==-refl,
}
use jreen.Jid.{JidData, jid_eq, bare_jid}
use jreen.Sessions.{
  Message, Talk, Sessions, values, remove_null, set_talk, set_talk_jid, register_message_session,
  new_session, reset_resource, destroy, walk, upgrade, agree_thread, talk_message, deliver,
  open_session, to_bare, to_full, handle_message,
}
use jreen.Sessions.Index.{
  IsIndexed, Indexed, full_key, bare_key, remove_entry-Indexed, set_talk-Indexed, fresh-Indexed,
  remove_null-Indexed, destroyed-Indexed,
}

talks_self : (n : ℕ) (t : Talk) (talks : ℕ → Option Talk) → set_talk n t talks n ≡ some t
talks_self n t talks = rw (==-refl n) refl

talks-fresh :
    (n next : ℕ) (u : Talk) (talks : ℕ → Option Talk)
    → n < next
    → ((m : ℕ) (x : Talk) → talks m ≡ some x → m < next)
    → (m : ℕ) (x : Talk) → set_talk n u talks m ≡ some x
    → m < next
talks-fresh n next u talks b h m x q = elim (Bool-cases (m == n)) [
  | inl e ↦ ground (arith, ==-eq m n e)
  | inr e ↦ h m x (ground (arith, q, e))
]

-- A live session under its number.
pub record IsLive (n : ℕ) (t : Talk) (s : Sessions) : Type 0 where
  pub is_indexed : IsIndexed s
  pub live : s.talks n ≡ some t
  pub older : n < s.next

change-IsLive :
    (n : ℕ) (t u : Talk) (s : Sessions)
    → u.jid ≡ t.jid
    → IsLive n t s
    → IsLive n u (record s { talks = set_talk n u s.talks })
change-IsLive n t u s e p = record {
  is_indexed = record {
    full =
        set_talk-Indexed full_key n s.next t u s.talks s.full_sessions p.live e p.is_indexed.full;
    bare =
        set_talk-Indexed bare_key n s.next t u s.talks s.bare_sessions p.live e p.is_indexed.bare;
    fresh = talks-fresh n s.next u s.talks p.older p.is_indexed.fresh;
  };
  live = talks_self n u s.talks;
  older = p.older;
}

set_talk_jid-IsLive :
    (n : ℕ) (t : Talk) (j : JidData) (s : Sessions)
    → IsLive n t s
    → let (u, d, reports) = set_talk_jid n t j s in IsLive n u d
unfolding set_talk_jid Indexed
set_talk_jid-IsLive n t j s p = elim (Bool-cases (jid_eq t.jid j)) [
  | inl e ↦ rw (e) p
  | inr e ↦
      let u : Talk = record t { jid = j } in
      let here : (x : Talk) → set_talk n u s.talks n ≡ some x → x.jid ≡ j =
        λ x q. ground (arith, talks_self n u s.talks) in
      rw (e) (record {
        is_indexed = record {
          full = (
            p.older,
            (λ x q. ap full_key (here x q)),
            remove_entry-Indexed full_key n s.next t u s.talks s.full_sessions p.live
                p.is_indexed.full,
          );
          bare = (
            p.older,
            (λ x q. ap bare_key (here x q)),
            remove_entry-Indexed bare_key n s.next t u s.talks s.bare_sessions p.live
                p.is_indexed.bare,
          );
          fresh = talks-fresh n s.next u s.talks p.older p.is_indexed.fresh;
        };
        live = talks_self n u s.talks;
        older = p.older;
      })
]

reset_resource-IsIndexed :
    (n : ℕ) (t : Talk) (s : Sessions) → IsLive n t s → IsIndexed (reset_resource n t s).0
unfolding reset_resource
reset_resource-IsIndexed n t s p =
    let u : Talk = record t { want_upgrade = true } in
    (set_talk_jid-IsLive n u (bare_jid u.jid) (record s { talks = set_talk n u s.talks })
      (change-IsLive n t u s refl p)).is_indexed

destroy-IsIndexed : (n : ℕ) (t : Talk) (s : Sessions) → IsIndexed s → IsIndexed (destroy n t s)
unfolding destroy
destroy-IsIndexed n t s p = record {
  full = destroyed-Indexed full_key t.jid.full n s.next s.talks s.full_sessions p.full;
  bare = destroyed-Indexed bare_key t.jid.bare n s.next s.talks s.bare_sessions p.bare;
  fresh = λ m x q. elim (Bool-cases (m == n)) [
    | inl e ↦ absurd (ground (arith, q, e))
    | inr e ↦ p.fresh m x (ground (arith, q, e))
  ];
}

register-IsLive :
    (b : Bool) (n : ℕ) (t : Talk) (s : Sessions)
    → IsLive n t s
    → IsLive n t (
        if not b then s else record s {
          full_sessions = (t.jid.full, n) ∷ s.full_sessions;
          bare_sessions = (t.jid.bare, n) ∷ s.bare_sessions;
        })
unfolding Indexed
register-IsLive false n t s p = p
register-IsLive true n t s p =
    let here : (x : Talk) → s.talks n ≡ some x → x.jid ≡ t.jid = λ x q. ground (arith, p.live) in
    record {
      is_indexed = record {
        full = (p.older, (λ x q. ap full_key (here x q)), p.is_indexed.full);
        bare = (p.older, (λ x q. ap bare_key (here x q)), p.is_indexed.bare);
        fresh = p.is_indexed.fresh;
      };
      live = p.live;
      older = p.older;
    }

new_session-IsLive :
    (j : JidData) (thread : Text) (s : Sessions)
    → IsIndexed s
    → IsLive s.next
        (record { jid = j; thread = thread; ignore_thread = false; want_upgrade = false })
        (new_session j thread s)
unfolding new_session register_message_session
new_session-IsLive j thread s p =
    let t : Talk = record {
      jid = j;
      thread = thread;
      ignore_thread = false;
      want_upgrade = false;
    } in
    register-IsLive j.valid s.next t
      (record s { talks = set_talk s.next t s.talks; next = s.next + 1 })
      (record {
        is_indexed = record {
          full = fresh-Indexed full_key s.next t s.talks s.full_sessions p.full;
          bare = fresh-Indexed bare_key s.next t s.talks s.bare_sessions p.bare;
          fresh =
              talks-fresh s.next (s.next + 1) t s.talks (omega arith)
                (λ m x q. omega (arith, p.fresh m x q));
        };
        live = talks_self s.next t s.talks;
        older = omega arith;
      })

find-IsLive : (n : ℕ) (t : Talk) (s : Sessions) → IsIndexed s → s.talks n ≡ some t → IsLive n t s
find-IsLive n t s p e = record { is_indexed = p; live = e; older = p.fresh n t e }

upgraded-IsLive :
    (b : Bool) (n : ℕ) (t : Talk) (j : JidData) (s : Sessions)
    → IsLive n t s
    → let (u, d, reports) = (if b then set_talk_jid n t j s else (t, s, [])) in IsLive n u d
upgraded-IsLive true n t j s p = set_talk_jid-IsLive n t j s p
upgraded-IsLive false n t j s p = p

module _ (filter decorate : ℕ → Message → Message) (trimmed : Text → Text)
    (random_hash : Text) where
  agree_thread-jid :
      (t : Talk) (m : Message)
      → (agree_thread filter decorate trimmed random_hash t m).0.jid ≡ t.jid
  agree_thread-jid t m = ground arith

  talk_message-IsIndexed :
      (n : ℕ) (t : Talk) (m : Message) (s : Sessions)
      → IsLive n t s
      → IsIndexed (talk_message filter decorate trimmed random_hash n t m s).0
  unfolding talk_message
  talk_message-IsIndexed n t m s p =
      let (u, d, changes) = upgrade filter decorate trimmed random_hash n t m s in
      let live =
        upgraded-IsLive (t.want_upgrade && text_eq m.from.bare t.jid.full) n t m.from s p in
      (change-IsLive n u (agree_thread filter decorate trimmed random_hash u m).0 d
        (agree_thread-jid u m) live).is_indexed

  deliver-IsIndexed :
      (n : ℕ) (o : Option Talk) (m : Message) (s : Sessions)
      → s.talks n ≡ o
      → IsIndexed s
      → IsIndexed (deliver filter decorate trimmed random_hash n o m s).0
  deliver-IsIndexed n none m s e p = p
  deliver-IsIndexed n (some t) m s e p = talk_message-IsIndexed n t m s (find-IsLive n t s p e)

  open_session-IsIndexed :
      (h : Option ℕ) (m : Message) (s : Sessions)
      → IsIndexed s
      → IsIndexed (open_session filter decorate trimmed random_hash h m s).0
  unfolding open_session
  open_session-IsIndexed none m s p = p
  open_session-IsIndexed (some h) m s p =
      let d = new_session m.from m.thread s in
      deliver-IsIndexed s.next (d.talks s.next) m d refl
        (new_session-IsLive m.from m.thread s p).is_indexed

  purged-IsIndexed :
      (b : Bool) (k : Text) (s : Sessions)
      → IsIndexed s
      → IsIndexed
          (if b then record s { bare_sessions = remove_null s.talks k s.bare_sessions } else s)
        × IsIndexed
            (if b then record s { full_sessions = remove_null s.talks k s.full_sessions } else s)
  purged-IsIndexed false k s p = (p, p)
  purged-IsIndexed true k s p = (
    record {
      full = p.full;
      bare = remove_null-Indexed bare_key s.next s.talks k s.bare_sessions p.bare;
      fresh = p.fresh;
    },
    record {
      full = remove_null-Indexed full_key s.next s.talks k s.full_sessions p.full;
      bare = p.bare;
      fresh = p.fresh;
    },
  )

  to_bare-IsIndexed :
      (o : Option ℕ) (m : Message) (s : Sessions)
      → IsIndexed s
      → IsIndexed (to_bare filter decorate trimmed random_hash o m s).0
  unfolding to_bare
  to_bare-IsIndexed none m s p = open_session-IsIndexed (s.handlers m.subtype) m s p
  to_bare-IsIndexed (some n) m s p = deliver-IsIndexed n (s.talks n) m s refl p

  to_full-IsIndexed :
      (o : Option ℕ) (m : Message) (s : Sessions)
      → IsIndexed s
      → IsIndexed (to_full filter decorate trimmed random_hash o m s).0
  unfolding to_full
  to_full-IsIndexed (some n) m s p = deliver-IsIndexed n (s.talks n) m s refl p
  to_full-IsIndexed none m s p =
      let (nulls, taker) = walk s.talks m (values m.from.bare s.bare_sessions) in
      to_bare-IsIndexed taker m _ (purged-IsIndexed nulls m.from.full s p).0

  -- Every entry of the two indices of sessions that belongs to a living session stands under the
  -- present full, or bare, JID of that session, and no number is given to two sessions. Incoming
  -- messages keep this, also where they move a session to another JID or open a new one, and so do
  -- the reset of a resource and the end of a session.
  pub sessions-IsIndexed :
      (s : Sessions)
      → IsIndexed s
      → ((m : Message) → IsIndexed (handle_message filter decorate trimmed random_hash m s).0)
        × ((n : ℕ) (t : Talk) → s.talks n ≡ some t → IsIndexed (reset_resource n t s).0)
        × ((n : ℕ) (t : Talk) → s.talks n ≡ some t → IsIndexed (destroy n t s))
  unfolding handle_message
  sessions-IsIndexed s p = (
    (λ m.
        let (nulls, taker) = walk s.talks m (values m.from.full s.full_sessions) in
        to_full-IsIndexed taker m _ (purged-IsIndexed nulls m.from.full s p).1),
    (λ n t e. reset_resource-IsIndexed n t s (find-IsLive n t s p e)),
    (λ n t e. destroy-IsIndexed n t s p),
  )
