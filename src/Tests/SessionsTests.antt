-- ===== src/Tests/SessionsTests.antt =====
-- One conversation with an account that changes its resource.
use jreen.Base.{
  ℕ, Option, none, some, [], ◌∷◌, ◌==◌, ◌≡◌, sym, ap, arith, if◌then◌else◌, Text, text, true, false,
  ==-eq, Bool-cases, inl, inr,
}
use jreen.Sessions.{Message, Talk, Sessions, chat, handle_message, reset_resource, destroy}
use jreen.Sessions.Index.{IsIndexed, Indexed, full_key, bare_key}
use jreen.Sessions.Upkeep.{sessions-IsIndexed}
use jreen.Tests.ClientTests.{ann, me, jid}

abbrev talk : Talk
talk = record {
  jid = jid (text "a") (text "x") (text "a@x") (text "a@x");
  thread = [];
  ignore_thread = false;
  want_upgrade = true;
}

abbrev only : ℕ → Option Talk
only n = if n == 0 then some talk else none

abbrev sessions : Sessions
sessions = record {
  talks = only;
  next = 1;
  full_sessions = (text "a@x", 0) ∷ [];
  bare_sessions = (text "a@x", 0) ∷ [];
  handlers = λ t. none;
}

abbrev greeting : Message
greeting = record { from = ann; to = me; subtype = chat; body = text "hi"; thread = text "t1" }

abbrev unfiltered : ℕ → Message → Message
unfiltered n m = m

abbrev untrimmed : Text → Text
untrimmed s = s

only-talk : (n : ℕ) (t : Talk) → only n ≡ some t → (n ≡ 0) × (talk ≡ t)
only-talk n t e = elim (Bool-cases (n == 0)) [
  | inl z ↦ (==-eq n 0 z, ground (arith, e, z))
  | inr z ↦ absurd (ground (arith, e, z))
]

sessions-right : IsIndexed sessions
unfolding Indexed
sessions-right = record {
  full = (omega arith, (λ t e. ap full_key (ap (λ u. u.jid) (sym (only-talk 0 t e).1))), tt);
  bare = (omega arith, (λ t e. ap bare_key (ap (λ u. u.jid) (sym (only-talk 0 t e).1))), tt);
  fresh = λ n t e. omega (arith, (only-talk n t e).0);
}

sessions-IsIndexed_example :
    ((m : Message)
      → IsIndexed (handle_message unfiltered unfiltered untrimmed (text "rnd") m sessions).0)
    × ((n : ℕ) (t : Talk) → only n ≡ some t → IsIndexed (reset_resource n t sessions).0)
    × ((n : ℕ) (t : Talk) → only n ≡ some t → IsIndexed (destroy n t sessions))
sessions-IsIndexed_example =
    sessions-IsIndexed unfiltered unfiltered untrimmed (text "rnd") sessions sessions-right
