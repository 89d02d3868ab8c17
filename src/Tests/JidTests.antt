-- ===== src/Tests/JidTests.antt =====
-- src/jid.cpp and src/prep.cpp at concrete texts.
use jreen.Base.{
  [], ◌∷◌, ◌+◌, ◌&&◌, ltb, true, false, ◌≡◌, refl, Text, text, contains, index_of, if◌then◌else◌,
  Option, none, some,
}
use jreen.Prep.{Preps, Profile, Idn, preps_of}
use jreen.Jid.{JidData, empty_jid, set_jid, bare_of, full_of}
use jreen.Jid.Parse.{IsClean, IsPrepared, parsed, set_jid_again}

-- libidn with profiles that keep every text but those with a `/` where none may stand.
abbrev refuse_slash : Text → Option Text
refuse_slash s = if contains b'/' s then none else some s

prep_text : Profile → Text → Option Text
prep_text Profile.xmpp_nodeprep s = refuse_slash s
prep_text Profile.nameprep s = some s
prep_text Profile.xmpp_resourceprep s = some s

abbrev idn : Idn
idn = record { to_utf8 = λ s. s; from_utf8 = λ s. s; stringprep = prep_text }

-- A machine with libidn, and one without.
abbrev with_idn : Preps
with_idn = preps_of (record { to_lower = λ s. s; idn = some idn })

abbrev without_idn : Preps
without_idn = preps_of (record { to_lower = λ s. s; idn = none })

abbrev alice : JidData
alice = parsed without_idn empty_jid (text "alice") (text "example.org") (text "home")

parse_runs : set_jid with_idn empty_jid (text "alice@example.org/home") ≡ (true, alice)
unfolding set_jid preps_of prep_text contains index_of bare_of full_of
parse_runs = refl

no_node_runs : (set_jid with_idn empty_jid (text "example.org/a@b")).0 ≡ false
unfolding set_jid preps_of prep_text contains index_of bare_of full_of
no_node_runs = refl

alice-IsClean : IsClean without_idn (text "alice") (text "example.org") (text "home")
unfolding preps_of contains full_of
alice-IsClean = record {
  node_prepared = λ h. refl;
  domain_prepared = refl;
  resource_prepared = λ h. refl;
  domain_given = λ e. cc;
  node_plain = refl;
  domain_plain = refl;
  no_stray_at = λ e. cc;
}

-- A machine without libidn whose `toLower` knows the letters of ASCII.
abbrev lower : Text → Text
lower [] = []
lower (c ∷ s) = (if ltb 64 c && ltb c 91 then c + 32 else c) ∷ lower s

abbrev lowering : Preps
lowering = preps_of (record { to_lower = lower; idn = none })

abbrev bob : JidData
bob = (set_jid lowering empty_jid (text "Bob@Example.ORG/Home")).1

bob_lowered : bob ≡ parsed lowering empty_jid (text "bob") (text "example.org") (text "Home")
unfolding set_jid preps_of contains index_of bare_of full_of
bob_lowered = refl

bob-IsPrepared : IsPrepared lowering bob
unfolding set_jid preps_of contains index_of
bob-IsPrepared = record { node_fixed = λ h. refl; domain_fixed = refl; resource_fixed = λ h. refl }

set_jid_again_example : set_jid lowering alice bob.full ≡ (true, bob)
unfolding set_jid preps_of contains index_of bare_of full_of
set_jid_again_example =
    set_jid_again lowering empty_jid alice (text "Bob@Example.ORG/Home") refl bob-IsPrepared
      (λ e. cc) refl refl (λ e. cc)
