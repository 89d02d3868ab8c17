-- ===== src/Jid.antt =====
-- src/jid.cpp: `JIDData` and the operations of `JID` that read or change it. The object is shared
-- copy on write, so an operation is a function from the data before it to the data after it.
pub mod Strings
pub mod Parse
pub mod Bare
pub mod Attributes
use jreen.Base.{
  ℕ, ◌+◌, ◌-◌, Bool, true, false, not, ◌&&◌, ◌||◌, Option, none, some, List, [], ◌∷◌, ◌++◌,
  if◌then◌else◌, take, drop, Text, text_eq, is_empty, index_of, index_from,
}
use jreen.Prep.{Preps}

pub record JidData : Type 0 where
  pub domain : Text
  pub node : Text
  pub resource : Text
  pub bare : Text
  pub full : Text
  pub valid : Bool

abbrev pub empty_jid : JidData
empty_jid = record { domain = []; node = []; resource = []; bare = []; full = []; valid = false }

unfoldable pub bare_of : Text → Text → Text
bare_of node domain = if is_empty node then domain else node ++ b'@' ∷ domain

unfoldable pub full_of : Text → Text → Text
full_of bare resource = if is_empty resource then bare else bare ++ b'/' ∷ resource

pub set_full : JidData → JidData
set_full d = record d { full = full_of d.bare d.resource }

unfoldable pub set_strings : JidData → JidData
unfolding set_full
set_strings d = set_full (record d { bare = bare_of d.node d.domain })

-- `QString::mid(pos, n)`; `none` is a negative `n`, which asks for all that is left.
abbrev mid : Text → ℕ → Option ℕ → Text
mid s pos none = drop pos s
mid s pos (some n) = take n (drop pos s)

-- An early `return false` skips the statements that follow it.
infixl 5 ◌>>=◌
abbrev ◌>>=◌ : Bool × JidData → (JidData → Bool × JidData) → Bool × JidData
(true, d) >>= f = f d
(false, d) >>= f = (false, d)

-- `slash - at - 1`, with -1 for a separator that is missing; negative for a missing slash.
abbrev domain_length : Option ℕ → Option ℕ → Option ℕ
domain_length at none = none
domain_length none (some slash) = some slash
domain_length (some at) (some slash) = some (slash - at - 1)

abbrev after_at : Option ℕ → ℕ
after_at none = 0
after_at (some at) = at + 1

abbrev from_at : Option ℕ → ℕ
from_at none = 0
from_at (some at) = at

module _ (p : Preps) where
  prep_node : Text → JidData → Bool × JidData
  prep_node s d = let (fine, t) = p.node_prep s in (fine, record d { node = t; valid = fine })

  prep_domain : Text → JidData → Bool × JidData
  prep_domain s d = let (fine, t) = p.name_prep s in (fine, record d { domain = t; valid = fine })

  prep_resource : Text → JidData → Bool × JidData
  prep_resource s d =
      let (fine, t) = p.resource_prep s in (fine, record d { resource = t; valid = fine })

  parse_node : Option ℕ → Text → JidData → Bool × JidData
  parse_node none s d = (true, d)
  parse_node (some at) s d = prep_node (take at s) d

  parse_resource : Option ℕ → Text → JidData → Bool × JidData
  parse_resource none s d = (true, d)
  parse_resource (some slash) s d = prep_resource (drop (slash + 1) s) d

  parse_at : Option ℕ → Option ℕ → Text → JidData → Bool × JidData
  unfolding parse_node parse_resource prep_node prep_domain prep_resource set_strings
  parse_at at slash s d = do
    a ← parse_node at s (record d { node = []; domain = []; resource = [] })
    b ← prep_domain (mid s (after_at at) (domain_length at slash)) a
    c ← parse_resource slash s b
    let e = set_strings c
    (e.valid, e)

  unfoldable pub set_jid : JidData → Text → Bool × JidData
  unfolding parse_at
  set_jid d s =
      let at = index_of b'@' s in
      if is_empty s then (false, d) else parse_at at (index_from b'/' s (from_at at)) s d

  -- `JID(node, domain, resource)`
  unfoldable pub make_jid : Text → Text → Text → JidData
  unfolding prep_node prep_domain prep_resource set_strings
  make_jid node domain resource =
      (do
        a ← prep_node node empty_jid
        b ← prep_domain domain a
        c ← prep_resource resource b
        (true, set_strings c)).1

  unfoldable pub set_node : JidData → Text → Bool × JidData
  unfolding prep_node set_strings
  set_node d s = let e = set_strings (prep_node s d).1 in (e.valid, e)

  unfoldable pub set_domain : JidData → Text → Bool × JidData
  unfolding prep_domain set_strings
  set_domain d s = let e = set_strings (prep_domain s d).1 in (e.valid, e)

  unfoldable pub set_resource : JidData → Text → Bool × JidData
  unfolding prep_resource set_full
  set_resource d s = let e = set_full (prep_resource s d).1 in (e.valid, e)

pub is_bare : JidData → Bool
is_bare d = d.valid && is_empty d.resource && not (is_empty d.node)

pub is_full : JidData → Bool
is_full d = d.valid && not (is_empty d.node) && not (is_empty d.resource)

unfoldable pub is_domain : JidData → Bool
is_domain d = d.valid && is_empty d.resource && is_empty d.node

unfoldable pub bare_jid : JidData → JidData
unfolding is_bare is_domain
bare_jid d =
    if is_bare d || is_domain d
    then d
    else if d.valid
    then record {
      domain = d.domain;
      node = d.node;
      resource = [];
      bare = d.bare;
      full = d.bare;
      valid = true;
    }
    else empty_jid

-- `operator==`
abbrev pub jid_eq : JidData → JidData → Bool
jid_eq a b = text_eq a.full b.full
