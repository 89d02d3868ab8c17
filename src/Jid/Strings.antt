-- ===== src/Jid/Strings.antt =====
-- The cached strings of a JID: `bare` and `full` are those that `setStrings` would compute.
use jreen.Base.{true, List, [], ◌∷◌, Text, ◌≡◌, refl, arith}
use jreen.Prep.{Preps}
use jreen.Jid.{JidData, bare_of, full_of, set_jid, set_node, set_domain, set_resource, bare_jid}

pub record IsConsistent (d : JidData) : Type 0 where
  pub bare_right : d.bare ≡ bare_of d.node d.domain
  pub full_right : d.full ≡ full_of d.bare d.resource

-- The changes that a holder of a JID can make.
pub data Edit : Type 0 where
  node : Text → Edit
  domain : Text → Edit
  resource : Text → Edit
  bare : Edit

module _ (p : Preps) where
  abbrev pub apply : JidData → Edit → JidData
  apply d (node s) = (set_node p d s).1
  apply d (domain s) = (set_domain p d s).1
  apply d (resource s) = (set_resource p d s).1
  apply d bare = bare_jid d

  abbrev pub edits : JidData → List Edit → JidData
  edits d [] = d
  edits d (e ∷ es) = edits (apply d e) es

  bare_jid-IsConsistent : (d : JidData) → IsConsistent d → IsConsistent (bare_jid d)
  unfolding bare_jid bare_of full_of
  bare_jid-IsConsistent d c = ground arith

  apply-IsConsistent : (d : JidData) (e : Edit) → IsConsistent d → IsConsistent (apply d e)
  unfolding set_node set_domain set_resource
  apply-IsConsistent d (node s) c = record { bare_right = refl; full_right = refl }
  apply-IsConsistent d (domain s) c = record { bare_right = refl; full_right = refl }
  apply-IsConsistent d (resource s) c = record { bare_right = c.bare_right; full_right = refl }
  apply-IsConsistent d bare c = bare_jid-IsConsistent d c

  -- Whatever texts are set, accepted or refused, in whatever order, the cached strings of a
  -- consistent JID stay those of its parts.
  pub edits-IsConsistent :
      (d : JidData) (es : List Edit) → IsConsistent d → IsConsistent (edits d es)
  edits-IsConsistent d [] c = c
  edits-IsConsistent d (e ∷ es) c = edits-IsConsistent (apply d e) es (apply-IsConsistent d e c)

  -- A text that `setJID` accepts leaves a valid JID whose cached strings are those of its parts,
  -- whatever the JID was before.
  pub set_jid-IsConsistent :
      (d : JidData) (s : Text)
      → (set_jid p d s).0 ≡ true
      → ((set_jid p d s).1.valid ≡ true) × IsConsistent (set_jid p d s).1
  unfolding set_jid
  set_jid-IsConsistent d s h = ground arith
