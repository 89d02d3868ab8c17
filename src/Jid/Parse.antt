-- ===== src/Jid/Parse.antt =====
-- What `setJID` reads out of a text: the parts of a composed JID, and of its own printed form.
use jreen.Base.{
  take-length, drop-length, drop-length_suc, index_of-step, index_of-step_none, ℕ, suc, ◌+◌, ◌-◌,
  true, false, [], ◌∷◌, ◌++◌, Text, ◌≡◌, ◌≢◌, refl, arith, contains, index_of-append_self,
  index_of-none, append_assoc, length, drop-add, ◌∙◌, ap, drop, take,
}
use jreen.Prep.{Preps}
use jreen.Jid.Strings.{IsConsistent, set_jid-IsConsistent}
use jreen.Jid.{JidData, bare_of, full_of, set_jid}

-- The parts of a JID that is already prepared. Where it has no node no `@` may stand anywhere,
-- since `setJID` would take what stands before it for the node.
pub record IsClean (p : Preps) (node domain resource : Text) : Type 0 where
  pub node_prepared : node ≢ [] → p.node_prep node ≡ (true, node)
  pub domain_prepared : p.name_prep domain ≡ (true, domain)
  pub resource_prepared : resource ≢ [] → p.resource_prep resource ≡ (true, resource)
  pub domain_given : domain ≢ []
  pub node_plain : contains b'@' node ≡ false
  pub domain_plain : contains b'/' domain ≡ false
  pub no_stray_at : node ≡ [] → contains b'@' (full_of domain resource) ≡ false

-- The slices that `setJID` takes at two separators.
domain_slice :
    (n : Text) (c : ℕ) (d t : Text)
    → take (length n + suc (length d) - length n - 1) (drop (length n + 1) (n ++ c ∷ (d ++ t))) ≡ d
domain_slice n c d t =
    let e : length n + suc (length d) - length n - 1 ≡ length d = omega arith in
    rw (drop-length_suc n c (d ++ t), e, take-length d t)

resource_slice :
    (n : Text) (c : ℕ) (d : Text) (e : ℕ) (t : Text)
    → drop (length n + suc (length d) + 1) (n ++ c ∷ (d ++ e ∷ t)) ≡ t
resource_slice n c d e t =
    let q : length n + suc (length d) + 1 ≡ (length n + 1) + (length d + 1) = omega arith in
    rw (q, drop-add (length n + 1) (length d + 1) (n ++ c ∷ (d ++ e ∷ t)))
      (rw (drop-length_suc n c (d ++ e ∷ t)) (drop-length_suc d e t))

contains-middle : (c : ℕ) (s t : Text) → contains c (s ++ c ∷ t) ≡ true
unfolding contains
contains-middle c [] t = ground arith
contains-middle c (d ∷ s) t = ground (arith, contains-middle c s t)

module _ (p : Preps) (old : JidData) where
  abbrev pub parsed : Text → Text → Text → JidData
  parsed node domain resource = record {
    domain = domain;
    node = node;
    resource = resource;
    bare = bare_of node domain;
    full = full_of (bare_of node domain) resource;
    valid = true;
  }

  domain_only : (d : Text) → IsClean p [] d [] → set_jid p old d ≡ (true, parsed [] d [])
  unfolding set_jid bare_of full_of
  domain_only d c = ground (
    arith,
    c.domain_given,
    c.domain_prepared,
    c.no_stray_at refl,
    index_of-none b'@' d,
    index_of-none b'/' d,
    c.domain_plain,
  )

  domain_resource :
      (d : Text) (x : ℕ) (r : Text)
      → IsClean p [] d (x ∷ r)
      → set_jid p old (d ++ b'/' ∷ x ∷ r) ≡ (true, parsed [] d (x ∷ r))
  unfolding set_jid bare_of full_of
  domain_resource d x r c = rw (index_of-none b'@' (d ++ b'/' ∷ x ∷ r) (c.no_stray_at refl)) (
      rw (index_of-append_self b'/' d (x ∷ r) c.domain_plain) (
        ground (
          arith,
          c.domain_given,
          c.domain_prepared,
          c.resource_prepared (λ e. cc),
          take-length d (b'/' ∷ x ∷ r),
          drop-length_suc d b'/' (x ∷ r),
        )))

  node_domain :
      (x : ℕ) (n d : Text)
      → IsClean p (x ∷ n) d []
      → set_jid p old ((x ∷ n) ++ b'@' ∷ d) ≡ (true, parsed (x ∷ n) d [])
  unfolding set_jid bare_of full_of
  node_domain x n d c =
      rw (index_of-append_self b'@' (x ∷ n) d c.node_plain, drop-length (x ∷ n) (b'@' ∷ d))
        (rw (index_of-step_none b'/' b'@' d refl (index_of-none b'/' d c.domain_plain)) (
          ground (
            arith,
            c.domain_prepared,
            c.node_prepared (λ e. cc),
            take-length (x ∷ n) (b'@' ∷ d),
            drop-length_suc (x ∷ n) b'@' d,
          )))

  node_domain_resource :
      (x : ℕ) (n d : Text) (y : ℕ) (r : Text)
      → IsClean p (x ∷ n) d (y ∷ r)
      → set_jid p old ((x ∷ n) ++ b'@' ∷ (d ++ b'/' ∷ y ∷ r)) ≡ (true, parsed (x ∷ n) d (y ∷ r))
  unfolding set_jid bare_of full_of
  node_domain_resource x n d y r c =
      let rest = d ++ b'/' ∷ y ∷ r in
      rw (index_of-append_self b'@' (x ∷ n) rest c.node_plain, drop-length (x ∷ n) (b'@' ∷ rest))
        (rw (index_of-step b'/' b'@' rest refl (index_of-append_self b'/' d (y ∷ r) c.domain_plain))
          (ground (
            arith,
            c.domain_prepared,
            c.node_prepared (λ e. cc),
            c.resource_prepared (λ e. cc),
            take-length (x ∷ n) (b'@' ∷ rest),
            domain_slice (x ∷ n) b'@' d (b'/' ∷ y ∷ r),
            resource_slice (x ∷ n) b'@' d b'/' (y ∷ r),
          )))

  -- The printed form of clean parts is read back as those parts, into any JID: `setJID` after the
  -- constructor's `setStrings` loses nothing.
  pub set_jid-full_of :
      (n d r : Text)
      → IsClean p n d r
      → set_jid p old (full_of (bare_of n d) r) ≡ (true, parsed n d r)
  unfolding bare_of full_of
  set_jid-full_of [] d [] c = domain_only d c
  set_jid-full_of [] d (x ∷ r) c = domain_resource d x r c
  set_jid-full_of (x ∷ n) d [] c = node_domain x n d c
  set_jid-full_of (x ∷ n) d (y ∷ r) c =
      ap (set_jid p old) (append_assoc (x ∷ n) (b'@' ∷ d) (b'/' ∷ y ∷ r))
      ∙ node_domain_resource x n d y r c

-- Each part of the JID that is given is one that its preparation accepts and leaves as it is.
pub record IsPrepared (p : Preps) (d : JidData) : Type 0 where
  pub node_fixed : d.node ≢ [] → p.node_prep d.node ≡ (true, d.node)
  pub domain_fixed : p.name_prep d.domain ≡ (true, d.domain)
  pub resource_fixed : d.resource ≢ [] → p.resource_prep d.resource ≡ (true, d.resource)

module _ (p : Preps) where
  prepared-IsClean :
      (j : JidData)
      → IsPrepared p j
      → IsConsistent j
      → j.domain ≢ []
      → contains b'@' j.node ≡ false
      → contains b'/' j.domain ≡ false
      → (j.node ≡ [] → contains b'@' j.full ≡ false)
      → IsClean p j.node j.domain j.resource
  unfolding bare_of
  prepared-IsClean j prepared c given node_plain domain_plain stray = record {
    node_prepared = prepared.node_fixed;
    domain_prepared = prepared.domain_fixed;
    resource_prepared = prepared.resource_fixed;
    domain_given = given;
    node_plain = node_plain;
    domain_plain = domain_plain;
    no_stray_at = λ e. ground (arith, stray e, c.bare_right, c.full_right);
  }

  reparse :
      (j k : JidData)
      → j.valid ≡ true
      → IsConsistent j
      → IsClean p j.node j.domain j.resource
      → set_jid p k j.full ≡ (true, j)
  reparse j k v c clean =
      ground
        (arith, c.bare_right, c.full_right, set_jid-full_of p k j.node j.domain j.resource clean)

  -- The text that an accepted JID prints as is accepted again, by any JID, and gives the same JID,
  -- where the preparation left a domain, accepts each part that it left and keeps it as it is, and
  -- put no separator where one would be misread: no @ in the node, no / in the domain, and no @ at
  -- all where there is no node.
  pub set_jid_again :
      (d k : JidData) (s : Text)
      → (set_jid p d s).0 ≡ true
      → IsPrepared p (set_jid p d s).1
      → (set_jid p d s).1.domain ≢ []
      → contains b'@' (set_jid p d s).1.node ≡ false
      → contains b'/' (set_jid p d s).1.domain ≡ false
      → ((set_jid p d s).1.node ≡ [] → contains b'@' (set_jid p d s).1.full ≡ false)
      → set_jid p k (set_jid p d s).1.full ≡ (true, (set_jid p d s).1)
  set_jid_again d k s h prepared given node_plain domain_plain stray =
      let (v, c) = set_jid-IsConsistent p d s h in
      reparse (set_jid p d s).1 k v c
        (prepared-IsClean (set_jid p d s).1 prepared c given node_plain domain_plain stray)

-- A JID whose domain is followed by a resource with an `@` in it is refused, wherever the
-- preparation of a node refuses a `/`, as nodeprep does: the search for `/` starts at the `@`.
pub set_jid_refuses :
    (p : Preps) (old : JidData) (d r t : Text)
    → contains b'@' (d ++ b'/' ∷ r) ≡ false
    → ((s : Text) → contains b'/' s ≡ true → (p.node_prep s).0 ≡ false)
    → (set_jid p old ((d ++ b'/' ∷ r) ++ b'@' ∷ t)).0 ≡ false
unfolding set_jid
set_jid_refuses p old d r t h prohibits = rw (index_of-append_self b'@' (d ++ b'/' ∷ r) t h) (
    ground (
      arith,
      take-length (d ++ b'/' ∷ r) (b'@' ∷ t),
      prohibits (d ++ b'/' ∷ r) (contains-middle b'/' d r),
    ))
