-- ===== src/Jid/Bare.antt =====
-- `bareJID` and the classification of JIDs.
use jreen.Base.{true, false, not, ◌&&◌, ◌||◌, [], is_empty, ◌≡◌, arith}
use jreen.Jid.{JidData, is_bare, is_full, is_domain, bare_jid, full_of}
use jreen.Jid.Strings.{IsConsistent}

-- A valid JID is exactly one of bare, full and a domain, but for one with a resource and no node,
-- which is none of them.
pub classes :
    (d : JidData)
    → d.valid ≡ true
    → ((is_bare d && is_full d) ≡ false)
      × ((is_bare d && is_domain d) ≡ false)
      × ((is_full d && is_domain d) ≡ false)
      × ((is_bare d || is_full d || is_domain d)
          ≡ not (is_empty d.node && not (is_empty d.resource)))
unfolding is_bare is_full is_domain
classes d h = ground arith

-- Of a consistent valid JID, `bareJID` keeps node and domain, has no resource, prints as the bare
-- form, and is its own `bareJID`.
pub bare_jid_lem :
    (d : JidData)
    → IsConsistent d
    → d.valid ≡ true
    → ((bare_jid d).node ≡ d.node)
      × ((bare_jid d).domain ≡ d.domain)
      × ((bare_jid d).resource ≡ [])
      × ((bare_jid d).full ≡ d.bare)
      × (bare_jid (bare_jid d) ≡ bare_jid d)
unfolding bare_jid full_of
bare_jid_lem d c h = ground arith
