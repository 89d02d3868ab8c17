-- ===== src/Payloads.antt =====
-- src/stanzaextension.h: what a stanza factory asks of the factories of payloads. `G` is what all
-- factories hold together, `P` the payloads of all types.
pub mod Simple
pub mod Registered
pub mod Lawful
use jreen.Base.{ℕ, Bool, true, false, List, [], ◌∷◌, if◌then◌else◌, ◌==◌, Text, Hash, ◌≡◌}
use jreen.Xml.{NsEvent, opened}
use jreen.Form.Whole.{Whole}

-- `types` are the keys of the map of factories; they and the types of payloads are given out at run
-- time. A payload is created from the factory, which it may change.
pub record Factories (P G : Type 0) : Type 0 where
  pub types : List ℕ
  pub type_of : P → ℕ
  pub can_parse : ℕ → Text → Text → Hash Text → Bool
  pub handle : ℕ → NsEvent → G → G
  pub create : ℕ → G → P × G
  pub write : ℕ → P → List NsEvent

module _ {P G : Type 0} (q : Factories P G) where
  unfoldable pub parsers_in : List ℕ → Text → Text → Hash Text → List ℕ
  parsers_in [] name uri attributes = []
  parsers_in (i ∷ is) name uri attributes =
      let rest = parsers_in is name uri attributes in
      if q.can_parse i name uri attributes then i ∷ rest else rest

  abbrev pub parsers_for : Text → Text → Hash Text → List ℕ
  parsers_for name uri attributes = parsers_in q.types name uri attributes

  abbrev pub is_known : ℕ → List ℕ → Bool
  is_known t [] = false
  is_known t (i ∷ is) = let rest = is_known t is in if i == t then true else rest

  -- One factory alone, fed with the events of an element.
  unfoldable pub feed_one : ℕ → List NsEvent → G → G
  feed_one i [] g = g
  feed_one i (e ∷ es) g = feed_one i es (q.handle i e g)

  -- What the stanza factories rely on. A payload that is good is written as one element that its own
  -- factory alone can parse, and that factory reads it back, from any state between two elements.
  pub record Element (p : P) : Type 0 where
    pub name : Text
    pub uri : Text
    pub attributes : Hash Text
    pub inside : List NsEvent
    pub written : q.write (q.type_of p) p ≡ opened name uri attributes ∷ inside
    pub whole : Whole 1 inside
    pub sole : parsers_for name uri attributes ≡ q.type_of p ∷ []

  pub record IsLawful (Good : P → Type 0) (Idle : G → Type 0) : Type 0 where
    pub element : (p : P) → Good p → Element p
    pub read :
        (p : P) (g : G)
        → Good p
        → Idle g
        → ((q.create (q.type_of p) (feed_one (q.type_of p) (q.write (q.type_of p) p) g)).0 ≡ p)
          × Idle (q.create (q.type_of p) (feed_one (q.type_of p) (q.write (q.type_of p) p) g)).1
    pub known : (p : P) → Good p → is_known (q.type_of p) q.types ≡ true
