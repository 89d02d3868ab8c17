-- ===== src/Xml.antt =====
-- What an `XmlStreamParser` is fed and a `QXmlStreamWriter` is asked to write: the events of an
-- XML document. The reader and the writer themselves are Qt's.
use jreen.Base.{
  false, text_eq, arith, ◌≡◌, refl, Option, none, some, List, [], ◌∷◌, Text, Hash, get,
}

pub data Event : Type 0 where
  start_element : Text → Hash Text → Event
  characters : Text → Event
  end_element : Event

abbrev pub or_empty : Option Text → Text
or_empty none = []
or_empty (some v) = v

-- `attributes.value(name).toString()`
abbrev pub value : Text → Hash Text → Text
value name attributes = or_empty (get name attributes)

-- The same with the namespace of an element, for readers that look at it.
pub data NsEvent : Type 0 where
  opened : Text → Text → Hash Text → NsEvent
  text_read : Text → NsEvent
  closed : NsEvent

-- `writeAttribute` and `writeTextElement` of src/util.h leave out what is empty.
abbrev pub given : Text → Text → Hash Text → Hash Text
given name [] rest = rest
given name (c ∷ s) rest = (name, c ∷ s) ∷ rest

abbrev pub given_element : Text → Text → Text → List NsEvent → List NsEvent
given_element name uri [] rest = rest
given_element name uri (c ∷ s) rest = opened name uri [] ∷ text_read (c ∷ s) ∷ closed ∷ rest

-- An attribute that is given, or not, as it is read.
pub get-given_other :
    (k name s : Text) (rest : Hash Text)
    → text_eq name k ≡ false
    → get k (given name s rest) ≡ get k rest
unfolding get
get-given_other k name [] rest h = refl
get-given_other k name (c ∷ s) rest h = ground (arith, h)

pub value-given_self :
    (k s : Text) (rest : Hash Text) → get k rest ≡ none → value k (given k s rest) ≡ s
unfolding get
value-given_self k [] rest h = rw h refl
value-given_self k (c ∷ s) rest h = ground arith
