-- ===== src/Prep.antt =====
-- src/prep.cpp: the preparation of the parts of a JID, over libidn and Qt's codecs.
use jreen.Base.{
  ℕ, Bool, true, false, ◌||◌, Option, none, some, [], ltb, if◌then◌else◌, length, take, Text,
  is_empty,
}

pub data Profile : Type 0 where
  nameprep xmpp_nodeprep xmpp_resourceprep : Profile

-- libidn's `stringprep` on the text in the buffer (`none` is a return code that is not 0), and
-- Qt's conversions to and from UTF-8. None of these is part of the repository.
pub record Idn : Type 0 where
  pub to_utf8 : Text → Text
  pub from_utf8 : Text → Text
  pub stringprep : Profile → Text → Option Text

-- `QString::toLower`, and what `loadLibIDN` found: `none` where it returns false.
pub record Platform : Type 0 where
  pub to_lower : Text → Text
  pub idn : Option Idn

-- JID_PORTION_SIZE
abbrev pub jid_portion_size : ℕ
jid_portion_size = 1023

-- The result is `*ok` and the text returned. `in.resize` cuts the UTF-8 form to the buffer.
pub prepare : Idn → Profile → Text → Bool × Text
prepare idn profile s =
    if is_empty s || ltb jid_portion_size (length s)
    then (false, [])
    else elim (idn.stringprep profile (take jid_portion_size (idn.to_utf8 s))) [
      | none ↦ (false, [])
      | some t ↦ (true, idn.from_utf8 t)
    ]

-- What the class `Prep` offers to `JID`.
pub record Preps : Type 0 where
  pub node_prep : Text → Bool × Text
  pub name_prep : Text → Bool × Text
  pub resource_prep : Text → Bool × Text

node_prep : Platform → Text → Bool × Text
node_prep p node = elim p.idn [
  | none ↦ (true, p.to_lower node)
  | some idn ↦ prepare idn xmpp_nodeprep node
]

name_prep : Platform → Text → Bool × Text
name_prep p domain = elim p.idn [
  | none ↦ (true, p.to_lower domain)
  | some idn ↦ prepare idn nameprep domain
]

resource_prep : Platform → Text → Bool × Text
resource_prep p resource = elim p.idn [
  | none ↦ (true, resource)
  | some idn ↦ prepare idn xmpp_resourceprep resource
]

unfoldable pub preps_of : Platform → Preps
unfolding node_prep name_prep resource_prep prepare
preps_of p = record {
  node_prep = node_prep p;
  name_prep = name_prep p;
  resource_prep = resource_prep p;
}
