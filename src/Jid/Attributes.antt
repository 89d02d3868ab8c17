-- ===== src/Jid/Attributes.antt =====
-- JIDs as attributes of XML: one that is not valid is not written, and what is read is parsed.
use jreen.Base.{
  Bool, true, false, none, [], ◌∷◌, if◌then◌else◌, Text, text_eq, Hash, get, ◌≡◌, refl, ap, ◌∙◌,
  arith,
}
use jreen.Prep.{Preps}
use jreen.Jid.{JidData, set_jid, empty_jid}
use jreen.Xml
use jreen.Xml.{or_empty}

abbrev pub valid_attribute : Text → JidData → Hash Text → Hash Text
valid_attribute name j rest = if j.valid then (name, j.full) ∷ rest else rest

abbrev pub read_jid : Preps → Text → Hash Text → JidData
read_jid p name attributes = (set_jid p empty_jid (Xml.value name attributes)).1

abbrev pub jid_after : JidData → JidData
jid_after j = if j.valid then j else empty_jid

pub get-valid_attribute_other :
    (k name : Text) (j : JidData) (rest : Hash Text)
    → text_eq name k ≡ false
    → get k (valid_attribute name j rest) ≡ get k rest
unfolding get
get-valid_attribute_other k name j rest h = ground (arith, h)

module _ (p : Preps) where
  -- A JID that reads as itself, where it is written.
  abbrev pub IsRead : JidData → Type 0
  IsRead j = j.valid ≡ true → (set_jid p empty_jid j.full).1 ≡ j

  pub set_jid-nil : (set_jid p empty_jid []).1 ≡ empty_jid
  unfolding set_jid
  set_jid-nil = refl

  read_fields :
      (k domain node resource bare full : Text) (valid : Bool) (rest : Hash Text)
      → let j : JidData = record {
        domain = domain;
        node = node;
        resource = resource;
        bare = bare;
        full = full;
        valid = valid;
      } in
        IsRead j → get k rest ≡ none → read_jid p k (valid_attribute k j rest) ≡ jid_after j
  unfolding get
  read_fields k domain node resource bare full true rest h e =
      let same : Xml.value k ((k, full) ∷ rest) ≡ full = ground arith in
      ap (λ z. (set_jid p empty_jid z).1) same ∙ h refl
  read_fields k domain node resource bare full false rest h e =
      ap (λ z. (set_jid p empty_jid (or_empty z)).1) e ∙ set_jid-nil

  pub valid_attribute-read :
      (k : Text) (j : JidData) (rest : Hash Text)
      → IsRead j
      → get k rest ≡ none
      → read_jid p k (valid_attribute k j rest) ≡ jid_after j
  valid_attribute-read k j rest h e =
      read_fields k j.domain j.node j.resource j.bare j.full j.valid rest h e
