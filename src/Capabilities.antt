-- ===== src/Capabilities.antt =====
-- src/capabilitiesfactory.cpp and src/capabilities.cpp: entity capabilities. The hash of the text of
-- a client, with its conversions, is a parameter.
pub mod Order
use jreen.Base.{
  Bool, true, false, ◌&&◌, Option, none, some, List, [], ◌∷◌, ◌++◌, if◌then◌else◌, map, Text, text,
  text_eq, Hash,
}
use jreen.Base.Order.{sort, map_put}
use jreen.Xml.{NsEvent, opened, text_read, closed}
use jreen.Xml
use jreen.Form.{Field, FieldType, DataForm, hidden}
use jreen.Form.Fields.{value}
use jreen.Disco.{Disco, Identity}

pub record Capabilities : Type 0 where
  pub ver : Text
  pub node : Text

abbrev pub form_type_name : Text
form_type_name = text "FORM_TYPE"

-- `s.append(str).append('<')` for each text
unfoldable pub terminated : List Text → Text → Text
terminated [] rest = rest
terminated (s ∷ ss) rest = s ++ text "<" ++ terminated ss rest

abbrev pub identity_line : Identity → Text
identity_line i = i.category ++ text "/" ++ i.type_name ++ text "/" ++ i.lang ++ text "/" ++ i.name

abbrev pub hidden_value : FieldType → Field → Text
unfolding value
hidden_value hidden f = value f
hidden_value _ f = []

-- What the loop over the fields collects: the type of the form and the map of the other fields.
pub record Collected : Type 0 where
  pub form_type : Text
  pub fields : Hash (List Text)

unfoldable pub collect_one : Field → Collected → Collected
unfolding map_put value
collect_one f c =
    if text_eq f.var form_type_name
    then record c { form_type = hidden_value f.kind f }
    else record c { fields = map_put f.var f.values c.fields }

unfoldable pub collect : List Field → Collected → Collected
unfolding collect_one
collect [] c = c
collect (f ∷ fs) c = collect fs (collect_one f c)

unfoldable pub field_texts : Hash (List Text) → Text
unfolding terminated
field_texts [] = []
field_texts ((k, vs) ∷ m) = k ++ text "<" ++ terminated vs (field_texts m)

abbrev pub form_text : Option DataForm → Text
unfolding collect field_texts
form_text none = []
form_text (some d) =
    let c = collect d.fields (record { form_type = []; fields = [] }) in
    c.form_type ++ text "<" ++ field_texts c.fields

-- `verificationValue`
unfoldable pub verification_value : Disco → Text
unfolding terminated collect field_texts sort
verification_value d =
    terminated (sort (map identity_line d.identities))
      (terminated (sort d.features) (form_text d.form))

abbrev pub ns_caps : Text
ns_caps = text "http://jabber.org/protocol/caps"

-- `CapabilitesFactory`, but for the pointer to the `Disco`
abbrev pub Factory : Type 0
Factory = Capabilities

unfoldable pub can_parse : Text → Text → Bool
can_parse name uri = text_eq name (text "c") && text_eq uri ns_caps

-- `handleStartElement`; the other handlers do nothing.
unfoldable pub handle_event : NsEvent → Factory → Factory
handle_event (opened name uri attributes) f = record {
  node = Xml.value (text "node") attributes;
  ver = Xml.value (text "ver") attributes;
}
handle_event _ f = f

unfoldable pub feed : List NsEvent → Factory → Factory
unfolding handle_event
feed [] f = f
feed (e ∷ es) f = feed es (handle_event e f)

module _ (hash : Text → Text) (d : Disco) where
  -- `hashValue`
  unfoldable pub hash_value : Text
  unfolding verification_value
  hash_value = hash (verification_value d)

  unfoldable pub ver_written : Text → Text
  unfolding hash_value
  ver_written [] = hash_value
  ver_written (c ∷ s) = c ∷ s

  unfoldable pub serialize : Capabilities → List NsEvent
  unfolding ver_written
  serialize c =
      opened (text "c") ns_caps
        ((text "hash", text "sha-1") ∷ (text "ver", ver_written c.ver) ∷ (text "node", c.node) ∷ [])
      ∷ closed
      ∷ []
