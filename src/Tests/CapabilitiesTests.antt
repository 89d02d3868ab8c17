-- ===== src/Tests/CapabilitiesTests.antt =====
-- Capabilities of a client whose features and fields are kept in two orders.
use mathlib.Core.List.{Pairwise, Nodup, not-mem-nil, eq-or-mem_of_mem-cons}
use mathlib.Core.Logic.Or
use mathlib.Core.HLevel.{¬_prop}
use mathlib.Core.List.Perm
use jreen.Base.{
  ap, length, ◌≢◌, subst, sym, [], ◌∷◌, ◌≡◌, refl, arith, some, Text, text, map, List,
  text_discrete,
}
use jreen.Form.{Field, DataForm, result}
use jreen.Form.Fields.{hidden_field, value, set_value}
use jreen.Disco.{Disco, Identity, plain_field}
use jreen.Base.Order.{sort, sort_in, text_less, map_put}
use jreen.Capabilities.{verification_value, collect, collect_one, terminated, field_texts}
use jreen.Capabilities.Order.{verification_value-Perm}

abbrev typed : Field
typed = hidden_field (text "FORM_TYPE") (text "info")

abbrev system : Field
system = plain_field (text "os") (text "Mac" ∷ [])

abbrev info_form : List Field → DataForm
info_form fs = record { kind = result; title = []; instructions = []; fields = fs }

abbrev identity : Identity
identity = record { category = text "client"; type_name = text "pc"; name = text "J"; lang = [] }

abbrev client : List Text → List Field → Disco
client features fs = record {
  identities = identity ∷ [];
  features = features;
  form = some (info_form fs);
  os = [];
  software_name = [];
  software_version = [];
}

names_differ : Nodup (map (λ (x : Field). x.var) (typed ∷ system ∷ []))
unfolding set_value
names_differ =
    Pairwise.cons
      (λ j m.
        Or.elim ¬_prop (eq-or-mem_of_mem-cons m)
          (λ e. subst (λ k. typed.var ≢ k) (sym e) (λ h. absurd (ground (arith, ap length h))))
          (λ n. absurd (not-mem-nil n)))
      (Pairwise.cons (λ j m. absurd (not-mem-nil m)) Pairwise.nil)

verification_value-Perm_example :
    verification_value (client (text "b" ∷ text "a" ∷ []) (typed ∷ system ∷ []))
    ≡ verification_value (client (text "a" ∷ text "b" ∷ []) (system ∷ typed ∷ []))
verification_value-Perm_example =
    verification_value-Perm _ _ (info_form (typed ∷ system ∷ [])) (info_form (system ∷ typed ∷ []))
      refl refl (Perm.refl _) (Perm.swap _ _ _) (Perm.swap _ _ _) names_differ

sorted_string :
    verification_value (client (text "b" ∷ text "a" ∷ []) (typed ∷ system ∷ []))
    ≡ text "client/pc//J<a<b<info<os<Mac<"
unfolding set_value verification_value sort sort_in text_less map_put collect collect_one terminated
    field_texts value text_discrete
sorted_string = refl
