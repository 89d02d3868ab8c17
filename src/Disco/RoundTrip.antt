-- ===== src/Disco/RoundTrip.antt =====
-- What the factories of service discovery write they read back.
use mathlib.Core.Option
use jreen.Base.{
  if◌then◌else◌, ℕ, zero, suc, ◌+◌, ◌-◌, ◌==◌, Bool, true, false, Option, none, some, List, [], ◌∷◌,
  ◌++◌, Text, text, text_discrete, Hash, get, append_assoc, append-nil, ◌≡◌, refl, ap, ◌∙◌, sym,
  arith,
}
use jreen.Xml.{NsEvent, opened, text_read, closed, given_element, value-given_self}
use jreen.Form.{DataForm, ns_dataform}
use jreen.Form.Fields.{holds}
use jreen.Form.Payload.{FormState, is_field, new_factory, feed, create_payload}
use jreen.Form.Payload
use jreen.Form.Writing.{serialize, form_attributes, write_fields}
use jreen.Form.RoundTrip.{form_after, create_payload-serialize}
use jreen.Form.Whole.{Whole, serialize-Whole}
use jreen.Disco.{Identity, Info}
use jreen.Disco.Factories.{
  at_info, at_data_form, InfoFactory, new_info_factory, info_event, info_start, info_end, feed_info,
  create_info, write_identities, write_features, write_form, serialize_info,
}

-- The factory in the form of an info, `k` deep in it.
abbrev at_form : ℕ → Text → List Identity → List Text → Payload.Factory → InfoFactory
at_form k node ds fs factory = record {
  depth = suc k;
  state = at_data_form;
  node = node;
  identities = ds;
  features = fs;
  factory = factory;
  has_form = true;
}

module _ (node : Text) (ds : List Identity) (fs : List Text) where
  form_opens :
      (k : ℕ) (name uri : Text) (attributes : Hash Text) (factory : Payload.Factory)
      → info_event (opened name uri attributes) (at_form (suc k) node ds fs factory)
        ≡ at_form
            (suc (suc k))
            node
            ds
            fs
            (Payload.handle_event (opened name uri attributes) factory)
  unfolding info_event info_start
  form_opens k name uri attributes factory =
      let one : (suc (suc k) + 1 == 1) ≡ false = ground arith in
      let two : (suc (suc k) + 1 == 2) ≡ false = ground arith in
      let deeper : suc (suc k) + 1 ≡ suc (suc (suc k)) = omega arith in rw (one, two, deeper) refl

  form_closes :
      (k : ℕ) (factory : Payload.Factory)
      → info_event closed (at_form (suc (suc k)) node ds fs factory)
        ≡ at_form (suc k) node ds fs (Payload.handle_event closed factory)
  unfolding info_event info_end
  form_closes k factory =
      let two : (suc (suc (suc k)) == 2) ≡ false = ground arith in
      let one : (suc (suc (suc k)) == 1) ≡ false = ground arith in
      let less_deep : suc (suc (suc k)) - 1 ≡ suc (suc k) = omega arith in
      rw (two, one, less_deep) refl

feed_info-Whole :
    (k : ℕ) (node : Text) (ds : List Identity) (fs : List Text) (factory : Payload.Factory)
    (es rest : List NsEvent)
    → Whole (suc k) es
    → feed_info (es ++ rest) (at_form (suc k) node ds fs factory)
      ≡ feed_info rest (record (at_form 0 node ds fs (feed es factory)) { state = at_info })
unfolding feed_info feed
feed_info-Whole k node ds fs factory [] rest h = absurd h
feed_info-Whole k node ds fs factory (opened name uri attributes ∷ es) rest h =
    ap (feed_info (es ++ rest)) (form_opens node ds fs k name uri attributes factory)
    ∙ (feed_info-Whole (suc k) node ds fs
        (Payload.handle_event (opened name uri attributes) factory) es rest h)
feed_info-Whole k node ds fs factory (text_read s ∷ es) rest h =
    feed_info-Whole k node ds fs (Payload.handle_event (text_read s) factory) es rest h
feed_info-Whole zero node ds fs factory (closed ∷ es) rest h = rw h refl
feed_info-Whole (suc k) node ds fs factory (closed ∷ es) rest h =
    ap (feed_info (es ++ rest)) (form_closes node ds fs k factory)
    ∙ (feed_info-Whole k node ds fs (Payload.handle_event closed factory) es rest h)

abbrev pub Distinct : List Text → List Text → Type 0
Distinct before [] = Unit {0}
Distinct before (s ∷ ss) = (holds s before ≡ false) × Distinct (before ++ s ∷ []) ss

module _ (node : Text) (factory : Payload.Factory) where
  -- The factory in an info, between two of its children.
  abbrev between : List Identity → List Text → InfoFactory
  between ds fs = record {
    depth = 1;
    state = at_info;
    node = node;
    identities = ds;
    features = fs;
    factory = factory;
    has_form = false;
  }

  feed_info-write_identities :
      (ds read : List Identity) (rest : List NsEvent)
      → feed_info (write_identities ds rest) (between read [])
        ≡ feed_info rest (between (read ++ ds) [])
  unfolding feed_info write_identities info_event text_discrete get
  feed_info-write_identities [] read rest =
      ap (λ z. feed_info rest (between z [])) (sym (append-nil read))
  feed_info-write_identities (d ∷ ds) read rest =
      ap
        (λ (z : Text).
          feed_info (write_identities ds rest) (between (read ++ record d { lang = z } ∷ []) []))
        (value-given_self (text "xml:lang") d.lang [] refl)
      ∙ feed_info-write_identities ds (read ++ d ∷ []) rest
      ∙ ap (λ z. feed_info rest (between z [])) (append_assoc read (d ∷ []) ds)

  feed_info-write_features :
      (ds : List Identity) (fs read : List Text) (rest : List NsEvent)
      → Distinct read fs
      → feed_info (write_features fs rest) (between ds read)
        ≡ feed_info rest (between ds (read ++ fs))
  unfolding feed_info write_features info_event text_discrete get
  feed_info-write_features ds [] read rest h =
      ap (λ z. feed_info rest (between ds z)) (sym (append-nil read))
  feed_info-write_features ds (s ∷ fs) read rest h =
      ap
        (λ (b : Bool).
          feed_info (write_features fs rest) (between ds (if b then read else read ++ s ∷ [])))
        h.0
      ∙ feed_info-write_features ds fs (read ++ s ∷ []) rest h.1
      ∙ ap (λ z. feed_info rest (between ds z)) (append_assoc read (s ∷ []) fs)

abbrev pub info_after : Info → Info
info_after i = record i { form = Option.map form_after i.form }

feed_info-write_form :
    (s : FormState) (node : Text) (ds : List Identity) (fs : List Text) (form : Option DataForm)
    → is_field s ≡ false
    → (create_info
        (feed_info (write_form form ++ closed ∷ []) (between node (new_factory s false) ds fs))).0
      ≡ info_after (record { node = node; identities = ds; features = fs; form = form })
unfolding feed_info info_event create_info write_form serialize text_discrete feed
feed_info-write_form s node ds fs none h = refl
feed_info-write_form s node ds fs (some d) h =
    let start = opened (text "x") ns_dataform (form_attributes d.kind) in
    let body =
      given_element (text "title") ns_dataform d.title (write_fields d.fields (closed ∷ [])) in
    ap (λ z. (create_info z).0)
      (feed_info-Whole 0 node ds fs (Payload.handle_event start (new_factory s false)) body
        (closed ∷ []) (serialize-Whole d))
    ∙ ap (λ (z : DataForm). record { node = node; identities = ds; features = fs; form = some z })
        (create_payload-serialize d s h)

-- An info that is written and read is the same info, with its form as a form that is written and
-- read, where no feature stands twice and the factory of forms is in no field and has seen no
-- required one.
pub create_info-serialize_info :
    (s : FormState) (i : Info)
    → is_field s ≡ false
    → Distinct [] i.features
    → (create_info (feed_info (serialize_info i) (new_info_factory (new_factory s false)))).0
      ≡ info_after i
unfolding feed_info serialize_info info_event get text_discrete
create_info-serialize_info s i h distinct =
    let factory = new_factory s false in
    let form = write_form i.form ++ closed ∷ [] in
    let features = write_features i.features form in
    ap
      (λ (z : Text).
        (create_info
          (feed_info (write_identities i.identities features) (between z factory [] []))).0)
      (value-given_self (text "node") i.node [] refl)
    ∙ ap (λ z. (create_info z).0)
        (feed_info-write_identities i.node factory i.identities [] features
          ∙ feed_info-write_features i.node factory i.identities i.features [] form distinct)
    ∙ feed_info-write_form s i.node i.identities i.features i.form h
