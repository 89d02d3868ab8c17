-- ===== src/Capabilities/Order.antt =====
-- The verification string of a client does not depend on the order in which its identities, its
-- features and the fields of its form are kept, and its hash is what other clients read.
use mathlib.Core.List.{Permᴰ, Perm, Nodup, Pairwise, mem-cons_self}
use mathlib.Core.List.Perm
use mathlib.Core.Logic.{∥∥₁_elim}
use native.Mathlib.Decide.{ℕ_discrete}
use jreen.Base.{
  arith, get, some, List, [], ◌∷◌, ◌++◌, map, Text, text, text_discrete, ◌≡◌, ◌≢◌, refl, sym, ap,
  ◌∙◌,
}
use jreen.Base.Order.{sort, sort_in, sort_in_comm, map_put_comm}
use jreen.Form.{Field, DataForm}
use jreen.Disco.{Disco}
use jreen.Capabilities.{
  Capabilities, Collected, collect_one, collect, field_texts, terminated, identity_line, form_text,
  verification_value, ver_written, serialize, feed, handle_event,
}

Text_set : IsSet Text
Text_set = hlevel ℕ_discrete

List_set : IsSet (List Text)
List_set = hlevel ℕ_discrete

sort-Perm : {s t : List Text} → Perm s t → sort s ≡ sort t
unfolding sort
sort-Perm p = Perm.foldr-eq List_set sort_in sort_in_comm p []

-- Two fields of different names may be collected in either order.
collect_one_comm :
    (f g : Field) (c : Collected)
    → f.var ≢ g.var
    → collect_one f (collect_one g c) ≡ collect_one g (collect_one f c)
unfolding collect_one
collect_one_comm f g c h = ground (arith, map_put_comm f.var g.var f.values g.values c.fields h)

head_distinct : {k j : Text} {ks : List Text} → Nodup (k ∷ j ∷ ks) → k ≢ j
head_distinct (Pairwise.cons h p) = h _ mem-cons_self

tail_distinct : {k : Text} {ks : List Text} → Nodup (k ∷ ks) → Nodup ks
tail_distinct (Pairwise.cons h p) = p

collect-Permᴰ :
    {fs gs : List Field}
    → Permᴰ fs gs
    → Nodup (map (λ (x : Field). x.var) fs)
    → (c : Collected) → collect fs c ≡ collect gs c
unfolding collect
collect-Permᴰ Permᴰ.nil u c = refl
collect-Permᴰ (Permᴰ.cons {a = a} {b = b} {l₁ = l} {l₂ = m} e p) u c =
    ap (λ z. collect l (collect_one z c)) e ∙ collect-Permᴰ p (tail_distinct u) (collect_one b c)
collect-Permᴰ (Permᴰ.swap {a = a} {b = b} {a' = a'} {b' = b'} {l = l} d e) u c =
    ap (collect l) (collect_one_comm b a c (λ h. head_distinct u (sym h)))
    ∙ (λ i. collect l (collect_one (d i) (collect_one (e i) c)))
collect-Permᴰ (Permᴰ.trans {l₁ = l} {l₂ = m} p q) u c =
    collect-Permᴰ p u c ∙ collect-Permᴰ q (Perm.nodup (Perm.map (λ (x : Field). x.var) ∣ p ∣₁) u) c

Collected_set : IsSet Collected
Collected_set = hlevel ℕ_discrete

collect-Perm :
    {fs gs : List Field}
    → Perm fs gs
    → Nodup (map (λ (x : Field). x.var) fs)
    → (c : Collected) → collect fs c ≡ collect gs c
collect-Perm {fs} {gs} p u c = ∥∥₁_elim p (Collected_set _ _) (λ d. collect-Permᴰ d u c)

-- Two clients whose identities, features and fields of the form are the same up to their order have
-- the same verification string, where no two fields of the form have the same name.
pub verification_value-Perm :
    (c d : Disco) (f g : DataForm)
    → c.form ≡ some f
    → d.form ≡ some g
    → Perm c.identities d.identities
    → Perm c.features d.features
    → Perm f.fields g.fields
    → Nodup (map (λ (x : Field). x.var) f.fields)
    → verification_value c ≡ verification_value d
unfolding verification_value
verification_value-Perm c d f g cf dg ids fts fds u =
    let start : Collected = record { form_type = []; fields = [] } in
    let forms =
      ap form_text cf
      ∙ ap (λ z. z.form_type ++ text "<" ++ field_texts z.fields) (collect-Perm fds u start)
      ∙ ap form_text (sym dg) in
    let feats = sort-Perm fts in
    let lines = sort-Perm (Perm.map identity_line ids) in
    λ i. terminated (lines i) (terminated (feats i) (forms i))

-- Capabilities that are written without a version are read with the hash of the verification string
-- of the client, others with their own version; the node is kept.
pub feed-serialize :
    (hash : Text → Text) (d : Disco) (c before : Capabilities)
    → feed (serialize hash d c) before ≡ record { ver = ver_written hash d c.ver; node = c.node }
unfolding feed handle_event serialize text_discrete get
feed-serialize hash d c before = refl
