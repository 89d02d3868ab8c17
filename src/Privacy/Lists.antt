-- ===== src/Privacy/Lists.antt =====
-- The lists that the manager keeps: what it remembers, and when it asks again.
use jreen.Base.{
  ℕ, ◌+◌, ◌%◌, ◌^◌, true, false, Option, none, some, List, [], ◌∷◌, ◌++◌, ◌≡◌, ◌≢◌, inl, inr, refl,
  arith, subst, ◌==◌, ◌∙◌, Bool-cases, if◌then◌else◌, Text, text_eq,
}
use jreen.Privacy.{
  Manager, NamedList, PrivacyQuery, requested, request_list_context, empty_query, member,
  request_list, handle_push, push_all, push_one, names, Item, fixed_list, set_list, set_default,
}

member-snoc : (s t : Text) (ts : List Text) → member s ts ≡ true → member s (ts ++ t ∷ []) ≡ true
unfolding member
member-snoc s t [] e = ground arith
member-snoc s t (u ∷ us) e = let rest = member-snoc s t us in ground (arith, rest)

member-snoc_self : (t : Text) (ts : List Text) → member t (ts ++ t ∷ []) ≡ true
unfolding member
member-snoc_self t [] = ground arith
member-snoc_self t (u ∷ us) = let rest = member-snoc_self t us in ground (arith, rest)

-- A list is known and the one answer that the manager remembers is of another list.
pub record IsStale (s : Text) (m : Manager) : Type 0 where
  pub listed : member s m.lists ≡ true
  pub not_last : text_eq m.last_list_name s ≡ false

push_one-IsStale :
    (s : Text) (l : NamedList) (m : Manager) → s ≢ [] → IsStale s m → IsStale s (push_one l m)
unfolding push_one
push_one-IsStale s l m ne p = record {
  listed = ground (arith, p.listed, p.not_last, member-snoc s l.name m.lists);
  not_last = ground (arith, p.listed, p.not_last);
}

push_one-IsStale_self :
    (s : Text) (l : NamedList) (m : Manager) → s ≢ [] → l.name ≡ s → IsStale s (push_one l m)
unfolding push_one
push_one-IsStale_self s l m ne e = record {
  listed = ground (arith, member-snoc_self s m.lists);
  not_last = ground arith;
}

push_all-IsStale :
    (s : Text) (ls : List NamedList) (m : Manager)
    → s ≢ []
    → IsStale s m
    → IsStale s (push_all ls m).0
unfolding push_all
push_all-IsStale s [] m ne p = p
push_all-IsStale s (l ∷ ls) m ne p =
    push_all-IsStale s ls (push_one l m) ne (push_one-IsStale s l m ne p)

push_all-named :
    (s : Text) (ls : List NamedList) (m : Manager)
    → s ≢ []
    → member s (names ls) ≡ true
    → IsStale s (push_all ls m).0
unfolding push_all member
push_all-named s [] m ne p = ground arith
push_all-named s (l ∷ ls) m ne p = elim (Bool-cases (text_eq s l.name)) [
  | inl e ↦ push_all-IsStale s ls (push_one l m) ne (push_one-IsStale_self s l m ne (ground arith))
  | inr e ↦ push_all-named s ls (push_one l m) ne (ground arith)
]

push_one_keeps :
    (l : NamedList) (m : Manager)
    → ((push_one l m).valid_server ≡ m.valid_server)
      × ((push_one l m).list_requests ≡ m.list_requests)
unfolding push_one
push_one_keeps l m = ground arith

push_all_keeps :
    (ls : List NamedList) (m : Manager)
    → ((push_all ls m).0.valid_server ≡ m.valid_server)
      × ((push_all ls m).0.list_requests ≡ m.list_requests)
unfolding push_all
push_all_keeps [] m = (refl, refl)
push_all_keeps (l ∷ ls) m =
    let (p, q) = push_all_keeps ls (push_one l m) in
    let (p', q') = push_one_keeps l m in (p ∙ p', q ∙ q')

stale_lem :
    (id s : Text) (m : Manager)
    → IsStale s m
    → m.valid_server ≡ true
    → member s m.list_requests ≡ false
    → request_list id s m ≡ (
      record m { list_requests = s ∷ m.list_requests },
      requested false id request_list_context
            (record empty_query { lists = record { name = s; items = [] } ∷ [] })
          ∷ [],
    )
unfolding request_list
stale_lem id s m p v r = rw (p.not_last, p.listed, v, r) refl

-- When the server says that a list has changed, what the manager remembers of it is given up: the
-- next request for that list is sent to the server, and not answered from memory. This needs a
-- name, a server that supports privacy lists, and no request for the list under way.
pub push_invalidates :
    (id s : Text) (query : PrivacyQuery) (m : Manager)
    → s ≢ []
    → member s (names query.lists) ≡ true
    → m.valid_server ≡ true
    → member s m.list_requests ≡ false
    → let (n, effects) = handle_push query m in
      request_list id s n ≡ (
        record n { list_requests = s ∷ n.list_requests },
        requested false id request_list_context
              (record empty_query { lists = record { name = s; items = [] } ∷ [] })
            ∷ [],
      )
unfolding handle_push
push_invalidates id s query m ne h v r =
    let (p, q) = push_all_keeps query.lists m in
    let n = (push_all query.lists m).0 in
    stale_lem id s n (push_all-named s query.lists m ne h) (p ∙ v) (rw (q) r)

-- No two neighbours have the same order.
unfoldable pub NextDiffer : List Item → Type 0
NextDiffer [] = Unit
NextDiffer (i ∷ []) = Unit
NextDiffer (i ∷ (j ∷ is)) = (i.order ≢ j.order) × NextDiffer (j ∷ is)

abbrev Avoids : Option ℕ → List Item → Type 0
Avoids last [] = Unit
Avoids none (i ∷ is) = Unit
Avoids (some n) (i ∷ is) = n ≢ i.order

NextDiffer-cons :
    (i : Item) (is : List Item) → Avoids (some i.order) is → NextDiffer is → NextDiffer (i ∷ is)
unfolding NextDiffer
NextDiffer-cons i [] a p = tt
NextDiffer-cons i (j ∷ is) a p = (a, p)

fixed_list-NextDiffer :
    (last : Option ℕ) (is : List Item)
    → NextDiffer (fixed_list last is) × Avoids last (fixed_list last is)
unfolding fixed_list NextDiffer
fixed_list-NextDiffer last [] = (tt, tt)
fixed_list-NextDiffer none (i ∷ is) =
    let (p, a) = fixed_list-NextDiffer (some i.order) is in
    (NextDiffer-cons i (fixed_list (some i.order) is) a p, tt)
fixed_list-NextDiffer (some n) (i ∷ is) =
    let order = if i.order == n then (n + 1) % 2 ^ 32 else i.order in
    let (p, a) = fixed_list-NextDiffer (some order) is in
    (NextDiffer-cons (record i { order = order }) (fixed_list (some order) is) a p, ground arith)

-- `setList` computes a list in which no two neighbours have the same order, but it sends another
-- one wherever that computation has something to do: a list with two equal neighbours goes out
-- unchanged.
pub set_list_unfixed :
    (id name : Text) (items : List Item) (m : Manager)
    → m.valid_server ≡ true
    → ¬ NextDiffer items
    → NextDiffer (fixed_list none items)
      × (fixed_list none items ≢ items)
      × ((set_list id name items m).1
          ≡ requested true id set_default
              (record empty_query { lists = record { name = name; items = items } ∷ [] })
            ∷ [])
unfolding set_list
set_list_unfixed id name items m v d =
    let (p, a) = fixed_list-NextDiffer none items in
    (p, (λ e. d (subst NextDiffer e p)), rw (v) refl)
