-- ===== src/Privacy/Setters.antt =====
-- Which list is active and which is the default, by the answers to the requests that set them.
use jreen.Base.{
  true, Option, none, some, List, [], ◌∷◌, ◌≡◌, ◌≢◌, refl, arith, Text, get, put, remove, get-put,
  get-remove,
}
use jreen.Stanza.{Condition}
use jreen.Privacy.{
  Manager, requested, Item, Answer, set_active, set_default, set_active_list, handle_answer,
  finish_active, finish_default, note_error, set_list, active_list_changed, default_list_changed,
  empty_query,
}

note_error_keeps :
    (e : Option Condition) (m : Manager)
    → ((note_error e m).active_list_setter ≡ m.active_list_setter)
      × ((note_error e m).default_list_setter ≡ m.default_list_setter)
      × ((note_error e m).default_list ≡ m.default_list)
      × ((note_error e m).active_list ≡ m.active_list)
note_error_keeps none m = (refl, refl, refl, refl)
note_error_keeps (some c) m = ground arith

set_active_list_lem :
    (id name : Text) (m : Manager)
    → m.valid_server ≡ true
    → set_active_list id name m ≡ (
      record m { active_list_setter = put id name m.active_list_setter },
      requested true id set_active (record empty_query { active_list = name }) ∷ [],
    )
unfolding set_active_list
set_active_list_lem id name m v = ground arith

finish_active_lem :
    (a : Answer) (m : Manager) (name : Text)
    → a.is_result ≡ true
    → get a.id m.active_list_setter ≡ some name
    → finish_active a m ≡ (
      record m { active_list_setter = remove a.id m.active_list_setter; active_list = name },
      active_list_changed name ∷ [],
    )
unfolding finish_active
finish_active_lem a m name r g = rw (r, g, finish_active) refl

finish_default_lem :
    (a : Answer) (m : Manager)
    → a.is_result ≡ true
    → get a.id m.default_list_setter ≡ none
    → finish_default a m ≡ (
      record m { default_list_setter = remove a.id m.default_list_setter; default_list = [] },
      default_list_changed [] ∷ [],
    )
unfolding finish_default
finish_default_lem a m r g = rw (r, g, finish_default) refl

-- After a request to activate a list, a result with the id of that request makes exactly that list
-- the active one, whatever other requests are under way, and tells so. The default list stays,
-- the request is not waited for any more, and each other one still is.
pub set_active_list_answered :
    (id name : Text) (m : Manager) (a : Answer)
    → m.valid_server ≡ true
    → a.id ≡ id
    → a.is_result ≡ true
    → let (waiting, sent) = set_active_list id name m in
      let (done, told) = handle_answer a set_active waiting in
      (done.active_list ≡ name)
      × (told ≡ active_list_changed name ∷ [])
      × (done.default_list ≡ m.default_list)
      × (get id done.active_list_setter ≡ none)
      × ((j : Text) → j ≢ id → get j done.active_list_setter ≡ get j m.active_list_setter)
unfolding handle_answer
set_active_list_answered id name m a v e r =
    let waiting : Manager = record m { active_list_setter = put id name m.active_list_setter } in
    let noted = note_error a.error waiting in
    let (p, q, d, act) = note_error_keeps a.error waiting in
    let found : get a.id noted.active_list_setter ≡ some name =
      ground (arith, p, get-put id a.id name m.active_list_setter) in
    rw (set_active_list_lem id name m v) (
      rw (finish_active_lem a noted name r found) (
        refl,
        refl,
        d,
        ground (arith, p, get-remove a.id id noted.active_list_setter),
        λ j ne. ground (
          arith,
          p,
          get-remove a.id j noted.active_list_setter,
          get-put id j name m.active_list_setter,
        ),
      ))

-- A request to store a list is waited for as if it were one to set the default list: where its
-- id is new, a result takes the default list away, and tells the application so.
pub set_list_clears_default :
    (id name : Text) (items : List Item) (m : Manager) (a : Answer)
    → m.valid_server ≡ true
    → get id m.default_list_setter ≡ none
    → a.id ≡ id
    → a.is_result ≡ true
    → let (waiting, sent) = set_list id name items m in
      (sent
        ≡ requested true id set_default
            (record empty_query { lists = record { name = name; items = items } ∷ [] })
          ∷ [])
      × ((handle_answer a set_default waiting).0.default_list ≡ [])
      × ((handle_answer a set_default waiting).1 ≡ default_list_changed [] ∷ [])
unfolding set_list handle_answer
set_list_clears_default id name items m a v g e r =
    let (p, q, d, act) = note_error_keeps a.error m in
    let found : get a.id (note_error a.error m).default_list_setter ≡ none =
      ground (arith, q, g, e) in
    (
      ground arith,
      rw (v) (ground (arith, finish_default_lem a (note_error a.error m) r found)),
      rw (v) (ground (arith, finish_default_lem a (note_error a.error m) r found)),
    )
