-- ===== src/Privacy.antt =====
-- `PrivacyManager` of src/privacymanager.cpp: what it asks the server for, what it makes of the
-- answers and what it tells the application.
pub mod Lists
pub mod Setters
pub mod Rules
use jreen.Base.{
  ℕ, ◌+◌, ◌%◌, ◌^◌, Bool, true, false, not, ◌&&◌, ◌||◌, Option, none, some, List, [], ◌∷◌, ◌++◌,
  ◌==◌, if◌then◌else◌, Text, text_eq, is_empty, Hash, get, put, remove,
}
use jreen.Stanza.{Condition, service_unavailable}

-- `PrivacyItem`, as far as the manager looks into it: `rest` is everything but the order.
pub record Item : Type 0 where
  pub rest : ℕ
  pub order : ℕ

-- `PrivacyQuery::List`
pub record NamedList : Type 0 where
  pub name : Text
  pub items : List Item

pub record PrivacyQuery : Type 0 where
  pub default_list : Text
  pub active_list : Text
  pub lists : List NamedList

abbrev pub empty_query : PrivacyQuery
empty_query = record { default_list = []; active_list = []; lists = [] }

pub record Manager : Type 0 where
  pub default_list : Text
  pub active_list : Text
  pub lists : List Text
  pub active_list_setter : Hash Text
  pub default_list_setter : Hash Text
  pub list_requests : List Text
  pub last_list_name : Text
  pub last_list : List Item
  pub valid_server : Bool

pub data Context : Type 0 where
  set_active set_default set_list_context request_list_context request_all : Context

-- What the manager sends and emits. A request carries its id and the context of its answer.
pub data Effect : Type 0 where
  requested : Bool → Text → Context → PrivacyQuery → Effect
  acknowledged out_of_range : Effect
  list_changed active_list_changed default_list_changed : Text → Effect
  list_received : Text → List Item → Effect
  lists_received : Effect

-- The answer to a request.
pub record Answer : Type 0 where
  pub id : Text
  pub is_result : Bool
  pub error : Option Condition
  pub query : Option PrivacyQuery

unfoldable pub member : Text → List Text → Bool
member s [] = false
member s (t ∷ ts) = text_eq s t || member s ts

-- `QStringList::removeOne`
unfoldable pub remove_one : Text → List Text → List Text
remove_one s [] = []
remove_one s (t ∷ ts) = let rest = remove_one s ts in if text_eq s t then ts else t ∷ rest

-- `QSet::remove`
unfoldable pub remove_all : Text → List Text → List Text
remove_all s [] = []
remove_all s (t ∷ ts) = let rest = remove_all s ts in if text_eq s t then rest else t ∷ rest

-- `request`, with the id from `getID`.
unfoldable pub request : Text → Manager → Manager × List Effect
request id m = if not m.valid_server then (m, lists_received ∷ []) else (
  record m {
    last_list_name = [];
    last_list = [];
    list_requests = [];
    active_list_setter = [];
    default_list_setter = [];
  },
  requested false id request_all empty_query ∷ [],
)

unfoldable pub set_active_list : Text → Text → Manager → Manager × List Effect
set_active_list id name m = if not m.valid_server then (m, []) else (
  record m { active_list_setter = put id name m.active_list_setter },
  requested true id set_active (record empty_query { active_list = name }) ∷ [],
)

unfoldable pub set_default_list : Text → Text → Manager → Manager × List Effect
set_default_list id name m = if not m.valid_server then (m, []) else (
  record m { default_list_setter = put id name m.default_list_setter },
  requested true id set_default (record empty_query { default_list = name }) ∷ [],
)

abbrev pub is_last : Option ℕ → ℕ → Bool
is_last none n = false
is_last (some m) n = n == m

-- The loop of `setList` that computes `fixedList`; the last order starts at -1, which is `none`,
-- and an order is a 32-bit number.
unfoldable pub fixed_list : Option ℕ → List Item → List Item
fixed_list last [] = []
fixed_list none (i ∷ is) = i ∷ fixed_list (some i.order) is
fixed_list (some n) (i ∷ is) =
    let order = if i.order == n then (n + 1) % 2 ^ 32 else i.order in
    record i { order = order } ∷ fixed_list (some order) is

-- `setList` sends the list as it was given, and gives the context of `setDefaultList`.
unfoldable pub set_list : Text → Text → List Item → Manager → Manager × List Effect
set_list id name items m = if not m.valid_server then (m, []) else (
  m,
  requested true id set_default
        (record empty_query { lists = record { name = name; items = items } ∷ [] })
      ∷ [],
)

abbrev pub remove_list : Text → Text → Manager → Manager × List Effect
remove_list id name m = set_list id name [] m

unfoldable pub request_list : Text → Text → Manager → Manager × List Effect
request_list id name m =
    if text_eq m.last_list_name name
    then (m, list_received name m.last_list ∷ [])
    else if not (member name m.lists) || not m.valid_server
    then (m, list_received name [] ∷ [])
    else if member name m.list_requests
    then (m, [])
    else (
      record m { list_requests = name ∷ m.list_requests },
      requested false id request_list_context
            (record empty_query { lists = record { name = name; items = [] } ∷ [] })
          ∷ [],
    )

-- One round of `handleIQ(iq)`: another client has changed a list.
unfoldable pub push_one : NamedList → Manager → Manager
push_one l m =
    let n =
      if text_eq l.name m.last_list_name
      then record m { last_list_name = []; last_list = [] }
      else m in
    if member l.name n.lists then n else record n { lists = n.lists ++ l.name ∷ [] }

unfoldable pub push_all : List NamedList → Manager → Manager × List Effect
push_all [] m = (m, [])
push_all (l ∷ ls) m = let (n, rest) = push_all ls (push_one l m) in (n, list_changed l.name ∷ rest)

-- `handleIQ(iq)` on a set that carries a privacy query.
unfoldable pub handle_push : PrivacyQuery → Manager → Manager × List Effect
handle_push query m = let (n, effects) = push_all query.lists m in (n, acknowledged ∷ effects)

-- The value of `take(id)`, which is empty for an unknown id.
abbrev pub text_or_empty : Option Text → Text
text_or_empty none = []
text_or_empty (some s) = s

abbrev pub note_error : Option Condition → Manager → Manager
note_error none m = m
note_error (some service_unavailable) m = record m { valid_server = false }
note_error (some _) m = m

unfoldable pub finish_active : Answer → Manager → Manager × List Effect
finish_active a m =
    let name = text_or_empty (get a.id m.active_list_setter) in
    let n = record m { active_list_setter = remove a.id m.active_list_setter } in
    if a.is_result
    then (record n { active_list = name }, active_list_changed name ∷ [])
    else (n, [])

unfoldable pub finish_default : Answer → Manager → Manager × List Effect
finish_default a m =
    let name = text_or_empty (get a.id m.default_list_setter) in
    let n = record m { default_list_setter = remove a.id m.default_list_setter } in
    if a.is_result
    then (record n { default_list = name }, default_list_changed name ∷ [])
    else (n, [])

-- `query->lists.at(0)`, where the code does not check that there is one.
unfoldable pub take_list : List NamedList → Manager → Manager × List Effect
take_list [] m = (m, out_of_range ∷ [])
take_list (l ∷ ls) m = (
  record m {
    last_list_name = l.name;
    last_list = l.items;
    lists = if is_empty l.items then remove_one l.name m.lists else m.lists;
    list_requests = remove_all l.name m.list_requests;
  },
  list_received l.name l.items ∷ [],
)

abbrev pub names : List NamedList → List Text
names [] = []
names (l ∷ ls) = l.name ∷ names ls

unfoldable pub take_lists : PrivacyQuery → Manager → Manager × List Effect
take_lists q m = (
  record m {
    lists = names q.lists;
    default_list = q.default_list;
    active_list = if is_empty q.active_list then q.default_list else q.active_list;
  },
  lists_received ∷ [],
)

unfoldable pub finish_list : Option PrivacyQuery → Manager → Manager × List Effect
finish_list none m = (m, list_received [] [] ∷ [])
finish_list (some q) m = take_list q.lists m

unfoldable pub finish_all : Option PrivacyQuery → Manager → Manager × List Effect
finish_all none m = (m, lists_received ∷ [])
finish_all (some q) m = take_lists q m

-- `handleIQ(iq, context)`
unfoldable pub handle_answer : Answer → Context → Manager → Manager × List Effect
unfolding finish_active finish_default finish_list finish_all
handle_answer a set_active m = finish_active a (note_error a.error m)
handle_answer a set_default m = finish_default a (note_error a.error m)
handle_answer a set_list_context m = (note_error a.error m, [])
handle_answer a request_list_context m = finish_list a.query (note_error a.error m)
handle_answer a request_all m = finish_all a.query (note_error a.error m)
