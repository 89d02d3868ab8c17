-- ===== src/LangMap.antt =====
-- src/langmap.h and src/langmap.cpp: a text in several languages. The data is shared copy on write,
-- so an operation that changes it is a function to the map after it.
pub mod Entries
use jreen.Base.{
  ℕ, ◌+◌, Bool, true, false, not, Option, none, some, List, [], ◌∷◌, ◌++◌, if◌then◌else◌, length,
  Text, is_empty, Hash, get, put,
}

pub record LangMap : Type 0 where
  pub base : Text
  pub other : Hash Text

abbrev pub no_langs : LangMap
no_langs = record { base = []; other = [] }

abbrev pub or_else : Option Text → Text → Text
or_else none s = s
or_else (some t) s = t

abbrev is_some : Option Text → Bool
is_some none = false
is_some (some t) = true

-- `contains`
unfoldable pub contains_lang : Text → LangMap → Bool
contains_lang lang m = if is_empty lang then not (is_empty m.base) else is_some (get lang m.other)

-- `insert`; also `operator[](lang) = value`
unfoldable pub set_value : Text → Text → LangMap → LangMap
set_value lang s m =
    if is_empty lang then record m { base = s } else record m { other = put lang s m.other }

-- `value(lang)` falls back to the base text, `value(lang, default_value)` to the default.
unfoldable pub value_or : Text → Text → LangMap → Text
value_or lang s m = if is_empty lang then s else or_else (get lang m.other) s

abbrev pub value : Text → LangMap → Text
value lang m = value_or lang m.base m

abbrev pub keys : Hash Text → List Text
keys [] = []
keys ((k, s) ∷ m) = k ∷ keys m

abbrev pub texts : Hash Text → List Text
texts [] = []
texts ((k, s) ∷ m) = s ∷ texts m

unfoldable pub langs : LangMap → List Text
langs m = if is_empty m.base then keys m.other else keys m.other ++ [] ∷ []

unfoldable pub all_values : LangMap → List Text
all_values m = if is_empty m.base then texts m.other else texts m.other ++ m.base ∷ []

-- The texts of one key of a hash, which has one at most.
abbrev pub texts_of : Option Text → List Text
texts_of none = []
texts_of (some s) = s ∷ []

-- `values(lang)`
unfoldable pub values : Text → LangMap → List Text
values lang m =
    if is_empty m.base then texts_of (get lang m.other) else texts m.other ++ m.base ∷ []

unfoldable pub count : LangMap → ℕ
count m = length m.other + (if is_empty m.base then 0 else 1)
