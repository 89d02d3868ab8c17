-- ===== src/LangMap/Entries.antt =====
-- The texts of the other languages one after the other, as they are written.
use jreen.Base.{ℕ, none, [], ◌∷◌, ◌++◌, Text, Hash, get, put, ◌≡◌, ◌≢◌, refl, arith}
use jreen.LangMap.{value, value_or}

-- The texts of the other languages: no language or text is empty, and none is among those before.
abbrev pub Listed : Hash Text → Hash Text → Type 0
Listed before [] = Unit {0}
Listed before ((k, s) ∷ m) =
    (k ≢ []) × (s ≢ []) × (get k before ≡ none) × Listed (before ++ (k, s) ∷ []) m

get-append : (k : Text) (before m : Hash Text) → get k before ≡ none → get k (before ++ m) ≡ get k m
unfolding get
get-append k [] m h = refl
get-append k ((j, s) ∷ before) m h = ground (arith, h, get-append k before m)

pub put-append :
    (k s : Text) (before : Hash Text) → get k before ≡ none → put k s before ≡ before ++ (k, s) ∷ []
unfolding get put
put-append k s [] h = refl
put-append k s ((j, t) ∷ before) h = ground (arith, h, put-append k s before)

pub value-other :
    (c : ℕ) (k s base : Text) (before m : Hash Text)
    → get (c ∷ k) before ≡ none
    → value (c ∷ k) (record { base = base; other = before ++ (c ∷ k, s) ∷ m }) ≡ s
unfolding value_or get
value-other c k s base before m h = rw (get-append (c ∷ k) before ((c ∷ k, s) ∷ m) h) (ground arith)
