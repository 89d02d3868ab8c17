-- ===== src/Base/Texts.antt =====
-- `QString` and `QByteArray` as lists of code units, with the searches and slices the code uses.
use Prim.Native.Nat.{ℕ, suc, ◌+◌}
use Prim.Native.Char.{code}
use Prim.Native.String.{String}
use native.Mathlib.Decide.{ℕ_discrete}
use mathlib.Core.Bool.{Bool, true, false}
use mathlib.Core.Path.{◌≡◌, refl}
use mathlib.Core.Option.{Option, none, some}
use mathlib.Core.Option
use mathlib.Core.List.{List, [], ◌∷◌, ◌++◌}
use native.Mathlib.Omega.{arith}
use jreen.Base.Tests.{◌==◌, if◌then◌else◌}
use jreen.Base.Lists.{length, drop}

abbrev pub Text : Type 0
Text = List ℕ

-- The code points of a literal.
abbrev pub text : String → Text
text String.[] = []
text (String.◌∷◌ c s) = code c ∷ text s

unfoldable pub text_discrete : Discrete Text
unfolding ℕ_discrete
text_discrete = hlevel ℕ_discrete

-- `QString::operator==`
abbrev pub text_eq : Text → Text → Bool
text_eq a b = elim (text_discrete a b) [ yes _ ↦ true | no _ ↦ false ]

-- `QString::isEmpty`
abbrev pub is_empty {ℓ} : {A : Type ℓ} → List A → Bool
is_empty [] = true
is_empty (c ∷ s) = false

-- `indexOf(c)`: `none` is -1.
unfoldable pub index_of : ℕ → Text → Option ℕ
index_of c [] = none
index_of c (d ∷ s) = if d == c then some 0 else Option.map (λ i. suc i) (index_of c s)

-- `indexOf(c, from)` for a `from` that is not negative.
abbrev pub index_from : ℕ → Text → ℕ → Option ℕ
index_from c s from = Option.map (λ i. from + i) (index_of c (drop from s))

-- `contains(c)`
unfoldable pub contains : ℕ → Text → Bool
contains c [] = false
contains c (d ∷ s) = if d == c then true else contains c s

pub index_of-append_self :
    (c : ℕ) (s t : Text) → contains c s ≡ false → index_of c (s ++ c ∷ t) ≡ some (length s)
unfolding index_of contains
index_of-append_self c [] t h = ground arith
index_of-append_self c (d ∷ s) t h = ground (arith, index_of-append_self c s t)

pub index_of-none : (c : ℕ) (s : Text) → contains c s ≡ false → index_of c s ≡ none
unfolding index_of contains
index_of-none c [] h = refl
index_of-none c (d ∷ s) h = ground (arith, index_of-none c s)

pub contains-append :
    (c : ℕ) (s t : Text) → contains c s ≡ false → contains c t ≡ false → contains c (s ++ t) ≡ false
unfolding contains
contains-append c [] t h k = k
contains-append c (d ∷ s) t h k = ground (arith, contains-append c s t)

pub index_of-step :
    (c d : ℕ) (s : Text) {i : ℕ}
    → (d == c) ≡ false
    → index_of c s ≡ some i
    → index_of c (d ∷ s) ≡ some (suc i)
unfolding index_of
index_of-step c d s h k = ground arith

pub index_of-step_none :
    (c d : ℕ) (s : Text) → (d == c) ≡ false → index_of c s ≡ none → index_of c (d ∷ s) ≡ none
unfolding index_of
index_of-step_none c d s h k = ground arith
