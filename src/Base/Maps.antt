-- ===== src/Base/Maps.antt =====
-- `QHash<QString, V>` as an association list. The order of iteration is that of the list.
use mathlib.Core.Path.{◌≡◌, refl}
use mathlib.Core.Option.{Option, none, some}
use mathlib.Core.List.{List, [], ◌∷◌}
use native.Mathlib.Omega.{arith}
use jreen.Base.Tests.{if◌then◌else◌}
use jreen.Base.Texts.{Text, text_eq}

abbrev pub Hash {ℓ} : Type ℓ → Type ℓ
Hash V = List (Text × V)

module _ {ℓ} {V : Type ℓ} where
  -- `find(k)`, with `end()` as `none`
  unfoldable pub get : Text → Hash V → Option V
  get k [] = none
  get k ((j, v) ∷ m) = if text_eq j k then some v else get k m

  -- `insert(k, v)`
  unfoldable pub put : Text → V → Hash V → Hash V
  put k v [] = (k, v) ∷ []
  put k v ((j, w) ∷ m) = if text_eq j k then (k, v) ∷ m else (j, w) ∷ put k v m

  -- `remove(k)`: every entry of the key goes.
  unfoldable pub remove : Text → Hash V → Hash V
  remove k [] = []
  remove k ((j, v) ∷ m) = let rest = remove k m in if text_eq j k then rest else (j, v) ∷ rest

  pub get-put :
      (k j : Text) (v : V) (m : Hash V)
      → get j (put k v m) ≡ (if text_eq k j then some v else get j m)
  unfolding get put
  get-put k j v [] = refl
  get-put k j v ((i, w) ∷ m) = ground (arith, get-put k j v m)

  pub get-remove :
      (k j : Text) (m : Hash V) → get j (remove k m) ≡ (if text_eq k j then none else get j m)
  unfolding get remove
  get-remove k j [] = ground arith
  get-remove k j ((i, v) ∷ m) = ground (arith, get-remove k j m)
