-- ===== src/Base/Order.antt =====
-- The order of texts that `QString::operator<` has, by code units, with what stands on it: sorted
-- lists of texts and the maps of `QMap`, which tell their keys apart by the order alone.
use mathlib.Core.Path.{◌≡◌, refl}
use mathlib.Core.Bool.{Bool, true, false, ◌&&◌, ◌||◌}
use mathlib.Core.Logic.{◌≢◌}
use mathlib.Core.List.{List, [], ◌∷◌, foldr}
use native.Mathlib.Omega.{arith}
use jreen.Base.Tests.{ltb, ◌==◌, if◌then◌else◌}
use jreen.Base.Texts.{Text}
use jreen.Base.Maps.{Hash}

-- `QString::operator<`
unfoldable pub text_less : Text → Text → Bool
text_less s [] = false
text_less [] (d ∷ t) = true
text_less (c ∷ s) (d ∷ t) = ltb c d || (c == d) && text_less s t

pub less_asym : (s t : Text) → text_less s t ≡ true → text_less t s ≡ false
unfolding text_less
less_asym s [] h = cc
less_asym [] (d ∷ t) h = refl
less_asym (c ∷ s) (d ∷ t) h = ground (arith, less_asym s t)

pub less_trans : (s t u : Text) → text_less s t ≡ true → text_less t u ≡ true → text_less s u ≡ true
unfolding text_less
less_trans s [] u h k = cc
less_trans s (d ∷ t) [] h k = cc
less_trans [] (d ∷ t) (e ∷ u) h k = refl
less_trans (c ∷ s) (d ∷ t) (e ∷ u) h k = ground (arith, less_trans s t u)

pub less_total : (s t : Text) → text_less s t ≡ false → text_less t s ≡ false → s ≡ t
unfolding text_less
less_total [] [] h k = refl
less_total [] (d ∷ t) h k = cc
less_total (c ∷ s) [] h k = cc
less_total (c ∷ s) (d ∷ t) h k = ground (arith, less_total s t)

-- `QStringList::sort`: equal texts cannot be told apart, so any way of sorting gives this list.
unfoldable pub sort_in : Text → List Text → List Text
sort_in s [] = s ∷ []
sort_in s (t ∷ ts) = let rest = sort_in s ts in if text_less t s then t ∷ rest else s ∷ t ∷ ts

unfoldable pub sort : List Text → List Text
unfolding sort_in
sort = foldr sort_in []

pub sort_in_comm :
    (a b : Text) (ts : List Text) → sort_in a (sort_in b ts) ≡ sort_in b (sort_in a ts)
unfolding sort_in
sort_in_comm a b [] = ground (arith, less_asym a b, less_total a b)
sort_in_comm a b (t ∷ ts) = ground (
  arith,
  sort_in_comm a b ts,
  less_asym a b,
  less_asym t a,
  less_asym t b,
  less_total a b,
  less_total t a,
  less_total t b,
  less_trans t a b,
  less_trans t b a,
  less_trans a b t,
  less_trans b a t,
)

-- `QMap::insert`
module _ {ℓ} {V : Type ℓ} where
  unfoldable pub map_put : Text → V → Hash V → Hash V
  map_put k v [] = (k, v) ∷ []
  map_put k v ((j, w) ∷ m) =
      let rest = map_put k v m in
      if text_less j k
      then (j, w) ∷ rest
      else if text_less k j
      then (k, v) ∷ (j, w) ∷ m
      else (k, v) ∷ m

  pub map_put_comm :
      (a b : Text) (v w : V) (m : Hash V)
      → a ≢ b
      → map_put a v (map_put b w m) ≡ map_put b w (map_put a v m)
  unfolding map_put
  map_put_comm a b v w [] h = ground (arith, less_asym a b, less_total a b)
  map_put_comm a b v w ((j, u) ∷ m) h = ground (
    arith,
    map_put_comm a b v w m h,
    less_asym a b,
    less_asym j a,
    less_asym j b,
    less_asym a j,
    less_asym b j,
    less_total a b,
    less_total j a,
    less_total j b,
    less_trans j a b,
    less_trans j b a,
    less_trans a b j,
    less_trans b a j,
    less_trans a j b,
    less_trans b j a,
  )
