-- ===== src/Base/Lists.antt =====
-- Lists measured and indexed by native numbers, under the library's names.
use Prim.Native.Nat.{ℕ, zero, suc, ◌+◌, ◌-◌, ◌≤◌, min}
use mathlib.Core.Path.{◌≡◌, refl, ap, ◌∙◌}
use mathlib.Core.List.{List, [], ◌∷◌, ◌++◌}
use mathlib.Core.Option.{Option, none, some}
use native.Mathlib.Omega.{arith}

module _ {ℓ} {A : Type ℓ} where
  abbrev pub length : List A → ℕ
  length [] = 0
  length (x ∷ xs) = suc (length xs)

  abbrev pub get_elem? : List A → ℕ → Option A
  get_elem? [] i = none
  get_elem? (x ∷ xs) zero = some x
  get_elem? (x ∷ xs) (suc i) = get_elem? xs i

  abbrev pub get_or : List A → ℕ → A → A
  get_or [] i d = d
  get_or (x ∷ xs) zero d = x
  get_or (x ∷ xs) (suc i) d = get_or xs i d

  abbrev pub take : ℕ → List A → List A
  take zero xs = []
  take (suc n) [] = []
  take (suc n) (x ∷ xs) = x ∷ take n xs

  abbrev pub drop : ℕ → List A → List A
  drop zero xs = xs
  drop (suc n) [] = []
  drop (suc n) (x ∷ xs) = drop n xs

  abbrev pub replicate : ℕ → A → List A
  replicate zero a = []
  replicate (suc n) a = a ∷ replicate n a

module _ {ℓ} {A : Type ℓ} where
  pub drop-nil : (n : ℕ) → drop {A = A} n [] ≡ []
  drop-nil zero = refl
  drop-nil (suc n) = refl

  pub take-nil : (n : ℕ) → take {A = A} n [] ≡ []
  take-nil zero = refl
  take-nil (suc n) = refl

  pub length-append : (xs ys : List A) → length (xs ++ ys) ≡ length xs + length ys
  length-append [] ys = omega arith
  length-append (x ∷ xs) ys = omega (arith, length-append xs ys)

  pub take-append-drop : (n : ℕ) (xs : List A) → take n xs ++ drop n xs ≡ xs
  take-append-drop zero xs = refl
  take-append-drop (suc n) [] = refl
  take-append-drop (suc n) (x ∷ xs) = ap (◌∷◌ x) (take-append-drop n xs)

  pub length-take : (n : ℕ) (xs : List A) → length (take n xs) ≡ min n (length xs)
  length-take zero xs = omega arith
  length-take (suc n) [] = omega arith
  length-take (suc n) (x ∷ xs) = omega (arith, length-take n xs)

  pub length-drop : (n : ℕ) (xs : List A) → length (drop n xs) ≡ length xs - n
  length-drop zero xs = omega arith
  length-drop (suc n) [] = omega arith
  length-drop (suc n) (x ∷ xs) = omega (arith, length-drop n xs)

  pub length-replicate : (n : ℕ) (a : A) → length (replicate n a) ≡ n
  length-replicate zero a = refl
  length-replicate (suc n) a = ap suc (length-replicate n a)

  pub take-append : (n : ℕ) (xs ys : List A) → n ≡ length xs → take n (xs ++ ys) ≡ xs
  take-append zero [] ys e = refl
  take-append zero (x ∷ xs) ys e = absurd (omega arith)
  take-append (suc n) [] ys e = absurd (omega arith)
  take-append (suc n) (x ∷ xs) ys e = ap (◌∷◌ x) (take-append n xs ys (omega arith))

  pub drop-append : (n : ℕ) (xs ys : List A) → n ≡ length xs → drop n (xs ++ ys) ≡ ys
  drop-append zero [] ys e = refl
  drop-append zero (x ∷ xs) ys e = absurd (omega arith)
  drop-append (suc n) [] ys e = absurd (omega arith)
  drop-append (suc n) (x ∷ xs) ys e = drop-append n xs ys (omega arith)

  pub drop-add : (n m : ℕ) (xs : List A) → drop (n + m) xs ≡ drop m (drop n xs)
  drop-add zero m xs = ap (λ k. drop k xs) (omega arith)
  drop-add (suc n) zero [] = ap (λ k. drop {A = A} k []) (zero-end n)
    where
      zero-end : (k : ℕ) → suc k + 0 ≡ suc k
      zero-end k = omega arith
  drop-add (suc n) (suc m) [] = drop-nil (suc n + suc m)
  drop-add (suc n) m (x ∷ xs) =
      let e : suc n + m ≡ suc (n + m) = omega arith in ap (λ k. drop k (x ∷ xs)) e ∙ drop-add n m xs

  pub take-all : (n : ℕ) (xs : List A) → length xs ≤ n → take n xs ≡ xs
  take-all zero [] h = refl
  take-all zero (x ∷ xs) h = absurd (omega arith)
  take-all (suc n) [] h = refl
  take-all (suc n) (x ∷ xs) h = ap (◌∷◌ x) (take-all n xs (omega arith))

  pub take-split :
      (m l : ℕ) (xs : List A) → m ≤ l → take m xs ++ take (l - m) (drop m xs) ≡ take l xs
  take-split zero l xs h = ap (λ k. take k xs) (omega arith)
  take-split (suc m) zero xs h = absurd (omega arith)
  take-split (suc m) (suc l) [] h = take-nil (suc l - suc m)
  take-split (suc m) (suc l) (x ∷ xs) h =
      let e : suc l - suc m ≡ l - m = omega arith in
      rw e (ap (◌∷◌ x) (take-split m l xs (omega arith)))

  pub take-length : (xs ys : List A) → take (length xs) (xs ++ ys) ≡ xs
  take-length xs ys = take-append (length xs) xs ys refl

  pub drop-length : (xs ys : List A) → drop (length xs) (xs ++ ys) ≡ ys
  drop-length xs ys = drop-append (length xs) xs ys refl

  pub drop-length_suc :
      (xs : List A) (y : A) (ys : List A) → drop (length xs + 1) (xs ++ y ∷ ys) ≡ ys
  drop-length_suc xs y ys =
      drop-add (length xs) 1 (xs ++ y ∷ ys) ∙ ap (drop 1) (drop-length xs (y ∷ ys))

  pub get_or-drop : (i k : ℕ) (xs : List A) (x : A) → get_or xs (i + k) x ≡ get_or (drop i xs) k x
  get_or-drop zero k xs x = ap (λ n. get_or xs n x) (omega arith)
  get_or-drop (suc i) k [] x = refl
  get_or-drop (suc i) k (y ∷ xs) x =
      let e : suc i + k ≡ suc (i + k) = omega arith in rw e (get_or-drop i k xs x)

  -- The last item of a list that is not empty.
  pub get_or-last :
      (y : A) (xs ys : List A) (x : A)
      → get_or (y ∷ (xs ++ ys)) (length xs) x ≡ get_or (y ∷ xs) (length xs) x
  get_or-last y [] ys x = refl
  get_or-last y (z ∷ xs) ys x = get_or-last z xs ys x
