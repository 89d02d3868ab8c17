-- ===== src/Vcard/Bits.antt =====
-- The bits of a set of types, one after the other.
use native.Mathlib.Nat.{pow-suc, div-eq_of_lt, div-div-eq-div-mul, two-pow-succ}
use jreen.Base.{
  ℕ, zero, suc, ◌+◌, ◌*◌, ◌/◌, ◌%◌, ◌^◌, ◌<◌, Bool, true, false, if◌then◌else◌, ◌==◌, ◌≡◌, refl,
  sym, ap, ◌∙◌, arith,
}
use jreen.Vcard.{has_bit, with_bit}

abbrev pub if_bit : Bool → ℕ → ℕ → ℕ
if_bit b value j = if b then value + 2 ^ j else value

unfoldable pub low_bits : ℕ → ℕ → ℕ
low_bits value zero = 0
low_bits value (suc j) = if_bit (has_bit value j) (low_bits value j) j

if_bit-lt : (b : Bool) (low m : ℕ) (j : ℕ) → low < 2 ^ j → if_bit b low j < 2 ^ suc j
if_bit-lt true low m j h = omega (arith, h, two-pow-succ j)
if_bit-lt false low m j h = omega (arith, h, two-pow-succ j)

pub low_bits-lt : (value j : ℕ) → low_bits value j < 2 ^ j
unfolding low_bits
low_bits-lt value zero = omega arith
low_bits-lt value (suc j) = if_bit-lt (has_bit value j) (low_bits value j) j j (low_bits-lt value j)

-- A bit that is set above those that a value has.
pub with_bit-low : (low j : ℕ) → low < 2 ^ j → with_bit low j ≡ low + 2 ^ j
with_bit-low low j h = rw (div-eq_of_lt h) refl

even_part : (m x : ℕ) → m * (x + x) ≡ (m + m) * x
even_part m x = omega arith

odd_part : (m x : ℕ) → m * (x + x + 1) ≡ m + (m + m) * x
odd_part m x = omega arith

halves : (q : ℕ) → q ≡ (if q % 2 == 1 then (q / 2 + q / 2 + 1) else (q / 2 + q / 2))
halves q = grind arith

step :
    (b : Bool) (v q x low j : ℕ)
    → q ≡ (if b then (x + x + 1) else (x + x))
    → v ≡ low + 2 ^ j * q
    → v ≡ if_bit b low j + (2 ^ j + 2 ^ j) * x
step true v q x low j e h =
    let h' = h ∙ ap (λ z. low + 2 ^ j * z) e ∙ ap (λ z. low + z) (odd_part (2 ^ j) x) in
    omega (arith, h')
step false v q x low j e h =
    h ∙ ap (λ z. low + 2 ^ j * z) e ∙ ap (λ z. low + z) (even_part (2 ^ j) x)

split : (v j : ℕ) → v ≡ low_bits v j + 2 ^ j * (v / 2 ^ j)
unfolding low_bits
split v zero = omega arith
split v (suc j) =
    let q = v / 2 ^ j in
    step (has_bit v j) v q (q / 2) (low_bits v j) j (halves q) (split v j)
    ∙ ap (λ z. if_bit (has_bit v j) (low_bits v j) j + z * (q / 2)) (sym (two-pow-succ j))
    ∙ ap (λ z. if_bit (has_bit v j) (low_bits v j) j + 2 ^ suc j * z)
        (div-div-eq-div-mul v (2 ^ j) 2 ∙ ap (λ z. v / z) (sym (pow-suc 2 j)))

-- A value with no bit from `j` on is the sum of its bits.
pub low_bits-all : (v j : ℕ) → v < 2 ^ j → low_bits v j ≡ v
low_bits-all v j h =
    let parts = split v j ∙ ap (λ z. low_bits v j + 2 ^ j * z) (div-eq_of_lt h) in
    omega (arith, parts)
