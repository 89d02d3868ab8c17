-- ===== src/Buffer/Bytes.antt =====
-- `QByteArray::resize` and a copy into the middle of a byte array.
use jreen.Base.{
  take-all, length-take, length-drop, ℕ, zero, suc, ◌+◌, ◌≤◌, ◌≡◌, refl, ap, [], ◌∷◌, ◌++◌, arith,
  length, take, drop, Text, take-append, length-append,
}

module _ (junk : ℕ → ℕ) where
  -- The list is the bytes from index i on.
  unfoldable pub resize : ℕ → ℕ → Text → Text
  resize i zero buf = []
  resize i (suc n) [] = junk i ∷ resize (suc i) n []
  resize i (suc n) (c ∷ buf) = c ∷ resize (suc i) n buf

  pub length-resize : (i n : ℕ) (buf : Text) → length (resize i n buf) ≡ n
  unfolding resize
  length-resize i zero buf = refl
  length-resize i (suc n) [] = ap suc (length-resize (suc i) n [])
  length-resize i (suc n) (c ∷ buf) = ap suc (length-resize (suc i) n buf)

  pub take-resize :
      (i n k : ℕ) (buf : Text) → k ≤ n → k ≤ length buf → take k (resize i n buf) ≡ take k buf
  unfolding resize
  take-resize i n zero buf h l = refl
  take-resize i zero (suc k) buf h l = absurd (omega arith)
  take-resize i (suc n) (suc k) [] h l = absurd (omega arith)
  take-resize i (suc n) (suc k) (c ∷ buf) h l =
      ap (◌∷◌ c) (take-resize (suc i) n k buf (omega arith) (omega arith))

  -- A window that lies inside the old and the new size is kept.
  pub window-resize :
      (i n o l : ℕ) (buf : Text)
      → o + l ≤ n
      → o + l ≤ length buf
      → take l (drop o (resize i n buf)) ≡ take l (drop o buf)
  unfolding resize
  window-resize i n zero l buf h b = take-resize i n l buf (omega arith) (omega arith)
  window-resize i zero (suc o) l buf h b = absurd (omega arith)
  window-resize i (suc n) (suc o) l [] h b = absurd (omega arith)
  window-resize i (suc n) (suc o) l (c ∷ buf) h b =
      window-resize (suc i) n o l buf (omega arith) (omega arith)

-- Copies the bytes to position p on. Nothing is written past the end.
unfoldable pub write_at : ℕ → Text → Text → Text
write_at zero bytes buf = take (length buf) bytes ++ drop (length bytes) buf
write_at (suc p) bytes [] = []
write_at (suc p) bytes (c ∷ buf) = c ∷ write_at p bytes buf

pub length-write_at :
    (p : ℕ) (bytes buf : Text)
    → p + length bytes ≤ length buf
    → length (write_at p bytes buf) ≡ length buf
unfolding write_at
length-write_at zero bytes buf h = omega (
  arith,
  length-append (take (length buf) bytes) (drop (length bytes) buf),
  length-take (length buf) bytes,
  length-drop (length bytes) buf,
)
length-write_at (suc p) bytes [] h = refl
length-write_at (suc p) bytes (c ∷ buf) h = ap suc (length-write_at p bytes buf (omega arith))

window-write_at_end :
    (l p : ℕ) (bytes buf : Text)
    → p ≡ l
    → l + length bytes ≤ length buf
    → take (l + length bytes) (write_at p bytes buf) ≡ take l buf ++ bytes
unfolding write_at
window-write_at_end zero zero bytes buf e h =
    let q : zero + length bytes ≡ length bytes = omega arith in
    rw (q, take-all (length buf) bytes (omega arith))
      (take-append (length bytes) bytes (drop (length bytes) buf) refl)
window-write_at_end (suc l) zero bytes buf e h = absurd (omega arith)
window-write_at_end zero (suc p) bytes buf e h = absurd (omega arith)
window-write_at_end (suc l) (suc p) bytes [] e h = absurd (omega arith)
window-write_at_end (suc l) (suc p) bytes (c ∷ buf) e h =
    let q : suc l + length bytes ≡ suc (l + length bytes) = omega arith in
    rw q (ap (◌∷◌ c) (window-write_at_end l p bytes buf (omega arith) (omega arith)))

-- A write right behind a window extends it.
pub window-write_at :
    (o l p : ℕ) (bytes buf : Text)
    → p ≡ o + l
    → p + length bytes ≤ length buf
    → take (l + length bytes) (drop o (write_at p bytes buf)) ≡ take l (drop o buf) ++ bytes
unfolding write_at
window-write_at zero l p bytes buf e h =
    window-write_at_end l p bytes buf (omega arith) (omega arith)
window-write_at (suc o) l zero bytes buf e h = absurd (omega arith)
window-write_at (suc o) l (suc p) bytes [] e h = absurd (omega arith)
window-write_at (suc o) l (suc p) bytes (c ∷ buf) e h =
    window-write_at o l p bytes buf (omega arith) (omega arith)
