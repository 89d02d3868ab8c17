-- ===== src/Buffer/Queue.antt =====
-- The incoming side is a queue of bytes: what is read is what came in, in order.
use jreen.Base.{
  ℕ, ◌+◌, ◌-◌, ◌≤◌, ◌≡◌, refl, ◌++◌, arith, length, take, drop, Text, min, length-take, length-drop,
  drop-add, take-split, append-nil,
}
use jreen.Buffer.{Stream, incoming_data_ready, read_data, ensure_size}
use jreen.Buffer.Bytes.{length-resize, window-resize, length-write_at, window-write_at}

-- The window lies inside the buffer, so that `memcpy` reads and `read` writes only owned bytes.
pub record IsValid (s : Stream) : Type 0 where
  pub inside : s.offset + s.len ≤ length s.buffer

-- The abstract queue.
abbrev pub contents : Stream → Text
contents s = take s.len (drop s.offset s.buffer)

module _ (junk : ℕ → ℕ) where
  ensure_size_lem :
      (n : ℕ) (s : Stream)
      → IsValid s
      → (s.offset + s.len + n ≤ length (ensure_size junk n s).buffer)
        × ((ensure_size junk n s).offset ≡ s.offset)
        × ((ensure_size junk n s).len ≡ s.len)
        × (take s.len (drop s.offset (ensure_size junk n s).buffer) ≡ contents s)
  unfolding ensure_size
  ensure_size_lem n s v = ground (
    arith,
    length-resize junk 0 (s.offset + s.len + n) s.buffer,
    window-resize junk 0 (s.offset + s.len + n) s.offset s.len s.buffer,
  )

  -- What comes in goes to the end of the queue; the buffer stays large enough.
  pub incoming-contents :
      (bytes : Text) (s : Stream)
      → IsValid s
      → IsValid (incoming_data_ready junk bytes s)
        × (contents (incoming_data_ready junk bytes s) ≡ contents s ++ bytes)
  unfolding incoming_data_ready
  incoming-contents bytes s v =
      let t = ensure_size junk (length bytes) s in
      ground (
        arith,
        ensure_size_lem (length bytes) s v,
        length-write_at (t.offset + t.len) bytes t.buffer,
        window-write_at t.offset t.len (t.offset + t.len) bytes t.buffer refl,
      )

  -- A read takes the bytes from the front of the queue, as many as are asked for and there.
  pub read_data-contents :
      (n : ℕ) (s : Stream)
      → IsValid s
      → IsValid (read_data junk n s).1
        × ((read_data junk n s).0 ++ contents (read_data junk n s).1 ≡ contents s)
        × (length (read_data junk n s).0 ≡ min n s.len)
        × ((read_data junk n s).1.len ≡ s.len - n)
  unfolding read_data
  read_data-contents n s v = ground (
    arith,
    take-split (min n s.len) s.len (drop s.offset s.buffer),
    length-take (min n s.len) (drop s.offset s.buffer),
    length-drop s.offset s.buffer,
    drop-add s.offset n s.buffer,
    append-nil (take s.len (drop s.offset s.buffer)),
  )

  -- The two directions do not touch one another.
  pub incoming-output :
      (bytes : Text) (s : Stream)
      → ((incoming_data_ready junk bytes s).out_buffer ≡ s.out_buffer)
        × ((incoming_data_ready junk bytes s).timer ≡ s.timer)
  unfolding incoming_data_ready ensure_size
  incoming-output bytes s = ground arith

  pub read_data-output :
      (n : ℕ) (s : Stream)
      → ((read_data junk n s).1.out_buffer ≡ s.out_buffer)
        × ((read_data junk n s).1.timer ≡ s.timer)
  unfolding read_data
  read_data-output n s = ground arith
