-- ===== src/Buffer.antt =====
-- src/buffereddatastream.cpp: the buffer between the socket and the XML parser. Bytes that came in
-- lie in `buffer` from `offset` on, `len` of them; bytes that go out wait in `out_buffer` for the
-- timer. Handlers that only watch the traffic are not modelled.
pub mod Bytes
pub mod Queue
pub mod Traffic
use jreen.Base.{
  ℕ, zero, suc, ◌+◌, ◌-◌, Bool, true, false, [], ◌∷◌, ◌++◌, List, ltb, if◌then◌else◌, min, length,
  take, drop, Text, is_empty,
}
use Bytes.{resize, write_at}

pub record Stream : Type 0 where
  pub buffer : Text
  pub offset : ℕ
  pub len : ℕ
  pub out_buffer : Text
  pub timer : Bool

abbrev pub init : Stream
init = record { buffer = []; offset = 0; len = 0; out_buffer = []; timer = false }

-- `junk i` is the byte that a growing `QByteArray::resize` leaves uninitialised at index i.
module _ (junk : ℕ → ℕ) where
  -- The test is `buffer.size() - offset - len < size` of the integers.
  unfoldable pub ensure_size : ℕ → Stream → Stream
  ensure_size size s =
      if ltb (length s.buffer) (s.offset + s.len + size)
      then record s { buffer = resize junk 0 (s.offset + s.len + size) s.buffer }
      else s

  -- `incomingDataReady`, where the device holds the bytes given.
  unfoldable pub incoming_data_ready : Text → Stream → Stream
  incoming_data_ready bytes s =
      let t = ensure_size (length bytes) s in
      record t { buffer = write_at (t.offset + t.len) bytes t.buffer; len = t.len + length bytes }

  -- `readData`: the bytes that it copies out, and the state after it.
  unfoldable pub read_data : ℕ → Stream → Text × Stream
  read_data maxlen s =
      let n = min maxlen s.len in
      let copied = take n (drop s.offset s.buffer) in
      if ltb maxlen s.len
      then (copied, record s { len = s.len - maxlen; offset = s.offset + maxlen })
      else (
        copied,
        record s {
          offset = 0;
          len = 0;
          buffer = resize junk 0 (min 1024 (length s.buffer)) s.buffer;
        },
      )

-- `writeData`: the number of bytes that it took, and the state after it.
unfoldable pub write_data : Text → Stream → ℕ × Stream
write_data [] s = (0, s)
write_data (c ∷ data') s =
    (length (c ∷ data'), record s { out_buffer = s.out_buffer ++ c ∷ data'; timer = true })

-- `flush`: the bytes that it hands to the device, and the state after it.
unfoldable pub flush : Stream → Text × Stream
flush s = (s.out_buffer, record s { out_buffer = [] })

-- `timerEvent` for the stream's own timer.
unfoldable pub timer_event : Stream → Text × Stream
unfolding flush
timer_event s = let (sent, t) = flush s in (sent, record t { timer = false })

-- `close`
unfoldable pub close : Stream → Text × Stream
unfolding flush
close s = flush s
