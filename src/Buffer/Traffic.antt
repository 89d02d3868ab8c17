-- ===== src/Buffer/Traffic.antt =====
-- Whole sessions of the buffered stream: any interleaving of socket data, reads by the parser,
-- writes by the XML writer, timer events and closes.
use jreen.Base.{
  ℕ, true, ◌≡◌, ◌≢◌, ap, sym, ◌∙◌, List, [], ◌∷◌, ◌++◌, arith, Text, append_assoc, append-nil,
}
use jreen.Buffer.{Stream, incoming_data_ready, read_data, write_data, timer_event, close}
use jreen.Buffer.Queue.{
  IsValid, contents, incoming-contents, read_data-contents, incoming-output, read_data-output,
}

pub data Event : Type 0 where
  received : Text → Event
  reads : ℕ → Event
  writes : Text → Event
  timer closing : Event

-- The stream, what was read from it, and what it gave to the socket.
pub record World : Type 0 where
  pub stream : Stream
  pub delivered : Text
  pub sent : Text

module _ (junk : ℕ → ℕ) where
  unfoldable pub step : Event → World → World
  step (received bytes) w = record w { stream = incoming_data_ready junk bytes w.stream }
  step (reads n) w =
      let (bytes, s) = read_data junk n w.stream in
      record w { stream = s; delivered = w.delivered ++ bytes }
  step (writes bytes) w = record w { stream = (write_data bytes w.stream).1 }
  step timer w =
      let (bytes, s) = timer_event w.stream in record w { stream = s; sent = w.sent ++ bytes }
  step closing w =
      let (bytes, s) = close w.stream in record w { stream = s; sent = w.sent ++ bytes }

  unfoldable pub run : List Event → World → World
  run [] w = w
  run (e ∷ es) w = run es (step e w)

abbrev input : Event → Text
input (received bytes) = bytes
input _ = []

abbrev output : Event → Text
output (writes bytes) = bytes
output _ = []

-- All that the socket gave, and all that was written.
abbrev pub inputs : List Event → Text
inputs [] = []
inputs (e ∷ es) = input e ++ inputs es

abbrev pub outputs : List Event → Text
outputs [] = []
outputs (e ∷ es) = output e ++ outputs es

pub record IsSound (w : World) : Type 0 where
  pub valid : IsValid w.stream
  -- What waits to be sent has a timer that will send it.
  pub awake : w.stream.out_buffer ≢ [] → w.stream.timer ≡ true

-- What has come through either way, and what is still under way.
abbrev pub arrived : World → Text
arrived w = w.delivered ++ contents w.stream

abbrev pub written : World → Text
written w = w.sent ++ w.stream.out_buffer

module _ (junk : ℕ → ℕ) where
  step_lem :
      (e : Event) (w : World)
      → IsSound w
      → IsSound (step junk e w)
        × (arrived (step junk e w) ≡ arrived w ++ input e)
        × (written (step junk e w) ≡ written w ++ output e)
  unfolding step write_data timer_event close
  step_lem (received bytes) w h = ground (
    arith,
    incoming-contents junk bytes w.stream h.valid,
    incoming-output junk bytes w.stream,
    append_assoc w.delivered (contents w.stream) bytes,
    append-nil (written w),
  )
  step_lem (reads n) w h =
      let (bytes, s) = read_data junk n w.stream in
      ground (
        arith,
        read_data-contents junk n w.stream h.valid,
        read_data-output junk n w.stream,
        append_assoc w.delivered bytes (contents s),
        append-nil (written w),
        append-nil (arrived w),
      )
  step_lem (writes []) w h = ground (arith, append-nil (written w), append-nil (arrived w), h.valid)
  step_lem (writes (c ∷ cs)) w h =
      ground
        (arith, append-nil (arrived w), append_assoc w.sent w.stream.out_buffer (c ∷ cs), h.valid)
  step_lem timer w h = ground (
    arith,
    append-nil (arrived w),
    append-nil (written w),
    append-nil (w.sent ++ w.stream.out_buffer),
  )
  step_lem closing w h = ground (
    arith,
    append-nil (arrived w),
    append-nil (written w),
    append-nil (w.sent ++ w.stream.out_buffer),
  )

  -- In every session, what was read and what still waits to be read is what came in, in order;
  -- what was sent and what still waits is what was written, in order; and as long as something
  -- waits to be sent the timer runs.
  pub run_lem :
      (es : List Event) (w : World)
      → IsSound w
      → IsSound (run junk es w)
        × (arrived (run junk es w) ≡ arrived w ++ inputs es)
        × (written (run junk es w) ≡ written w ++ outputs es)
  unfolding run
  run_lem [] w h = (h, sym (append-nil (arrived w)), sym (append-nil (written w)))
  run_lem (e ∷ es) w h =
      let (sound, a, b) = step_lem e w h in
      let (sound', c, d) = run_lem es (step junk e w) sound in
      (
        sound',
        c ∙ ap (λ (t : Text). t ++ inputs es) a ∙ append_assoc (arrived w) (input e) (inputs es),
        d ∙ ap (λ (t : Text). t ++ outputs es) b ∙ append_assoc (written w) (output e) (outputs es),
      )
