-- ===== src/Tests/BufferTests.antt =====
-- src/buffereddatastream.cpp on short sessions.
use jreen.Base.{ℕ, List, [], ◌∷◌, ◌≡◌, refl, arith, text}
use jreen.Buffer.{init, incoming_data_ready, read_data, ensure_size, write_data, timer_event}
use jreen.Buffer.Bytes.{resize, write_at}
use jreen.Buffer.Queue.{IsValid}
use jreen.Buffer.Traffic.{
  Event, received, reads, writes, timer, World, run, step, IsSound, arrived, written, run_lem,
}

abbrev junk : ℕ → ℕ
junk i = 0

abbrev fresh : World
fresh = record { stream = init; delivered = []; sent = [] }

abbrev session : List Event
session =
    received (text "<a/>")
    ∷ reads 1
    ∷ writes (text "hi")
    ∷ received (text "<b/>")
    ∷ timer
    ∷ reads 100
    ∷ []

session_runs : (run junk session fresh).delivered ≡ text "<a/><b/>"
unfolding run step incoming_data_ready read_data ensure_size write_data timer_event resize write_at
session_runs = refl

init-IsValid : IsValid init
init-IsValid = record { inside = omega arith }

fresh-IsSound : IsSound fresh
fresh-IsSound = record { valid = init-IsValid; awake = λ h. absurd (h refl) }

run_lem_example :
    IsSound (run junk session fresh)
    × (arrived (run junk session fresh) ≡ text "<a/><b/>")
    × (written (run junk session fresh) ≡ text "hi")
run_lem_example = run_lem junk session fresh fresh-IsSound
