-- ===== src/Clock/Lamport/Tests.antt =====
-- Tests of the path clocks.
use obsidian_baritone.Prelude.{◌≡◌, ◌⊎◌, true, false, lit}
use obsidian_baritone.Clock.Lamport.{
  PathClock, path_clock_wins, make_path_clock, next_lamport, observe_lamport, path_clock_wins_total,
  next_lamport-wins,
}

abbrev first : PathClock
first = record { lamport = 4; device_id = lit "a" }

abbrev second : PathClock
second = record { lamport = 4; device_id = lit "b" }

path_clock_wins_total_example :
    ((path_clock_wins first second ≡ true) × (path_clock_wins second first ≡ false))
    ⊎ ((path_clock_wins first second ≡ false) × (path_clock_wins second first ≡ true))
    ⊎ ((first ≡ second)
        × (path_clock_wins first second ≡ false)
        × (path_clock_wins second first ≡ false))
path_clock_wins_total_example = path_clock_wins_total first second

next_lamport-wins_example :
    path_clock_wins (make_path_clock (next_lamport (observe_lamport 2 second)) (lit "a")) second
    ≡ true
next_lamport-wins_example = next_lamport-wins 2 second (lit "a")
