-- ===== src/Tests/Checks.antt =====
-- Runs for backend/vk_hash_operations.go.
use pwdtt.Prelude.{ℕ, ◌≤◌, List, [], ◌∷◌, ◌≡◌, ◌⊎◌, err, All}
use pwdtt.Prelude.Text.{Text, codes}
use pwdtt.HashOperations.{
  Move, System, enter, start, close, wake, probe_ends, canceled, run_moves, start_system,
  vk_hash_probe_key,
}
use pwdtt.HashOperations.Counts.{owners}
use pwdtt.HashOperations.Flights.{flights}
use pwdtt.HashOperations.Progress.{HasReturned, CanMove, run_moves-start_system}

abbrev a_key : Text
a_key = vk_hash_probe_key (codes "1") (codes "home")

-- The second caller joins the first one's call, which is canceled, and tries again.
abbrev two_callers : List (ℕ × Move)
two_callers =
    (0, enter)
    ∷ (1, enter)
    ∷ (0, start)
    ∷ (0, probe_ends (err canceled))
    ∷ (0, close)
    ∷ (1, wake)
    ∷ []

abbrev after_moves : System
after_moves = run_moves two_callers (start_system (a_key ∷ a_key ∷ []))

run_moves-start_system_example :
    ((key : Text)
      → (owners key after_moves.callers ≡ flights key after_moves.shared.in_flight)
        × (owners key after_moves.callers ≤ 1))
    × (All HasReturned after_moves.callers ⊎ CanMove after_moves)
run_moves-start_system_example = run_moves-start_system (a_key ∷ a_key ∷ []) two_callers
