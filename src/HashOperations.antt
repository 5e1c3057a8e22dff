-- ===== src/HashOperations.antt =====
-- backend/vk_hash_operations.go: `run`, which lets callers with the same key share one probe.
-- Callers take steps in any order. A step is what one holds the mutex for, or one choice of a
-- `select`; what a probe returns and when contexts end is part of the step.
pub mod Flights
pub mod Counts
pub mod Moves
pub mod Progress
use pwdtt.Prelude.{
  ℕ, zero, suc, ◌+◌, Bool, true, false, List, [], ◌∷◌, ◌++◌, Option, none, some, Result, ok, err,
  ◌==◌, if◌then◌else◌, get_elem?, set,
}
use pwdtt.Prelude.Text.{Text}
use pwdtt.Prelude.TextMap.{TextMap, lookup, insert, delete}
use pwdtt.Types.{VkHashCheckResult}

pub data RunError : Type 0 where
  canceled deadline_exceeded probe_failed : RunError

abbrev pub Outcome : Type 0
Outcome = Result RunError VkHashCheckResult

-- `profileName + "\x00" + id`
abbrev pub vk_hash_probe_key : Text → Text → Text
vk_hash_probe_key id profile_name = profile_name ++ 0 ∷ id

-- Where a caller of `run` is: before the mutex, waiting for a call's channel, or the owner of a call
-- that is before its probe, in it, or before the deferred clean-up; or it has returned.
pub data Phase : Type 0 where
  entering : Phase
  waiting leading probing : ℕ → Phase
  closing : ℕ → Outcome → Phase
  returned : Outcome → Phase

-- `context_error` is what ctx.Err() gives.
pub record Caller : Type 0 where
  pub key : Text
  pub phase : Phase
  pub context_error : Option RunError

-- The map of calls in flight, the number of the next call, and the calls whose channel is closed
-- with what they hold.
pub record Shared : Type 0 where
  pub in_flight : TextMap ℕ
  pub next : ℕ
  pub finished : ℕ → Option Outcome

pub data Move : Type 0 where
  enter start close wake give_up : Move
  probe_ends : Outcome → Move
  context_ends : RunError → Move

abbrev Effect : Type 0
Effect = Option (Caller × Shared)

-- The critical section at the beginning: join the call in flight, or own a new one.
unfoldable pub enter_step : Caller → Shared → Effect
enter_step t s = elim (lookup t.key s.in_flight) [
  | some c ↦ some (record t { phase = waiting c }, s)
  | none ↦ some (
    record t { phase = leading s.next },
    record s { in_flight = insert t.key s.next s.in_flight; next = s.next + 1 },
  )
]

-- The owner's test of its context before the probe.
unfoldable pub start_step : ℕ → Caller → Shared → Effect
start_step c t s = elim t.context_error [
  | some e ↦ some (record t { phase = closing c (err e) }, s)
  | none ↦ some (record t { phase = probing c }, s)
]

-- The deferred clean-up: the call leaves the map and its channel is closed.
unfoldable pub close_step : ℕ → Outcome → Caller → Shared → Effect
close_step c out t s = some (
  record t { phase = returned out },
  record s {
    in_flight = delete t.key s.in_flight;
    finished = λ d. if d == c then some out else s.finished d;
  },
)

abbrev pub is_canceled : Outcome → Bool
is_canceled (err canceled) = true
is_canceled _ = false

-- A closed channel: a canceled call is tried again by a caller that is not canceled.
unfoldable pub wake_step : ℕ → Caller → Shared → Effect
wake_step c t s = elim (s.finished c) [
  | none ↦ none
  | some out ↦
      let again : Bool = elim t.context_error [ none ↦ is_canceled out | some e ↦ false ] in
      some (record t { phase = if again then entering else returned out }, s)
]

unfoldable pub give_up_step : Caller → Shared → Effect
give_up_step t s = elim t.context_error [
  | none ↦ none
  | some e ↦ some (record t { phase = returned (err e) }, s)
]

-- A context ends once.
unfoldable pub context_step : RunError → Caller → Shared → Effect
context_step e t s = elim t.context_error [
  | some old ↦ none
  | none ↦ some (record t { context_error = some e }, s)
]

unfoldable pub move_at : Move → Phase → Caller → Shared → Effect
move_at (context_ends e) p t s = context_step e t s
move_at enter entering t s = enter_step t s
move_at start (leading c) t s = start_step c t s
move_at (probe_ends out) (probing c) t s = some (record t { phase = closing c out }, s)
move_at close (closing c out) t s = close_step c out t s
move_at wake (waiting c) t s = wake_step c t s
move_at give_up (waiting c) t s = give_up_step t s
move_at _ _ t s = none

pub record System : Type 0 where
  pub callers : List Caller
  pub shared : Shared

-- Caller `i` makes a move, if it can.
unfoldable pub step : ℕ → Move → System → Option System
unfolding move_at
step i m s = elim (get_elem? s.callers i) [
  | none ↦ none
  | some t ↦ elim (move_at m t.phase t s.shared) [
    | none ↦ none
    | some (t', shared') ↦ some (record { callers = set s.callers i t'; shared = shared' })
  ]
]

-- Moves that cannot be made are passed over.
unfoldable pub run_moves : List (ℕ × Move) → System → System
unfolding step
run_moves [] s = s
run_moves ((i, m) ∷ moves) s = elim (step i m s) [
  | none ↦ run_moves moves s
  | some s' ↦ run_moves moves s'
]

-- Callers that have not entered, and no call in flight.
unfoldable pub new_callers : List Text → List Caller
new_callers [] = []
new_callers (k ∷ keys) =
    record { key = k; phase = entering; context_error = none } ∷ new_callers keys

unfoldable pub start_system : List Text → System
unfolding new_callers
start_system keys = record {
  callers = new_callers keys;
  shared = record { in_flight = []; next = 0; finished = λ c. none };
}
