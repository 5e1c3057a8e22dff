-- ===== src/HashOperations/Progress.antt =====
-- What callers of `run` can rely on in every state that they can reach.
use pwdtt.Prelude.{
  All-get, ℕ, suc, ◌+◌, ◌≤◌, ◌<◌, Bool, true, false, Bool-cases, Option-cases, List, [], ◌∷◌, none,
  some, err, ◌≡◌, ◌⊎◌, inl, inr, refl, arith, get_elem?, All, if◌then◌else◌,
}
use pwdtt.Prelude.Text.{Text}
use pwdtt.Prelude.TextMap.{lookup, insert}
use pwdtt.HashOperations.{
  Caller, Shared, System, Phase, Outcome, Move, entering, waiting, leading, probing, closing,
  returned, enter, start, close, wake, give_up, probe_ends, context_ends, move_at, enter_step,
  start_step, close_step, wake_step, step, run_moves, start_system, is_canceled, probe_failed,
}
use pwdtt.HashOperations.Counts.{owned, owners, find_owner}
use pwdtt.HashOperations.Flights.{Fits, FitsPhase, IsCoordinated, flights, closed}
use pwdtt.HashOperations.Moves.{moved, run_moves-IsCoordinated, start_system-IsCoordinated}

-- The moves that `run` makes by itself: no context ends, and nobody gives up.
abbrev is_work : Move → Bool
is_work give_up = false
is_work (context_ends e) = false
is_work _ = true

-- Some caller can make such a move.
pub record CanMove (s : System) : Type 0 where
  pub who : ℕ
  pub move : Move
  pub after : System
  pub makes : step who move s ≡ some after
  pub works : is_work move ≡ true

abbrev is_returned : Phase → Bool
is_returned (returned out) = true
is_returned _ = false

abbrev pub HasReturned : Caller → Type 0
HasReturned t = is_returned t.phase ≡ true

step_makes :
    (s : System) (i : ℕ) (t : Caller) (m : Move) (r : Caller × Shared)
    → get_elem? s.callers i ≡ some t
    → move_at m t.phase t s.shared ≡ some r
    → step i m s ≡ some (moved s i r)
unfolding step
step_makes s i t m r at h = ground arith

can_move :
    (s : System) (i : ℕ) (t : Caller) (m : Move) (r : Caller × Shared)
    → get_elem? s.callers i ≡ some t
    → is_work m ≡ true
    → move_at m t.phase t s.shared ≡ some r
    → CanMove s
can_move s i t m r at w h = record {
  who = i;
  move = m;
  after = moved s i r;
  makes = step_makes s i t m r at h;
  works = w;
}

abbrev closed_by : System → Caller → ℕ → Outcome → Caller × Shared
closed_by s t c out = (record t { phase = returned out }, closed s.shared t.key c out)

-- The owner of a call can go on.
owner_moves :
    (s : System) (i : ℕ) (t : Caller) (p : Phase)
    → get_elem? s.callers i ≡ some t
    → t.phase ≡ p
    → owned p ≡ 1
    → CanMove s
unfolding move_at start_step close_step
owner_moves s i t entering at q o = absurd (ground arith)
owner_moves s i t (waiting c) at q o = absurd (ground arith)
owner_moves s i t (returned out) at q o = absurd (ground arith)
owner_moves s i t (probing c) at q o =
    can_move s i t (probe_ends (err probe_failed))
      (record t { phase = closing c (err probe_failed) }, s.shared) at refl (rw q refl)
owner_moves s i t (closing c out) at q o =
    can_move s i t close (closed_by s t c out) at refl (rw q refl)
owner_moves s i t (leading c) at q o = elim (Option-cases t.context_error) [
  | inl alive ↦
      can_move s i t start (record t { phase = probing c }, s.shared) at refl (ground arith)
  | inr (e, ended) ↦
      can_move s i t start (record t { phase = closing c (err e) }, s.shared) at refl (ground arith)
]

entering_moves :
    (s : System) (i : ℕ) (t : Caller)
    → get_elem? s.callers i ≡ some t
    → t.phase ≡ entering
    → CanMove s
unfolding move_at enter_step
entering_moves s i t at q = elim (Option-cases (lookup t.key s.shared.in_flight)) [
  | inr (c, joined) ↦
      can_move s i t enter (record t { phase = waiting c }, s.shared) at refl (ground arith)
  | inl free ↦
      can_move s i t enter
        (
          record t { phase = leading s.shared.next },
          record s.shared {
            in_flight = insert t.key s.shared.next s.shared.in_flight;
            next = s.shared.next + 1;
          },
        )
        at refl (ground arith)
]

-- One who waits can go on if the call is closed, and its owner can if it is not.
waiting_moves :
    (s : System) (i : ℕ) (t : Caller) (c : ℕ)
    → IsCoordinated s
    → get_elem? s.callers i ≡ some t
    → t.phase ≡ waiting c
    → CanMove s
unfolding move_at wake_step flights
waiting_moves s i t c h at q =
    let mine : FitsPhase s.shared t.key (waiting c) =
      rw q at (All-get (Fits s.shared) s.callers i t h.fits at) in
    elim mine [
      | inl flying ↦
          let one : 0 < owners t.key s.callers = ground (arith, h.single t.key) in
          let (j, u, there, k, own) = find_owner t.key s.callers one in
          owner_moves s j u u.phase there refl own
      | inr done ↦ elim (Option-cases (s.shared.finished c)) [
        | inl opened ↦ absurd (ground arith)
        | inr (out, closed) ↦
            let again : Bool = elim t.context_error [ none ↦ is_canceled out | some e ↦ false ] in
            can_move s i t wake
              (record t { phase = if again then entering else returned out }, s.shared) at refl
              (ground arith)
      ]
    ]

returned_or_busy :
    (ts : List Caller)
    → All HasReturned ts
      ⊎ ((i : ℕ) × (t : Caller) × (get_elem? ts i ≡ some t) × (is_returned t.phase ≡ false))
returned_or_busy [] = inl tt
returned_or_busy (x ∷ ts) = elim (Bool-cases (is_returned x.phase)) [
  | inr busy ↦ inr (0, x, refl, busy)
  | inl done ↦ elim (returned_or_busy ts) [
    | inl rest ↦ inl (done, rest)
    | inr (i, t, at, busy) ↦ inr (suc i, t, at, busy)
  ]
]

moves_on :
    (s : System) (i : ℕ) (t : Caller) (p : Phase)
    → IsCoordinated s
    → get_elem? s.callers i ≡ some t
    → t.phase ≡ p
    → is_returned p ≡ false
    → CanMove s
moves_on s i t entering h at q b = entering_moves s i t at q
moves_on s i t (waiting c) h at q b = waiting_moves s i t c h at q
moves_on s i t (leading c) h at q b = owner_moves s i t (leading c) at q refl
moves_on s i t (probing c) h at q b = owner_moves s i t (probing c) at q refl
moves_on s i t (closing c out) h at q b = owner_moves s i t (closing c out) at q refl
moves_on s i t (returned out) h at q b = absurd (ground arith)

-- Whatever moves callers of `run` make, in any order and with any ends of contexts: at most one of
-- them owns a call for a key, which one does exactly while the key is in flight; and the callers
-- never block each other: all have returned, or one can make a move that is neither giving up nor
-- the end of a context.
pub run_moves-start_system :
    (keys : List Text) (moves : List (ℕ × Move))
    → let s = run_moves moves (start_system keys) in
      ((key : Text)
        → (owners key s.callers ≡ flights key s.shared.in_flight) × (owners key s.callers ≤ 1))
      × (All HasReturned s.callers ⊎ CanMove s)
unfolding flights
run_moves-start_system keys moves =
    let s = run_moves moves (start_system keys) in
    let h = run_moves-IsCoordinated moves (start_system keys) (start_system-IsCoordinated keys) in
    (
      (λ key. (h.single key, ground (arith, h.single key))),
      elim (returned_or_busy s.callers) [
        | inl done ↦ inl done
        | inr (i, t, at, busy) ↦ inr (moves_on s i t t.phase h at refl busy)
      ],
    )
