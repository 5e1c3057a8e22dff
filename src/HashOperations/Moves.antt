-- ===== src/HashOperations/Moves.antt =====
-- Every move of a caller keeps the calls coordinated.
use pwdtt.Prelude.{
  ℕ, ◌+◌, Bool, false, Bool-cases, Option-cases, List, [], ◌∷◌, none, some, err, ◌≡◌, inl, inr,
  refl, arith, get_elem?, set, All,
}
use pwdtt.Prelude.Text.{Text}
use pwdtt.Prelude.TextMap.{lookup, insert}
use pwdtt.HashOperations.{
  Caller, Shared, System, Phase, Move, RunError, entering, waiting, leading, probing, closing,
  returned, enter, start, close, wake, give_up, probe_ends, context_ends, move_at, enter_step,
  start_step, close_step, wake_step, give_up_step, context_step, step, run_moves, new_callers,
  start_system, is_canceled,
}
use pwdtt.HashOperations.Counts.{owned, owns, owners}
use pwdtt.HashOperations.Flights.{
  Fits, IsCoordinated, closed, same_owner, new_owner, old_owner, here, flights,
}

-- What a move of a caller leaves.
abbrev pub moved : System → ℕ → Caller × Shared → System
moved s i (t, shared) = record { callers = set s.callers i t; shared = shared }

enter-IsCoordinated :
    (s : System) (i : ℕ) (t : Caller) (r : Caller × Shared)
    → get_elem? s.callers i ≡ some t
    → IsCoordinated s
    → t.phase ≡ entering
    → enter_step t s.shared ≡ some r
    → IsCoordinated (moved s i r)
unfolding enter_step
enter-IsCoordinated s i t r at h p e = elim (Option-cases (lookup t.key s.shared.in_flight)) [
  | inr (c, joined) ↦
      let known : r ≡ (record t { phase = waiting c }, s.shared) = ground arith in
      rw known
        (same_owner s i t at h (record t { phase = waiting c }) refl (rw p refl) (inl joined))
  | inl free ↦
      let t' : Caller = record t { phase = leading s.shared.next } in
      let known : r ≡ (
        t',
        record s.shared {
          in_flight = insert t.key s.shared.next s.shared.in_flight;
          next = s.shared.next + 1;
        },
      ) =
        ground arith in
      rw known (new_owner s i t at h s.shared.next (s.shared.next + 1) t' free p refl refl)
]

-- A move within `run` that touches nothing shared.
stays-IsCoordinated :
    (s : System) (i : ℕ) (t t' : Caller) (r : Caller × Shared)
    → get_elem? s.callers i ≡ some t
    → IsCoordinated s
    → r ≡ (t', s.shared)
    → t'.key ≡ t.key
    → owned t'.phase ≡ owned t.phase
    → Fits s.shared t'
    → IsCoordinated (moved s i r)
stays-IsCoordinated s i t t' r at h known k o f = rw known (same_owner s i t at h t' k o f)

start-IsCoordinated :
    (s : System) (i : ℕ) (t : Caller) (r : Caller × Shared) (c : ℕ)
    → get_elem? s.callers i ≡ some t
    → IsCoordinated s
    → t.phase ≡ leading c
    → start_step c t s.shared ≡ some r
    → IsCoordinated (moved s i r)
unfolding start_step
start-IsCoordinated s i t r c at h p e =
    let mine : lookup t.key s.shared.in_flight ≡ some c = rw p at (here s i t at h) in
    elim (Option-cases t.context_error) [
      | inl alive ↦
          stays-IsCoordinated s i t (record t { phase = probing c }) r at h (ground arith) refl
            (rw p refl) mine
      | inr (e', ended) ↦
          stays-IsCoordinated s i t (record t { phase = closing c (err e') }) r at h (ground arith)
            refl (rw p refl) mine
    ]

wake-IsCoordinated :
    (s : System) (i : ℕ) (t : Caller) (r : Caller × Shared) (c : ℕ)
    → get_elem? s.callers i ≡ some t
    → IsCoordinated s
    → t.phase ≡ waiting c
    → wake_step c t s.shared ≡ some r
    → IsCoordinated (moved s i r)
unfolding wake_step
wake-IsCoordinated s i t r c at h p e = elim (Option-cases (s.shared.finished c)) [
  | inl opened ↦ absurd (ground arith)
  | inr (out, done) ↦
      let again : Bool = elim t.context_error [ none ↦ is_canceled out | some e' ↦ false ] in
      elim (Bool-cases again) [
        | inl retry ↦
            stays-IsCoordinated s i t (record t { phase = entering }) r at h (ground arith) refl
              (rw p refl) tt
        | inr over ↦
            stays-IsCoordinated s i t (record t { phase = returned out }) r at h (ground arith) refl
              (rw p refl) tt
      ]
]

give_up-IsCoordinated :
    (s : System) (i : ℕ) (t : Caller) (r : Caller × Shared) (c : ℕ)
    → get_elem? s.callers i ≡ some t
    → IsCoordinated s
    → t.phase ≡ waiting c
    → give_up_step t s.shared ≡ some r
    → IsCoordinated (moved s i r)
unfolding give_up_step
give_up-IsCoordinated s i t r c at h p e = elim (Option-cases t.context_error) [
  | inl alive ↦ absurd (ground arith)
  | inr (e', ended) ↦
      stays-IsCoordinated s i t (record t { phase = returned (err e') }) r at h (ground arith) refl
        (rw p refl) tt
]

context-IsCoordinated :
    (s : System) (i : ℕ) (t : Caller) (r : Caller × Shared) (e : RunError)
    → get_elem? s.callers i ≡ some t
    → IsCoordinated s
    → context_step e t s.shared ≡ some r
    → IsCoordinated (moved s i r)
unfolding context_step
context-IsCoordinated s i t r e at h m = elim (Option-cases t.context_error) [
  | inr (e', ended) ↦ absurd (ground arith)
  | inl alive ↦
      stays-IsCoordinated s i t (record t { context_error = some e }) r at h (ground arith) refl
        refl (here s i t at h)
]

move_at-IsCoordinated :
    (s : System) (i : ℕ) (t : Caller) (r : Caller × Shared) (m : Move) (p : Phase)
    → get_elem? s.callers i ≡ some t
    → IsCoordinated s
    → t.phase ≡ p
    → move_at m p t s.shared ≡ some r
    → IsCoordinated (moved s i r)
unfolding move_at close_step
move_at-IsCoordinated s i t r (context_ends e) p at h q x = context-IsCoordinated s i t r e at h x
move_at-IsCoordinated s i t r enter entering at h q x = enter-IsCoordinated s i t r at h q x
move_at-IsCoordinated s i t r start (leading c) at h q x = start-IsCoordinated s i t r c at h q x
move_at-IsCoordinated s i t r wake (waiting c) at h q x = wake-IsCoordinated s i t r c at h q x
move_at-IsCoordinated s i t r give_up (waiting c) at h q x =
    give_up-IsCoordinated s i t r c at h q x
move_at-IsCoordinated s i t r (probe_ends out) (probing c) at h q x =
    stays-IsCoordinated s i t (record t { phase = closing c out }) r at h (ground arith) refl
      (rw q refl) (rw q at (here s i t at h))
move_at-IsCoordinated s i t r close (closing c out) at h q x =
    let known : r ≡ (record t { phase = returned out }, closed s.shared t.key c out) =
      ground arith in
    rw known (old_owner s i t at h c out (record t { phase = returned out }) q refl refl)
move_at-IsCoordinated s i t r _ _ at h q x = absurd (ground arith)

step-IsCoordinated :
    (s s' : System) (i : ℕ) (m : Move) → IsCoordinated s → step i m s ≡ some s' → IsCoordinated s'
unfolding step
step-IsCoordinated s s' i m h e = elim (Option-cases (get_elem? s.callers i)) [
  | inl nobody ↦ absurd (ground arith)
  | inr (t, at) ↦ elim (Option-cases (move_at m t.phase t s.shared)) [
    | inl stuck ↦ absurd (ground arith)
    | inr (r, can) ↦
        let known : s' ≡ moved s i r = ground arith in
        rw known (move_at-IsCoordinated s i t r m t.phase at h refl can)
  ]
]

pub run_moves-IsCoordinated :
    (moves : List (ℕ × Move)) (s : System) → IsCoordinated s → IsCoordinated (run_moves moves s)
unfolding run_moves
run_moves-IsCoordinated [] s h = h
run_moves-IsCoordinated ((i, m) ∷ moves) s h = elim (Option-cases (step i m s)) [
  | inl stuck ↦ rw (stuck, run_moves) (run_moves-IsCoordinated moves s h)
  | inr (s', can) ↦
      rw (can, run_moves) (run_moves-IsCoordinated moves s' (step-IsCoordinated s s' i m h can))
]

new_callers-Fits : (s : Shared) (keys : List Text) → All (Fits s) (new_callers keys)
unfolding new_callers
new_callers-Fits s [] = tt
new_callers-Fits s (k ∷ keys) = (tt, new_callers-Fits s keys)

owners-new_callers : (key : Text) (keys : List Text) → owners key (new_callers keys) ≡ 0
unfolding owners owns new_callers
owners-new_callers key [] = refl
owners-new_callers key (k ∷ keys) = ground (arith, owners-new_callers key keys)

pub start_system-IsCoordinated : (keys : List Text) → IsCoordinated (start_system keys)
unfolding start_system flights lookup
start_system-IsCoordinated keys = record {
  fits = new_callers-Fits (start_system keys).shared keys;
  single = λ key. owners-new_callers key keys;
}
