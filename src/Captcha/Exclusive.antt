-- ===== src/Captcha/Exclusive.antt =====
-- One challenge at a time.
use pwdtt.Prelude.{
  ℕ, true, false, List, [], ◌∷◌, none, get_elem?, if◌then◌else◌, ◌≡◌, ◌⊎◌, inl, inr, refl, arith,
  Option-cases, All, All-get, All-set, All-set_only, total, total-set, total_part,
}
use pwdtt.Prelude.Text.{Text}
use pwdtt.Captcha.{
  CaptchaCoordinator, active, launch_failed, submit, cancel, new_captcha_coordinator,
}
use pwdtt.Captcha.Waiters.{
  Waiter, WaiterMove, CaptchaSystem, CaptchaMove, outside, waiter, launches, launch_fails, cancels,
  submits, move_waiter, step_waiter, step_captcha, run_captcha, start_captcha,
}
use pwdtt.Captcha.Gate.{holds_gate, shows, Owned, move_waiter_gate, held_gates}

-- The gate counts those who have it; the one who has it owns the current challenge, and nobody
-- having it there is none.
pub record IsExclusive (s : CaptchaSystem) : Type 0 where
  pub count : total (λ w. holds_gate w.phase) s.waiters ≡ (if s.coordinator.gate then 1 else 0)
  pub owned :
      All (λ w. (holds_gate w.phase ≡ 0) ⊎ (s.coordinator.current ≡ shows w.phase)) s.waiters
  pub free : (s.coordinator.gate ≡ true) ⊎ (s.coordinator.current ≡ none)

step_waiter-IsExclusive :
    (i : ℕ) (m : WaiterMove) (s : CaptchaSystem) → IsExclusive s → IsExclusive (step_waiter i m s)
unfolding step_waiter
step_waiter-IsExclusive i m s h = elim (Option-cases (get_elem? s.waiters i)) [
  | inl nobody ↦ rw (nobody, step_waiter) h
  | inr (w, at) ↦ elim (Option-cases (move_waiter m w.phase w s.coordinator)) [
    | inl stuck ↦ rw (at, stuck, step_waiter) h
    | inr (r, can) ↦
        let mine = All-get (Owned s.coordinator.current) s.waiters i w h.owned at in
        let part = total_part held_gates s.waiters i w at in
        let written = total-set held_gates s.waiters i w r.0 at in
        let count = h.count in
        rw (at, can, step_waiter)
          (elim (move_waiter_gate w s.coordinator r m w.phase refl mine (omega (arith, part, count))
            h.free can) [
              | inl (gate, current, same, owned) ↦ record {
                count = rw gate (omega (arith, written, count, same));
                owned = All-set (Owned r.1.current) s.waiters i r.0 (rw current h.owned) owned;
                free = ground (arith, h.free, gate, current);
              }
              | inr (only, holds, owned, free) ↦
                  let alone : total held_gates s.waiters ≡ held_gates w =
                    ground (arith, only, count, part) in
                  record {
                    count = omega (arith, written, holds, alone);
                    owned =
                        All-set_only held_gates (Owned s.coordinator.current) (Owned r.1.current)
                          (λ u o n. inl n) s.waiters i w r.0 at h.owned alone owned;
                    free = free;
                  }
            ])
  ]
]

-- Calls from the native side leave the gate and the current challenge alone.
abbrev Untouched : CaptchaCoordinator → CaptchaCoordinator → Type 0
Untouched b b' = (b'.gate ≡ b.gate) × (b'.current ≡ b.current)

active-Untouched : (id : Text) (b : CaptchaCoordinator) → Untouched b (active id b).1
unfolding active
active-Untouched id b = ground arith

launch_failed-Untouched : (id : Text) (b : CaptchaCoordinator) → Untouched b (launch_failed id b)
unfolding launch_failed
launch_failed-Untouched id b = ground arith

cancel-Untouched : (id : Text) (b : CaptchaCoordinator) → Untouched b (cancel id b).1
unfolding cancel
cancel-Untouched id b = ground arith

submit-Untouched : (id token : Text) (b : CaptchaCoordinator) → Untouched b (submit id token b).1
unfolding submit
submit-Untouched id token b = ground arith

Untouched-IsExclusive :
    (s : CaptchaSystem) (b : CaptchaCoordinator)
    → Untouched s.coordinator b
    → IsExclusive s
    → IsExclusive (record s { coordinator = b })
Untouched-IsExclusive s b (gate, current) h = record {
  count = rw gate h.count;
  owned = rw current h.owned;
  free = rw (gate, current) h.free;
}

step_captcha-IsExclusive :
    (m : CaptchaMove) (s : CaptchaSystem) → IsExclusive s → IsExclusive (step_captcha m s)
unfolding step_captcha
step_captcha-IsExclusive (waiter i m) s h = step_waiter-IsExclusive i m s h
step_captcha-IsExclusive (launches id) s h =
    Untouched-IsExclusive s (active id s.coordinator).1 (active-Untouched id s.coordinator) h
step_captcha-IsExclusive (launch_fails id) s h =
    Untouched-IsExclusive s (launch_failed id s.coordinator)
      (launch_failed-Untouched id s.coordinator) h
step_captcha-IsExclusive (cancels id) s h =
    Untouched-IsExclusive s (cancel id s.coordinator).1 (cancel-Untouched id s.coordinator) h
step_captcha-IsExclusive (submits id token) s h =
    Untouched-IsExclusive s (submit id token s.coordinator).1
      (submit-Untouched id token s.coordinator) h

run_captcha-IsExclusive :
    (moves : List CaptchaMove) (s : CaptchaSystem)
    → IsExclusive s
    → IsExclusive (run_captcha moves s)
unfolding run_captcha
run_captcha-IsExclusive [] s h = h
run_captcha-IsExclusive (m ∷ moves) s h =
    run_captcha-IsExclusive moves (step_captcha m s) (step_captcha-IsExclusive m s h)

new_waiters_free :
    (ws : List Waiter)
    → All (λ w. w.phase ≡ outside) ws
    → (total held_gates ws ≡ 0) × All (Owned none) ws
new_waiters_free [] h = (refl, tt)
new_waiters_free (w ∷ ws) (p, h) =
    let (n, o) = new_waiters_free ws h in
    let mine : held_gates w ≡ 0 = rw p refl in (omega (arith, mine, n), (inl mine, o))

-- However waiters and calls from the native side interleave, at most one waiter has the gate, the one
-- that has it owns the current challenge, and without one the gate is free and no challenge is
-- current: neither is left behind.
pub run_captcha-new_captcha_coordinator :
    (moves : List CaptchaMove) (ws : List Waiter)
    → All (λ w. w.phase ≡ outside) ws
    → let s = run_captcha moves (start_captcha ws) in
      IsExclusive s
      × ((total (λ w. holds_gate w.phase) s.waiters ≡ 1)
          ⊎ (total (λ w. holds_gate w.phase) s.waiters ≡ 0)
            × (s.coordinator.gate ≡ false)
            × (s.coordinator.current ≡ none))
unfolding new_captcha_coordinator
run_captcha-new_captcha_coordinator moves ws new =
    let (n, o) = new_waiters_free ws new in
    let h =
      run_captcha-IsExclusive moves (start_captcha ws)
        record { count = n; owned = o; free = inr refl } in
    (h, ground (arith, h.count, h.free))
