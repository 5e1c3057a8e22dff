-- ===== src/Captcha/Gate.antt =====
-- What a step of a waiter does to the gate.
use pwdtt.Prelude.{
  ℕ, ◌≤◌, true, false, Option, none, some, if◌then◌else◌, ◌≡◌, ◌⊎◌, inl, inr, arith, Option-cases,
}
use pwdtt.Prelude.Text.{Text}
use pwdtt.Captcha.{CaptchaCoordinator, CaptchaOutcome, ContextError}
use pwdtt.Captcha.Waiters.{
  Waiter, WaiterPhase, WaiterMove, outside, queued, admitted, waiting, finishing, leaving, returned,
  ask, acquire, give_up, take_token, notice_end, clear, release, publish, parent_ends,
  deadline_passes, ask_step, acquire_step, quit_step, publish_step, take_step, notice_step,
  clear_step, parent_step, move_waiter,
}

-- Who has the gate.
abbrev pub holds_gate : WaiterPhase → ℕ
holds_gate outside = 0
holds_gate queued = 0
holds_gate admitted = 1
holds_gate (waiting p) = 1
holds_gate (finishing p out) = 1
holds_gate (leaving out) = 1
holds_gate (returned out) = 0

-- The challenge that a waiter with the gate has made current.
abbrev pub shows : WaiterPhase → Option ℕ
shows (waiting p) = some p
shows (finishing p out) = some p
shows _ = none

abbrev pub Owned : Option ℕ → Waiter → Type 0
Owned c w = (holds_gate w.phase ≡ 0) ⊎ (c ≡ shows w.phase)

abbrev Free : CaptchaCoordinator → Type 0
Free b = (b.gate ≡ true) ⊎ (b.current ≡ none)

-- What a step of a waiter does: nothing that the invariant sees, or something to the gate, which
-- then is free or the waiter's.
abbrev Quiet : WaiterPhase → CaptchaCoordinator → Waiter × CaptchaCoordinator → Type 0
Quiet p b r =
    (r.1.gate ≡ b.gate)
    × (r.1.current ≡ b.current)
    × (holds_gate r.0.phase ≡ holds_gate p)
    × Owned r.1.current r.0

abbrev Passes : WaiterPhase → CaptchaCoordinator → Waiter × CaptchaCoordinator → Type 0
Passes p b r =
    ((b.gate ≡ false) ⊎ (holds_gate p ≡ 1))
    × (holds_gate r.0.phase ≡ (if r.1.gate then 1 else 0))
    × Owned r.1.current r.0
    × Free r.1

module _ (w : Waiter) (b : CaptchaCoordinator) (r : Waiter × CaptchaCoordinator) where
  ask_step-Quiet : w.phase ≡ outside → ask_step w b ≡ some r → Quiet outside b r
  unfolding ask_step
  ask_step-Quiet at e = ground arith

  acquire_step-Passes : Free b → acquire_step w b ≡ some r → Passes queued b r
  unfolding acquire_step
  acquire_step-Passes f e = ground arith

  quit_step-Quiet : quit_step w b ≡ some r → Quiet queued b r
  unfolding quit_step
  quit_step-Quiet e = ground arith

  publish_step-Passes :
      (id : Text)
      → b.current ≡ none
      → b.gate ≡ true
      → publish_step id w b ≡ some r
      → Passes admitted b r
  unfolding publish_step
  publish_step-Passes id c g e = elim (Option-cases w.parent_error) [
    | inl live ↦ ground arith
    | inr (x, ended) ↦ ground arith
  ]

  take_step-Quiet : (p : ℕ) → b.current ≡ some p → take_step p w b ≡ some r → Quiet (waiting p) b r
  unfolding take_step
  take_step-Quiet p c e = ground arith

  notice_step-Quiet :
      (p : ℕ) → b.current ≡ some p → notice_step p w b ≡ some r → Quiet (waiting p) b r
  unfolding notice_step
  notice_step-Quiet p c e = ground arith

  clear_step-Passes :
      (p : ℕ) (out : CaptchaOutcome)
      → b.current ≡ some p
      → b.gate ≡ true
      → clear_step p out w b ≡ some r
      → Passes (finishing p out) b r
  unfolding clear_step
  clear_step-Passes p out c g e = ground arith

  parent_step-Quiet :
      (x : ContextError) (p : WaiterPhase)
      → w.phase ≡ p
      → Owned b.current w
      → parent_step x p w b ≡ some r
      → Quiet p b r
  unfolding parent_step
  parent_step-Quiet x p at o e = ground arith

  -- The gate counts its holder, so it is taken when the waiter has it.
  pub move_waiter_gate :
      (m : WaiterMove) (p : WaiterPhase)
      → w.phase ≡ p
      → Owned b.current w
      → holds_gate p ≤ (if b.gate then 1 else 0)
      → Free b
      → move_waiter m p w b ≡ some r
      → Quiet p b r ⊎ Passes p b r
  unfolding move_waiter
  move_waiter_gate (parent_ends x) p at o n f e = inl (parent_step-Quiet x p at o e)
  move_waiter_gate ask outside at o n f e = inl (ask_step-Quiet at e)
  move_waiter_gate acquire queued at o n f e = inr (acquire_step-Passes f e)
  move_waiter_gate give_up queued at o n f e = inl (quit_step-Quiet e)
  move_waiter_gate (publish id) admitted at o n f e =
      inr (publish_step-Passes id (ground (arith, rw at at o)) (ground arith) e)
  move_waiter_gate take_token (waiting p) at o n f e =
      inl (take_step-Quiet p (ground (arith, rw at at o)) e)
  move_waiter_gate notice_end (waiting p) at o n f e =
      inl (notice_step-Quiet p (ground (arith, rw at at o)) e)
  move_waiter_gate deadline_passes (waiting p) at o n f e = inl (ground arith)
  move_waiter_gate clear (finishing p out) at o n f e =
      inr (clear_step-Passes p out (ground (arith, rw at at o)) (ground arith) e)
  move_waiter_gate release (leaving out) at o n f e = inr (ground arith)
  move_waiter_gate _ _ at o n f e = absurd (ground arith)

abbrev pub held_gates : Waiter → ℕ
held_gates w = holds_gate w.phase
