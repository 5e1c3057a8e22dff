-- ===== src/Captcha/Tokens.antt =====
-- Which tokens a challenge ends with.
use pwdtt.Prelude.{
  ℕ, Bool, true, false, not, ◌&&◌, List, [], ◌∷◌, some, ok, get_elem?, ◌≡◌, inl, inr, refl, arith,
  Option-cases, Bool-cases, All, All-get, All-set, All-map,
}
use pwdtt.Prelude.Text.{Text, ◌≗◌, ≗_iff, trim_space}
use pwdtt.Captcha.{
  CaptchaCoordinator, CaptchaPending, canceled, is_live, end_context, active, launch_failed, submit,
  cancel, new_captcha_coordinator, current_with,
}
use pwdtt.Captcha.Waiters.{
  Waiter, WaiterMove, CaptchaSystem, CaptchaMove, outside, finishing, waiter, launches,
  launch_fails, cancels, submits, move_waiter, step_waiter, step_captcha, run_captcha,
  start_captcha,
}
use pwdtt.Captcha.Shut.{current_with-some}
use pwdtt.Captcha.Held.{
  id_at, good, Held, finishes, Fits, phase-Keeps, Safe, same-Safe, set-Safe, move_waiter_safe,
}

-- Every challenge holds nothing or a token that may go to it, and so does every waiter that finishes.
record IsFaithful (allowed : Text → Text → Bool) (s : CaptchaSystem) : Type 0 where
  pub held : All (Held allowed) s.coordinator.pendings
  pub finished : All (Fits allowed s.coordinator.pendings) s.waiters

module _ (allowed : Text → Text → Bool) where
  step_waiter-IsFaithful :
      (i : ℕ) (m : WaiterMove) (s : CaptchaSystem)
      → IsFaithful allowed s
      → IsFaithful allowed (step_waiter i m s)
  unfolding step_waiter
  step_waiter-IsFaithful i m s h = elim (Option-cases (get_elem? s.waiters i)) [
    | inl nobody ↦ rw (nobody, step_waiter) h
    | inr (w, at) ↦ elim (Option-cases (move_waiter m w.phase w s.coordinator)) [
      | inl stuck ↦ rw (at, stuck, step_waiter) h
      | inr (r, can) ↦
          let mine = All-get (Fits allowed s.coordinator.pendings) s.waiters i w h.finished at in
          let ((held, keeps), fits) =
            move_waiter_safe allowed w s.coordinator r h.held m w.phase refl mine can in
          let others =
            All-map (Fits allowed s.coordinator.pendings) (Fits allowed r.1.pendings)
              (λ u f. phase-Keeps allowed s.coordinator.pendings r.1.pendings u.phase keeps f)
              s.waiters h.finished in
          rw (at, can, step_waiter)
            record {
              held = held;
              finished = All-set (Fits allowed r.1.pendings) s.waiters i r.0 others fits;
            }
    ]
  ]

  -- A call that changes the challenges safely.
  Safe-IsFaithful :
      (s : CaptchaSystem) (b : CaptchaCoordinator)
      → IsFaithful allowed s
      → Safe allowed s.coordinator.pendings b.pendings
      → IsFaithful allowed (record s { coordinator = b })
  Safe-IsFaithful s b h (held, keeps) = record {
    held = held;
    finished =
        All-map (Fits allowed s.coordinator.pendings) (Fits allowed b.pendings)
          (λ u f. phase-Keeps allowed s.coordinator.pendings b.pendings u.phase keeps f) s.waiters
          h.finished;
  }

  module _ (id : Text) (b : CaptchaCoordinator) (h : All (Held allowed) b.pendings) where
    active-Safe : Safe allowed b.pendings (active id b).1.pendings
    unfolding active
    active-Safe = elim (Option-cases (current_with id b)) [
      | inl missing ↦ rw (missing, active) (same-Safe allowed b.pendings h)
      | inr ((p, r), found) ↦
          let (c, at, named) = current_with-some id b p r found in
          let held = All-get (Held allowed) b.pendings p r h at in
          let safe =
            set-Safe allowed b.pendings p r (record r { launched = true }) at refl held h in
          elim (Bool-cases (is_live r && not r.launched)) [
            | inl opens ↦ rw (found, active, opens) safe
            | inr stays ↦ rw (found, active, stays) (same-Safe allowed b.pendings h)
          ]
    ]

    launch_failed-Safe : Safe allowed b.pendings (launch_failed id b).pendings
    unfolding launch_failed
    launch_failed-Safe = elim (Option-cases (current_with id b)) [
      | inl missing ↦ rw (missing, launch_failed) (same-Safe allowed b.pendings h)
      | inr ((p, r), found) ↦
          let (c, at, named) = current_with-some id b p r found in
          let held = All-get (Held allowed) b.pendings p r h at in
          rw (found, launch_failed)
            (set-Safe allowed b.pendings p r (record r { launched = false }) at refl held h)
    ]

    cancel-Safe : Safe allowed b.pendings (cancel id b).1.pendings
    unfolding cancel end_context good
    cancel-Safe = elim (Option-cases (current_with id b)) [
      | inl missing ↦ rw (missing, cancel) (same-Safe allowed b.pendings h)
      | inr ((p, r), found) ↦
          let (c, at, named) = current_with-some id b p r found in
          let held = All-get (Held allowed) b.pendings p r h at in
          rw (found, cancel)
            (set-Safe allowed b.pendings p r (end_context canceled r) at (ground arith)
              (ground (arith, held)) h)
    ]

    submit-Safe :
        (token : Text)
        → allowed id token ≡ true
        → Safe allowed b.pendings (submit id token b).1.pendings
    unfolding submit good
    submit-Safe token may = elim (Option-cases (current_with id b)) [
      | inl missing ↦ rw (missing, submit) (same-Safe allowed b.pendings h)
      | inr ((p, r), found) ↦
          let (c, at, named) = current_with-some id b p r found in
          let mine : r.id ≡ id = (≗_iff r.id id).0 named in
          elim (Bool-cases (is_live r && not (trim_space token ≗ []))) [
            | inr refused ↦ rw (found, submit, refused) (same-Safe allowed b.pendings h)
            | inl fine ↦ elim (Option-cases r.result) [
              | inr (old, full) ↦ rw (found, submit, fine, full) (same-Safe allowed b.pendings h)
              | inl empty ↦
                  let good_token : good allowed id (some token) ≡ true =
                    ground (arith, fine, may) in
                  rw (found, submit, fine, empty)
                    (set-Safe allowed b.pendings p r (record r { result = some token }) at refl
                      (rw mine good_token) h)
            ]
          ]
    ]

  -- A submission that is allowed for its number.
  abbrev Allows : CaptchaMove → Type 0
  Allows (submits id token) = allowed id token ≡ true
  Allows _ = Unit

  step_captcha-IsFaithful :
      (m : CaptchaMove) (s : CaptchaSystem)
      → Allows m
      → IsFaithful allowed s
      → IsFaithful allowed (step_captcha m s)
  unfolding step_captcha
  step_captcha-IsFaithful (waiter i m) s may h = step_waiter-IsFaithful i m s h
  step_captcha-IsFaithful (launches id) s may h =
      Safe-IsFaithful s (active id s.coordinator).1 h (active-Safe id s.coordinator h.held)
  step_captcha-IsFaithful (launch_fails id) s may h =
      Safe-IsFaithful s (launch_failed id s.coordinator) h
        (launch_failed-Safe id s.coordinator h.held)
  step_captcha-IsFaithful (cancels id) s may h =
      Safe-IsFaithful s (cancel id s.coordinator).1 h (cancel-Safe id s.coordinator h.held)
  step_captcha-IsFaithful (submits id token) s may h =
      Safe-IsFaithful s (submit id token s.coordinator).1 h
        (submit-Safe id s.coordinator h.held token may)

  run_captcha-IsFaithful :
      (moves : List CaptchaMove) (s : CaptchaSystem)
      → All Allows moves
      → IsFaithful allowed s
      → IsFaithful allowed (run_captcha moves s)
  unfolding run_captcha
  run_captcha-IsFaithful [] s may h = h
  run_captcha-IsFaithful (m ∷ moves) s (may, mays) h =
      run_captcha-IsFaithful moves (step_captcha m s) mays (step_captcha-IsFaithful m s may h)

  outside-Fits : (ws : List Waiter) → All (λ w. w.phase ≡ outside) ws → All (Fits allowed []) ws
  unfolding finishes
  outside-Fits [] h = tt
  outside-Fits (w ∷ ws) (at, h) = (rw at refl, outside-Fits ws h)

  -- If a property relates each submitted token to the number it is submitted for, then, however
  -- waiters and calls interleave, a waiter that finishes with a token has one that is not blank and
  -- has the property with the number of the waiter's own challenge: no token reaches another one.
  pub run_captcha_token :
      (moves : List CaptchaMove) (ws : List Waiter) (i : ℕ) (w : Waiter) (p : ℕ) (token : Text)
      → All Allows moves
      → All (λ w. w.phase ≡ outside) ws
      → get_elem? (run_captcha moves (start_captcha ws)).waiters i ≡ some w
      → w.phase ≡ finishing p (ok token)
      → (r : CaptchaPending) × (get_elem?
            (run_captcha moves (start_captcha ws)).coordinator.pendings
            p
          ≡ some r)
        × (allowed r.id token ≡ true)
        × ((trim_space token ≗ []) ≡ false)
  unfolding new_captcha_coordinator finishes id_at good
  run_captcha_token moves ws i w p token mays new at done =
      let s = run_captcha moves (start_captcha ws) in
      let h =
        run_captcha-IsFaithful moves (start_captcha ws) mays
          record { held = tt; finished = outside-Fits ws new } in
      let fits =
        rw done at (All-get (Fits allowed s.coordinator.pendings) s.waiters i w h.finished at) in
      elim (Option-cases (get_elem? s.coordinator.pendings p)) [
        | inl missing ↦ absurd (ground (arith, fits))
        | inr (r, there) ↦ (r, there, ground (arith, fits), ground (arith, fits))
      ]
