-- ===== src/Captcha/Browser.antt =====
-- One browser for a challenge.
use pwdtt.Prelude.{
  true, false, get_elem?-set, List, [], ◌∷◌, none, some, get_elem?, ◌≡◌, inl, inr, arith,
  Option-cases, All,
}
use pwdtt.Prelude.Text.{Text, ◌≗◌}
use pwdtt.Captcha.{CaptchaCoordinator, active, current_with}
use pwdtt.Captcha.Waiters.{
  CaptchaSystem, CaptchaMove, waiter, launches, launch_fails, cancels, submits, move_waiter,
  step_waiter, step_captcha, run_captcha,
}
use pwdtt.Captcha.Shut.{
  shut, shut_at, Shut, active-Shut, current_with-some, active_shuts, cancel_shuts, submit_shuts,
  launch_failed_shuts, Renews, move_waiter_shuts,
}

-- No failed launch of this challenge, and no other challenge with its number.
abbrev Launches : Text → CaptchaMove → Type 0
Launches id (waiter i m) = Renews id m
Launches id (launch_fails other) = (other ≗ id) ≡ false
Launches id _ = Unit

step_captcha_shuts :
    (id : Text) (m : CaptchaMove) (s : CaptchaSystem)
    → Launches id m
    → Shut id s.coordinator
    → Shut id (step_captcha m s).coordinator
unfolding step_captcha step_waiter
step_captcha_shuts id (waiter i m) s n h = elim (Option-cases (get_elem? s.waiters i)) [
  | inl nobody ↦ rw (nobody, step_waiter) h
  | inr (w, at) ↦ elim (Option-cases (move_waiter m w.phase w s.coordinator)) [
    | inl stuck ↦ rw (at, stuck, step_waiter) h
    | inr (r, can) ↦
        rw (at, can, step_waiter) (move_waiter_shuts id w s.coordinator r m w.phase n h can)
  ]
]
step_captcha_shuts id (launches other) s n h = active_shuts id other s.coordinator h
step_captcha_shuts id (launch_fails other) s n h = launch_failed_shuts id other s.coordinator n h
step_captcha_shuts id (cancels other) s n h = cancel_shuts id other s.coordinator h
step_captcha_shuts id (submits other token) s n h = submit_shuts id other s.coordinator token h

run_captcha_shuts :
    (id : Text) (moves : List CaptchaMove) (s : CaptchaSystem)
    → All (Launches id) moves
    → Shut id s.coordinator
    → Shut id (run_captcha moves s).coordinator
unfolding run_captcha
run_captcha_shuts id [] s ns h = h
run_captcha_shuts id (m ∷ moves) s (n, ns) h =
    run_captcha_shuts id moves (step_captcha m s) ns (step_captcha_shuts id m s n h)

active_closes :
    (id url : Text) (b : CaptchaCoordinator) → (active id b).0 ≡ some url → Shut id (active id b).1
unfolding active shut shut_at
active_closes id url b e = elim (Option-cases (current_with id b)) [
  | inl missing ↦ absurd (ground arith)
  | inr ((p, r), found) ↦
      let (c, at, named) = current_with-some id b p r found in
      ground (arith, found, get_elem?-set b.pendings p p r (record r { launched = true }) at)
]

-- Once the native side has been given a challenge to open a browser for, it is not given it again,
-- however waiters and other calls go on, unless it reports that the launch has failed or another
-- challenge gets the same number.
pub active-run_captcha :
    (id url : Text) (moves : List CaptchaMove) (s : CaptchaSystem)
    → (active id s.coordinator).0 ≡ some url
    → All (Launches id) moves
    → (active id (run_captcha moves (step_captcha (launches id) s)).coordinator).0 ≡ none
unfolding step_captcha
active-run_captcha id url moves s given ns = active-Shut id _ (
    run_captcha_shuts id moves (record s { coordinator = (active id s.coordinator).1 }) ns
      (active_closes id url s.coordinator given))
