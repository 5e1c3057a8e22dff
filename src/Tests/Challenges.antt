-- ===== src/Tests/Challenges.antt =====
-- Runs for core/captcha_flow.go.
use pwdtt.Prelude.{
  Bool, true, false, List, [], ◌∷◌, none, some, ok, ◌≡◌, ◌⊎◌, refl, total, get_elem?, ◌&&◌,
}
use pwdtt.Prelude.Text.{Text, codes, ◌≗◌, trim_space}
use pwdtt.Captcha.{CaptchaPending, new_captcha_coordinator, active}
use pwdtt.Captcha.Waiters.{
  take_step, publish_step, acquire_step, ask_step, Waiter, CaptchaMove, CaptchaSystem, outside,
  finishing, ask, acquire, publish, take_token, waiter, launches, submits, step_captcha,
  run_captcha, start_captcha,
}
use pwdtt.Captcha.Gate.{holds_gate}
use pwdtt.Captcha.Exclusive.{IsExclusive, run_captcha-new_captcha_coordinator}
use pwdtt.Captcha.Browser.{active-run_captcha}
use pwdtt.Captcha.Tokens.{run_captcha_token}

abbrev asker : Waiter
asker = record {
  redirect_uri = codes "https://vk.com/c";
  session_token = codes "t";
  timeout = 60;
  parent_error = none;
  phase = outside;
}

-- Both ask, and the second one gets the gate and a challenge.
abbrev opening : List CaptchaMove
opening =
    waiter 0 ask
    ∷ waiter 1 ask
    ∷ waiter 1 acquire
    ∷ waiter 0 acquire
    ∷ waiter 1 (publish (codes "n1"))
    ∷ []

abbrev solving : List CaptchaMove
solving = submits (codes "n1") (codes "tok") ∷ waiter 1 take_token ∷ []

run_captcha-new_captcha_coordinator_example :
    let s = run_captcha opening (start_captcha (asker ∷ asker ∷ [])) in
    IsExclusive s
    × ((total (λ w. holds_gate w.phase) s.waiters ≡ 1)
        ⊎ (total (λ w. holds_gate w.phase) s.waiters ≡ 0)
          × (s.coordinator.gate ≡ false)
          × (s.coordinator.current ≡ none))
run_captcha-new_captcha_coordinator_example =
    run_captcha-new_captcha_coordinator opening (asker ∷ asker ∷ []) (refl, (refl, tt))

abbrev shown : CaptchaSystem
shown = run_captcha opening (start_captcha (asker ∷ asker ∷ []))

active-run_captcha_example :
    (active
      (codes "n1")
      (run_captcha solving (step_captcha (launches (codes "n1")) shown)).coordinator).0
    ≡ none
unfolding active run_captcha ask_step ◌≗◌ acquire_step new_captcha_coordinator publish_step
active-run_captcha_example =
    active-run_captcha (codes "n1") (codes "https://vk.com/c") solving shown refl (tt, (tt, tt))

-- The one token that is submitted.
abbrev allowed : Text → Text → Bool
allowed id token = id ≗ codes "n1" && token ≗ codes "tok"

abbrev only : List CaptchaMove
only =
    waiter 0 ask
    ∷ waiter 0 acquire
    ∷ waiter 0 (publish (codes "n1"))
    ∷ submits (codes "n1") (codes "tok")
    ∷ waiter 0 take_token
    ∷ []

abbrev solved : CaptchaPending
solved = record {
  id = codes "n1";
  url = codes "https://vk.com/c";
  context_error = none;
  result = none;
  launched = false;
}

run_captcha_token_example :
    (r : CaptchaPending) × (get_elem?
        (run_captcha only (start_captcha (asker ∷ []))).coordinator.pendings
        0
      ≡ some r)
    × (allowed r.id (codes "tok") ≡ true)
    × ((trim_space (codes "tok") ≗ []) ≡ false)
unfolding ◌≗◌ run_captcha ask_step acquire_step new_captcha_coordinator publish_step take_step
    trim_space
run_captcha_token_example =
    run_captcha_token allowed only (asker ∷ []) 0
      (record asker { phase = finishing 0 (ok (codes "tok")) }) 0 (codes "tok")
      (tt, (tt, (tt, (refl, (tt, tt))))) (refl, tt) refl refl
