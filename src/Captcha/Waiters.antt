-- ===== src/Captcha/Waiters.antt =====
-- core/captcha_flow.go: `waitForCaptcha`. Waiters and calls from the native side take steps in any
-- order; a step is what holds the mutex, or one operation on a channel.
use pwdtt.Prelude.{
  ℕ, Bool, true, false, ◌||◌, List, [], ◌∷◌, ◌++◌, Option, none, some, ok, err, length, get_elem?,
  set, ◌==◌, if◌then◌else◌,
}
use pwdtt.Prelude.Text.{Text, ◌≗◌, trim_space}
use pwdtt.Captcha.{
  ContextError, canceled, deadline_exceeded, incomplete, no_deadline, timed_out, empty_result,
  context_ended, CaptchaOutcome, CaptchaPending, CaptchaCoordinator, change, end_context, active,
  launch_failed, submit, cancel, new_captcha_coordinator,
}

-- Where a waiter is: before the call, before the gate, with the gate, with its challenge, in the
-- deferred `finish` before and after its critical section, or back.
pub data WaiterPhase : Type 0 where
  outside queued admitted : WaiterPhase
  waiting : ℕ → WaiterPhase
  finishing : ℕ → CaptchaOutcome → WaiterPhase
  leaving returned : CaptchaOutcome → WaiterPhase

-- A call of `waitForCaptcha`: the challenge's data, its time, and its context's error.
pub record Waiter : Type 0 where
  pub redirect_uri : Text
  pub session_token : Text
  pub timeout : ℕ
  pub parent_error : Option ContextError
  pub phase : WaiterPhase

pub data WaiterMove : Type 0 where
  ask acquire give_up take_token notice_end clear release : WaiterMove
  publish : Text → WaiterMove
  parent_ends : ContextError → WaiterMove
  deadline_passes : WaiterMove

abbrev CaptchaEffect : Type 0
CaptchaEffect = Option (Waiter × CaptchaCoordinator)

-- The tests before the gate.
unfoldable pub ask_step : Waiter → CaptchaCoordinator → CaptchaEffect
ask_step w b =
    let phase : WaiterPhase =
      if w.redirect_uri ≗ [] || w.session_token ≗ []
      then returned (err incomplete)
      else if w.timeout == 0
      then returned (err no_deadline)
      else elim w.parent_error [ none ↦ queued | some e ↦ returned (err (context_ended e)) ] in
    some (record w { phase = phase }, b)

unfoldable pub acquire_step : Waiter → CaptchaCoordinator → CaptchaEffect
acquire_step w b =
    if b.gate then none else some (record w { phase = admitted }, record b { gate = true })

unfoldable pub quit_step : Waiter → CaptchaCoordinator → CaptchaEffect
quit_step w b = elim w.parent_error [
  | none ↦ none
  | some e ↦ some (record w { phase = returned (err (context_ended e)) }, b)
]

abbrev pub new_pending : Text → Text → CaptchaPending
new_pending id url = record {
  id = id;
  url = url;
  context_error = none;
  result = none;
  launched = false;
}

-- With the gate: back if the context has ended meanwhile, or a new challenge.
unfoldable pub publish_step : Text → Waiter → CaptchaCoordinator → CaptchaEffect
publish_step id w b = elim w.parent_error [
  | some e ↦ some (record w { phase = returned (err (context_ended e)) }, record b { gate = false })
  | none ↦ some (
    record w { phase = waiting (length b.pendings) },
    record b {
      current = some (length b.pendings);
      pendings = b.pendings ++ new_pending id w.redirect_uri ∷ [];
    },
  )
]

abbrev pub ended_outcome : ContextError → CaptchaOutcome
ended_outcome deadline_exceeded = err timed_out
ended_outcome canceled = err (context_ended canceled)

-- A token is taken from the channel, and counts only if the context is live.
unfoldable pub token_outcome : Text → CaptchaPending → CaptchaOutcome
token_outcome token r = elim r.context_error [
  | some e ↦ err (context_ended e)
  | none ↦ if trim_space token ≗ [] then err empty_result else ok token
]

unfoldable pub take_step : ℕ → Waiter → CaptchaCoordinator → CaptchaEffect
unfolding token_outcome
take_step p w b = elim (get_elem? b.pendings p) [
  | none ↦ none
  | some r ↦ elim r.result [
    | none ↦ none
    | some token ↦ some (
      record w { phase = finishing p (token_outcome token r) },
      record b { pendings = set b.pendings p (record r { result = none }) },
    )
  ]
]

unfoldable pub notice_step : ℕ → Waiter → CaptchaCoordinator → CaptchaEffect
notice_step p w b = elim (get_elem? b.pendings p) [
  | none ↦ none
  | some r ↦ elim r.context_error [
    | none ↦ none
    | some e ↦ some (record w { phase = finishing p (ended_outcome e) }, b)
  ]
]

abbrev is_current : ℕ → Option ℕ → Bool
is_current p none = false
is_current p (some q) = p == q

-- The critical section of `finish`, and its cancellation.
unfoldable pub clear_step : ℕ → CaptchaOutcome → Waiter → CaptchaCoordinator → CaptchaEffect
unfolding change end_context
clear_step p out w b = some (
  record w { phase = leaving out },
  record b {
    current = if is_current p b.current then none else b.current;
    pendings = change p (end_context canceled) b.pendings;
  },
)

-- A challenge's context ends with that of its call.
unfoldable pub end_pending : ContextError → WaiterPhase → List CaptchaPending → List CaptchaPending
unfolding change end_context
end_pending e (waiting p) rs = change p (end_context e) rs
end_pending e (finishing p out) rs = change p (end_context e) rs
end_pending e _ rs = rs

unfoldable pub parent_step :
    ContextError → WaiterPhase → Waiter → CaptchaCoordinator → CaptchaEffect
unfolding end_pending
parent_step e p w b = elim w.parent_error [
  | some old ↦ none
  | none ↦
      some (record w { parent_error = some e }, record b { pendings = end_pending e p b.pendings })
]

unfoldable pub move_waiter : WaiterMove → WaiterPhase → Waiter → CaptchaCoordinator → CaptchaEffect
unfolding change end_context
move_waiter (parent_ends e) p w b = parent_step e p w b
move_waiter ask outside w b = ask_step w b
move_waiter acquire queued w b = acquire_step w b
move_waiter give_up queued w b = quit_step w b
move_waiter (publish id) admitted w b = publish_step id w b
move_waiter take_token (waiting p) w b = take_step p w b
move_waiter notice_end (waiting p) w b = notice_step p w b
move_waiter deadline_passes (waiting p) w b =
    some (w, record b { pendings = change p (end_context deadline_exceeded) b.pendings })
move_waiter clear (finishing p out) w b = clear_step p out w b
move_waiter release (leaving out) w b =
    some (record w { phase = returned out }, record b { gate = false })
move_waiter _ _ w b = none

pub record CaptchaSystem : Type 0 where
  pub waiters : List Waiter
  pub coordinator : CaptchaCoordinator

-- A waiter's step, or a call from the native side.
pub data CaptchaMove : Type 0 where
  waiter : ℕ → WaiterMove → CaptchaMove
  launches launch_fails cancels : Text → CaptchaMove
  submits : Text → Text → CaptchaMove

unfoldable pub step_waiter : ℕ → WaiterMove → CaptchaSystem → CaptchaSystem
unfolding move_waiter
step_waiter i m s = elim (get_elem? s.waiters i) [
  | none ↦ s
  | some w ↦ elim (move_waiter m w.phase w s.coordinator) [
    | none ↦ s
    | some (w', b') ↦ record { waiters = set s.waiters i w'; coordinator = b' }
  ]
]

unfoldable pub step_captcha : CaptchaMove → CaptchaSystem → CaptchaSystem
unfolding step_waiter active launch_failed cancel submit
step_captcha (waiter i m) s = step_waiter i m s
step_captcha (launches id) s = record s { coordinator = (active id s.coordinator).1 }
step_captcha (launch_fails id) s = record s { coordinator = launch_failed id s.coordinator }
step_captcha (cancels id) s = record s { coordinator = (cancel id s.coordinator).1 }
step_captcha (submits id token) s = record s { coordinator = (submit id token s.coordinator).1 }

unfoldable pub run_captcha : List CaptchaMove → CaptchaSystem → CaptchaSystem
unfolding step_captcha
run_captcha [] s = s
run_captcha (m ∷ moves) s = run_captcha moves (step_captcha m s)

abbrev pub start_captcha : List Waiter → CaptchaSystem
start_captcha ws = record { waiters = ws; coordinator = new_captcha_coordinator }
