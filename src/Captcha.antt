-- ===== src/Captcha.antt =====
-- core/captcha_flow.go: the coordinator of browser challenges, and the calls from the native side. A
-- challenge is known by its place in `pendings`, which only grows.
pub mod Waiters
pub mod Gate
pub mod Exclusive
pub mod Shut
pub mod Held
pub mod Tokens
pub mod Browser
use pwdtt.Prelude.{
  ℕ, zero, Bool, true, false, not, ◌&&◌, ◌||◌, List, [], ◌∷◌, ◌++◌, Option, none, some, Result, ok,
  err, length, get_elem?, set, ◌==◌, if◌then◌else◌,
}
use pwdtt.Prelude.Text.{Text, ◌≗◌, trim_space}

-- Why a context has ended.
pub data ContextError : Type 0 where
  canceled deadline_exceeded : ContextError

pub data CaptchaError : Type 0 where
  incomplete no_deadline timed_out empty_result : CaptchaError
  context_ended : ContextError → CaptchaError

abbrev pub CaptchaOutcome : Type 0
CaptchaOutcome = Result CaptchaError Text

-- A challenge: its context's error and the channel of one token.
pub record CaptchaPending : Type 0 where
  pub id : Text
  pub url : Text
  pub context_error : Option ContextError
  pub result : Option Text
  pub launched : Bool

-- `gate` is whether its one place is taken.
pub record CaptchaCoordinator : Type 0 where
  pub gate : Bool
  pub current : Option ℕ
  pub pendings : List CaptchaPending

unfoldable pub new_captcha_coordinator : CaptchaCoordinator
new_captcha_coordinator = record { gate = false; current = none; pendings = [] }

unfoldable pub change :
    ℕ → (CaptchaPending → CaptchaPending) → List CaptchaPending → List CaptchaPending
change p f rs = elim (get_elem? rs p) [ none ↦ rs | some r ↦ set rs p (f r) ]

-- Ending a context again changes nothing.
unfoldable pub end_context : ContextError → CaptchaPending → CaptchaPending
end_context e r = elim r.context_error [ none ↦ record r { context_error = some e } | some old ↦ r ]

abbrev pub is_live : CaptchaPending → Bool
is_live r = elim r.context_error [ none ↦ true | some e ↦ false ]

-- The current challenge, if it has the number that is asked for.
unfoldable pub current_with : Text → CaptchaCoordinator → Option (ℕ × CaptchaPending)
current_with id b = elim b.current [
  | none ↦ none
  | some p ↦ elim (get_elem? b.pendings p) [
    | none ↦ none
    | some r ↦ if r.id ≗ id then some (p, r) else none
  ]
]

unfoldable pub active : Text → CaptchaCoordinator → Option Text × CaptchaCoordinator
unfolding current_with
active id b = elim (current_with id b) [
  | none ↦ (none, b)
  | some (p, r) ↦
      if is_live r && not r.launched
      then (some r.url, record b { pendings = set b.pendings p (record r { launched = true }) })
      else (none, b)
]

unfoldable pub launch_failed : Text → CaptchaCoordinator → CaptchaCoordinator
unfolding current_with
launch_failed id b = elim (current_with id b) [
  | none ↦ b
  | some (p, r) ↦ record b { pendings = set b.pendings p (record r { launched = false }) }
]

-- A channel that holds a token takes no other.
unfoldable pub submit : Text → Text → CaptchaCoordinator → Bool × CaptchaCoordinator
unfolding current_with
submit id token b = elim (current_with id b) [
  | none ↦ (false, b)
  | some (p, r) ↦
      if is_live r && not (trim_space token ≗ [])
      then elim r.result [
        | none ↦ (true, record b { pendings = set b.pendings p (record r { result = some token }) })
        | some held ↦ (false, b)
      ]
      else (false, b)
]

unfoldable pub cancel : Text → CaptchaCoordinator → Bool × CaptchaCoordinator
unfolding current_with end_context
cancel id b = elim (current_with id b) [
  | none ↦ (false, b)
  | some (p, r) ↦ (true, record b { pendings = set b.pendings p (end_context canceled r) })
]
