-- ===== src/WorkerGroup.antt =====
-- core/worker_group.go: the workers of one group, which share the credentials' addresses, the
-- blacklist and the two flags of the configuration request. Workers take steps in any order; a step
-- is one turn's part up to the flags' load, the compare-and-swap, or what follows a session. Waiting
-- (pauses, sleeps) is a worker that takes no step, and the clock is an argument of a step.
pub mod Start
pub mod Requests
pub mod Choice
pub mod Banned
pub mod Hashes
pub mod Written
use pwdtt.Prelude.{
  ℕ, ◌+◌, ◌-◌, ◌%◌, Bool, true, false, not, ◌&&◌, List, [], ◌∷◌, Option, none, some, ltb, leb,
  length, get_elem?, get_or, set, if◌then◌else◌,
}
use pwdtt.Prelude.Text.{Text, codes, ◌≗◌}
use pwdtt.Blacklist.{TurnBlacklist, is_banned, ban}

abbrev pub max_attempts_per_address : ℕ
max_attempts_per_address = 3

-- core/session.go: what a session's error asks of its worker; `other` is any other type.
pub data SessionErrorType : Type 0 where
  address_dead wrap_timeout fatal other : SessionErrorType

pub record SessionError : Type 0 where
  pub kind : SessionErrorType
  pub address : Text

-- Where a worker is in its loop: before a turn, before the compare-and-swap with its address and
-- what it has read of the flag, in a session (with the configuration to fetch or not), or out.
pub data WorkerPhase : Type 0 where
  looping stopped : WorkerPhase
  choosing in_session : Text → Bool → WorkerPhase

pub record Worker : Type 0 where
  pub id : ℕ
  pub address_attempts : ℕ
  pub current_turn_addr : Text
  pub obfs_mode : Text
  pub phase : WorkerPhase

-- `delivered` counts the configurations that sessions have put into `configCh`.
pub record Group : Type 0 where
  pub get_config : Bool
  pub base_obfs_mode : Text
  pub turn_urls : List Text
  pub config_sent : Bool
  pub config_request_in_flight : Bool
  pub blacklist : TurnBlacklist
  pub delivered : ℕ

-- The addresses that are not banned, and the blacklist that asking leaves.
unfoldable pub filter_banned : List Text → ℕ → TurnBlacklist → List Text × TurnBlacklist
filter_banned [] now b = ([], b)
filter_banned (u ∷ us) now b =
    let asked = is_banned u now b in
    let rest = filter_banned us now asked.1 in (if asked.0 then rest.0 else u ∷ rest.0, rest.1)

-- A worker number below 1 counts as 1.
unfoldable pub select_turn_address : List Text → ℕ → Text
select_turn_address [] worker_id = []
select_turn_address (a ∷ rest) worker_id =
    get_or (a ∷ rest) ((worker_id - 1) % length (a ∷ rest)) []

unfoldable next_obfs_mode : Text → Text
next_obfs_mode mode = if mode ≗ codes "audio" then codes "video" else codes "audio"

-- A turn's address: another one than before starts with no attempts and the group's mode.
unfoldable pub take_address : Text → Text → Worker → Worker
take_address base addr w =
    if addr ≗ w.current_turn_addr
    then w
    else record w { address_attempts = 0; current_turn_addr = addr; obfs_mode = base }

-- From the top of the loop to the load of `configSent`.
unfoldable pub begin_turn : ℕ → Worker → Group → Worker × Group
unfolding filter_banned select_turn_address take_address
begin_turn now w g =
    let filtered = filter_banned g.turn_urls now g.blacklist in
    let g' = record g { blacklist = filtered.1 } in
    elim filtered.0 [
      | [] ↦ (w, g')
      | a ∷ rest ↦
          let addr = select_turn_address (a ∷ rest) w.id in
          let w' = take_address g.base_obfs_mode addr w in
          (record w' { phase = choosing addr (g.get_config && not g.config_sent) }, g')
    ]

-- The compare-and-swap, for a worker that has read that the configuration is not sent.
unfoldable pub claim : Text → Bool → Worker → Group → Worker × Group
claim addr wants w g =
    let get_conf = wants && not g.config_request_in_flight in
    (
      record w { phase = in_session addr get_conf },
      if get_conf then record g { config_request_in_flight = true } else g,
    )

-- The flags after a session.
unfoldable pub settle_request : Bool → Bool → Group → Group
settle_request get_conf config_delivered g =
    if get_conf
    then if config_delivered
      then record g { config_sent = true; delivered = g.delivered + 1 }
      else record g { config_request_in_flight = false }
    else g

unfoldable pub ban_address : Text → ℕ → Group → Group
ban_address [] now g = g
ban_address (c ∷ s) now g = record g { blacklist = ban (c ∷ s) now g.blacklist }

-- WRAP_TIMEOUT: another mode, and a ban after too many attempts.
unfoldable pub retry_wrapped : SessionError → ℕ → Worker → Group → Worker × Group
unfolding ban_address next_obfs_mode
retry_wrapped e now w g =
    let attempts = w.address_attempts + 1 in
    let spent = leb max_attempts_per_address attempts in
    (
      record w {
        obfs_mode = next_obfs_mode w.obfs_mode;
        address_attempts = if spent then 0 else attempts;
        phase = looping;
      },
      if spent then ban_address e.address now g else g,
    )

unfoldable pub handle_error : SessionError → ℕ → Worker → Group → Worker × Group
unfolding ban_address retry_wrapped
handle_error e now w g = elim e.kind [
  | address_dead ↦ (record w { phase = looping }, ban_address e.address now g)
  | wrap_timeout ↦ retry_wrapped e now w g
  | fatal ↦ (record w { phase = stopped }, g)
  | other ↦ (record w { phase = looping }, g)
]

-- What RunSession gives; whether the context has ended when it returns, and when that is.
pub record SessionEnd : Type 0 where
  pub config_delivered : Bool
  pub error : Option SessionError
  pub done : Bool
  pub at : ℕ

-- The rest of the turn after the session.
unfoldable pub end_session : Bool → SessionEnd → Worker → Group → Worker × Group
unfolding settle_request handle_error
end_session get_conf r w g =
    let g' = settle_request get_conf r.config_delivered g in
    elim r.error [
      | none ↦ (
        record w {
          address_attempts = 0;
          obfs_mode = g.base_obfs_mode;
          phase = if r.done then stopped else looping;
        },
        g',
      )
      | some e ↦ if r.done then (record w { phase = stopped }, g') else handle_error e r.at w g'
    ]

pub data WorkerMove : Type 0 where
  begin : ℕ → WorkerMove
  swap leave : WorkerMove
  session_ends : SessionEnd → WorkerMove

-- A worker leaves at the top of its loop when the context has ended.
unfoldable pub move_worker : WorkerMove → WorkerPhase → Worker → Group → Option (Worker × Group)
unfolding begin_turn claim end_session
move_worker (begin now) looping w g = some (begin_turn now w g)
move_worker leave looping w g = some (record w { phase = stopped }, g)
move_worker swap (choosing addr wants) w g = some (claim addr wants w g)
move_worker (session_ends r) (in_session addr get_conf) w g = some (end_session get_conf r w g)
move_worker _ _ w g = none

pub record GroupState : Type 0 where
  pub workers : List Worker
  pub group : Group

-- A move that worker `i` cannot make changes nothing.
unfoldable pub step_worker : ℕ → WorkerMove → GroupState → GroupState
unfolding move_worker
step_worker i m s = elim (get_elem? s.workers i) [
  | none ↦ s
  | some w ↦ elim (move_worker m w.phase w s.group) [
    | none ↦ s
    | some (w', g') ↦ record { workers = set s.workers i w'; group = g' }
  ]
]

unfoldable pub run_workers : List (ℕ × WorkerMove) → GroupState → GroupState
unfolding step_worker
run_workers [] s = s
run_workers ((i, m) ∷ moves) s = run_workers moves (step_worker i m s)
