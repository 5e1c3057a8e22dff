-- ===== src/WorkerGroup/Banned.antt =====
-- For how long no worker uses an address after it has failed.
use pwdtt.Prelude.{
  ℕ, ◌+◌, ◌≤◌, ◌<◌, Bool, true, false, List, [], ◌∷◌, some, Bool-cases, Option-cases, ◌≡◌, ◌≢◌, inl,
  inr, refl, ◌∙◌, leb, get_elem?, set, All, total, total-set, if◌then◌else◌, arith,
}
use pwdtt.Prelude.Text.{Text, ◌≗◌, ≗_iff, ≗_refl}
use pwdtt.Blacklist.{TurnBlacklist, is_banned, ban}
use pwdtt.Blacklist.Bans.{is_banned-is_banned, is_banned-ban, is_banned_ttl, is_banned_earlier}
use pwdtt.WorkerGroup.{
  Worker, Group, WorkerPhase, WorkerMove, SessionEnd, SessionError, SessionErrorType, GroupState,
  looping, stopped, choosing, in_session, begin, swap, leave, session_ends, filter_banned,
  begin_turn, max_attempts_per_address, claim, settle_request, ban_address, retry_wrapped,
  handle_error, end_session, move_worker, step_worker, run_workers, address_dead, wrap_timeout,
  fatal, other,
}
use pwdtt.WorkerGroup.Choice.{begin_turn_lem}

-- The workers that have taken an address and not given it back.
abbrev pub on : Text → WorkerPhase → ℕ
on addr looping = 0
on addr stopped = 0
on addr (choosing a wants) = if a ≗ addr then 1 else 0
on addr (in_session a get_conf) = if a ≗ addr then 1 else 0

abbrev pub users : Text → List Worker → ℕ
users addr ws = total (λ w. on addr w.phase) ws

-- The time of a step is from `start` to `end`.
abbrev pub Timed : ℕ → ℕ → WorkerMove → Type 0
Timed start end (begin now) = (start ≤ now) × (now ≤ end)
Timed start end swap = Unit
Timed start end leave = Unit
Timed start end (session_ends r) = (start ≤ r.at) × (r.at ≤ end)

-- The address is banned up to `end`, and no later ban is shorter.
abbrev Bars : Text → ℕ → ℕ → TurnBlacklist → Type 0
Bars addr start end b = ((is_banned addr end b).0 ≡ true) × (end ≤ start + b.ttl)

begin_turn_blacklist :
    (now : ℕ) (w : Worker) (g : Group)
    → (begin_turn now w g).1.blacklist ≡ (filter_banned g.turn_urls now g.blacklist).1
unfolding begin_turn
begin_turn_blacklist now w g = ground arith

module _ (addr : Text) (start end : ℕ) where
  filter_banned-Bars :
      (urls : List Text) (now : ℕ) (b : TurnBlacklist)
      → now ≤ end
      → Bars addr start end b
      → Bars addr start end (filter_banned urls now b).1
  unfolding filter_banned
  filter_banned-Bars [] now b h bars = bars
  filter_banned-Bars (u ∷ urls) now b h (held, long) =
      filter_banned-Bars urls now (is_banned u now b).1 h
        (is_banned-is_banned u addr now end b h ∙ held, rw (is_banned_ttl u now b) long)

  ban_address-Bars :
      (a : Text) (now : ℕ) (g : Group)
      → start ≤ now
      → Bars addr start end g.blacklist
      → Bars addr start end (ban_address a now g).blacklist
  unfolding ban_address ban
  ban_address-Bars [] now g h bars = bars
  ban_address-Bars (c ∷ s) now g h (held, long) =
      (ground (arith, (is_banned-ban (c ∷ s) addr now end g.blacklist).0), long)

  -- A step neither lifts the ban nor takes the address.
  abbrev Avoids : WorkerPhase → Worker × Group → Type 0
  Avoids p r = Bars addr start end r.1.blacklist × (on addr r.0.phase ≤ on addr p)

  begin_turn-Avoids :
      (now : ℕ) (w : Worker) (g : Group)
      → w.phase ≡ looping
      → now ≤ end
      → Bars addr start end g.blacklist
      → Avoids looping (begin_turn now w g)
  begin_turn-Avoids now w g l h bars =
      let kept : Bars addr start end (begin_turn now w g).1.blacklist =
        rw (begin_turn_blacklist now w g) (filter_banned-Bars g.turn_urls now g.blacklist h bars) in
      let barred = is_banned_earlier addr now end g.blacklist h bars.0 in
      elim (begin_turn_lem now w g) [
        | inl (same, none_left) ↦ (kept, ground arith)
        | inr (a, choice) ↦ elim (Bool-cases (a ≗ addr)) [
          | inl taken ↦
              let e : a ≡ addr = (≗_iff a addr).0 taken in
              absurd (ground (arith, rw e at choice.allowed, barred))
          | inr different ↦ (kept, ground (arith, choice.phase))
        ]
      ]

  handle_error-Avoids :
      (e : SessionError) (now : ℕ) (w : Worker) (g : Group)
      → start ≤ now
      → Bars addr start end g.blacklist
      → Avoids looping (handle_error e now w g)
  unfolding handle_error retry_wrapped
  handle_error-Avoids e now w g h bars = ground (arith, ban_address-Bars e.address now g h bars)

  claim-Avoids :
      (a : Text) (wants : Bool) (w : Worker) (g : Group)
      → Bars addr start end g.blacklist
      → Avoids (choosing a wants) (claim a wants w g)
  unfolding claim
  claim-Avoids a wants w g bars = ground arith

  end_session-Avoids :
      (get_conf : Bool) (r : SessionEnd) (w : Worker) (g : Group)
      → start ≤ r.at
      → Bars addr start end g.blacklist
      → Avoids looping (end_session get_conf r w g)
  unfolding end_session settle_request
  end_session-Avoids get_conf r w g h bars = elim (Option-cases r.error) [
    | inl fine ↦ ground arith
    | inr (e, failed) ↦
        ground
          (arith, handle_error-Avoids e r.at w (settle_request get_conf r.config_delivered g) h)
  ]

  move_worker-Avoids :
      (m : WorkerMove) (p : WorkerPhase) (w : Worker) (g : Group)
      → w.phase ≡ p
      → (r : Worker × Group) → move_worker m p w g ≡ some r
      → Timed start end m
      → Bars addr start end g.blacklist
      → Avoids p r
  unfolding move_worker
  move_worker-Avoids (begin now) looping w g l r e t bars =
      let known : r ≡ begin_turn now w g = ground arith in
      rw known (begin_turn-Avoids now w g l t.1 bars)
  move_worker-Avoids leave looping w g l r e t bars =
      let known : r ≡ (record w { phase = stopped }, g) = ground arith in
      rw known (bars, omega arith)
  move_worker-Avoids swap (choosing a wants) w g l r e t bars =
      let known : r ≡ claim a wants w g = ground arith in rw known (claim-Avoids a wants w g bars)
  move_worker-Avoids (session_ends x) (in_session a get_conf) w g l r e t bars =
      let known : r ≡ end_session get_conf x w g = ground arith in
      rw known (ground (arith, end_session-Avoids get_conf x w g t.0 bars))
  move_worker-Avoids _ _ w g l r e t bars = absurd (ground arith)

  -- The ban stands, and no more workers use the address than before.
  abbrev Spared : GroupState → GroupState → Type 0
  Spared s s' =
      Bars addr start end s'.group.blacklist × (users addr s'.workers ≤ users addr s.workers)

  step_worker_spares :
      (i : ℕ) (m : WorkerMove) (s : GroupState)
      → Timed start end m
      → Bars addr start end s.group.blacklist
      → Spared s (step_worker i m s)
  unfolding step_worker
  step_worker_spares i m s t bars = elim (Option-cases (get_elem? s.workers i)) [
    | inl nobody ↦ rw (nobody, step_worker) (bars, omega arith)
    | inr (w, at) ↦ elim (Option-cases (move_worker m w.phase w s.group)) [
      | inl stuck ↦ rw (at, stuck, step_worker) (bars, omega arith)
      | inr (r, can) ↦
          let written = total-set (λ v. on addr v.phase) s.workers i w r.0 at in
          let (kept, fewer) = move_worker-Avoids m w.phase w s.group refl r can t bars in
          rw (at, can, step_worker) (kept, omega (arith, written, fewer))
    ]
  ]

  run_workers_spares :
      (moves : List (ℕ × WorkerMove)) (s : GroupState)
      → All (λ x. Timed start end x.1) moves
      → Bars addr start end s.group.blacklist
      → Spared s (run_workers moves s)
  unfolding run_workers
  run_workers_spares [] s t bars = (bars, omega arith)
  run_workers_spares ((i, m) ∷ moves) s (t, ts) bars =
      let (kept, fewer) = step_worker_spares i m s t bars in
      let (kept', fewer') = run_workers_spares moves (step_worker i m s) ts kept in
      (kept', omega (arith, fewer, fewer'))

-- A session's error after which its address is banned.
abbrev pub fails : Worker → SessionErrorType → Bool
fails w address_dead = true
fails w wrap_timeout = leb max_attempts_per_address (w.address_attempts + 1)
fails w fatal = false
fails w other = false

handle_error_fails :
    (e : SessionError) (now : ℕ) (w : Worker) (g : Group)
    → fails w e.kind ≡ true
    → ((handle_error e now w g).1 ≡ ban_address e.address now g)
      × ((handle_error e now w g).0.phase ≡ looping)
unfolding handle_error retry_wrapped
handle_error_fails e now w g f = ground arith

ban_address_kept :
    (addr : Text) (now : ℕ) (g : Group)
    → addr ≢ []
    → Bars addr now (now + g.blacklist.ttl) (ban_address addr now g).blacklist
unfolding ban_address ban
ban_address_kept [] now g named = absurd (named refl)
ban_address_kept (c ∷ s) now g named =
    let lasts = (is_banned-ban (c ∷ s) (c ∷ s) now (now + g.blacklist.ttl) g.blacklist).0 in
    (ground (arith, lasts, ≗_refl (c ∷ s)), omega arith)

-- A session that fails on its address leaves a ban.
end_session_bans :
    (get_conf : Bool) (r : SessionEnd) (e : SessionError) (w : Worker) (g : Group)
    → r.error ≡ some e
    → r.done ≡ false
    → e.address ≢ []
    → fails w e.kind ≡ true
    → Bars e.address r.at (r.at + g.blacklist.ttl) (end_session get_conf r w g).1.blacklist
      × ((end_session get_conf r w g).0.phase ≡ looping)
unfolding end_session settle_request
end_session_bans get_conf r e w g failed alive named f =
    let g' = settle_request get_conf r.config_delivered g in
    let (banned, free) = handle_error_fails e r.at w g' f in
    let same : g'.blacklist ≡ g.blacklist = ground arith in
    let ended : end_session get_conf r w g ≡ handle_error e r.at w g' = ground arith in
    rw ended (rw banned (rw same at (ban_address_kept e.address r.at g' named)), free)

-- When a session on an address ends with ADDRESS_DEAD, or with WRAP_TIMEOUT as the third attempt of
-- its worker there, then for the whole time that a ban lasts, whatever steps the workers of the group
-- take in it, fewer workers use the address than before: the worker itself is off it, and none takes
-- it anew.
pub run_workers-step_worker :
    (i : ℕ) (w : Worker) (addr : Text) (get_conf : Bool) (r : SessionEnd) (e : SessionError)
    (s : GroupState) (moves : List (ℕ × WorkerMove))
    → get_elem? s.workers i ≡ some w
    → w.phase ≡ in_session addr get_conf
    → r.error ≡ some e
    → r.done ≡ false
    → e.address ≡ addr
    → addr ≢ []
    → fails w e.kind ≡ true
    → All (λ x. Timed r.at (r.at + s.group.blacklist.ttl) x.1) moves
    → users addr (run_workers moves (step_worker i (session_ends r) s)).workers
      < users addr s.workers
unfolding step_worker move_worker
run_workers-step_worker i w addr get_conf r e s moves at p failed alive same named f timed =
    let (bars, free) = end_session_bans get_conf r e w s.group failed alive (rw same named) f in
    let v = end_session get_conf r w s.group in
    let written = total-set (λ u. on addr u.phase) s.workers i w v.0 at in
    let stepped : step_worker i (session_ends r) s
        ≡ record { workers = set s.workers i v.0; group = v.1 } =
      rw (at, step_worker, p, move_worker) refl in
    let (kept, fewer) =
      run_workers_spares addr r.at (r.at + s.group.blacklist.ttl) moves
        (record { workers = set s.workers i v.0; group = v.1 }) timed (rw same at bars) in
    let before : on addr w.phase ≡ 1 = rw (p, ≗_refl addr) refl in
    let after : on addr v.0.phase ≡ 0 = rw free refl in
    rw stepped (omega (arith, written, fewer, before, after))
