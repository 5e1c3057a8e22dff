-- ===== src/WorkerGroup/Requests.antt =====
-- The configuration is asked for by one worker at a time, and delivered once.
use pwdtt.Prelude.{
  ℕ, ◌+◌, ◌-◌, Bool, false, not, ◌&&◌, ◌||◌, List, [], ◌∷◌, some, Option-cases, ◌≡◌, inl, inr, refl,
  ◌==◌, if◌then◌else◌, get_elem?, All, arith, total, total-set, total_part, All-set, All-get,
}
use pwdtt.Prelude.Text.{Text}
use pwdtt.Blacklist.{TurnBlacklist}
use pwdtt.WorkerGroup.{
  Worker, Group, WorkerPhase, WorkerMove, SessionEnd, SessionError, GroupState, looping, stopped,
  choosing, in_session, begin, swap, leave, session_ends, begin_turn, claim, settle_request,
  ban_address, retry_wrapped, handle_error, end_session, move_worker, step_worker, run_workers,
}
use pwdtt.WorkerGroup.Start.{new_worker, new_workers, start_group}

-- A worker whose session is to fetch the configuration.
abbrev pub holds : WorkerPhase → ℕ
holds looping = 0
holds stopped = 0
holds (choosing addr wants) = 0
holds (in_session addr get_conf) = if get_conf then 1 else 0

abbrev holders : List Worker → ℕ
holders ws = total (λ w. holds w.phase) ws

abbrev pub asks : WorkerPhase → Bool
asks looping = false
asks stopped = false
asks (choosing addr wants) = wants
asks (in_session addr get_conf) = get_conf

-- The flag of the request in flight counts its holder and the delivery; `configSent` says that there
-- is nothing to ask for, or that it has been delivered; a group that asks for nothing has no holder.
pub record IsGranted (s : GroupState) : Type 0 where
  pub count :
      s.group.delivered + holders s.workers ≡ (if s.group.config_request_in_flight then 1 else 0)
  pub sent : s.group.config_sent ≡ (not s.group.get_config || s.group.delivered == 1)
  wanted : All (λ w. (asks w.phase && not s.group.get_config) ≡ false) s.workers

-- The three parts of a group that the invariant reads, before and after.
abbrev Counted : Group → ℕ → Type 0
Counted g n = g.delivered + n ≡ (if g.config_request_in_flight then 1 else 0)

abbrev Sent : Group → Type 0
Sent g = g.config_sent ≡ (not g.get_config || g.delivered == 1)

-- A worker's step from phase `p`: with `rest` held by the others, the parts are kept.
abbrev Keeps : WorkerPhase → Group → Worker × Group → ℕ → Type 0
Keeps p g r rest =
    (r.1.get_config ≡ g.get_config)
    × Counted r.1 (holds r.0.phase + rest)
    × Sent r.1
    × ((asks r.0.phase && not g.get_config) ≡ false)

-- The parts that only a session's end and the compare-and-swap change.
abbrev SameFlags : Group → Group → Type 0
SameFlags g h =
    (h.get_config ≡ g.get_config)
    × (h.config_sent ≡ g.config_sent)
    × (h.delivered ≡ g.delivered)
    × (h.config_request_in_flight ≡ g.config_request_in_flight)

begin_turn_flags :
    (now : ℕ) (w : Worker) (g : Group)
    → w.phase ≡ looping
    → SameFlags g (begin_turn now w g).1
      × (holds (begin_turn now w g).0.phase ≡ 0)
      × ((asks (begin_turn now w g).0.phase && not g.get_config) ≡ false)
unfolding begin_turn
begin_turn_flags now w g l = ground arith

ban_address_flags : (addr : Text) (now : ℕ) (g : Group) → SameFlags g (ban_address addr now g)
unfolding ban_address
ban_address_flags [] now g = (refl, refl, refl, refl)
ban_address_flags (c ∷ s) now g = (refl, refl, refl, refl)

-- A worker that has dealt with its session holds and asks for nothing.
handle_error_flags :
    (e : SessionError) (now : ℕ) (w : Worker) (g : Group)
    → SameFlags g (handle_error e now w g).1
      × (holds (handle_error e now w g).0.phase ≡ 0)
      × (asks (handle_error e now w g).0.phase ≡ false)
unfolding handle_error retry_wrapped
handle_error_flags e now w g = ground (arith, ban_address_flags e.address now g)

end_session_flags :
    (get_conf : Bool) (r : SessionEnd) (w : Worker) (g : Group)
    → SameFlags (settle_request get_conf r.config_delivered g) (end_session get_conf r w g).1
      × (holds (end_session get_conf r w g).0.phase ≡ 0)
      × (asks (end_session get_conf r w g).0.phase ≡ false)
unfolding end_session
end_session_flags get_conf r w g = elim (Option-cases r.error) [
  | inl fine ↦ ground arith
  | inr (e, failed) ↦
      ground (arith, handle_error_flags e r.at w (settle_request get_conf r.config_delivered g))
]

module _ (g : Group) (rest : ℕ) where
  SameFlags-keep :
      (p : WorkerPhase) (r : Worker × Group)
      → SameFlags g r.1
      → holds r.0.phase ≡ 0
      → (asks r.0.phase && not g.get_config) ≡ false
      → Counted g rest
      → Sent g
      → Keeps p g r rest
  SameFlags-keep p r f h a c s = ground arith

  claim-Keeps :
      (addr : Text) (wants : Bool) (w : Worker)
      → Counted g rest
      → Sent g
      → (wants && not g.get_config) ≡ false
      → Keeps (choosing addr wants) g (claim addr wants w g) rest
  unfolding claim
  claim-Keeps addr wants w c s a = ground arith

  end_session-Keeps :
      (addr : Text) (get_conf : Bool) (r : SessionEnd) (w : Worker)
      → Counted g ((if get_conf then 1 else 0) + rest)
      → Sent g
      → (get_conf && not g.get_config) ≡ false
      → Keeps (in_session addr get_conf) g (end_session get_conf r w g) rest
  unfolding settle_request
  end_session-Keeps addr get_conf r w c s a = ground (arith, end_session_flags get_conf r w g)

  move_worker-Keeps :
      (m : WorkerMove) (p : WorkerPhase) (w : Worker)
      → w.phase ≡ p
      → (r : Worker × Group) → move_worker m p w g ≡ some r
      → Counted g (holds p + rest)
      → Sent g
      → (asks p && not g.get_config) ≡ false
      → Keeps p g r rest
  unfolding move_worker
  move_worker-Keeps (begin now) looping w l r e c s a =
      let known : r ≡ begin_turn now w g = ground arith in
      let (flags, held, asked) = begin_turn_flags now w g l in
      rw known (SameFlags-keep looping (begin_turn now w g) flags held asked (omega (arith, c)) s)
  move_worker-Keeps leave looping w l r e c s a =
      let known : r ≡ (record w { phase = stopped }, g) = ground arith in
      rw known (refl, c, s, refl)
  move_worker-Keeps swap (choosing addr wants) w l r e c s a =
      let known : r ≡ claim addr wants w g = ground arith in
      rw known (claim-Keeps addr wants w (omega (arith, c)) s a)
  move_worker-Keeps (session_ends x) (in_session addr get_conf) w l r e c s a =
      let known : r ≡ end_session get_conf x w g = ground arith in
      rw known (end_session-Keeps addr get_conf x w c s a)
  move_worker-Keeps _ _ w l r e c s a = absurd (ground arith)

step_worker-IsGranted :
    (i : ℕ) (m : WorkerMove) (s : GroupState) → IsGranted s → IsGranted (step_worker i m s)
unfolding step_worker
step_worker-IsGranted i m s h = elim (Option-cases (get_elem? s.workers i)) [
  | inl nobody ↦ rw (nobody, step_worker) h
  | inr (w, at) ↦ elim (Option-cases (move_worker m w.phase w s.group)) [
    | inl stuck ↦ rw (at, stuck, step_worker) h
    | inr (r, can) ↦
        let part = total_part (λ v. holds v.phase) s.workers i w at in
        let written = total-set (λ v. holds v.phase) s.workers i w r.0 at in
        let rest = holders s.workers - holds w.phase in
        let (config, count, sent, asked) =
          move_worker-Keeps s.group rest m w.phase w refl r can (omega (arith, h.count)) h.sent (
            All-get (λ v. (asks v.phase && not s.group.get_config) ≡ false) s.workers i w h.wanted
              at) in
        rw (at, can, step_worker)
          record {
            count = omega (arith, count);
            sent = sent;
            wanted = rw config (
                All-set (λ v. (asks v.phase && not s.group.get_config) ≡ false) s.workers i r.0
                  h.wanted asked);
          }
  ]
]

run_workers-IsGranted :
    (moves : List (ℕ × WorkerMove)) (s : GroupState) → IsGranted s → IsGranted (run_workers moves s)
unfolding run_workers
run_workers-IsGranted [] s h = h
run_workers-IsGranted ((i, m) ∷ moves) s h =
    run_workers-IsGranted moves (step_worker i m s) (step_worker-IsGranted i m s h)

new_workers-holders : (base : Text) (wids : List ℕ) → holders (new_workers base wids) ≡ 0
unfolding new_workers new_worker
new_workers-holders base [] = refl
new_workers-holders base (wid ∷ wids) = omega (arith, new_workers-holders base wids)

new_workers-asks :
    (base : Text) (config : Bool) (wids : List ℕ)
    → All (λ w. (asks w.phase && config) ≡ false) (new_workers base wids)
unfolding new_workers new_worker
new_workers-asks base config [] = tt
new_workers-asks base config (wid ∷ wids) = (refl, new_workers-asks base config wids)

-- In every state that the workers of a new group can reach, however their steps interleave, the
-- deliveries of the configuration and the sessions that are to fetch it are together at most one,
-- and one exactly while the request's flag is set; `configSent` is set exactly if there has been a
-- delivery or the group is not to fetch it, and then no worker of such a group fetches it.
pub start_group-IsGranted :
    (moves : List (ℕ × WorkerMove)) (get_config : Bool) (base : Text) (urls : List Text)
    (bans : TurnBlacklist) (worker_ids : List ℕ)
    → IsGranted (run_workers moves (start_group get_config base urls bans worker_ids))
unfolding start_group
start_group-IsGranted moves get_config base urls bans worker_ids =
    run_workers-IsGranted moves (start_group get_config base urls bans worker_ids) record {
      count = omega (arith, new_workers-holders base worker_ids);
      sent = ground arith;
      wanted = new_workers-asks base (not get_config) worker_ids;
    }
