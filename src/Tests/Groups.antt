-- ===== src/Tests/Groups.antt =====
-- Runs for core/worker_group.go.
use pwdtt.Prelude.{ℕ, Bool, true, false, List, [], ◌∷◌, some, ◌≡◌, ◌<◌, ◌⊎◌, refl, not, ◌&&◌, arith}
use pwdtt.Prelude.Text.{Text, codes, ◌≗◌, all_chars}
use pwdtt.VkHash.{is_hash_char}
use pwdtt.Prelude.TextSet.{mem_text}
use pwdtt.Blacklist.{new_turn_blacklist, is_banned, global_blacklist}
use pwdtt.WorkerGroup.{
  Worker, Group, GroupState, WorkerMove, begin_turn, SessionEnd, begin, swap, session_ends,
  in_session, wrap_timeout, address_dead, run_workers, step_worker,
}
use pwdtt.WorkerGroup.Start.{start_group}
use pwdtt.WorkerGroup.Requests.{IsGranted, start_group-IsGranted}
use pwdtt.WorkerGroup.Choice.{Chooses, begin_turn_lem}
use pwdtt.WorkerGroup.Banned.{users, run_workers-step_worker}
use pwdtt.WorkerGroup.Hashes.{parse_hashes}
use pwdtt.WorkerGroup.Written.{lines, parse_hashes-lines}

abbrev two_addresses : List Text
two_addresses = codes "1.1.1.1:3478" ∷ codes "2.2.2.2:3478" ∷ []

abbrev two_workers_group : GroupState
two_workers_group = start_group true (codes "audio") two_addresses global_blacklist (1 ∷ 2 ∷ [])

-- Both workers are in a session.
abbrev in_sessions : List (ℕ × WorkerMove)
in_sessions = (0, begin 5) ∷ (1, begin 6) ∷ (1, swap) ∷ (0, swap) ∷ []

start_group-IsGranted_example : IsGranted (run_workers in_sessions two_workers_group)
start_group-IsGranted_example =
    start_group-IsGranted in_sessions true (codes "audio") two_addresses global_blacklist
      (1 ∷ 2 ∷ [])

abbrev dead : SessionEnd
dead = record {
  config_delivered = false;
  error = some record { kind = address_dead; address = codes "1.1.1.1:3478" };
  done = false;
  at = 100;
}

abbrev a_group : Group
a_group = record {
  get_config = true;
  base_obfs_mode = codes "audio";
  turn_urls = two_addresses;
  config_sent = false;
  config_request_in_flight = true;
  blacklist = global_blacklist;
  delivered = 0;
}

abbrev busy : ℕ → Text → Bool → Worker
busy n addr get_conf = record {
  id = n;
  address_attempts = 2;
  current_turn_addr = addr;
  obfs_mode = codes "video";
  phase = in_session addr get_conf;
}

abbrev both_busy : GroupState
both_busy = record {
  workers = busy 1 (codes "1.1.1.1:3478") true ∷ busy 2 (codes "1.1.1.1:3478") false ∷ [];
  group = a_group;
}

-- The third WRAP_TIMEOUT.
abbrev timed_out : SessionEnd
timed_out = record {
  config_delivered = false;
  error = some record { kind = wrap_timeout; address = codes "1.1.1.1:3478" };
  done = false;
  at = 100;
}

run_workers-step_worker_example :
    users
      (codes "1.1.1.1:3478")
      (run_workers
        ((0, begin 200) ∷ (0, swap) ∷ (1, session_ends dead) ∷ [])
        (step_worker 0 (session_ends timed_out) both_busy)).workers
    < 2
unfolding new_turn_blacklist ◌≗◌
run_workers-step_worker_example =
    run_workers-step_worker 0 (busy 1 (codes "1.1.1.1:3478") true) (codes "1.1.1.1:3478") true
      timed_out record { kind = wrap_timeout; address = codes "1.1.1.1:3478" } both_busy
      ((0, begin 200) ∷ (0, swap) ∷ (1, session_ends dead) ∷ []) refl refl refl refl refl
      (λ e. ground arith) refl ((omega arith, omega arith), (tt, ((omega arith, omega arith), tt)))

begin_turn_lem_example :
    ((begin_turn 100 (busy 3 [] false) a_group).0 ≡ busy 3 [] false)
      × ((u : Text)
          → (mem_text u two_addresses && not (is_banned u 100 global_blacklist).0) ≡ false)
    ⊎ ((addr : Text) × Chooses 100
          (busy 3 [] false)
          a_group
          (begin_turn 100 (busy 3 [] false) a_group).0
          addr)
begin_turn_lem_example = begin_turn_lem 100 (busy 3 [] false) a_group

parse_hashes-lines_example :
    parse_hashes (lines ((true, codes "abc-D") ∷ (false, codes "x_1") ∷ []))
    ≡ codes "abc-D" ∷ codes "x_1" ∷ []
unfolding ◌≗◌ all_chars is_hash_char mem_text
parse_hashes-lines_example =
    parse_hashes-lines ((true, codes "abc-D") ∷ (false, codes "x_1") ∷ [])
      ((refl, refl), ((refl, refl), tt)) (refl, (refl, tt))
