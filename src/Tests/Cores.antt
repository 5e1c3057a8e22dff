-- ===== src/Tests/Cores.antt =====
-- Runs for core/main.go and core/stats.go.
use pwdtt.Prelude.{
  ℕ, ◌≤◌, ◌%◌, true, false, not, ◌&&◌, ◌||◌, List, [], ◌∷◌, none, ◌≡◌, refl, arith, if◌then◌else◌,
  ltb,
}
use pwdtt.Prelude.Text.{codes}
use pwdtt.Core.{
  Config, Surroundings, new_core, start, worker_count, next_ids, plan_groups, is_empty,
}
use pwdtt.Core.Starting.{all_workers, Linked, is_ok, plan_groups_lem, start-start}
use pwdtt.Core.Queue.{
  QueueMove, emits, takes, emit, run_queue, QueueSystem, all_offer, IsQueue, Emitted, run_queue_lem,
}

plan_groups_lem_example :
    let n = worker_count 24 in
    (9 ≤ n)
    × (n ≤ 108)
    × (n % 9 ≡ 0)
    × (all_workers (plan_groups 24) ≡ next_ids n 1)
    × Linked none (plan_groups 24)
plan_groups_lem_example = plan_groups_lem 24

abbrev a_core_config : Config
a_core_config = record {
  peer_addr = codes "1.2.3.4:5";
  password = codes "p";
  hashes = codes "h" ∷ [];
  device_id = [];
  workers = 0;
  listen = [];
  captcha_mode = codes " RJS ";
  obfs_mode = [];
}

abbrev all_well : Surroundings
all_well = record { resolves = true; derives = true; busy_rounds = 2; any_port = false }

abbrev offline : Surroundings
offline = record all_well { resolves = false }

start-start_example :
    let c = new_core a_core_config in
    ((is_ok (start c offline).0) ≡ (
      not (is_empty c.config.peer_addr)
      && not (is_empty c.config.hashes)
      && not (is_empty c.config.password)
      && offline.resolves
      && offline.derives
      && (ltb offline.busy_rounds 5 || offline.any_port)))
    × ((start c offline).1.groups
        ≡ (if is_ok (start c offline).0 then plan_groups c.config.workers else c.groups))
    × (start (start c offline).1 all_well ≡ (none, (start c offline).1))
unfolding new_core
start-start_example = start-start (new_core a_core_config) offline all_well refl

-- Two events fill the channel; the third and the fourth call find it full, and each makes room.
abbrev some_moves : List QueueMove
some_moves =
    emits 0 ∷ emits 1 ∷ emits 2 ∷ emits 3 ∷ emits 2 ∷ emits 3 ∷ emits 2 ∷ takes ∷ emits 3 ∷ []

abbrev some_events : List ℕ
some_events = 1 ∷ 2 ∷ 3 ∷ 4 ∷ []

abbrev at_last : QueueSystem ℕ
at_last = run_queue 2 some_moves record {
  calls = all_offer some_events;
  channel = record { queue = []; entered = []; gone = [] };
}

run_queue_lem_example : IsQueue 2 at_last × Emitted 2 5 at_last.channel (emit 2 5 at_last.channel)
run_queue_lem_example = run_queue_lem 2 some_moves some_events 5 (omega arith)
