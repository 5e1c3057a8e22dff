-- ===== src/WorkerGroup/Start.antt =====
-- The beginning of `WorkerGroup`: when each worker starts, and the group before its first turn.
use pwdtt.Prelude.{
  ℕ, suc, ◌+◌, ◌-◌, ◌*◌, Bool, false, not, List, [], ◌∷◌, ◌++◌, Option, none, some, ltb, ◌==◌, ◌≡◌,
  arith, if◌then◌else◌,
}
use pwdtt.Prelude.Text.{Text}
use pwdtt.Prelude.TextSet.{
  mem_text, Distinct, unique_onto, unique_onto-Distinct, mem_text-unique_onto,
}
use pwdtt.Blacklist.{TurnBlacklist}
use pwdtt.WorkerGroup.{Worker, GroupState, looping}

-- In milliseconds.
abbrev worker_start_delay : ℕ
worker_start_delay = 200

abbrev worker_batch_delay : ℕ
worker_batch_delay = 5000

abbrev first_batch_size : ℕ
first_batch_size = 5

unfoldable start_delay : ℕ → ℕ
start_delay idx =
    if ltb idx first_batch_size
    then idx * worker_start_delay
    else first_batch_size * worker_start_delay
      + worker_batch_delay
      + (idx - first_batch_size) * worker_start_delay

unfoldable pub new_worker : Text → ℕ → Worker
new_worker base wid = record {
  id = wid;
  address_attempts = 0;
  current_turn_addr = [];
  obfs_mode = base;
  phase = looping;
}

unfoldable pub new_workers : Text → List ℕ → List Worker
unfolding new_worker
new_workers base [] = []
new_workers base (wid ∷ wids) = new_worker base wid ∷ new_workers base wids

unfoldable pub start_group : Bool → Text → List Text → TurnBlacklist → List ℕ → GroupState
unfolding new_workers
start_group get_config base urls bans worker_ids = record {
  workers = new_workers base worker_ids;
  group = record {
    get_config = get_config;
    base_obfs_mode = base;
    turn_urls = urls;
    config_sent = not get_config;
    config_request_in_flight = false;
    blacklist = bans;
    delivered = 0;
  };
}

-- The hosts of the credentials' addresses: of each the host part (net.SplitHostPort), or all of it,
-- or the host that the parameters name.
unfoldable pub turn_host : Text → (Text → Option Text) → Text → Text
turn_host [] split_host_port url = elim (split_host_port url) [ none ↦ url | some host ↦ host ]
turn_host (c ∷ host) split_host_port url = c ∷ host

-- The addresses of a host (net.LookupIP), or the host itself.
unfoldable gather_ips :
    Text → (Text → Option Text) → (Text → Option (List Text)) → List Text → List Text
unfolding turn_host
gather_ips tp_host split lookup_ip [] = []
gather_ips tp_host split lookup_ip (url ∷ urls) =
    let host = turn_host tp_host split url in
    let rest = gather_ips tp_host split lookup_ip urls in
    elim (lookup_ip host) [ none ↦ host ∷ rest | some resolved ↦ resolved ++ rest ]

-- What is kept out of the tunnel's routes.
unfoldable turn_ips :
    Text → (Text → Option Text) → (Text → Option (List Text)) → List Text → List Text
unfolding gather_ips
turn_ips tp_host split lookup_ip urls = unique_onto [] (gather_ips tp_host split lookup_ip urls)

-- Workers start in their order, 200 ms apart, and the sixth one waits five seconds more.
start_delay-suc :
    (idx : ℕ)
    → start_delay (suc idx)
      ≡ start_delay idx
        + worker_start_delay
        + (if suc idx == first_batch_size then worker_batch_delay else 0)
unfolding start_delay
start_delay-suc idx = ground arith

-- Every address that is looked up is kept out once.
turn_ips-Distinct :
    (tp_host : Text) (split : Text → Option Text) (lookup_ip : Text → Option (List Text))
    (urls : List Text)
    → Distinct (turn_ips tp_host split lookup_ip urls)
      × ((ip : Text)
          → mem_text ip (turn_ips tp_host split lookup_ip urls)
            ≡ mem_text ip (gather_ips tp_host split lookup_ip urls))
unfolding turn_ips mem_text
turn_ips-Distinct tp_host split lookup_ip urls =
    let all = gather_ips tp_host split lookup_ip urls in
    (unique_onto-Distinct [] all tt, λ ip. mem_text-unique_onto ip [] all)
