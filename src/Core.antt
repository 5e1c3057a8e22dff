-- ===== src/Core.antt =====
-- core/main.go: the core's configuration, its start, and the groups of workers that it makes.
pub mod Starting
pub mod Events
pub mod Queue
pub mod Stats
pub mod Mtu
use pwdtt.Prelude.{
  ℕ, zero, suc, ◌+◌, ◌*◌, ◌-◌, ◌/◌, Bool, true, false, not, ◌&&◌, ◌||◌, List, [], ◌∷◌, Option, none,
  some, Result, ok, err, map, ltb, leb, ◌==◌, if◌then◌else◌,
}
use pwdtt.Prelude.Text.{Text, codes, ◌≗◌, trim_space, to_lower}

-- The part of the configuration that the start reads. A number of workers below 1 is 0 here.
pub record Config : Type 0 where
  pub peer_addr : Text
  pub password : Text
  pub hashes : List Text
  pub device_id : Text
  pub workers : ℕ
  pub listen : Text
  pub captcha_mode : Text
  pub obfs_mode : Text

abbrev pub or_else : Text → Text → Text
or_else [] d = d
or_else (c ∷ s) d = c ∷ s

unfoldable normalize_captcha_mode : Text → Text
normalize_captcha_mode mode =
    let m = map to_lower (trim_space mode) in
    if m ≗ codes "auto" || m ≗ codes "rjs" || m ≗ codes "wv" then m else codes "auto"

unfoldable normalize_vk_auth_mode : Text → Text
normalize_vk_auth_mode mode =
    if map to_lower (trim_space mode) ≗ codes "legacy" then codes "legacy" else codes "vkcalls"

-- `New`: the defaults.
unfoldable with_defaults : Config → Config
unfolding normalize_captcha_mode
with_defaults c = record c {
  listen = or_else c.listen (codes "127.0.0.1:9000");
  device_id = or_else c.device_id (codes "unknown");
  workers = if c.workers == 0 then 24 else c.workers;
  obfs_mode = or_else c.obfs_mode (codes "audio");
  captcha_mode = normalize_captcha_mode c.captcha_mode;
}

abbrev workers_per_group : ℕ
workers_per_group = 9

-- The number of workers that are started.
unfoldable pub worker_count : ℕ → ℕ
worker_count workers =
    let n = if ltb 108 workers then 108 else workers in
    let m = if ltb n workers_per_group then workers_per_group else n in
    m / workers_per_group * workers_per_group

-- A group: its number, the index of its hash, its workers, whether it asks for the configuration,
-- and which groups' credentials it waits for and whose it releases.
pub record GroupPlan : Type 0 where
  pub group_id : ℕ
  hash_index : ℕ
  pub worker_ids : List ℕ
  pub is_first : Bool
  pub waits_for : Option ℕ
  pub releases : Option ℕ

unfoldable pub next_ids : ℕ → ℕ → List ℕ
next_ids zero counter = []
next_ids (suc k) counter = counter ∷ next_ids k (counter + 1)

-- The turns of the loop from group `g` on, of which `left` are left.
unfoldable pub plan_from : ℕ → ℕ → ℕ → List GroupPlan
unfolding next_ids
plan_from zero g counter = []
plan_from (suc left) g counter =
    record {
      group_id = g + 1;
      hash_index = g;
      worker_ids = next_ids workers_per_group counter;
      is_first = g == 0;
      waits_for = if g == 0 then none else some g;
      releases = if left == 0 then none else some (g + 2);
    }
    ∷ plan_from left (g + 1) (counter + workers_per_group)

unfoldable pub plan_groups : ℕ → List GroupPlan
unfolding plan_from worker_count
plan_groups workers = plan_from (worker_count workers / workers_per_group) 0 1

pub data StartError : Type 0 where
  no_peer no_hashes no_password peer_unresolved no_wrap_key no_listen : StartError

-- What the start meets: the peer's lookup, the key's derivation, how often the address is taken, and
-- whether any port is free.
pub record Surroundings : Type 0 where
  pub resolves : Bool
  pub derives : Bool
  pub busy_rounds : ℕ
  pub any_port : Bool

-- Five attempts at the address, and then any port.
unfoldable pub listens : Surroundings → Bool
listens e = ltb e.busy_rounds 5 || e.any_port

abbrev pub is_empty {ℓ} : {A : Type ℓ} → List A → Bool
is_empty [] = true
is_empty (x ∷ xs) = false

unfoldable pub start_core : Config → Surroundings → Result StartError (List GroupPlan)
unfolding plan_groups listens
start_core c e =
    if is_empty c.peer_addr
    then err no_peer
    else if is_empty c.hashes
    then err no_hashes
    else if is_empty c.password
    then err no_password
    else if not e.resolves
    then err peer_unresolved
    else if not e.derives
    then err no_wrap_key
    else if not (listens e)
    then err no_listen
    else ok (plan_groups c.workers)

-- `startOnce`, and the groups that are running.
pub record Core : Type 0 where
  pub config : Config
  pub started : Bool
  pub groups : List GroupPlan

unfoldable pub new_core : Config → Core
unfolding with_defaults
new_core c = record { config = with_defaults c; started = false; groups = [] }

-- `Start`, with its error: the first call starts; every other call returns the channel of events.
unfoldable pub start : Core → Surroundings → Option StartError × Core
unfolding start_core
start c e = if c.started then (none, c) else elim (start_core c.config e) [
  | err x ↦ (some x, record c { started = true })
  | ok groups ↦ (none, record c { started = true; groups = groups })
]
