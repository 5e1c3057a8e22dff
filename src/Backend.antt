-- ===== src/Backend.antt =====
-- backend/vk_hash_manager.go and the profile part of backend/store.go: the operations of the
-- application on its profiles and on the registry file. An operation may fail after a write, so it
-- returns its result and the state that it leaves. Operations do not interleave here.
pub mod Bind
pub mod Checks
pub mod Candidates
pub mod Replace
pub mod Prepare
use pwdtt.Prelude.{
  ℕ, ◌+◌, Bool, true, false, not, ◌&&◌, ◌||◌, List, [], ◌∷◌, ◌++◌, Option, none, some, Result, ok,
  err, ltb, ◌==◌, if◌then◌else◌, map, length,
}
use pwdtt.Prelude.Text.{Text, codes, ◌≗◌, trim_space}
use pwdtt.Prelude.TextMap.{TextMap, lookup, insert}
use pwdtt.Types.{VkHashPolicy, VkHashEntry, ProfileData, ConnectParams}
use pwdtt.VkHash.{Url, HashError, normalize_vk_call_hash}
use pwdtt.Registry.{
  Registry, normalize_vk_hash_mode, default_vk_hash_policy, normalize_vk_hash_list,
  ensure_vk_hash_entry, ensure_all, profiles_using, no_profile, delete_entry,
}

-- What the code takes from its surroundings: `url.Parse`, `unicode.IsLetter` or `IsDigit`, the
-- identifiers of `uuid`, and the clock in milliseconds.
pub record Env : Type 0 where
  pub parse_url : Text → Option Url
  pub is_letter_or_digit : ℕ → Bool
  pub uuid : ℕ → Text
  pub now_ms : ℕ

-- The files, and whether the registry can be read, the registry written, and profiles written.
pub record Backend : Type 0 where
  pub registry : Registry
  pub profiles : TextMap ProfileData
  pub readable : Bool
  pub writable : Bool
  pub profiles_writable : Bool
  pub running : Bool

pub data BackendError : Type 0 where
  unreadable unwritable bad_profile_name no_profile_file profile_unwritable : BackendError
  not_found connection_active canceled vk_busy generation_failed not_valid : BackendError
  registry_changed not_used no_candidates parent_canceled none_left none_left_timeout : BackendError
  bad_hash : HashError → BackendError
  replacement_failed : BackendError

abbrev pub M : Type 0 → Type 0
M A = Backend → Result BackendError A × Backend

infixl 5 ◌>>=◌ ◌>>◌
abbrev pub ◌>>=◌ : {A B : Type 0} → M A → (A → M B) → M B
◌>>=◌ m f b = let (r, b') = m b in elim r [ ok a ↦ f a b' | err e ↦ (err e, b') ]

abbrev pub ◌>>◌ : {B : Type 0} → M (Unit {0}) → M B → M B
m >> k = m >>= λ _. k

abbrev pub pure : {A : Type 0} → A → M A
pure a b = (ok a, b)

abbrev pub fail : {A : Type 0} → BackendError → M A
fail e b = (err e, b)

abbrev pub lift_hash : {A : Type 0} → Result HashError A → M A
lift_hash (ok a) b = (ok a, b)
lift_hash (err e) b = (err (bad_hash e), b)

unfoldable pub load_registry : M Registry
load_registry b = if b.readable then (ok b.registry, b) else (err unreadable, b)

unfoldable pub save_registry : Registry → M (Unit {0})
save_registry r b = if b.writable then (ok tt, record b { registry = r }) else (err unwritable, b)

abbrev pub get_profiles : M (TextMap ProfileData)
get_profiles b = (ok b.profiles, b)

unfoldable keep_name_chars : Env → Text → Text
keep_name_chars env [] = []
keep_name_chars env (c ∷ s) =
    let rest = keep_name_chars env s in
    if env.is_letter_or_digit c || c == b'-' || c == b'_' || c == b' ' then c ∷ rest else rest

unfoldable pub sanitize_profile_name : Env → Text → Text
unfolding keep_name_chars
sanitize_profile_name env name = trim_space (keep_name_chars env (trim_space name))

unfoldable pub load_profile : Env → Text → M ProfileData
load_profile env name b =
    let n = sanitize_profile_name env name in
    if n ≗ []
    then (err bad_profile_name, b)
    else elim (lookup n b.profiles) [ none ↦ (err no_profile_file, b) | some p ↦ (ok p, b) ]

-- The values that `SaveProfile` takes over from the stored profile.
unfoldable inherit : Option ProfileData → Text → ProfileData → ProfileData
inherit none fresh p = record p { device_id = if p.device_id ≗ [] then fresh else p.device_id }
inherit (some old) fresh p =
    let kept = if p.device_id ≗ [] then old.device_id else p.device_id in
    record p {
      device_id = if kept ≗ [] then fresh else kept;
      hash_policy = elim p.hash_policy [ none ↦ old.hash_policy | some q ↦ some q ];
    }

unfoldable pub save_profile : Env → Text → ProfileData → M (Unit {0})
unfolding inherit
save_profile env name p b =
    let n = sanitize_profile_name env name in
    if n ≗ []
    then (err bad_profile_name, b)
    else if b.profiles_writable
    then (
      ok tt,
      record b { profiles = insert n (inherit (lookup n b.profiles) (env.uuid 0) p) b.profiles },
    )
    else (err profile_unwritable, b)

unfoldable pub register_local_vk_hashes : Env → List Text → M (Unit {0})
register_local_vk_hashes env hashes = do
  r ← load_registry
  (entries, changed, r') ← lift_hash (ensure_all env.parse_url env.uuid env.now_ms 1 r hashes)
  if changed then save_registry r' else pure tt

abbrev empty_profile : ProfileData
empty_profile = record {
  peer_addr = [];
  password = [];
  hashes = [];
  listen = [];
  turn_host = [];
  turn_port = [];
  device_id = [];
  hash_policy = none;
}

-- A profile that cannot be loaded is replaced by an empty one.
abbrev load_or_empty : Env → Text → M ProfileData
load_or_empty env name b =
    let (r, b') = load_profile env name b in
    elim r [ ok p ↦ (ok p, b') | err _ ↦ (ok empty_profile, b') ]

unfoldable pub sync_profile_vk_settings :
    Env → Text → Text → Text → List Text → VkHashPolicy → M (Unit {0})
unfolding sanitize_profile_name
sync_profile_vk_settings env raw_name peer_addr password hashes asked =
    let name = sanitize_profile_name env raw_name in
    let policy =
      if trim_space asked.mode ≗ []
      then default_vk_hash_policy
      else record asked { mode = normalize_vk_hash_mode asked.mode } in
    if name ≗ [] then fail bad_profile_name else do
      normalized ← lift_hash (normalize_vk_hash_list env.parse_url hashes)
      p ← load_or_empty env name
      save_profile env name (record p {
        peer_addr = trim_space peer_addr;
        password = password;
        hashes = normalized;
        hash_policy = some policy;
      })
      register_local_vk_hashes env normalized

-- The order of the list that the interface shows: the pool first, then the newest first.
unfoldable shown_before : VkHashEntry → VkHashEntry → Bool
shown_before a b =
    if a.in_pool
    then (if b.in_pool then ltb b.created_at a.created_at else true)
    else (if b.in_pool then false else ltb b.created_at a.created_at)

unfoldable insert_shown : VkHashEntry → List VkHashEntry → List VkHashEntry
unfolding shown_before
insert_shown e [] = e ∷ []
insert_shown e (x ∷ xs) = if shown_before x e then x ∷ insert_shown e xs else e ∷ x ∷ xs

unfoldable shown_entries : Env → TextMap ProfileData → Registry → List VkHashEntry
unfolding insert_shown
shown_entries env profiles [] = []
shown_entries env profiles (e ∷ r) =
    let used = profiles_using env.parse_url e profiles in
    let rest = shown_entries env profiles r in
    if e.in_pool || not (no_profile used)
    then insert_shown (record e { used_by = used }) rest
    else rest

-- A registry that cannot be read shows as an empty list.
unfoldable pub list_vk_hashes : Env → M (List VkHashEntry)
unfolding shown_entries
list_vk_hashes env b =
    if b.readable then (ok (shown_entries env b.profiles b.registry), b) else (ok [], b)

unfoldable pub first_with_id : Text → List VkHashEntry → Option VkHashEntry
first_with_id id [] = none
first_with_id id (e ∷ es) = if e.id ≗ id then some e else first_with_id id es

unfoldable pub vk_hash_entry : Env → Text → M VkHashEntry
unfolding first_with_id
vk_hash_entry env id = do
  entries ← list_vk_hashes env
  elim (first_with_id id entries) [ none ↦ fail not_found | some e ↦ pure e ]

-- `AddVKHash`; the check that it starts in the background is `CheckVKHash`'s.
unfoldable add_vk_hash : Env → Text → Text → M VkHashEntry
add_vk_hash env raw source = do
  r ← load_registry
  (e, created, r') ←
      lift_hash (ensure_vk_hash_entry env.parse_url (env.uuid 0) env.now_ms r raw source true)
  save_registry r'
  vk_hash_entry env e.id

unfoldable delete_vk_hash : Env → Text → M (Unit {0})
delete_vk_hash env id = do
  r ← load_registry
  profiles ← get_profiles
  elim (delete_entry env.parse_url profiles id r) [
    | none ↦ fail not_found
    | some r' ↦ save_registry r'
  ]
