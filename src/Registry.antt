-- ===== src/Registry.antt =====
-- backend/vk_hash_manager.go: the registry of VK hashes, its policies and its entries.
-- The URL parser, fresh identifiers and the clock are arguments.
pub mod Lists
pub mod Entries
pub mod Operations
pub mod Removal
use pwdtt.Prelude.{
  ℕ, zero, suc, ◌+◌, ◌*◌, ◌-◌, Bool, true, false, not, ◌&&◌, ◌||◌, List, [], ◌∷◌, ◌++◌, Option,
  none, some, Result, ok, err, ltb, leb, ◌==◌, if◌then◌else◌, length, get_elem?, set, map,
}
use pwdtt.Prelude.Text.{Text, codes, ◌≗◌, trim_space}
use pwdtt.Prelude.TextMap.{TextMap}
use pwdtt.Prelude.TextSet.{mem_text, unique_onto}
use pwdtt.Types.{VkHashPolicy, VkHashCheck, VkHashEntry, ProfileData, ConnectParams}
use pwdtt.VkHash.{Url, HashError, normalize_vk_call_hash}

abbrev pub mode_local : Text
mode_local = codes "local"

abbrev mode_local_and_pool : Text
mode_local_and_pool = codes "local+pool"

abbrev pub mode_pool : Text
mode_pool = codes "pool"

abbrev pub Registry : Type 0
Registry = List VkHashEntry

unfoldable pub default_vk_hash_policy : VkHashPolicy
default_vk_hash_policy = record { mode = mode_local; auto_check = true; auto_replace = false }

unfoldable pub normalize_vk_hash_mode : Text → Text
normalize_vk_hash_mode mode =
    let m = trim_space mode in
    if m ≗ mode_pool
    then mode_pool
    else if m ≗ mode_local_and_pool
    then mode_local_and_pool
    else mode_local

unfoldable pub normalize_vk_hash_policy : Option VkHashPolicy → VkHashPolicy
normalize_vk_hash_policy none = default_vk_hash_policy
normalize_vk_hash_policy (some p) = record p { mode = normalize_vk_hash_mode p.mode }

unfoldable pub hash_policy_from_connect : ConnectParams → VkHashPolicy
hash_policy_from_connect params =
    if trim_space params.hash_mode ≗ [] then default_vk_hash_policy else record {
      mode = normalize_vk_hash_mode params.hash_mode;
      auto_check = params.hash_auto_check;
      auto_replace = params.hash_auto_replace;
    }

-- The loop of `normalizeVKHashList`; the seen map holds what `result` holds.
unfoldable normalize_list_onto :
    (Text → Option Url) → List Text → List Text → Result HashError (List Text)
normalize_list_onto parse_url result [] = ok result
normalize_list_onto parse_url result (raw ∷ rest) =
    let skip = normalize_list_onto parse_url result rest in
    let keep = λ (h : Text).
      normalize_list_onto parse_url (if mem_text h result then result else result ++ h ∷ []) rest in
    if trim_space raw ≗ []
    then skip
    else elim (normalize_vk_call_hash parse_url raw) [ err e ↦ err e | ok h ↦ keep h ]

unfoldable pub normalize_vk_hash_list :
    (Text → Option Url) → List Text → Result HashError (List Text)
unfolding normalize_list_onto
normalize_vk_hash_list parse_url values = normalize_list_onto parse_url [] values

-- The first entry that passes a test; the source returns -1 where this is `none`.
unfoldable pub find_index {ℓ} : {A : Type ℓ} → (A → Bool) → List A → Option ℕ
find_index p [] = none
find_index p (x ∷ xs) =
    let later = find_index p xs in
    if p x then some 0 else elim later [ none ↦ none | some i ↦ some (suc i) ]

unfoldable pub find_vk_hash_by_id : Registry → Text → Option ℕ
unfolding find_index
find_vk_hash_by_id r id = find_index (λ e. e.id ≗ id) r

unfoldable pub find_vk_hash_by_value : Registry → Text → Option ℕ
unfolding find_index
find_vk_hash_by_value r hash = find_index (λ e. e.hash ≗ hash) r

unfoldable pub normalize_vk_hash_source : Text → Text
normalize_vk_hash_source source =
    let s = trim_space source in
    if s ≗ codes "generated"
    then codes "generated"
    else if s ≗ codes "imported"
    then codes "imported"
    else codes "manual"

-- What `ensureVKHashEntry` does to an entry that is there.
unfoldable pub refresh_entry : Text → Bool → VkHashEntry → VkHashEntry
refresh_entry source in_pool e = record e {
  in_pool = if in_pool then true else e.in_pool;
  source = if e.source ≗ [] then normalize_vk_hash_source source else e.source;
}

unfoldable pub new_entry : Text → ℕ → Text → Text → Bool → VkHashEntry
new_entry id now hash source in_pool = record {
  id = id;
  hash = hash;
  source = normalize_vk_hash_source source;
  in_pool = in_pool;
  created_at = now;
  checks = [];
  used_by = [];
}

-- `id` is the identifier that `uuid.NewString` gives, if it is asked. The result is the entry,
-- whether it was created, and the registry.
unfoldable pub ensure_vk_hash_entry :
    (Text → Option Url)
    → Text
    → ℕ
    → Registry
    → Text
    → Text
    → Bool
    → Result HashError (VkHashEntry × Bool × Registry)
ensure_vk_hash_entry parse_url id now r raw source in_pool =
    elim (normalize_vk_call_hash parse_url raw) [
      | err e ↦ err e
      | ok hash ↦ elim (find_vk_hash_by_value r hash) [
        | some i ↦ elim (get_elem? r i) [
          | some e ↦ let e' = refresh_entry source in_pool e in ok (e', false, set r i e')
          | none ↦ let e = new_entry id now hash source in_pool in ok (e, true, r ++ e ∷ [])
        ]
        | none ↦ let e = new_entry id now hash source in_pool in ok (e, true, r ++ e ∷ [])
      ]
    ]

unfoldable pub profile_contains : (Text → Option Url) → List Text → Text → Bool
profile_contains parse_url [] hash = false
profile_contains parse_url (raw ∷ rest) hash =
    (elim (normalize_vk_call_hash parse_url raw) [ ok h ↦ h ≗ hash | err e ↦ false ])
    || profile_contains parse_url rest hash

unfoldable pub profile_uses : (Text → Option Url) → VkHashEntry → ProfileData → Bool
profile_uses parse_url e p =
    let policy = normalize_vk_hash_policy p.hash_policy in
    profile_contains parse_url p.hashes e.hash
    || (e.in_pool && (policy.mode ≗ mode_pool || policy.mode ≗ mode_local_and_pool))

-- Strings are ordered as their code points are.
unfoldable pub le_text : Text → Text → Bool
le_text [] t = true
le_text (c ∷ s) [] = false
le_text (c ∷ s) (d ∷ t) = ltb c d || (c == d && le_text s t)

unfoldable pub insert_sorted : Text → List Text → List Text
insert_sorted x [] = x ∷ []
insert_sorted x (y ∷ ys) = if le_text x y then x ∷ y ∷ ys else y ∷ insert_sorted x ys

-- The names of the profiles that use an entry, sorted.
unfoldable pub profiles_using : (Text → Option Url) → VkHashEntry → TextMap ProfileData → List Text
profiles_using parse_url e [] = []
profiles_using parse_url e ((name, p) ∷ rest) =
    let others = profiles_using parse_url e rest in
    if profile_uses parse_url e p then insert_sorted name others else others

-- `append(E[:i], E[i+1:]...)`
unfoldable pub remove_at {ℓ} : {A : Type ℓ} → List A → ℕ → List A
remove_at [] i = []
remove_at (x ∷ xs) zero = xs
remove_at (x ∷ xs) (suc i) = x ∷ remove_at xs i

abbrev pub no_profile : List Text → Bool
no_profile [] = true
no_profile (_ ∷ _) = false

-- The registry part of `DeleteVKHash`; `none` is the error for an unknown identifier.
unfoldable pub delete_entry :
    (Text → Option Url) → TextMap ProfileData → Text → Registry → Option Registry
delete_entry parse_url profiles id r = elim (find_vk_hash_by_id r id) [
  | none ↦ none
  | some i ↦ elim (get_elem? r i) [
    | none ↦ none
    | some e ↦
        let e' = record e { in_pool = false } in
        let kept = set r i e' in
        some (if no_profile (profiles_using parse_url e' profiles) then remove_at kept i else kept)
  ]
]

-- The registry part of `cleanupOrphanVKHash`; `none` where the registry is not written.
unfoldable pub cleanup_orphan :
    (Text → Option Url) → TextMap ProfileData → Text → Registry → Option Registry
cleanup_orphan parse_url profiles id r = elim (find_vk_hash_by_id r id) [
  | none ↦ none
  | some i ↦ elim (get_elem? r i) [
    | none ↦ none
    | some e ↦
        if e.in_pool
        then none
        else if not (no_profile (profiles_using parse_url e profiles))
        then none
        else some (remove_at r i)
  ]
]

-- The loop over the local hashes in `registerLocalVKHashes` and `candidateVKHashes`: the entries,
-- whether one was created, and the registry. `ids` gives the identifiers that are asked for.
unfoldable pub ensure_all :
    (Text → Option Url)
    → (ℕ → Text)
    → ℕ
    → ℕ
    → Registry
    → List Text
    → Result HashError (List VkHashEntry × Bool × Registry)
ensure_all parse_url ids now n r [] = ok ([], false, r)
ensure_all parse_url ids now n r (raw ∷ rest) =
    elim (ensure_vk_hash_entry parse_url (ids n) now r raw (codes "manual") false) [
      | err e ↦ err e
      | ok (entry, created, r') ↦ elim (ensure_all parse_url ids now (n + 1) r' rest) [
        | err e ↦ err e
        | ok (entries, more, r'') ↦ ok (entry ∷ entries, created || more, r'')
      ]
    ]
