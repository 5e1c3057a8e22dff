-- ===== src/Backend/Candidates.antt =====
-- Which hashes a connection may use: the profile's own and the pool's, by the policy's mode.
use pwdtt.Prelude.{
  not, ◌&&◌, ◌||◌, Bool-cases, List, [], ◌∷◌, ◌++◌, if◌then◌else◌, ◌≡◌, inl, inr, refl, ap, arith,
}
use pwdtt.Prelude.Text.{Text, ◌≗◌, ≗_iff}
use pwdtt.Prelude.TextSet.{
  mem_text, mem_text-append, Distinct, Distinct-concat, unique_onto, unique_onto-Distinct,
  mem_text-unique_onto,
}
use pwdtt.Types.{VkHashEntry}
use pwdtt.Registry.{Registry, ensure_all, normalize_vk_hash_mode, mode_pool, mode_local}
use pwdtt.Registry.Entries.{hashes_of}
use pwdtt.Registry.Operations.{map-append_one}
use pwdtt.Backend.{Env, M, ◌>>=◌, ◌>>◌, pure, lift_hash, load_registry, save_registry}

-- The closure `appendUnique`; the seen map holds the hashes of `result`.
unfoldable pub append_unique : List VkHashEntry → List VkHashEntry → List VkHashEntry
append_unique result [] = result
append_unique result (e ∷ es) =
    append_unique (if mem_text e.hash (hashes_of result) then result else result ++ e ∷ []) es

unfoldable pub select_vk_hash_candidates :
    List VkHashEntry → List VkHashEntry → Text → List VkHashEntry
select_vk_hash_candidates local pool raw_mode =
    let mode = normalize_vk_hash_mode raw_mode in
    let own = if not (mode ≗ mode_pool) then append_unique [] local else [] in
    if not (mode ≗ mode_local) then append_unique own pool else own

unfoldable pool_of : Registry → List VkHashEntry
pool_of [] = []
pool_of (e ∷ r) = let rest = pool_of r in if e.in_pool then e ∷ rest else rest

unfoldable pub candidate_vk_hashes : Env → List Text → Text → M (List VkHashEntry)
unfolding pool_of
candidate_vk_hashes env local_hashes mode = do
  r ← load_registry
  (local, changed, r') ← lift_hash (ensure_all env.parse_url env.uuid env.now_ms 1 r local_hashes)
  (if changed then save_registry r' else pure tt)
  pure (select_vk_hash_candidates local (pool_of r') mode)

unfoldable pub unique_vk_hashes : List Text → List Text
unique_vk_hashes values = unique_onto [] values

unfoldable pub hashes_from_entries : List VkHashEntry → List Text
unfolding unique_vk_hashes
hashes_from_entries entries = unique_vk_hashes (hashes_of entries)

append_unique-Distinct :
    (result es : List VkHashEntry)
    → Distinct (hashes_of result)
    → Distinct (hashes_of (append_unique result es))
unfolding append_unique
append_unique-Distinct result [] d = d
append_unique-Distinct result (e ∷ es) d = elim (Bool-cases (mem_text e.hash (hashes_of result))) [
  | inl old ↦ rw old (append_unique-Distinct result es d)
  | inr new ↦ rw new (
      append_unique-Distinct (result ++ e ∷ []) es (
        rw (map-append_one (λ x. x.hash) result e)
          (Distinct-concat (hashes_of result) e.hash d new)))
]

mem_text-append_unique :
    (t : Text) (result es : List VkHashEntry)
    → mem_text t (hashes_of (append_unique result es))
      ≡ (mem_text t (hashes_of result) || mem_text t (hashes_of es))
unfolding append_unique mem_text
mem_text-append_unique t result [] = ground arith
mem_text-append_unique t result (e ∷ es) = elim (Bool-cases (mem_text e.hash (hashes_of result))) [
  | inl old ↦ rw old (ground (arith, mem_text-append_unique t result es, ≗_iff t e.hash))
  | inr new ↦ rw new (
      ground (
        arith,
        mem_text-append_unique t (result ++ e ∷ []) es,
        ap (mem_text t) (map-append_one (λ x. x.hash) result e),
        mem_text-append t (hashes_of result) (e.hash ∷ []),
      ))
]

-- No candidate hash stands twice, and a hash is a candidate exactly if it is a local one and the
-- mode is not "pool", or it is in the pool and the mode is not "local".
pub select_vk_hash_candidates_lem :
    (local pool : List VkHashEntry) (mode : Text)
    → let chosen = hashes_of (select_vk_hash_candidates local pool mode) in
      let m = normalize_vk_hash_mode mode in
      Distinct chosen
      × ((t : Text)
          → mem_text t chosen ≡ (
              not (m ≗ mode_pool) && mem_text t (hashes_of local)
              || not (m ≗ mode_local) && mem_text t (hashes_of pool)))
unfolding select_vk_hash_candidates mem_text
select_vk_hash_candidates_lem local pool mode =
    let m = normalize_vk_hash_mode mode in
    elim (Bool-cases (m ≗ mode_pool)) [
      | inl p ↦ elim (Bool-cases (m ≗ mode_local)) [
        | inl l ↦ rw (p, l) (tt, λ t. refl)
        | inr l ↦
            rw (p, l)
              (
                append_unique-Distinct [] pool tt,
                λ t. ground (arith, mem_text-append_unique t [] pool),
              )
      ]
      | inr p ↦ elim (Bool-cases (m ≗ mode_local)) [
        | inl l ↦
            rw (p, l)
              (
                append_unique-Distinct [] local tt,
                λ t. ground (arith, mem_text-append_unique t [] local),
              )
        | inr l ↦
            rw (p, l)
              (
                append_unique-Distinct (append_unique [] local) pool
                    (append_unique-Distinct [] local tt),
                λ t. ground (
                  arith,
                  mem_text-append_unique t (append_unique [] local) pool,
                  mem_text-append_unique t [] local,
                ),
              )
      ]
    ]

pub hashes_from_entries-Distinct : (es : List VkHashEntry) → Distinct (hashes_from_entries es)
unfolding hashes_from_entries
hashes_from_entries-Distinct es = unique_onto-Distinct [] (hashes_of es) tt

pub mem_text-hashes_from_entries :
    (t : Text) (es : List VkHashEntry)
    → mem_text t (hashes_from_entries es) ≡ mem_text t (hashes_of es)
unfolding hashes_from_entries mem_text
mem_text-hashes_from_entries t es = mem_text-unique_onto t [] (hashes_of es)
