-- ===== src/Backend/Checks/Stored.antt =====
-- How long a stored check counts, and that a check which was made is found again.
use pwdtt.Prelude.{
  ℕ, zero, suc, ◌+◌, ◌*◌, ◌≤◌, ◌<◌, true, false, Bool-cases, Option-cases, [], ◌∷◌, none, some, ok,
  err, if◌then◌else◌, get_elem?, set, ◌≡◌, ◌↔◌, ◌⊎◌, inl, inr, refl, sym, ap, ◌∙◌, arith,
}
use pwdtt.Prelude.Text.{Text, codes, ◌≗◌, ≗_refl}
use pwdtt.Prelude.TextMap.{lookup, lookup-insert}
use pwdtt.Types.{VkHashCheck, VkHashEntry, VkHashCheckResult}
use pwdtt.Registry.{Registry, find_vk_hash_by_id}
use pwdtt.Registry.Removal.{find_by_id_some, find_by_id-set}
use pwdtt.Backend.{
  Env, Backend, M, ◌>>=◌, ◌>>◌, pure, load_registry, save_registry, load_profile, connection_active,
}
use pwdtt.Backend.Bind.{>>=-eq-ok}
use pwdtt.Backend.Checks.{
  is_vk_hash_check_fresh, ProbeResult, probed, run_probe, store_check, loaded_entry, record_check,
  settled, check_of, check_result, check_vk_hash_probe, stored_vk_hash_check, status_error,
  status_canceled,
}

abbrev lifetime : VkHashCheck → ℕ
lifetime c = if c.status ≗ status_error then 300_000_000_000 else 14_400_000_000_000

-- A check is fresh exactly from its own time on, for four hours, or for five minutes if it ended in
-- an error; a check at time 0 never is. Times are in nanoseconds.
pub is_vk_hash_check_fresh_iff :
    (c : VkHashCheck) (now : ℕ)
    → (is_vk_hash_check_fresh c now ≡ true) ↔ (
        (0 < c.checked_at)
        × (c.checked_at * 1_000_000 ≤ now)
        × (now < c.checked_at * 1_000_000 + lifetime c))
unfolding is_vk_hash_check_fresh
is_vk_hash_check_fresh_iff c now = ground arith

get_elem?-set_at :
    (r : Registry) (i : ℕ) (e v : VkHashEntry)
    → get_elem? r i ≡ some e
    → get_elem? (set r i v) i ≡ some v
get_elem?-set_at [] i e v h = absurd (ground arith)
get_elem?-set_at (x ∷ r) zero e v h = refl
get_elem?-set_at (x ∷ r) (suc i) e v h = get_elem?-set_at r i e v h

stored_at :
    (id name : Text) (c : VkHashCheck) (b : Backend) (i : ℕ) (e : VkHashEntry)
    → b.readable ≡ true
    → find_vk_hash_by_id b.registry id ≡ some i
    → get_elem? b.registry i ≡ some e
    → lookup name e.checks ≡ some c
    → stored_vk_hash_check id name b ≡ some c
unfolding stored_vk_hash_check
stored_at id name c b i e r f g l = ground arith

-- What storing a check writes.
record_check_writes :
    (id name : Text) (c : VkHashCheck) (b b' : Backend) (i : ℕ) (e : VkHashEntry)
    → find_vk_hash_by_id b.registry id ≡ some i
    → get_elem? b.registry i ≡ some e
    → record_check id name c b ≡ (ok tt, b')
    → (b'.readable ≡ true) × (b'.registry ≡ set b.registry i (store_check name c e))
unfolding record_check load_registry save_registry
record_check_writes id name c b b' i e f g h = ground arith

-- An entry that is gone stays gone.
record_check_gone :
    (id name : Text) (c : VkHashCheck) (b b' : Backend)
    → find_vk_hash_by_id b.registry id ≡ none
    → record_check id name c b ≡ (ok tt, b')
    → b' ≡ b
unfolding record_check load_registry
record_check_gone id name c b b' gone h = ground arith

lookup-store_check :
    (name : Text) (c : VkHashCheck) (e : VkHashEntry)
    → lookup name (store_check name c e).checks ≡ some c
unfolding store_check
lookup-store_check name c e = lookup-insert name name c e.checks ∙ rw (≗_refl name)

store_check_id :
    (name : Text) (c : VkHashCheck) (e : VkHashEntry) → (store_check name c e).id ≡ e.id
unfolding store_check
store_check_id name c e = refl

stored-record_check :
    (id name : Text) (c : VkHashCheck) (b b' : Backend) (i : ℕ)
    → find_vk_hash_by_id b.registry id ≡ some i
    → record_check id name c b ≡ (ok tt, b')
    → stored_vk_hash_check id name b' ≡ some c
stored-record_check id name c b b' i found h =
    let (e, at, same, known) = find_by_id_some b.registry id i found in
    let (readable, written) = record_check_writes id name c b b' i e found at h in
    let v = store_check name c e in
    stored_at id name c b' i v readable
      (rw written (find_by_id-set b.registry id i v found (store_check_id name c e ∙ same)))
      (rw written (get_elem?-set_at b.registry i e v at)) (lookup-store_check name c e)

-- The probe's part before the check is stored changes nothing.
loaded_entry_found :
    (id : Text) (b b' : Backend) (e : VkHashEntry)
    → loaded_entry id b ≡ (ok e, b')
    → (i : ℕ) × (find_vk_hash_by_id b.registry id ≡ some i) × (b' ≡ b)
unfolding loaded_entry load_registry
loaded_entry_found id b b' e h = elim (Option-cases (find_vk_hash_by_id b.registry id)) [
  | inl nowhere ↦ absurd (ground arith)
  | inr (i, found) ↦ (i, found, ground arith)
]

load_profile_keeps : (env : Env) (name : Text) (b : Backend) → (load_profile env name b).1 ≡ b
unfolding load_profile
load_profile_keeps env name b = ground arith

-- The part of the probe behind the loads.
module _ (id name : Text) (probe : ProbeResult) (result : VkHashCheckResult) where
  abbrev conclude : M VkHashCheckResult
  conclude =
      if probe.error_type ≗ codes "canceled"
      then pure (record result { status = status_canceled })
      else do record_check id name (check_of (settled result)); pure (settled result)

  conclude_stored :
      (b b' : Backend) (r : VkHashCheckResult)
      → conclude b ≡ (ok r, b')
      → ((r.status ≡ status_canceled) × (b' ≡ b))
        ⊎ ((find_vk_hash_by_id b.registry id ≡ none) × (b' ≡ b))
        ⊎ (stored_vk_hash_check id name b' ≡ some (check_of r))
  conclude_stored b b' r h = elim (Bool-cases (probe.error_type ≗ codes "canceled")) [
    | inl c ↦ let e = rw c at h in inl (ground arith, ground arith)
    | inr c ↦
        let (done, b₁, written, out) =
          >>=-eq-ok (record_check id name (check_of (settled result))) (λ _. pure (settled result))
            b (rw c at h) in
        let same : r ≡ settled result = ground arith in
        let after : b₁ ≡ b' = ground arith in
        inr (elim (Option-cases (find_vk_hash_by_id b.registry id)) [
          | inl gone ↦ inl (
            gone,
            sym after ∙ record_check_gone id name (check_of (settled result)) b b₁ gone written,
          )
          | inr (i, found) ↦ inr (
              rw (same, ← after)
                (stored-record_check id name (check_of (settled result)) b b₁ i found written))
        ])
  ]

-- Unless a connection runs, the probe is the two loads, the probe proper and that part.
probe_idle :
    (env : Env) (probe : ProbeResult) (id name : Text) (b : Backend)
    → b.running ≡ false
    → check_vk_hash_probe env probe id name b
      ≡ (loaded_entry id >>= λ e. load_profile env name >>= λ p.
            run_probe probe >>= λ _. conclude id name probe (check_result id e.hash name probe))
          b
unfolding check_vk_hash_probe
probe_idle env probe id name b idle = ground arith

probe_busy :
    (env : Env) (probe : ProbeResult) (id name : Text) (b : Backend)
    → b.running ≡ true
    → check_vk_hash_probe env probe id name b ≡ (err connection_active, b)
unfolding check_vk_hash_probe
probe_busy env probe id name b busy = ground arith

-- Whatever other operations do to the registry while the probe runs: when `checkVKHashProbe` returns
-- a result, the entry was there at first, and either the probe was canceled, or the entry is gone by
-- then, and nothing is written in both cases; or the check that is stored for the hash and the
-- profile afterwards is the one returned.
pub check_vk_hash_probe_stored :
    (env : Env) (probe : ProbeResult) (id name : Text) (b b' : Backend) (r : VkHashCheckResult)
    → check_vk_hash_probe env probe id name b ≡ (ok r, b')
    → ((i : ℕ) × (find_vk_hash_by_id b.registry id ≡ some i))
      × (((r.status ≡ status_canceled) × (b' ≡ probed probe b))
          ⊎ ((find_vk_hash_by_id (probe.meanwhile b.registry) id ≡ none) × (b' ≡ probed probe b))
          ⊎ (stored_vk_hash_check id name b' ≡ some (check_of r)))
check_vk_hash_probe_stored env probe id name b b' r h = elim (Bool-cases b.running) [
  | inl busy ↦ let out = sym (probe_busy env probe id name b busy) ∙ h in absurd (ground arith)
  | inr idle ↦
      let (e, b₁, loaded, h₁) =
        >>=-eq-ok (loaded_entry id)
          (λ e. load_profile env name >>= λ p.
            run_probe probe >>= λ _. conclude id name probe (check_result id e.hash name probe))
          b (sym (probe_idle env probe id name b idle) ∙ h) in
      let (p, b₂, profile, h₂) =
        >>=-eq-ok (load_profile env name)
          (λ p. run_probe probe >>= λ _. conclude id name probe (check_result id e.hash name probe))
          b₁ h₁ in
      let (i, found, same₁) = loaded_entry_found id b b₁ e loaded in
      let same₂ : b₂ ≡ b₁ = ap (λ t. t.1) (sym profile) ∙ load_profile_keeps env name b₁ in
      let h₃ : (run_probe probe >>= λ _. conclude id name probe (check_result id e.hash name probe))
            b
          ≡ (ok r, b') =
        rw (same₂, same₁) at h₂ in
      (
        (i, found),
        conclude_stored id name probe (check_result id e.hash name probe) (probed probe b) b' r h₃,
      )
]
