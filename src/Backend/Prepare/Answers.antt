-- ===== src/Backend/Prepare/Answers.antt =====
-- Answers of the preflight: distinct hashes of candidates, at least one.

use pwdtt.Prelude.{
  ℕ, ◌+◌, true, false, Bool-cases, Result-cases, List, [], ◌∷◌, ◌++◌, ◌||◌, if◌then◌else◌, err, ok,
  ◌≡◌, ◌≢◌, inl, inr, refl, sym, ◌∙◌, arith,
}
use mathlib.Core.List.{append_assoc, append-nil}
use pwdtt.Prelude.Text.{Text, ◌≗◌, ≗_iff, ≗_refl}
use pwdtt.Prelude.TextSet.{mem_text, Distinct, Within}
use pwdtt.Types.{VkHashEntry}
use pwdtt.Registry.Entries.{hashes_of, ids_of}
use pwdtt.Backend.{Env, Backend}
use pwdtt.Backend.Checks.{check_vk_hash_coordinated, status_valid, status_error, status_invalid}
use pwdtt.Backend.Prepare.Known.{apart_from}
use pwdtt.Backend.Prepare.Pending.{
  Pending, Pending-tail, Pending-invalid, not_invalid_left, mem_text-head,
}
use pwdtt.Backend.Candidates.{
  hashes_from_entries, hashes_from_entries-Distinct, mem_text-hashes_from_entries,
}
use pwdtt.Backend.Prepare.{
  Preflight, Probed, answer, failed, ended, judge, probe_stale, not_invalid, has_any,
  is_context_error,
}
use pwdtt.Backend.Prepare.Verdicts.{Verdict, is_works, is_allowed, is_unknown, is_broken}

-- No hash twice, and all from the given entries.
pub record IsAnswer (es : List VkHashEntry) (hs : List Text) : Type 0 where
  pub distinct : Distinct hs
  pub within : Within hs (hashes_of es)

pub entries-IsAnswer :
    (es some_es : List VkHashEntry)
    → Within (hashes_of some_es) (hashes_of es)
    → IsAnswer es (hashes_from_entries some_es)
entries-IsAnswer es some_es w = record {
  distinct = hashes_from_entries-Distinct some_es;
  within = λ t h. w t (sym (mem_text-hashes_from_entries t some_es) ∙ h);
}

pub not_invalid-Within :
    (invalid : List Text) (es : List VkHashEntry)
    → Within (hashes_of (not_invalid invalid es)) (hashes_of es)
unfolding not_invalid mem_text
not_invalid-Within invalid [] t h = h
not_invalid-Within invalid (e ∷ es) t h = ground (arith, not_invalid-Within invalid es t)

one-IsAnswer :
    (es : List VkHashEntry) (hash : Text)
    → mem_text hash (hashes_of es) ≡ true
    → IsAnswer es (hash ∷ [])
unfolding mem_text
one-IsAnswer es hash m = record {
  distinct = (refl, tt);
  within = λ t h. let same : t ≡ hash = ground (arith, ≗_iff t hash) in rw same m;
}

pub works→allowed : (v : Verdict) → is_works v ≡ true → is_allowed v ≡ true
works→allowed v h = ground arith

pub unknown→allowed : (v : Verdict) → is_unknown v ≡ true → is_allowed v ≡ true
unknown→allowed v h = ground arith

head_mem : (e : VkHashEntry) (es : List VkHashEntry) → mem_text e.hash (hashes_of (e ∷ es)) ≡ true
unfolding mem_text
head_mem e es = rw (≗_refl e.hash)

tail_mem :
    (t : Text) (e : VkHashEntry) (es : List VkHashEntry)
    → mem_text t (hashes_of es) ≡ true
    → mem_text t (hashes_of (e ∷ es)) ≡ true
unfolding mem_text
tail_mem t e es h = ground arith

-- A list of hashes of entries is empty only if there are no entries.
pub hashes_from_entries-ne-nil :
    (es : List VkHashEntry) → has_any es ≡ true → hashes_from_entries es ≢ []
unfolding mem_text
hashes_from_entries-ne-nil [] h e = cc
hashes_from_entries-ne-nil (e ∷ es) h z =
    let there = mem_text-hashes_from_entries e.hash (e ∷ es) ∙ head_mem e es in cc (rw z at there)

pub unknown_not_broken : (v : Verdict) → is_unknown v ≡ true → is_broken v ≡ false
unknown_not_broken v h = ground arith

pub not_invalid-apart_from :
    (bad : List Text) (es : List VkHashEntry) → not_invalid bad es ≡ apart_from bad es
unfolding not_invalid
not_invalid-apart_from bad [] = refl
not_invalid-apart_from bad (e ∷ es) = ground (arith, not_invalid-apart_from bad es)

-- What a probe with this status adds to the identifiers that are found invalid, where `later` are
-- those that the probes after it find, if there are any.
abbrev pub adds : Text → Text → List Text → List Text
adds status id later =
    if status ≗ status_valid || status ≗ status_error
    then []
    else if status ≗ status_invalid
    then id ∷ later
    else later

module _ (env : Env) (x : Preflight) (name : Text) where
  -- The identifiers that the probes made of these entries, in order, find invalid: until the time is
  -- over, a check fails, or one says "valid" or "error".
  unfoldable pub found_invalid : ℕ → List VkHashEntry → Backend → List Text
  found_invalid n [] b = []
  found_invalid n (e ∷ es) b =
      let (checked, b') = check_vk_hash_coordinated env (x.probes n) e.id name b in
      let later = found_invalid (n + 1) es b' in
      if x.preflight_ended n
      then []
      else elim checked [ err why ↦ [] | ok result ↦ adds result.status e.id later ]

module _ (env : Env) (x : Preflight) (name : Text) (fallback : List VkHashEntry) where
  -- With the identifiers that are known to be invalid at the end.
  abbrev pub Answers : List Text → Probed → Type 0
  Answers bad (answer hs) = IsAnswer (apart_from bad fallback) hs × (hs ≢ [])
  Answers bad (failed why) = Unit
  Answers bad (ended seen) = seen ≡ bad

  abbrev go_on : Probed → (List Text → Probed × Backend) → Backend → Probed × Backend
  go_on j more b' = elim j [
    | ended seen ↦ more seen
    | answer hs ↦ (answer hs, b')
    | failed why ↦ (failed why, b')
  ]

  step-Answers :
      (status : Text) (e : VkHashEntry) (es : List VkHashEntry) (invalid later : List Text)
      (more : List Text → Probed × Backend) (b' : Backend)
      → Pending fallback invalid (e ∷ es)
      → ((seen : List Text) → Pending fallback seen es → Answers (seen ++ later) (more seen).0)
      → Answers
          (invalid ++ adds status e.id later)
          (go_on (judge fallback invalid e status) more b').0
  unfolding judge
  step-Answers status e es invalid later more b' h rec =
      let here = mem_text-head e.id (ids_of es) in
      let left =
        not_invalid_left invalid fallback e.id (h.ids_within e.id here) (h.apart e.id here) in
      let kept = h.standing.0 invalid (h.apart e.id here) in
      let same = not_invalid-apart_from invalid fallback in
      elim (Bool-cases (status ≗ status_valid)) [
        | inl v ↦
            rw (v, append-nil invalid)
              (one-IsAnswer (apart_from invalid fallback) e.hash kept, λ z. ground arith)
        | inr v ↦ elim (Bool-cases (status ≗ status_error)) [
          | inl u ↦
              rw (v, u, append-nil invalid)
                (
                  rw same (
                      entries-IsAnswer (apart_from invalid fallback) (apart_from invalid fallback)
                        (λ t m. m)),
                  hashes_from_entries-ne-nil (not_invalid invalid fallback) left,
                )
          | inr u ↦ elim (Bool-cases (status ≗ status_invalid)) [
            | inl i ↦
                rw (v, u, i, ← append_assoc invalid (e.id ∷ []) later)
                  (rec (invalid ++ e.id ∷ []) (Pending-invalid fallback invalid e es h))
            | inr i ↦ rw (v, u, i) (rec invalid (Pending-tail fallback invalid e es h))
          ]
        ]
      ]

  pub probe_stale-Answers :
      (n : ℕ) (invalid : List Text) (es : List VkHashEntry) (b : Backend)
      → Pending fallback invalid es
      → Answers
          (invalid ++ found_invalid env x name n es b)
          (probe_stale env x name fallback n invalid es b).0
  unfolding probe_stale found_invalid
  probe_stale-Answers n invalid [] b h = sym (append-nil invalid)
  probe_stale-Answers n invalid (e ∷ es) b h =
      let (checked, b') = check_vk_hash_coordinated env (x.probes n) e.id name b in
      elim (Bool-cases (x.preflight_ended n)) [
        | inl over ↦ rw over (sym (append-nil invalid))
        | inr time ↦ rw time (elim (Result-cases checked) [
          | inr (why, bad) ↦ rw bad (elim (Bool-cases (is_context_error why)) [
            | inl c ↦ rw c (sym (append-nil invalid))
            | inr c ↦ rw c tt
          ])
          | inl (result, good) ↦ rw good (
              step-Answers result.status e es invalid (found_invalid env x name (n + 1) es b')
                (λ seen. probe_stale env x name fallback (n + 1) seen es b') b' h
                (λ seen p. probe_stale-Answers (n + 1) seen es b' p))
        ])
      ]
