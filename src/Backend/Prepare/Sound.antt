-- ===== src/Backend/Prepare/Sound.antt =====
-- Which hashes `prepareVKHashes` may answer with.

use pwdtt.Prelude.{
  ℕ, ◌+◌, ◌<◌, leb, not, ◌||◌, ◌++◌, Result-cases, Bool, true, false, Bool-cases, List, [], ◌∷◌,
  Option, none, some, Result, ok, err, if◌then◌else◌, ◌≡◌, ◌≢◌, ◌⊎◌, inl, inr, refl, sym, ◌∙◌,
  arith,
}
use pwdtt.Prelude.Text.{Text, ≗_refl}
use pwdtt.Prelude.TextSet.{
  mem_text, Distinct, Within, unique_onto, unique_onto-Distinct, mem_text-unique_onto,
}
use pwdtt.Types.{VkHashEntry, VkHashPolicy}
use pwdtt.Registry.Entries.{hashes_of, ids_of}
use pwdtt.Backend.{parent_canceled, Env, Backend, BackendError}
use pwdtt.Backend.Replace.{replace_vk_hash_with_context}
use pwdtt.Backend.Prepare.Known.{apart_from}
use pwdtt.Backend.Prepare.Pending.{
  with_verdict-Stands, Pending, mem_text-head, with_verdict-Within, with_verdict_apart,
  Distinct-with_verdict,
}
use pwdtt.Backend.Candidates.{unique_vk_hashes, hashes_from_entries}
use pwdtt.Backend.Prepare.{
  Preflight, Sorted, Probed, answer, failed, ended, not_invalid, after_probes, any_recent_error,
  replace_invalid, decide_hashes, sort_candidates, nothing_sorted, has_any, after_replacement,
}
use pwdtt.Backend.Prepare.Verdicts.{
  with_verdict, is_works, is_recent_error, recent_error_lem, is_allowed, is_unknown, is_broken,
  sort_candidates_lem,
}
use pwdtt.Backend.Prepare.Answers.{
  works→allowed, unknown→allowed, unknown_not_broken, IsAnswer, entries-IsAnswer,
  not_invalid-apart_from, hashes_from_entries-ne-nil, probe_stale-Answers, Answers, found_invalid,
}

module _ (env : Env) (x : Preflight) (name : Text) (candidates : List VkHashEntry) where
  -- The one hash of a replacement: that of the new entry which the replacement of a candidate that is
  -- known to be invalid gives, the first or the second one, and the state is what it leaves.
  pub record Replaced (bad hs : List Text) (after : Backend) : Type 0 where
    tries : ℕ
    old : VkHashEntry
    before : Backend
    new : VkHashEntry
    below : tries < 2
    candidate : mem_text old.id (ids_of candidates) ≡ true
    known : mem_text old.id bad ≡ true
    replaces :
        (replace_vk_hash_with_context env (x.replacements tries) old.id name before).0 ≡ ok new
    leaves : (replace_vk_hash_with_context env (x.replacements tries) old.id name before).1 ≡ after
    only : hs ≡ new.hash ∷ []

  -- An answer is about the entries that may be used, or it is one replacement.
  abbrev pub Prepared :
      Bool → List VkHashEntry → List Text → Result BackendError (List Text) × Backend → Type 0
  Prepared auto es bad (ok hs, after) =
      (IsAnswer es hs × (hs ≢ [])) ⊎ ((auto ≡ true) × Replaced bad hs after)
  Prepared auto es bad (err why, after) = Unit

  -- What the loop of replacements finds.
  abbrev Found : List Text → (Option Text × Bool) × Backend → Type 0
  Found bad ((none, tried), after) = Unit
  Found bad ((some hash, tried), after) = Replaced bad (hash ∷ []) after

  replace_invalid-Found :
      (bad : List Text) (n : ℕ) (tried : Bool) (es : List VkHashEntry) (b : Backend)
      → Within (ids_of es) (ids_of candidates)
      → Found bad (replace_invalid env x name bad n tried es b)
  unfolding replace_invalid mem_text
  replace_invalid-Found bad n tried [] b w = tt
  replace_invalid-Found bad n tried (e ∷ es) b w =
      let (replaced, b') = replace_vk_hash_with_context env (x.replacements n) e.id name b in
      let tail : Within (ids_of es) (ids_of candidates) = λ t m. w t (ground (arith, m)) in
      elim (Bool-cases (not (mem_text e.id bad) || leb 2 n)) [
        | inl skip ↦ rw skip (replace_invalid-Found bad n tried es b tail)
        | inr goes ↦ elim (Bool-cases (x.replace_ended n)) [
          | inl over ↦ rw (goes, over) tt
          | inr time ↦ elim (Result-cases replaced) [
            | inr (why, bad_luck) ↦
                rw (goes, time, bad_luck) (replace_invalid-Found bad (n + 1) true es b' tail)
            | inl (fresh, good) ↦
                rw (goes, time, good)
                  (record {
                    tries = n;
                    old = e;
                    before = b;
                    new = fresh;
                    below = ground (arith, goes);
                    candidate = w e.id (rw (≗_refl e.id) refl);
                    known = ground (arith, goes);
                    replaces = good;
                    leaves = refl;
                    only = refl;
                  })
          ]
        ]
      ]

  after_replacement-Prepared :
      (auto : Bool) (es : List VkHashEntry) (bad : List Text)
      (tried : (Option Text × Bool) × Backend)
      → (tried.0.0 ≢ none → auto ≡ true)
      → Found bad tried
      → Prepared auto es bad (after_replacement x tried)
  unfolding after_replacement
  after_replacement-Prepared auto es bad ((some hash, failing), b) h f = inr (h (λ e. cc), f)
  after_replacement-Prepared auto es bad ((none, failing), b) h f = ground arith

  maybe_replaced-Prepared :
      (auto : Bool) (es : List VkHashEntry) (bad : List Text) (b : Backend)
      (attempts : (Option Text × Bool) × Backend)
      → Found bad attempts
      → Prepared auto es bad (after_replacement x (if auto then attempts else ((none, false), b)))
  maybe_replaced-Prepared true es bad b attempts f =
      after_replacement-Prepared true es bad attempts (λ _. refl) f
  maybe_replaced-Prepared false es bad b attempts f =
      after_replacement-Prepared false es bad ((none, false), b) (λ h. absurd (h refl)) tt

  -- The three ways on.
  after_probes_cases :
      (policy : VkHashPolicy) (fallback : List VkHashEntry) (bad : List Text) (b : Backend)
      → let usable = not_invalid bad fallback in
        let r = after_probes env x policy name candidates fallback bad b in
        (r ≡ (err parent_canceled, b))
        ⊎ ((has_any usable ≡ true) × (r ≡ (ok (hashes_from_entries usable), b)))
        ⊎ (r
            ≡ after_replacement x (
                if policy.auto_replace
                then replace_invalid env x name bad 0 false candidates b
                else ((none, false), b)))
  unfolding after_probes
  after_probes_cases policy fallback bad b = ground arith

  after_probes-Prepared :
      (policy : VkHashPolicy) (fallback : List VkHashEntry) (bad : List Text) (b : Backend)
      → Prepared policy.auto_replace
          (apart_from bad fallback)
          bad
          (after_probes env x policy name candidates fallback bad b)
  after_probes-Prepared policy fallback bad b = elim (after_probes_cases policy fallback bad b) [
    | inl over ↦ rw over tt
    | inr (inl (some_left, usable)) ↦ rw usable (
        inl (
          rw (not_invalid-apart_from bad fallback)
              (entries-IsAnswer (apart_from bad fallback) (apart_from bad fallback) (λ t m. m)),
          hashes_from_entries-ne-nil (not_invalid bad fallback) some_left,
        ))
    | inr (inr replaced) ↦ rw replaced (
        maybe_replaced-Prepared policy.auto_replace (apart_from bad fallback) bad b _
          (replace_invalid-Found bad 0 false candidates b (λ t m. m)))
  ]

unique-IsAnswer :
    (es : List VkHashEntry) (hs : List Text)
    → Within hs (hashes_of es)
    → has_any hs ≡ true
    → IsAnswer es (unique_vk_hashes hs) × (unique_vk_hashes hs ≢ [])
unfolding unique_vk_hashes mem_text
unique-IsAnswer es [] w h = cc
unique-IsAnswer es (t ∷ ts) w h =
    let there : mem_text t (unique_onto [] (t ∷ ts)) ≡ true =
      mem_text-unique_onto t [] (t ∷ ts) ∙ mem_text-head t ts in
    (
      record {
        distinct = unique_onto-Distinct [] (t ∷ ts) tt;
        within = λ u m. w u (sym (mem_text-unique_onto u [] (t ∷ ts)) ∙ m);
      },
      λ z. cc (rw z at there),
    )

-- The candidates with a recent error are those that the first loop keeps with one.
any_recent_error-with_verdict :
    (b : Backend) (name : Text) (now : ℕ) (es : List VkHashEntry)
    → any_recent_error b name now (with_verdict b name now is_allowed es)
      ≡ has_any (with_verdict b name now is_recent_error es)
unfolding any_recent_error with_verdict
any_recent_error-with_verdict b name now [] = refl
any_recent_error-with_verdict b name now (e ∷ es) =
    ground (arith, recent_error_lem b name now e, any_recent_error-with_verdict b name now es)

any_recent_error-has_any :
    (b : Backend) (name : Text) (now : ℕ) (es : List VkHashEntry)
    → any_recent_error b name now es ≡ true
    → has_any es ≡ true
unfolding any_recent_error
any_recent_error-has_any b name now [] h = h
any_recent_error-has_any b name now (e ∷ es) h = refl

-- Whether the stored checks give the answer, so that nothing is probed.
abbrev settled_by : Backend → Text → ℕ → Sorted → Bool
settled_by b name now s = has_any s.fresh_valid || any_recent_error b name now s.fallback

-- The identifiers that are known to be invalid when the probes are over.
abbrev known_invalid : Env → Preflight → Text → Sorted → Backend → List Text
known_invalid env x name s b = s.confirmed_invalid ++ found_invalid env x name 0 s.stale b

module _ (env : Env) (x : Preflight) (name : Text) (candidates : List VkHashEntry) where
  -- The end of `decide_hashes`, on how the probes ended.
  probed-Prepared :
      (policy : VkHashPolicy) (fallback : List VkHashEntry) (bad : List Text) (b' : Backend)
      (probed : Probed)
      → Answers env x name fallback bad probed
      → let out : Result BackendError (List Text) × Backend = elim probed [
        | answer hs ↦ (ok hs, b')
        | failed why ↦ (err why, b')
        | ended invalid ↦ after_probes env x policy name candidates fallback invalid b'
      ] in
        Prepared env x name candidates policy.auto_replace (apart_from bad fallback) bad out
  probed-Prepared policy fallback bad b' (answer hs) h = inl h
  probed-Prepared policy fallback bad b' (failed why) h = tt
  probed-Prepared policy fallback bad b' (ended invalid) h =
      rw h (after_probes-Prepared env x name candidates policy fallback bad b')

  decide_hashes-Prepared :
      (now : ℕ) (policy : VkHashPolicy) (s : Sorted) (b : Backend)
      → Within s.fresh_valid (hashes_of s.fallback)
      → Pending s.fallback s.confirmed_invalid s.stale
      → let bad = known_invalid env x name s b in
        Prepared env x name candidates policy.auto_replace
          (if settled_by b name now s then s.fallback else apart_from bad s.fallback)
          bad
          (decide_hashes env x now policy name candidates s b)
  unfolding decide_hashes
  decide_hashes-Prepared now policy s b v w = elim (Bool-cases (has_any s.fresh_valid)) [
    | inl cached ↦ rw cached (inl (unique-IsAnswer s.fallback s.fresh_valid v cached))
    | inr uncached ↦ rw uncached (elim (Bool-cases (any_recent_error b name now s.fallback)) [
      | inl recent ↦ rw recent (
          inl (
            entries-IsAnswer s.fallback s.fallback (λ t m. m),
            hashes_from_entries-ne-nil s.fallback
                (any_recent_error-has_any b name now s.fallback recent),
          ))
      | inr none_recent ↦ rw none_recent (
          probed-Prepared policy s.fallback (known_invalid env x name s b) _ _
            (probe_stale-Answers env x name s.fallback 0 s.confirmed_invalid s.stale b w))
    ])
  ]

-- The stored checks give the answer, so that nothing is probed: one says "valid", or "error" lately.
abbrev pub is_settled : Backend → Text → ℕ → List VkHashEntry → Bool
is_settled b name now candidates =
    has_any (with_verdict b name now is_works candidates)
    || has_any (with_verdict b name now is_recent_error candidates)

-- The identifiers of candidates whose stored check is a fresh "invalid", and of those whose probe is.
abbrev pub ruled_out : Env → Preflight → Text → ℕ → List VkHashEntry → Backend → List Text
ruled_out env x name now candidates b =
    ids_of (with_verdict b name now is_broken candidates)
    ++ found_invalid env x name 0 (with_verdict b name now is_unknown candidates) b

-- The candidates that an answer may be about.
abbrev pub usable : Env → Preflight → Text → ℕ → List VkHashEntry → Backend → List VkHashEntry
usable env x name now candidates b =
    let allowed = with_verdict b name now is_allowed candidates in
    if is_settled b name now candidates
    then allowed
    else apart_from (ruled_out env x name now candidates b) allowed

has_any-hashes_of : (es : List VkHashEntry) → has_any (hashes_of es) ≡ has_any es
has_any-hashes_of [] = refl
has_any-hashes_of (e ∷ es) = refl

-- Whatever the stored checks, the probes and the deadlines: an answer of the preflight over
-- candidates with distinct identifiers is never empty and has no hash twice, and each of its hashes
-- is a candidate's whose stored check is not a fresh "invalid", nor, if probes are made, a probe's
-- result. Or else the policy has automatic replacement, and the answer is the one hash that the first
-- or second replacement of a candidate gives which a stored check or a probe has found invalid.
pub decide_hashes-sort_candidates :
    (env : Env) (x : Preflight) (now : ℕ) (policy : VkHashPolicy) (name : Text)
    (candidates : List VkHashEntry) (b : Backend)
    → Distinct (ids_of candidates)
    → Prepared env x name candidates policy.auto_replace
        (usable env x name now candidates b)
        (ruled_out env x name now candidates b)
        (decide_hashes env x now policy name candidates
          (sort_candidates b name now candidates nothing_sorted)
          b)
decide_hashes-sort_candidates env x now policy name candidates b d =
    let s = sort_candidates b name now candidates nothing_sorted in
    let (w, a, u, k) = sort_candidates_lem b name now candidates nothing_sorted in
    let pending : Pending s.fallback s.confirmed_invalid s.stale = record {
      distinct = rw u (Distinct-with_verdict (λ e. e.id) b name now is_unknown candidates d);
      apart =
          rw (u, k)
            (with_verdict_apart (λ e. e.id) b name now is_unknown is_broken unknown_not_broken
              candidates d);
      ids_within =
          rw (u, a)
            (with_verdict-Within (λ e. e.id) b name now is_unknown is_allowed unknown→allowed
              candidates);
      hashes_within =
          rw (u, a)
            (with_verdict-Within (λ e. e.hash) b name now is_unknown is_allowed unknown→allowed
              candidates);
      standing =
          rw (u, a)
            (with_verdict-Stands b name now is_unknown is_allowed unknown→allowed candidates);
    } in
    let cached : Within s.fresh_valid (hashes_of s.fallback) =
      rw (w, a)
        (with_verdict-Within (λ e. e.hash) b name now is_works is_allowed works→allowed
          candidates) in
    let bad : known_invalid env x name s b ≡ ruled_out env x name now candidates b =
      rw (k, u) refl in
    let same : settled_by b name now s ≡ is_settled b name now candidates =
      rw
        (
          w,
          a,
          has_any-hashes_of (with_verdict b name now is_works candidates),
          any_recent_error-with_verdict b name now candidates,
        )
        refl in
    rw (← bad, ← same, ← a)
      (decide_hashes-Prepared env x name candidates now policy s b cached pending)

has_any-map : (es : List VkHashEntry) → es ≢ [] → has_any (hashes_of es) ≡ true
has_any-map [] h = absurd (h refl)
has_any-map (e ∷ es) h = refl

-- If a candidate's stored check is fresh and "valid", the preflight answers with the hashes of exactly
-- the candidates of which that holds, each hash once, and it neither probes nor writes anything.
pub decide_hashes_cached :
    (env : Env) (x : Preflight) (now : ℕ) (policy : VkHashPolicy) (name : Text)
    (candidates : List VkHashEntry) (b : Backend)
    → with_verdict b name now is_works candidates ≢ []
    → (hs : List Text) × (decide_hashes env x now policy name candidates
          (sort_candidates b name now candidates nothing_sorted)
          b
        ≡ (ok hs, b))
      × Distinct hs
      × ((t : Text)
          → mem_text t hs ≡ mem_text t (hashes_of (with_verdict b name now is_works candidates)))
unfolding decide_hashes unique_vk_hashes mem_text
decide_hashes_cached env x now policy name candidates b h =
    let works = hashes_of (with_verdict b name now is_works candidates) in
    let (w, a, u, k) = sort_candidates_lem b name now candidates nothing_sorted in
    (
      unique_onto [] works,
      rw (w, has_any-map (with_verdict b name now is_works candidates) h) refl,
      unique_onto-Distinct [] works tt,
      λ t. mem_text-unique_onto t [] works,
    )
