-- ===== src/Backend/Prepare/Verdicts.antt =====
-- The first loop of `prepareVKHashes` against a description by filters.
use mathlib.Core.List.{append_assoc, append-nil}
use pwdtt.Prelude.{
  ℕ, Bool, true, false, not, List, [], ◌∷◌, ◌++◌, map, Option, none, some, if◌then◌else◌, ◌&&◌,
  Bool-cases, Option-cases, inl, inr, ◌≡◌, refl, ap, sym, ◌∙◌, arith,
}
use pwdtt.Prelude.Text.{Text, ◌≗◌, ≗_iff}
use pwdtt.Types.{VkHashEntry, VkHashCheck}
use pwdtt.Registry.Entries.{hashes_of, ids_of}
use pwdtt.Backend.{Backend}
use pwdtt.Backend.Checks.{
  is_vk_hash_check_fresh, stored_vk_hash_check, status_valid, status_invalid, status_error,
}
use pwdtt.Backend.Prepare.{has_recent_error, Sorted, sort_one, sort_candidates}

-- What a stored check says of a hash now.
pub data Verdict : Type 0 where
  works broken recent_error unknown : Verdict

unfoldable pub verdict : ℕ → Option VkHashCheck → Verdict
verdict now none = unknown
verdict now (some check) =
    if not (is_vk_hash_check_fresh check now)
    then unknown
    else if check.status ≗ status_valid
    then works
    else if check.status ≗ status_error
    then recent_error
    else if check.status ≗ status_invalid
    then broken
    else unknown

abbrev pub is_works : Verdict → Bool
is_works works = true
is_works _ = false

abbrev pub is_broken : Verdict → Bool
is_broken broken = true
is_broken _ = false

abbrev pub is_allowed : Verdict → Bool
is_allowed broken = false
is_allowed _ = true

abbrev pub is_recent_error : Verdict → Bool
is_recent_error recent_error = true
is_recent_error _ = false

abbrev pub is_unknown : Verdict → Bool
is_unknown unknown = true
is_unknown _ = false

module _ (b : Backend) (profile_name : Text) (now : ℕ) where
  -- The verdict on a candidate.
  unfoldable pub verdict_of : VkHashEntry → Verdict
  verdict_of e = verdict now (stored_vk_hash_check e.id profile_name b)

  -- The candidates whose verdict passes a test.
  unfoldable pub with_verdict : (Verdict → Bool) → List VkHashEntry → List VkHashEntry
  with_verdict p [] = []
  with_verdict p (e ∷ es) =
      let rest = with_verdict p es in if p (verdict_of e) then e ∷ rest else rest

recent_error_verdict :
    (now : ℕ) (check : VkHashCheck)
    → (is_vk_hash_check_fresh check now && check.status ≗ status_error)
      ≡ is_recent_error (verdict now (some check))
unfolding verdict ◌≗◌
recent_error_verdict now check = elim (Bool-cases (check.status ≗ status_valid)) [
  | inl v ↦
      let same = (≗_iff check.status status_valid).0 v in
      let other : (check.status ≗ status_error) ≡ false = rw same refl in ground (arith, v, other)
  | inr v ↦ ground arith
]

pub recent_error_lem :
    (b : Backend) (name : Text) (now : ℕ) (e : VkHashEntry)
    → has_recent_error b name now e ≡ is_recent_error (verdict_of b name now e)
unfolding has_recent_error verdict_of
recent_error_lem b name now e = elim (Option-cases (stored_vk_hash_check e.id name b)) [
  | inl none_stored ↦ rw (has_recent_error, none_stored) (unfold verdict in refl)
  | inr (check, stored) ↦ rw (has_recent_error, stored) (recent_error_verdict now check)
]

-- One turn, by the verdict.
sort_one_lem :
    (now : ℕ) (c : Option VkHashCheck) (e : VkHashEntry) (s : Sorted)
    → let v = verdict now c in
      let s' = sort_one now c e s in
      (s'.fresh_valid ≡ (if is_works v then s.fresh_valid ++ e.hash ∷ [] else s.fresh_valid))
      × (s'.fallback ≡ (if is_allowed v then s.fallback ++ e ∷ [] else s.fallback))
      × (s'.stale ≡ (if is_unknown v then s.stale ++ e ∷ [] else s.stale))
      × (s'.confirmed_invalid
          ≡ (if is_broken v then s.confirmed_invalid ++ e.id ∷ [] else s.confirmed_invalid))
unfolding sort_one verdict
sort_one_lem now none e s = (refl, refl, refl, refl)
sort_one_lem now (some check) e s = ground arith

-- Taking one more item off the front.
shift {ℓ} :
    {A : Type ℓ} (keep : Bool) (s : List A) (x : A) (rest : List A)
    → (if keep then s ++ x ∷ [] else s) ++ rest ≡ s ++ (if keep then x ∷ rest else rest)
shift true s x rest = append_assoc s (x ∷ []) rest
shift false s x rest = refl

map-if {ℓ κ} :
    {A : Type ℓ} {B : Type κ} (f : A → B) (keep : Bool) (x : A) (rest : List A)
    → map f (if keep then x ∷ rest else rest) ≡ (if keep then f x ∷ map f rest else map f rest)
map-if f true x rest = refl
map-if f false x rest = refl

-- The loop sorts the candidates by verdict, in order: hashes that work, all that are not known to
-- be broken, those that have to be probed, and the identifiers of the broken ones.
pub sort_candidates_lem :
    (b : Backend) (profile_name : Text) (now : ℕ) (es : List VkHashEntry) (s : Sorted)
    → let s' = sort_candidates b profile_name now es s in
      let those = λ (p : Verdict → Bool). with_verdict b profile_name now p es in
      (s'.fresh_valid ≡ s.fresh_valid ++ hashes_of (those is_works))
      × (s'.fallback ≡ s.fallback ++ those is_allowed)
      × (s'.stale ≡ s.stale ++ those is_unknown)
      × (s'.confirmed_invalid ≡ s.confirmed_invalid ++ ids_of (those is_broken))
unfolding sort_candidates with_verdict verdict_of
sort_candidates_lem b profile_name now [] s =
    (sym (append-nil _), sym (append-nil _), sym (append-nil _), sym (append-nil _))
sort_candidates_lem b profile_name now (e ∷ es) s =
    let c = stored_vk_hash_check e.id profile_name b in
    let v = verdict now c in
    let (w, a, u, k) = sort_one_lem now c e s in
    let (w', a', u', k') = sort_candidates_lem b profile_name now es (sort_one now c e s) in
    let of = λ (p : Verdict → Bool). with_verdict b profile_name now p es in
    (
      w'
          ∙ ap (λ t. t ++ hashes_of (of is_works)) w
          ∙ shift (is_works v) s.fresh_valid e.hash (hashes_of (of is_works))
          ∙ ap (λ t. s.fresh_valid ++ t) (sym (map-if (λ x. x.hash) (is_works v) e (of is_works))),
      a' ∙ ap (λ t. t ++ of is_allowed) a ∙ shift (is_allowed v) s.fallback e (of is_allowed),
      u' ∙ ap (λ t. t ++ of is_unknown) u ∙ shift (is_unknown v) s.stale e (of is_unknown),
      k'
          ∙ ap (λ t. t ++ ids_of (of is_broken)) k
          ∙ shift (is_broken v) s.confirmed_invalid e.id (ids_of (of is_broken))
          ∙ ap (λ t. s.confirmed_invalid ++ t)
              (sym (map-if (λ x. x.id) (is_broken v) e (of is_broken))),
    )
