-- ===== src/Backend/Prepare/Pending.antt =====
-- The stale candidates that wait for a probe, and the identifiers that are confirmed invalid.
use pwdtt.Prelude.{
  ℕ, Bool, true, false, Bool-cases, List, [], ◌∷◌, ◌++◌, map, All, All-map, ◌≡◌, refl, arith, inl,
  inr,
}
use pwdtt.Prelude.Text.{Text, ≗_iff, ≗_refl}
use pwdtt.Prelude.TextSet.{mem_text, mem_text-append, Distinct, Within}
use pwdtt.Types.{VkHashEntry}
use pwdtt.Registry.Entries.{hashes_of, ids_of}
use pwdtt.Backend.{Backend}
use pwdtt.Backend.Prepare.Known.{Stands, Stands-head, Stands-tail}
use pwdtt.Backend.Prepare.{has_any, not_invalid}
use pwdtt.Backend.Prepare.Verdicts.{Verdict, verdict_of, with_verdict}

pub mem_text-head : (t : Text) (ts : List Text) → mem_text t (t ∷ ts) ≡ true
unfolding mem_text
mem_text-head t ts = rw (≗_refl t)

mem_text-tail : (t u : Text) (ts : List Text) → mem_text t ts ≡ true → mem_text t (u ∷ ts) ≡ true
unfolding mem_text
mem_text-tail t u ts h = ground arith

-- Filters keep what a wider one keeps, whatever is read off the entries.
pub with_verdict-Within :
    (f : VkHashEntry → Text) (b : Backend) (name : Text) (now : ℕ) (p q : Verdict → Bool)
    → ((v : Verdict) → p v ≡ true → q v ≡ true)
    → (es : List VkHashEntry)
    → Within (map f (with_verdict b name now p es)) (map f (with_verdict b name now q es))
unfolding with_verdict mem_text
with_verdict-Within f b name now p q h [] t m = m
with_verdict-Within f b name now p q h (e ∷ es) t m =
    ground (arith, h (verdict_of b name now e), with_verdict-Within f b name now p q h es t)

mem_text-with_verdict :
    (f : VkHashEntry → Text) (b : Backend) (name : Text) (now : ℕ) (p : Verdict → Bool)
    (es : List VkHashEntry)
    → Within (map f (with_verdict b name now p es)) (map f es)
unfolding with_verdict mem_text
mem_text-with_verdict f b name now p [] t m = m
mem_text-with_verdict f b name now p (e ∷ es) t m =
    ground (arith, mem_text-with_verdict f b name now p es t)

pub Distinct-with_verdict :
    (f : VkHashEntry → Text) (b : Backend) (name : Text) (now : ℕ) (p : Verdict → Bool)
    (es : List VkHashEntry)
    → Distinct (map f es)
    → Distinct (map f (with_verdict b name now p es))
unfolding with_verdict
Distinct-with_verdict f b name now p [] d = tt
Distinct-with_verdict f b name now p (e ∷ es) d = elim (Bool-cases (p (verdict_of b name now e))) [
  | inl keep ↦ rw keep (
    ground (arith, mem_text-with_verdict f b name now p es (f e), d.0),
    Distinct-with_verdict f b name now p es d.1,
  )
  | inr drop ↦ rw drop (Distinct-with_verdict f b name now p es d.1)
]

-- Filters that exclude each other share no entry.
pub with_verdict_apart :
    (f : VkHashEntry → Text) (b : Backend) (name : Text) (now : ℕ) (p q : Verdict → Bool)
    → ((v : Verdict) → p v ≡ true → q v ≡ false)
    → (es : List VkHashEntry) → Distinct (map f es)
    → (t : Text) → mem_text t (map f (with_verdict b name now p es)) ≡ true
    → mem_text t (map f (with_verdict b name now q es)) ≡ false
unfolding with_verdict mem_text
with_verdict_apart f b name now p q h [] d t m = refl
with_verdict_apart f b name now p q h (e ∷ es) d t m = ground (
  arith,
  h (verdict_of b name now e),
  with_verdict_apart f b name now p q h es d.1 t,
  mem_text-with_verdict f b name now p es t,
  mem_text-with_verdict f b name now q es t,
  ≗_iff t (f e),
  d.0,
)

-- What a filter keeps stands among what a wider one keeps.
pub with_verdict-Stands :
    (b : Backend) (name : Text) (now : ℕ) (p q : Verdict → Bool)
    → ((v : Verdict) → p v ≡ true → q v ≡ true)
    → (es : List VkHashEntry)
    → All (Stands (with_verdict b name now q es)) (with_verdict b name now p es)
unfolding with_verdict
with_verdict-Stands b name now p q h [] = tt
with_verdict-Stands b name now p q h (e ∷ es) =
    let rest = with_verdict-Stands b name now p q h es in
    let kept = with_verdict b name now q es in
    elim (Bool-cases (q (verdict_of b name now e))) [
      | inr drop ↦
          let not_p : p (verdict_of b name now e) ≡ false =
            ground (arith, h (verdict_of b name now e), drop) in
          rw (drop, not_p) rest
      | inl keep ↦
          let wider =
            All-map (Stands kept) (Stands (e ∷ kept)) (λ u s. Stands-tail e u kept s)
              (with_verdict b name now p es) rest in
          elim (Bool-cases (p (verdict_of b name now e))) [
            | inl too ↦ rw (keep, too) (Stands-head e kept, wider)
            | inr only ↦ rw (keep, only) wider
          ]
    ]

-- What holds before each probe.
pub record Pending (fallback : List VkHashEntry) (invalid : List Text) (es : List VkHashEntry)
    : Type 0 where
  pub distinct : Distinct (ids_of es)
  pub apart : (t : Text) → mem_text t (ids_of es) ≡ true → mem_text t invalid ≡ false
  pub ids_within : Within (ids_of es) (ids_of fallback)
  pub hashes_within : Within (hashes_of es) (hashes_of fallback)
  pub standing : All (Stands fallback) es

pub Pending-tail :
    (fallback : List VkHashEntry) (invalid : List Text) (e : VkHashEntry) (es : List VkHashEntry)
    → Pending fallback invalid (e ∷ es)
    → Pending fallback invalid es
Pending-tail fallback invalid e es h = record {
  distinct = h.distinct.1;
  apart = λ t m. h.apart t (mem_text-tail t e.id (ids_of es) m);
  ids_within = λ t m. h.ids_within t (mem_text-tail t e.id (ids_of es) m);
  hashes_within = λ t m. h.hashes_within t (mem_text-tail t e.hash (hashes_of es) m);
  standing = h.standing.1;
}

-- The candidate in front was found invalid.
pub Pending-invalid :
    (fallback : List VkHashEntry) (invalid : List Text) (e : VkHashEntry) (es : List VkHashEntry)
    → Pending fallback invalid (e ∷ es)
    → Pending fallback (invalid ++ e.id ∷ []) es
unfolding mem_text
Pending-invalid fallback invalid e es h =
    let rest = Pending-tail fallback invalid e es h in
    record {
      distinct = rest.distinct;
      apart = λ t m. ground (
        arith,
        rest.apart t m,
        mem_text-append t invalid (e.id ∷ []),
        ≗_iff t e.id,
        h.distinct.0,
      );
      ids_within = rest.ids_within;
      hashes_within = rest.hashes_within;
      standing = rest.standing;
    }

-- An entry that is not confirmed invalid is left.
pub not_invalid_left :
    (invalid : List Text) (es : List VkHashEntry) (t : Text)
    → mem_text t (ids_of es) ≡ true
    → mem_text t invalid ≡ false
    → has_any (not_invalid invalid es) ≡ true
unfolding mem_text not_invalid
not_invalid_left invalid [] t m n = cc
not_invalid_left invalid (e ∷ es) t m n =
    ground (arith, not_invalid_left invalid es t, ≗_iff t e.id)
