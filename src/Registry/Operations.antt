-- ===== src/Registry/Operations.antt =====
-- What ensuring, deleting and cleaning up an entry do to the registry.
use pwdtt.Prelude.{
  ℕ, zero, suc, Bool, true, false, Option-cases, Result-cases, List, [], ◌∷◌, ◌++◌, map, Option,
  none, some, Result, ok, err, ◌≡◌, ◌↔◌, ◌⊎◌, refl, inl, inr, ap, arith, get_elem?, set,
  if◌then◌else◌, ◌||◌,
}
use pwdtt.Prelude.Text.{Text, ◌≗◌, ≗_iff, ≗_refl}
use pwdtt.Prelude.TextSet.{mem_text, Distinct-concat}
use pwdtt.Types.{VkHashEntry}
use pwdtt.VkHash.{Url, HashError, normalize_vk_call_hash}
use pwdtt.Registry.{
  Registry, normalize_vk_hash_source, find_vk_hash_by_value, refresh_entry, new_entry,
  ensure_vk_hash_entry,
}
use pwdtt.Registry.Entries.{hashes_of, ids_of, IsRegistry, find_none_mem}
use pwdtt.Registry.Lists.{find_index-some, map-set_same}

pub map-append_one {ℓ κ} :
    {A : Type ℓ} {B : Type κ} (f : A → B) (xs : List A) (x : A)
    → map f (xs ++ x ∷ []) ≡ map f xs ++ f x ∷ []
map-append_one f [] x = refl
map-append_one f (y ∷ xs) x = ap (◌∷◌ (f y)) (map-append_one f xs x)

-- The entry of a known hash as it is returned: the one that stands at a place of the registry, in the
-- pool if that was asked or it was before, with a source if it had none, and written back there.
pub record Kept (hash source : Text) (in_pool : Bool) (r : Registry) (e : VkHashEntry)
    (r' : Registry) : Type 0 where
  index : ℕ
  old : VkHashEntry
  stands : get_elem? r index ≡ some old
  of_hash : old.hash ≡ hash
  entry_is : e ≡ record old {
    in_pool = old.in_pool || in_pool;
    source = if old.source ≗ [] then normalize_vk_hash_source source else old.source;
  }
  stored : r' ≡ set r index e

-- The entry of a new hash, which is appended.
pub record Made (hash id source : Text) (now : ℕ) (in_pool : Bool) (r : Registry) (e : VkHashEntry)
    (r' : Registry) : Type 0 where
  unknown : mem_text hash (hashes_of r) ≡ false
  entry_is : e ≡ record {
    id = id;
    hash = hash;
    source = normalize_vk_hash_source source;
    in_pool = in_pool;
    created_at = now;
    checks = [];
    used_by = [];
  }
  stored : r' ≡ r ++ e ∷ []

-- What `ensureVKHashEntry` promises of the entry and the registry that it returns.
pub record Ensured (hash id source : Text) (now : ℕ) (in_pool : Bool) (r : Registry)
    (e : VkHashEntry) (created : Bool) (r' : Registry) : Type 0 where
  pub outcome :
      ((created ≡ false) × Kept hash source in_pool r e r')
      ⊎ ((created ≡ true) × Made hash id source now in_pool r e r')
  pub pooled : in_pool ≡ true → e.in_pool ≡ true
  new_iff : (created ≡ true) ↔ (mem_text hash (hashes_of r) ≡ false)
  hashes_are : hashes_of r' ≡ (if created then hashes_of r ++ hash ∷ [] else hashes_of r)
  ids_are : ids_of r' ≡ (if created then ids_of r ++ id ∷ [] else ids_of r)

either : (asked old : Bool) → (if asked then true else old) ≡ (old || asked)
either asked old = ground arith

module _ (parse_url : Text → Option Url) (id : Text) (now : ℕ) (raw source : Text) (in_pool : Bool)
    (r : Registry) where
  abbrev ensure : Result HashError (VkHashEntry × Bool × Registry)
  ensure = ensure_vk_hash_entry parse_url id now r raw source in_pool

  ensure_new :
      (hash : Text)
      → normalize_vk_call_hash parse_url raw ≡ ok hash
      → find_vk_hash_by_value r hash ≡ none
      → ensure
        ≡ ok (
          new_entry id now hash source in_pool,
          true,
          r ++ new_entry id now hash source in_pool ∷ [],
        )
  unfolding ensure_vk_hash_entry
  ensure_new hash n f = ground arith

  ensure_old :
      (hash : Text) (i : ℕ) (x : VkHashEntry)
      → normalize_vk_call_hash parse_url raw ≡ ok hash
      → find_vk_hash_by_value r hash ≡ some i
      → get_elem? r i ≡ some x
      → ensure
        ≡ ok (refresh_entry source in_pool x, false, set r i (refresh_entry source in_pool x))
  unfolding ensure_vk_hash_entry
  ensure_old hash i x n f g = ground arith

  ensure_bad : (why : HashError) → normalize_vk_call_hash parse_url raw ≡ err why → ensure ≡ err why
  unfolding ensure_vk_hash_entry
  ensure_bad why n = ground arith

  new-Ensured :
      (hash : Text)
      → find_vk_hash_by_value r hash ≡ none
      → Ensured hash id source now in_pool r
          (new_entry id now hash source in_pool)
          true
          (r ++ new_entry id now hash source in_pool ∷ [])
  unfolding find_vk_hash_by_value new_entry
  new-Ensured hash f = record {
    outcome = inr (
      refl,
      record { unknown = find_none_mem (λ e. e.hash) r hash f; entry_is = refl; stored = refl },
    );
    pooled = λ p. p;
    new_iff = ((λ _. find_none_mem (λ e. e.hash) r hash f), (λ _. refl));
    hashes_are = map-append_one (λ e. e.hash) r _;
    ids_are = map-append_one (λ e. e.id) r _;
  }

  refreshed :
      (x : VkHashEntry)
      → refresh_entry source in_pool x ≡ record x {
        in_pool = x.in_pool || in_pool;
        source = if x.source ≗ [] then normalize_vk_hash_source source else x.source;
      }
  unfolding refresh_entry
  refreshed x =
      ap
        (λ p. record x {
          in_pool = p;
          source = if x.source ≗ [] then normalize_vk_hash_source source else x.source;
        })
        (either in_pool x.in_pool)

  old-Ensured :
      (hash : Text) (i : ℕ) (x : VkHashEntry)
      → get_elem? r i ≡ some x
      → x.hash ≡ hash
      → mem_text hash (hashes_of r) ≡ true
      → Ensured hash id source now in_pool r
          (refresh_entry source in_pool x)
          false
          (set r i (refresh_entry source in_pool x))
  unfolding refresh_entry
  old-Ensured hash i x g h m = record {
    outcome = inl (
      refl,
      record { index = i; old = x; stands = g; of_hash = h; entry_is = refreshed x; stored = refl },
    );
    pooled = λ p. ground arith;
    new_iff = ((λ z. ground arith), (λ z. ground arith));
    hashes_are = map-set_same (λ e. e.hash) r i x _ g refl;
    ids_are = map-set_same (λ e. e.id) r i x _ g refl;
  }

mem_at :
    (r : Registry) (i : ℕ) (x : VkHashEntry)
    → get_elem? r i ≡ some x
    → mem_text x.hash (hashes_of r) ≡ true
unfolding mem_text
mem_at [] i x h = absurd (ground arith)
mem_at (e ∷ r) zero x h = let same : e ≡ x = ground arith in rw same (rw (≗_refl x.hash))
mem_at (e ∷ r) (suc i) x h = rw (mem_at r i x h) (ground arith)

-- `ensureVKHashEntry` fails exactly as the normalisation of the text does. If the hash is not in the
-- registry, it appends a new entry under the new identifier and returns it. If it is, it returns the
-- entry that stands there, put into the pool if that was asked and with a source if it had none, and
-- writes it back in its place: all hashes, identifiers and other entries stay.
pub ensure_vk_hash_entry-Ensured :
    (parse_url : Text → Option Url) (id : Text) (now : ℕ) (raw source : Text) (in_pool : Bool)
    (r : Registry)
    → ((why : HashError) × (normalize_vk_call_hash parse_url raw ≡ err why)
        × (ensure_vk_hash_entry parse_url id now r raw source in_pool ≡ err why))
      ⊎ ((hash : Text) × (e : VkHashEntry) × (created : Bool) × (r' : Registry)
          × (normalize_vk_call_hash parse_url raw ≡ ok hash)
          × (ensure_vk_hash_entry parse_url id now r raw source in_pool ≡ ok (e, created, r'))
          × Ensured hash id source now in_pool r e created r')
unfolding find_vk_hash_by_value
ensure_vk_hash_entry-Ensured parse_url id now raw source in_pool r =
    elim (Result-cases (normalize_vk_call_hash parse_url raw)) [
      | inr (why, bad) ↦ inl (why, bad, ensure_bad parse_url id now raw source in_pool r why bad)
      | inl (hash, good) ↦ elim (Option-cases (find_vk_hash_by_value r hash)) [
        | inl unknown ↦ inr (
          hash,
          new_entry id now hash source in_pool,
          true,
          r ++ new_entry id now hash source in_pool ∷ [],
          good,
          ensure_new parse_url id now raw source in_pool r hash good unknown,
          new-Ensured parse_url id now raw source in_pool r hash unknown,
        )
        | inr (i, known) ↦
            let (x, at, same) = find_index-some (λ e. e.hash ≗ hash) r i known in
            let is_hash = (≗_iff x.hash hash).0 same in
            inr (
              hash,
              refresh_entry source in_pool x,
              false,
              set r i (refresh_entry source in_pool x),
              good,
              ensure_old parse_url id now raw source in_pool r hash i x good known at,
              old-Ensured parse_url id now raw source in_pool r hash i x at is_hash
                  (rw is_hash at (mem_at r i x at)),
            )
      ]
    ]

-- A registry without duplicates stays one, if the new identifier is not in use.
pub Ensured-IsRegistry :
    (hash id source : Text) (now : ℕ) (in_pool created : Bool) (r r' : Registry) (e : VkHashEntry)
    → IsRegistry r
    → mem_text id (ids_of r) ≡ false
    → Ensured hash id source now in_pool r e created r'
    → IsRegistry r'
Ensured-IsRegistry hash id source now in_pool true r r' e g fresh h = record {
  hashes = rw h.hashes_are (Distinct-concat (hashes_of r) hash g.hashes (h.new_iff.0 refl));
  ids = rw h.ids_are (Distinct-concat (ids_of r) id g.ids fresh);
}
Ensured-IsRegistry hash id source now in_pool false r r' e g fresh h = record {
  hashes = rw h.hashes_are g.hashes;
  ids = rw h.ids_are g.ids;
}
