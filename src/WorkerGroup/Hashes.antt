-- ===== src/WorkerGroup/Hashes.antt =====
-- The end of core/worker_group.go: `ParseHashes`, which reads the hashes of calls from a text.
use pwdtt.Prelude.{
  ℕ, ◌+◌, Bool, true, false, not, ◌&&◌, ◌||◌, List, [], ◌∷◌, ◌++◌, map, none, some, Bool-cases,
  Option-cases, ◌≡◌, inl, inr, refl, drop, All, ◌==◌, if◌then◌else◌, arith,
}
use pwdtt.Prelude.Text.{
  Text, codes, ◌≗◌, trim_space, trim_by, is_space, has_prefix, index_of, before, all_chars,
  to_lower,
}
use pwdtt.Prelude.Text.Laws.{
  all_chars-trim_by, all_chars-drop, all_chars-before, before_all, all_chars-and, all_chars-append,
}
use pwdtt.Prelude.TextSet.{Distinct, unique_onto, unique_onto-Distinct, unique_onto-All}

unfoldable pub is_separator : ℕ → Bool
is_separator c = c == b',' || c == b';' || c == 10 || c == 13 || c == 9 || c == b' '

-- A text in front of others, unless it is empty.
unfoldable pub cons_named : Text → List Text → List Text
cons_named [] rest = rest
cons_named (c ∷ s) rest = (c ∷ s) ∷ rest

-- strings.FieldsFunc: the longest pieces without a separator; `field` is the piece before.
unfoldable pub fields_from : (ℕ → Bool) → Text → Text → List Text
unfolding cons_named
fields_from p field [] = cons_named field []
fields_from p field (c ∷ s) =
    let longer = fields_from p (field ++ c ∷ []) s in
    let rest = fields_from p [] s in if p c then cons_named field rest else longer

abbrev pub is_quote : ℕ → Bool
is_quote c = c == b'<' || c == b'>' || c == 34 || c == 39

abbrev pub is_slash : ℕ → Bool
is_slash c = c == b'/'

unfoldable pub ends_hash : ℕ → Bool
ends_hash c = c == b'?' || c == b'#' || c == b'/'

-- The rest of a text after its link, up to a query, a fragment or a slash.
unfoldable pub cut_hash : Text → Text
unfolding before
cut_hash s = trim_by is_slash (trim_space (before ends_hash s))

unfoldable pub normalize_vk_join_hash : Text → Text
unfolding cut_hash
normalize_vk_join_hash input =
    let s = trim_by is_quote (trim_space input) in
    let lower = map to_lower s in
    if s ≗ [] then [] else elim (index_of (codes "/call/join/") lower) [
      | some idx ↦ cut_hash (drop (idx + 11) s)
      | none ↦
          if has_prefix (codes "http://") lower || has_prefix (codes "https://") lower
          then []
          else cut_hash s
    ]

-- The hashes of the fields, in order, without the empty ones.
unfoldable pub named_hashes : List Text → List Text
unfolding normalize_vk_join_hash cons_named
named_hashes [] = []
named_hashes (f ∷ fs) = cons_named (normalize_vk_join_hash f) (named_hashes fs)

unfoldable pub parse_hashes : Text → List Text
unfolding fields_from named_hashes
parse_hashes raw = unique_onto [] (named_hashes (fields_from is_separator [] raw))

-- A hash that a link or a list can carry: not empty, without separators and without what ends one.
abbrev is_plain : ℕ → Bool
is_plain c = not (is_separator c) && not (ends_hash c)

abbrev IsJoinHash : Text → Type 0
IsJoinHash h = ((h ≗ []) ≡ false) × (all_chars is_plain h ≡ true)

abbrev has_no : (ℕ → Bool) → Text → Bool
has_no p s = all_chars (λ c. not (p c)) s

cut_hash_plain : (s : Text) → has_no is_separator s ≡ true → all_chars is_plain (cut_hash s) ≡ true
unfolding cut_hash trim_space
cut_hash_plain s h = all_chars-trim_by is_plain is_slash _ (
    all_chars-trim_by is_plain is_space _ (
      all_chars-and (λ c. not (is_separator c)) (λ c. not (ends_hash c)) (before ends_hash s)
        (all_chars-before (λ c. not (is_separator c)) ends_hash s h) (before_all ends_hash s)))

normalize_vk_join_hash_plain :
    (f : Text) → has_no is_separator f ≡ true → all_chars is_plain (normalize_vk_join_hash f) ≡ true
unfolding normalize_vk_join_hash trim_space all_chars
normalize_vk_join_hash_plain f h =
    let s = trim_by is_quote (trim_space f) in
    let plain : has_no is_separator s ≡ true =
      all_chars-trim_by (λ c. not (is_separator c)) is_quote _
        (all_chars-trim_by (λ c. not (is_separator c)) is_space f h) in
    elim (Option-cases (index_of (codes "/call/join/") (map to_lower s))) [
      | inl no_link ↦ ground (arith, cut_hash_plain s plain)
      | inr (idx, link) ↦ ground (
        arith,
        cut_hash_plain (drop (idx + 11) s)
            (all_chars-drop (λ c. not (is_separator c)) (idx + 11) s plain),
      )
    ]

cons_named_All :
    (P : Text → Type 0) (f : Text) (rest : List Text) → P f → All P rest → All P (cons_named f rest)
unfolding cons_named
cons_named_All P [] rest p h = h
cons_named_All P (c ∷ s) rest p h = (p, h)

cons_named-IsJoinHash :
    (f : Text) (rest : List Text)
    → all_chars is_plain f ≡ true
    → All IsJoinHash rest
    → All IsJoinHash (cons_named f rest)
unfolding cons_named ◌≗◌
cons_named-IsJoinHash [] rest p h = h
cons_named-IsJoinHash (c ∷ s) rest p h = ((refl, p), h)

fields_from_plain :
    (field s : Text)
    → has_no is_separator field ≡ true
    → All (λ f. has_no is_separator f ≡ true) (fields_from is_separator field s)
unfolding fields_from all_chars
fields_from_plain [] [] h = tt
fields_from_plain (d ∷ t) [] h = (h, tt)
fields_from_plain field (c ∷ s) h = elim (Bool-cases (is_separator c)) [
  | inl ends ↦
      rw (ends, fields_from)
        (cons_named_All (λ f. has_no is_separator f ≡ true) field _ h (fields_from_plain [] s refl))
  | inr inside ↦
      rw (inside, fields_from)
        (fields_from_plain (field ++ c ∷ []) s (
          all_chars-append (λ d. not (is_separator d)) field (c ∷ []) h
            (rw (inside, all_chars) refl)))
]

named_hashes_plain :
    (fs : List Text) → All (λ f. has_no is_separator f ≡ true) fs → All IsJoinHash (named_hashes fs)
unfolding named_hashes
named_hashes_plain [] h = tt
named_hashes_plain (f ∷ fs) (p, h) =
    cons_named-IsJoinHash (normalize_vk_join_hash f) (named_hashes fs)
      (normalize_vk_join_hash_plain f p) (named_hashes_plain fs h)

-- Whatever the text, the hashes that are read from it differ from each other, and none is empty or
-- has a separator, `?`, `#` or `/` in it.
parse_hashes-IsJoinHash :
    (raw : Text) → Distinct (parse_hashes raw) × All IsJoinHash (parse_hashes raw)
unfolding parse_hashes all_chars
parse_hashes-IsJoinHash raw =
    let named =
      named_hashes_plain (fields_from is_separator [] raw) (fields_from_plain [] raw refl) in
    (unique_onto-Distinct [] _ tt, unique_onto-All IsJoinHash [] _ tt named)
