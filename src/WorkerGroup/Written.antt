-- ===== src/WorkerGroup/Written.antt =====
-- Hashes written down, alone or as links, are read back.
use mathlib.Core.List.{append_assoc, append-nil}
use pwdtt.Prelude.{
  ℕ, ◌+◌, Bool, true, false, not, ◌||◌, List, [], ◌∷◌, ◌++◌, map, none, some, ◌≡◌, refl, ap, ◌∙◌,
  drop, All, ◌==◌, arith,
}
use pwdtt.Prelude.Text.{
  Text, codes, ◌≗◌, trim_space, trim_by, is_space, has_prefix, index_of, before, all_chars,
  to_lower,
}
use pwdtt.Prelude.Text.Laws.{
  all_chars_mono, all_chars-append, all_chars-map, trim_by_none, before_none, has_prefix_all,
}
use pwdtt.Prelude.TextSet.{Distinct, unique_onto_new}
use pwdtt.VkHash.{is_hash_char}
use pwdtt.VkHash.Normal.{trim_space_hash, no_prefix, hash_char_plain}
use pwdtt.WorkerGroup.Hashes.{
  is_separator, fields_from, cons_named, is_quote, is_slash, ends_hash, cut_hash,
  normalize_vk_join_hash, named_hashes, parse_hashes,
}

index_of_absent :
    (q : ℕ → Bool) (pat s : Text)
    → all_chars q s ≡ true
    → all_chars q pat ≡ false
    → index_of pat s ≡ none
unfolding index_of all_chars
index_of_absent q pat [] h k = ground (arith, has_prefix_all q pat [] refl)
index_of_absent q pat (c ∷ s) h k =
    ground (arith, has_prefix_all q pat (c ∷ s) h, index_of_absent q pat s)

-- The characters of a hash are none that the reader cuts at or strips.
hash_char_kept :
    (c : ℕ)
    → is_hash_char c ≡ true
    → (is_separator c ≡ false) × (is_quote c ≡ false) × (is_slash c ≡ false) × (ends_hash c ≡ false)
unfolding is_hash_char is_separator ends_hash
hash_char_kept c h = ground arith

-- The characters of a link.
unfoldable is_link_char : ℕ → Bool
is_link_char c = is_hash_char c || c == b':' || c == b'/' || c == b'.'

link_char_kept :
    (c : ℕ)
    → is_link_char c ≡ true
    → (is_separator c ≡ false) × (is_quote c ≡ false) × (is_space c ≡ false)
unfolding is_link_char is_hash_char is_separator is_space
link_char_kept c h = ground arith

abbrev link_head : Text
link_head = codes "https://vk.com/call/join/"

-- How a hash is written: alone, or in a link to its call.
abbrev pub written : Bool → Text → Text
written true h = link_head ++ h
written false h = h

-- One entry a line.
abbrev pub lines : List (Bool × Text) → Text
lines [] = []
lines ((link, h) ∷ items) = written link h ++ 10 ∷ lines items

abbrev IsHashText : Text → Type 0
IsHashText h = ((h ≗ []) ≡ false) × (all_chars is_hash_char h ≡ true)

link_rest :
    (f s : Text) (i : ℕ)
    → trim_by is_quote (trim_space f) ≡ s
    → (s ≗ []) ≡ false
    → index_of (codes "/call/join/") (map to_lower s) ≡ some i
    → normalize_vk_join_hash f ≡ cut_hash (drop (i + 11) s)
unfolding normalize_vk_join_hash
link_rest f s i trimmed named found = ground arith

module _ (h : Text) (good : all_chars is_hash_char h ≡ true) where
  cut_hash_hash : cut_hash h ≡ h
  unfolding cut_hash
  cut_hash_hash =
      let whole : before ends_hash h ≡ h =
        before_none ends_hash h
          (all_chars_mono is_hash_char _ (λ c p. rw (hash_char_kept c p).3) h good) in
      let no_slash : trim_by is_slash h ≡ h =
        trim_by_none is_slash h
          (all_chars_mono is_hash_char _ (λ c p. rw (hash_char_kept c p).2) h good) in
      rw (whole, trim_space_hash h good) no_slash

  hash_link_chars : all_chars is_link_char h ≡ true
  unfolding is_link_char
  hash_link_chars = all_chars_mono is_hash_char is_link_char (λ c p. ground arith) h good

  written_link_chars : (link : Bool) → all_chars is_link_char (written link h) ≡ true
  unfolding is_link_char all_chars is_hash_char
  written_link_chars true = all_chars-append is_link_char link_head h refl hash_link_chars
  written_link_chars false = hash_link_chars

  written_trimmed : (link : Bool) → trim_by is_quote (trim_space (written link h)) ≡ written link h
  unfolding trim_space
  written_trimmed link =
      let chars = written_link_chars link in
      let spaced : trim_by is_space (written link h) ≡ written link h =
        trim_by_none is_space _
          (all_chars_mono is_link_char _ (λ c p. rw (link_char_kept c p).2) _ chars) in
      rw spaced (
        trim_by_none is_quote _
          (all_chars_mono is_link_char _ (λ c p. rw (link_char_kept c p).1) _ chars))

  no_link : index_of (codes "/call/join/") (map to_lower h) ≡ none
  unfolding all_chars is_hash_char
  no_link =
      index_of_absent is_hash_char (codes "/call/join/") (map to_lower h)
        (all_chars-map is_hash_char to_lower h
          (all_chars_mono is_hash_char _ (λ c p. (hash_char_plain c p).3) h good))
        refl

  link_found : index_of (codes "/call/join/") (map to_lower (link_head ++ h)) ≡ some 14
  unfolding index_of has_prefix to_lower
  link_found = refl

  normalize_vk_join_hash-written :
      (h ≗ []) ≡ false → (link : Bool) → normalize_vk_join_hash (written link h) ≡ h
  unfolding normalize_vk_join_hash all_chars is_hash_char ◌≗◌
  normalize_vk_join_hash-written named true =
      link_rest (written true h) (link_head ++ h) 14 (written_trimmed true) refl link_found
      ∙ cut_hash_hash
  normalize_vk_join_hash-written named false = ground (
    arith,
    written_trimmed false,
    no_link,
    no_prefix h good (codes "http://") refl,
    no_prefix h good (codes "https://") refl,
    cut_hash_hash,
  )

-- A field without separators is read up to the end of its line.
fields_from-line :
    (field s rest : Text)
    → all_chars (λ c. not (is_separator c)) s ≡ true
    → fields_from is_separator field (s ++ 10 ∷ rest)
      ≡ cons_named (field ++ s) (fields_from is_separator [] rest)
unfolding fields_from all_chars is_separator
fields_from-line field [] rest h = rw (append-nil field) refl
fields_from-line field (c ∷ s) rest h =
    let kept : is_separator c ≡ false = ground arith in
    rw kept (
      fields_from-line (field ++ c ∷ []) s rest (ground arith)
      ∙ ap (λ f. cons_named f (fields_from is_separator [] rest)) (append_assoc field (c ∷ []) s))

cons_named_some : (f : Text) (rest : List Text) → (f ≗ []) ≡ false → cons_named f rest ≡ f ∷ rest
unfolding cons_named ◌≗◌
cons_named_some [] rest h = absurd (ground arith)
cons_named_some (c ∷ s) rest h = refl

written_some : (link : Bool) (h : Text) → (h ≗ []) ≡ false → (written link h ≗ []) ≡ false
unfolding ◌≗◌
written_some true h named = refl
written_some false h named = named

link_char_field :
    (s : Text) → all_chars is_link_char s ≡ true → all_chars (λ c. not (is_separator c)) s ≡ true
link_char_field s h = all_chars_mono is_link_char _ (λ c p. rw (link_char_kept c p).0) s h

named_hashes-lines :
    (items : List (Bool × Text))
    → All (λ i. IsHashText i.1) items
    → named_hashes (fields_from is_separator [] (lines items)) ≡ map (λ i. i.1) items
unfolding named_hashes fields_from cons_named
named_hashes-lines [] h = refl
named_hashes-lines ((link, h) ∷ items) ((named, good), hs) =
    let field = link_char_field (written link h) (written_link_chars h good link) in
    rw
      (
        fields_from-line [] (written link h) (lines items) field,
        cons_named_some (written link h) (fields_from is_separator [] (lines items))
            (written_some link h named),
        named_hashes,
        normalize_vk_join_hash-written h good named link,
        named_hashes-lines items hs,
      )
      (cons_named_some h (map (λ i. i.1) items) named)

-- The hashes of a list with one entry a line, each a hash by itself or a link to its call, are read
-- back in order, if they differ from each other.
pub parse_hashes-lines :
    (items : List (Bool × Text))
    → All (λ i. IsHashText i.1) items
    → Distinct (map (λ i. i.1) items)
    → parse_hashes (lines items) ≡ map (λ i. i.1) items
unfolding parse_hashes
parse_hashes-lines items h d =
    rw (named_hashes-lines items h) (unique_onto_new [] (map (λ i. i.1) items) d)
