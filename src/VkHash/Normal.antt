-- ===== src/VkHash/Normal.antt =====
-- Normal forms of hashes: what is accepted, and that normalising again changes nothing.
use pwdtt.Prelude.{
  ℕ, ◌≤◌, true, false, Bool-cases, Result-cases, map, [], Option, ok, ◌≡◌, inl, inr, refl, arith,
  ◌==◌,
}
use pwdtt.Prelude.Text.{
  Text, codes, ≗_iff, trim_space, is_space, has_prefix, before, all_chars, to_lower, byte_len,
}
use pwdtt.Prelude.Text.Laws.{
  all_chars_mono, all_chars-map, trim_by_none, before_none, has_prefix_all,
}
use pwdtt.VkHash.{
  Url, is_hash_char, is_char, is_link, checked_hash, link_hash, normalize_vk_call_hash,
}

pub record IsHash (h : Text) : Type 0 where
  pub long : 16 ≤ byte_len h
  pub chars : all_chars is_hash_char h ≡ true

checked_hash_ok : (v h : Text) → checked_hash v ≡ ok h → IsHash h
unfolding checked_hash
checked_hash_ok v h e = ground arith

pub hash_char_plain :
    (c : ℕ)
    → is_hash_char c ≡ true
    → (is_space c ≡ false)
      × ((c == b'?') ≡ false)
      × ((c == b'#') ≡ false)
      × (is_hash_char (to_lower c) ≡ true)
unfolding is_hash_char is_space to_lower
hash_char_plain c h = ground arith

module _ (h : Text) (good : all_chars is_hash_char h ≡ true) where
  pub trim_space_hash : trim_space h ≡ h
  unfolding trim_space
  trim_space_hash =
      trim_by_none is_space h
        (all_chars_mono is_hash_char _ (λ c p. rw (hash_char_plain c p).0) h good)

  before_hash :
      (k : ℕ) → ((c : ℕ) → is_hash_char c ≡ true → (c == k) ≡ false) → before (is_char k) h ≡ h
  before_hash k apart =
      before_none (is_char k) h (all_chars_mono is_hash_char _ (λ c p. rw (apart c p)) h good)

  pub no_prefix :
      (pat : Text) → all_chars is_hash_char pat ≡ false → has_prefix pat (map to_lower h) ≡ false
  no_prefix pat bad =
      let low : all_chars is_hash_char (map to_lower h) ≡ true =
        all_chars-map is_hash_char to_lower h
          (all_chars_mono is_hash_char _ (λ c p. (hash_char_plain c p).3) h good) in
      elim (Bool-cases (has_prefix pat (map to_lower h))) [
        | inr no_link ↦ no_link
        | inl link ↦
            absurd (ground (arith, has_prefix_all is_hash_char pat (map to_lower h) low link))
      ]

  not_link : is_link h ≡ false
  unfolding is_link all_chars is_hash_char
  not_link = rw (no_prefix (codes "http://") refl, no_prefix (codes "https://") refl)

-- What is accepted has at least 16 bytes, all of them letters, digits, `_` or `-`.
normalize_ok :
    (parse_url : Text → Option Url) (raw h : Text)
    → normalize_vk_call_hash parse_url raw ≡ ok h
    → IsHash h
unfolding normalize_vk_call_hash
normalize_ok parse_url raw h e = elim (Result-cases (link_hash parse_url (trim_space raw))) [
  | inl (v, found) ↦ ground (arith, checked_hash_ok v h, checked_hash_ok (trim_space raw) h)
  | inr (why, failed) ↦ ground (arith, checked_hash_ok (trim_space raw) h)
]

checked_hash_self : (h : Text) → IsHash h → checked_hash h ≡ ok h
unfolding checked_hash
checked_hash_self h good =
    rw
      (
        before_hash h good.chars b'?' (λ c p. (hash_char_plain c p).1),
        before_hash h good.chars b'#' (λ c p. (hash_char_plain c p).2),
        trim_space_hash h good.chars,
      )
      (ground (arith, good.chars))

-- A text that is accepted, as a bare hash or as a link, has a normal form of at least 16 bytes, all
-- letters, digits, `_` or `-`, and the normal form is accepted as it stands, by every URL parser.
pub normalize_vk_call_hash_idem :
    (parse_url again : Text → Option Url) (raw h : Text)
    → normalize_vk_call_hash parse_url raw ≡ ok h
    → IsHash h × (normalize_vk_call_hash again h ≡ ok h)
unfolding normalize_vk_call_hash byte_len
normalize_vk_call_hash_idem parse_url again raw h e =
    let good = normalize_ok parse_url raw h e in
    (
      good,
      rw (trim_space_hash h good.chars, not_link h good.chars)
          (ground (arith, ≗_iff h [], good.long, checked_hash_self h good)),
    )
