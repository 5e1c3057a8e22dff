-- ===== src/VkHash.antt =====
-- backend/vk_hash.go: which texts are VK call hashes, and the creation of new ones.
-- `url.Parse` is a parameter: a link's host and path, if it parses.
pub mod Normal
pub mod Generate
use mathlib.Core.List.{map}
use pwdtt.Prelude.{
  ℕ, zero, suc, ◌+◌, Bool, true, false, not, ◌&&◌, ◌||◌, List, [], ◌∷◌, Option, none, some, Result,
  ok, err, ltb, leb, ◌==◌, if◌then◌else◌, drop,
}
use pwdtt.Prelude.Text.{
  Text, codes, ◌≗◌, trim_space, trim_by, has_prefix, index_of, before, all_chars, to_lower,
  byte_len,
}

pub record Url : Type 0 where
  pub hostname : Text
  pub path : Text

pub data HashError : Type 0 where
  empty_hash bad_link not_vk no_call_hash too_short bad_chars : HashError

abbrev min_vk_hash_len : ℕ
min_vk_hash_len = 16

-- `^[A-Za-z0-9_-]+$`, one character.
unfoldable pub is_hash_char : ℕ → Bool
is_hash_char c =
    leb b'A' c && leb c b'Z'
    || leb b'a' c && leb c b'z'
    || leb b'0' c && leb c b'9'
    || c == b'_'
    || c == b'-'

abbrev pub is_char : ℕ → ℕ → Bool
is_char k c = c == k

unfoldable pub is_vk_host : Text → Bool
is_vk_host host =
    host ≗ codes "vk.com"
    || host ≗ codes "vk.ru"
    || host ≗ codes "m.vk.com"
    || host ≗ codes "m.vk.ru"

-- The hash in a link: the path's segment behind the marker.
unfoldable pub link_hash : (Text → Option Url) → Text → Result HashError Text
link_hash parse_url value = elim (parse_url value) [
  | none ↦ err bad_link
  | some u ↦
      if not (is_vk_host (map to_lower u.hostname))
      then err not_vk
      else elim (index_of (codes "/call/join/") (map to_lower u.path)) [
        | none ↦ err no_call_hash
        | some i ↦
            ok (before (is_char b'/') (trim_by (is_char b'/') (trim_space (drop (i + 11) u.path))))
      ]
]

unfoldable pub is_link : Text → Bool
is_link value =
    let lower = map to_lower value in
    has_prefix (codes "http://") lower || has_prefix (codes "https://") lower

-- What follows the link's branch: query and fragment go, then length and characters are checked.
unfoldable pub checked_hash : Text → Result HashError Text
checked_hash v =
    let value = trim_space (before (is_char b'#') (before (is_char b'?') v)) in
    if ltb (byte_len value) min_vk_hash_len
    then err too_short
    else if not (all_chars is_hash_char value)
    then err bad_chars
    else ok value

unfoldable pub normalize_vk_call_hash : (Text → Option Url) → Text → Result HashError Text
normalize_vk_call_hash parse_url raw =
    let value = trim_space raw in
    if value ≗ []
    then err empty_hash
    else if is_link value
    then elim (link_hash parse_url value) [ err e ↦ err e | ok v ↦ checked_hash v ]
    else checked_hash value
