-- ===== src/Tests/Hashes.antt =====
-- Runs for backend/vk_hash.go.
use pwdtt.Prelude.{◌≤◌, [], none, some, ok, ◌≡◌, ◌≢◌, ◌⊎◌, Option, refl, length, true, false}
use pwdtt.Prelude.Text.{
  Text, codes, trim_space, ◌≗◌, byte_len, has_prefix, before, all_chars, to_lower, index_of,
}
use pwdtt.VkHash.{
  Url, normalize_vk_call_hash, checked_hash, link_hash, is_link, is_hash_char, is_vk_host,
}
use pwdtt.VkHash.Normal.{IsHash, normalize_vk_call_hash_idem}
use pwdtt.VkHash.Generate.{
  VkClient, bad_count, generate_vk_hashes, known_hashes, IsFresh, generate_vk_hashes-IsFresh,
}

abbrev a_hash : Text
a_hash = codes "abcdefghijkl_-09"

abbrev call_page : Text → Option Url
call_page t =
    some (record { hostname = codes "vk.com"; path = codes "/call/join/abcdefghijkl_-09" })

abbrev a_link : Text
a_link = codes " https://vk.com/call/join/abcdefghijkl_-09"

reads_link : normalize_vk_call_hash call_page a_link ≡ ok a_hash
unfolding normalize_vk_call_hash ◌≗◌ trim_space is_link has_prefix to_lower link_hash is_vk_host
    index_of checked_hash byte_len before all_chars is_hash_char
reads_link = refl

normalize_vk_call_hash_idem_example :
    IsHash a_hash × (normalize_vk_call_hash (λ t. none) a_hash ≡ ok a_hash)
normalize_vk_call_hash_idem_example =
    normalize_vk_call_hash_idem call_page (λ t. none) a_link a_hash reads_link

abbrev a_client : VkClient
a_client = record {
  delays = true;
  wait_canceled = λ n. false;
  start_call = λ n. some a_link;
  parse_url = call_page;
}

generate_vk_hashes-IsFresh_example :
    let out = generate_vk_hashes a_client 1 [] in
    IsFresh (known_hashes call_page []) out.0
    × (length out.0 ≤ 1)
    × ((out.1 ≢ none) ⊎ ((length out.0 ≡ 1) × (1 ≤ 1) × (1 ≤ 4)))
    × (((1 ≤ 1) × (1 ≤ 4)) ⊎ (out ≡ ([], some bad_count)))
generate_vk_hashes-IsFresh_example = generate_vk_hashes-IsFresh a_client 1 []
