-- ===== src/Tests/Packets.antt =====
-- Runs for core/obfs.go, with a cipher that appends a tag of zeros.
use pwdtt.Prelude.{
  ◌+◌, ◌-◌, ◌≤◌, ◌/◌, [], ◌∷◌, ◌++◌, some, ok, ◌≡◌, refl, ap, arith, ◌==◌, length, length-append,
  get_or, take, drop, take_seam,
}
use pwdtt.Prelude.Text.{codes}
use pwdtt.Obfs.{
  ByteList, Aead, ObfsConfig, ObfsState, new_obfs_config, new_obfs_state, wrap_packet,
  unwrap_packet, payload_end, get_aead, cached, build_nonce, u16_at, u32_at,
}
use pwdtt.Obfs.Nonce.{packet_nonce-injective}
use pwdtt.Obfs.RoundTrip.{IsAead}
use pwdtt.Obfs.Laws.{unwrap_packet-wrap_packet, unwrap_packet_authentic, Parts}

abbrev tag : ByteList
tag = 0 ∷ 0 ∷ 0 ∷ 0 ∷ 0 ∷ 0 ∷ 0 ∷ 0 ∷ 0 ∷ 0 ∷ 0 ∷ 0 ∷ 0 ∷ 0 ∷ 0 ∷ 0 ∷ []

abbrev pub plain_aead : Aead
plain_aead = record {
  new = λ k. length k == 32;
  seal = λ k n p h. p ++ tag;
  unseal = λ k n c h. some (take (length c - 16) c);
}

take-tag : (p : ByteList) → take (length (p ++ tag) - 16) (p ++ tag) ≡ p
take-tag p =
    let n : length (p ++ tag) - 16 ≡ length p = omega (arith, length-append p tag) in
    take_seam p tag (length (p ++ tag) - 16) n

pub plain_IsAead : IsAead plain_aead
plain_IsAead = record {
  new_takes = λ k h. ground arith;
  length_seal = λ k n p h. length-append p tag;
  unseal_seal = λ k n p h. ap some (take-tag p);
}

abbrev pub a_key : ByteList
a_key = tag ++ tag

abbrev pub a_payload : ByteList
a_payload = 7 ∷ 8 ∷ 9 ∷ []

abbrev a_config : ObfsConfig
a_config = new_obfs_config (codes "video") 305419896

abbrev pub a_state : ObfsState
a_state = new_obfs_state 65535 4294967295

abbrev a_buffer : ByteList
a_buffer = 1 ∷ 2 ∷ 3 ∷ 4 ∷ []

packet_nonce-injective_example : 65535 + 1 ≡ 65536
packet_nonce-injective_example =
    packet_nonce-injective a_config a_state (65535 + 1) 65536 (omega arith) (omega arith) refl

unwrap_packet-wrap_packet_example :
    (wire : ByteList) × ((wrap_packet plain_aead [] 5 (λ i. i) a_key a_payload a_config a_state).0
      ≡ ok wire)
    × ((unwrap_packet plain_aead [] a_key wire a_buffer).0 ≡ ok (3, 7 ∷ 8 ∷ 9 ∷ 4 ∷ []))
unwrap_packet-wrap_packet_example =
    unwrap_packet-wrap_packet plain_aead plain_IsAead a_key a_payload a_config a_state 5 (λ i. i) []
      [] a_buffer refl (omega arith) (unfold new_obfs_config in ground arith) (omega arith)

-- A packet of the cipher: a header, two bytes and their tag, and one byte of padding.
abbrev a_wire : ByteList
a_wire = 160 ∷ 111 ∷ 0 ∷ 1 ∷ 0 ∷ 0 ∷ 0 ∷ 2 ∷ 0 ∷ 0 ∷ 0 ∷ 3 ∷ 5 ∷ 6 ∷ (tag ++ 1 ∷ [])

opens_wire : (unwrap_packet plain_aead [] a_key a_wire a_buffer).0 ≡ ok (2, 5 ∷ 6 ∷ 3 ∷ 4 ∷ [])
unfolding unwrap_packet payload_end get_aead cached
opens_wire = refl

unwrap_packet_authentic_example :
    (length a_key ≡ 32)
    × (13 ≤ length a_wire)
    × (get_or a_wire 0 0 / 64 ≡ 2)
    × ((header : ByteList) × (sealed : ByteList) × (padding : ByteList) × (plain : ByteList) × Parts
          a_wire header sealed padding
        × (plain_aead.unseal a_key
              (build_nonce (u32_at a_wire 8) (u16_at a_wire 2) (u32_at a_wire 4))
              sealed
              header
            ≡ some plain)
        × (2 ≡ length plain)
        × (5 ∷ 6 ∷ 3 ∷ 4 ∷ [] ≡ plain ++ drop (length plain) a_buffer))
unwrap_packet_authentic_example =
    unwrap_packet_authentic plain_aead [] a_key a_wire a_buffer (5 ∷ 6 ∷ 3 ∷ 4 ∷ []) 2 opens_wire
