-- ===== src/Obfs/Laws.antt =====
-- The promises of the packet format: round trip, appearance, size, and what is refused.
use pwdtt.Prelude.{
  ℕ, take-drop_append, refl, sym, ap, ◌∙◌, length-take, length-drop, ◌+◌, ◌-◌, ◌/◌, ◌%◌, ◌≤◌, ◌<◌,
  [], ◌∷◌, ◌++◌, ◌≡◌, ◌≢◌, ◌⊎◌, inl, inr, arith, ok, err, true, Option-cases, Result-cases,
  Bool-cases, ◌==◌, some, length, get_or, take, drop,
}
use pwdtt.Prelude.Text.{Text}
use pwdtt.Obfs.{
  ByteList, Aead, Cache, ObfsConfig, ObfsState, bad_key, empty_payload, rtp_header, payload_end,
  u16_at, u32_at, get_aead, wrap_packet, unwrap_packet, build_nonce, is_rtp_packet, new_obfs_config,
}
use pwdtt.Obfs.RoundTrip.{
  IsAead, pad_rand, frame, frame-length, wrap_packet-frame, unwrap_packet-frame,
}

-- With a 32-byte key, a payload that is not empty, at most 255 bytes of padding and room in the
-- buffer, wrapping succeeds and unwrapping under the same key gives the payload's length and writes
-- the payload over the front of the buffer, whatever ciphers either side has cached.
pub unwrap_packet-wrap_packet :
    (a : Aead)
    → IsAead a
    → (key payload : ByteList) (cfg : ObfsConfig) (s : ObfsState) (rnd : ℕ) (fill : ℕ → ℕ)
      (sent received : Cache) (dst : ByteList)
    → length key ≡ 32
    → 0 < length payload
    → cfg.padding_max ≤ 255
    → length payload ≤ length dst
    → (wire : ByteList) × ((wrap_packet a sent rnd fill key payload cfg s).0 ≡ ok wire)
      × ((unwrap_packet a received key wire dst).0
          ≡ ok (length payload, payload ++ drop (length payload) dst))
unwrap_packet-wrap_packet a law key payload cfg s rnd fill sent received dst hk hp hm hd = (
  frame a law key payload cfg s rnd fill,
  wrap_packet-frame a law key payload cfg s rnd fill sent hk hp,
  unwrap_packet-frame a law key payload cfg s rnd fill received dst hk hp hm hd,
)

is_rtp_header :
    (cfg : ObfsConfig) (seq ts : ℕ) (rest : ByteList)
    → 13 ≤ length (rtp_header cfg seq ts ++ rest)
    → (cfg.payload_type ≡ 111) ⊎ (cfg.payload_type ≡ 96)
    → is_rtp_packet (rtp_header cfg seq ts ++ rest) ≡ true
unfolding is_rtp_packet rtp_header
is_rtp_header cfg seq ts rest h p = ground arith

config_types :
    (mode : Text) (ssrc : ℕ)
    → let cfg = new_obfs_config mode ssrc in
      ((cfg.payload_type ≡ 111) ⊎ (cfg.payload_type ≡ 96))
      × (0 < cfg.padding_max)
      × (cfg.padding_max ≤ 60)
unfolding new_obfs_config
config_types mode ssrc = ground arith

-- Under a configuration that `NewObfsConfig` makes, every packet that is sent passes for RTP, and
-- is longer than its payload by the 28 bytes of header and tag and by 1 to 60 bytes of padding.
pub wrap_packet_disguise :
    (a : Aead)
    → IsAead a
    → (mode : Text) (ssrc : ℕ) (key payload : ByteList) (s : ObfsState) (rnd : ℕ) (fill : ℕ → ℕ)
      (cache : Cache)
    → length key ≡ 32
    → 0 < length payload
    → (wire : ByteList) × ((wrap_packet a cache rnd fill key payload
          (new_obfs_config mode ssrc)
          s).0
        ≡ ok wire)
      × (is_rtp_packet wire ≡ true)
      × (length payload + 29 ≤ length wire)
      × (length wire ≤ length payload + 88)
unfolding pad_rand
wrap_packet_disguise a law mode ssrc key payload s rnd fill cache hk hp =
    let cfg = new_obfs_config mode ssrc in
    let (types, pos, cap) = config_types mode ssrc in
    let n = frame-length a law key payload cfg s rnd fill in
    (
      frame a law key payload cfg s rnd fill,
      wrap_packet-frame a law key payload cfg s rnd fill cache hk hp,
      is_rtp_header cfg _ _ _ (omega (arith, n)) types,
      omega (arith, n),
      grind (arith, n),
    )

-- A key of the wrong length and an empty payload are refused and leave the counter; past these
-- guards the counter goes up by one modulo 2^64, also if no cipher can be made. The rest of the
-- state never changes.
pub wrap_packet_counter :
    (a : Aead) (cache : Cache) (rnd : ℕ) (fill : ℕ → ℕ) (key payload : ByteList) (cfg : ObfsConfig)
    (s : ObfsState)
    → let (r, s', _) = wrap_packet a cache rnd fill key payload cfg s in
      ((length key ≢ 32) × (r ≡ err bad_key) × (s' ≡ s))
      ⊎ ((length key ≡ 32) × (payload ≡ []) × (r ≡ err empty_payload) × (s' ≡ s))
      ⊎ ((length key ≡ 32)
          × (0 < length payload)
          × (s' ≡ record s { count = (s.count + 1) % 18446744073709551616 }))
unfolding wrap_packet get_aead
wrap_packet_counter a cache rnd fill key [] cfg s = ground arith
wrap_packet_counter a cache rnd fill key (p ∷ payload) cfg s = ground arith

no_length : (xs : ByteList) → length xs ≡ 0 → xs ≡ []
no_length [] h = refl
no_length (x ∷ xs) h = absurd (omega arith)

-- The padding of a packet whose first byte has the padding bit: its last byte counts it.
abbrev IsPadding : ByteList → ByteList → Type 0
IsPadding wire padding =
    ((get_or wire 0 0 / 32 % 2 ≡ 0) × (padding ≡ []))
    ⊎ ((get_or wire 0 0 / 32 % 2 ≡ 1)
        × (0 < length padding)
        × (length padding ≡ get_or wire (length wire - 1) 0))

-- A packet that is a header, a sealed part with more than a tag, and padding.
pub record Parts (wire header sealed padding : ByteList) : Type 0 where
  parts : wire ≡ header ++ (sealed ++ padding)
  header_len : length header ≡ 12
  sealed_len : 16 < length sealed
  padded : IsPadding wire padding

payload_end-Parts :
    (wire : ByteList) (stop : ℕ)
    → 13 ≤ length wire
    → payload_end wire ≡ ok stop
    → 28 < stop
    → Parts wire (take 12 wire) (take (stop - 12) (drop 12 wire)) (drop (stop - 12) (drop 12 wire))
unfolding payload_end
payload_end-Parts wire stop h e k =
    let n = length-drop 12 wire in
    let short = length-drop (stop - 12) (drop 12 wire) in
    record {
      parts = sym (
          ap (λ t. take 12 wire ++ t) (take-drop_append (stop - 12) (drop 12 wire))
          ∙ take-drop_append 12 wire);
      header_len = ground (arith, length-take 12 wire);
      sealed_len = ground (arith, length-take (stop - 12) (drop 12 wire), n);
      padded = elim (Bool-cases (get_or wire 0 0 / 32 % 2 == 0)) [
        | inl bare ↦ inl (
          ground arith,
          no_length (drop (stop - 12) (drop 12 wire)) (ground (arith, bare, n, short)),
        )
        | inr padded ↦
            inr (ground arith, ground (arith, padded, n, short), ground (arith, padded, n, short))
      ];
    }

-- A count is returned only with a 32-byte key, for a packet of at least 13 bytes that says RTP
-- version 2 and is a header of 12 bytes, a sealed part longer than a tag, and padding: none without
-- the padding bit, and with it as many bytes as the last one says, at least one. The cipher opens the
-- sealed part under the nonce and header that the packet shows; the count is the length of the
-- plaintext, and the buffer starts with it.
pub unwrap_packet_authentic :
    (a : Aead) (cache : Cache) (key wire dst out : ByteList) (n : ℕ)
    → (unwrap_packet a cache key wire dst).0 ≡ ok (n, out)
    → (length key ≡ 32)
      × (13 ≤ length wire)
      × (get_or wire 0 0 / 64 ≡ 2)
      × ((header : ByteList) × (sealed : ByteList) × (padding : ByteList) × (plain : ByteList)
          × Parts wire header sealed padding
          × (a.unseal key
                (build_nonce (u32_at wire 8) (u16_at wire 2) (u32_at wire 4))
                sealed
                header
              ≡ some plain)
          × (n ≡ length plain)
          × (out ≡ plain ++ drop (length plain) dst))
unfolding unwrap_packet get_aead
unwrap_packet_authentic a cache key wire dst out n h = elim (Result-cases (payload_end wire)) [
  | inr (e, bad) ↦ absurd (ground arith)
  | inl (stop, at_stop) ↦
      let sealed = take (stop - 12) (drop 12 wire) in
      let opened =
        a.unseal key (build_nonce (u32_at wire 8) (u16_at wire 2) (u32_at wire 4)) sealed
          (take 12 wire) in
      elim (Option-cases opened) [
        | inl shut ↦ absurd (ground arith)
        | inr (plain, e) ↦
            let long : 13 ≤ length wire = ground arith in
            (
              ground arith,
              long,
              ground arith,
              (
                take 12 wire,
                sealed,
                drop (stop - 12) (drop 12 wire),
                plain,
                payload_end-Parts wire stop long at_stop (ground arith),
                e,
                ground arith,
                ground arith,
              ),
            )
      ]
]
