-- ===== src/Obfs/RoundTrip.antt =====
-- What wrapping a packet and unwrapping it give, over any cipher with the AEAD's laws.
use mathlib.Core.List.{append_assoc}
use pwdtt.Prelude.{
  ℕ, ◌+◌, ◌-◌, ◌%◌, ◌≤◌, ◌<◌, [], ◌∷◌, ◌++◌, ◌≡◌, ap, ◌∙◌, arith, ok, true, some, length, get_or,
  take, drop, length-append, take_seam, ltb, if◌then◌else◌,
}
use pwdtt.Obfs.{
  ByteList, Aead, Cache, ObfsConfig, ObfsState, rtp_header, random_bytes, payload_end, u16_at,
  u32_at, get_aead, wrap_packet, unwrap_packet, build_nonce, packet_seq, packet_ts,
}
use pwdtt.Obfs.Bytes.{length-random_bytes, rtp_header_fields, rtp_header_frame, payload_end-padded}

-- What the code relies on of chacha20poly1305: `New` takes a 32-byte key, `Seal` adds 16 bytes, and
-- `Open` undoes `Seal` under the same key, nonce and header.
pub record IsAead (a : Aead) : Type 0 where
  pub new_takes : (k : ByteList) → length k ≡ 32 → a.new k ≡ true
  pub length_seal : (k n p h : ByteList) → length (a.seal k n p h) ≡ length p + 16
  pub unseal_seal : (k n p h : ByteList) → a.unseal k n (a.seal k n p h) h ≡ some p

-- With a key of 32 bytes there is a cipher, stored or not.
get_aead_ok :
    (a : Aead)
    → IsAead a
    → (cache : Cache) (key : ByteList) → length key ≡ 32
    → (get_aead a cache key).0 ≡ ok key
unfolding get_aead
get_aead_ok a law cache key h = ground (arith, law.new_takes key)

-- The random part of the padding.
unfoldable pub pad_rand : ObfsConfig → ℕ → ℕ
pad_rand cfg rnd = if ltb 0 cfg.padding_max then rnd % cfg.padding_max else 0

pad_rand_bound : (cfg : ObfsConfig) (rnd : ℕ) → cfg.padding_max ≤ 255 → pad_rand cfg rnd < 255
unfolding pad_rand
pad_rand_bound cfg rnd h = grind arith

-- The branch of `obfsUnwrapPacket` that opens the ciphertext.
unwrap_packet-opens :
    (a : Aead)
    → IsAead a
    → (cache : Cache) (key wire dst plain : ByteList) (stop : ℕ) → length key ≡ 32
    → 13 ≤ length wire
    → get_or wire 0 0 ≡ 160
    → payload_end wire ≡ ok stop
    → 28 < stop
    → stop ≤ length dst + 28
    → a.unseal key
        (build_nonce (u32_at wire 8) (u16_at wire 2) (u32_at wire 4))
        (take (stop - 12) (drop 12 wire))
        (take 12 wire)
      ≡ some plain
    → (unwrap_packet a cache key wire dst).0 ≡ ok (length plain, plain ++ drop (length plain) dst)
unfolding unwrap_packet
unwrap_packet-opens a law cache key wire dst plain stop hk hn h0 he hs hd ho =
    rw (he, unwrap_packet) (ground (arith, get_aead_ok a law cache key hk))

module _ (a : Aead) (law : IsAead a) (key payload : ByteList) (cfg : ObfsConfig) (s : ObfsState)
    (rnd : ℕ) (fill : ℕ → ℕ) where
  abbrev the_head : ByteList
  the_head = rtp_header cfg (packet_seq s s.count) (packet_ts s s.count)

  abbrev the_nonce : ByteList
  the_nonce = build_nonce cfg.ssrc (packet_seq s s.count) (packet_ts s s.count)

  abbrev the_sealed : ByteList
  the_sealed = a.seal key the_nonce payload the_head

  abbrev the_padding : ByteList
  the_padding = random_bytes (pad_rand cfg rnd) fill ++ (pad_rand cfg rnd + 1) % 256 ∷ []

  -- The packet that `obfsWrapPacket` sends.
  abbrev pub frame : ByteList
  frame = the_head ++ (the_sealed ++ the_padding)

  pub wrap_packet-frame :
      (cache : Cache)
      → length key ≡ 32
      → 0 < length payload
      → (wrap_packet a cache rnd fill key payload cfg s).0 ≡ ok frame
  unfolding wrap_packet pad_rand
  wrap_packet-frame cache hk hp = ground (arith, get_aead_ok a law cache key hk)

  pub frame-length : length frame ≡ 12 + (length payload + 16) + pad_rand cfg rnd + 1
  frame-length = omega (
    arith,
    (rtp_header_frame cfg (packet_seq s s.count) (packet_ts s s.count)
        (the_sealed ++ the_padding)).0,
    length-append the_sealed the_padding,
    length-append (random_bytes (pad_rand cfg rnd) fill) ((pad_rand cfg rnd + 1) % 256 ∷ []),
    length-random_bytes (pad_rand cfg rnd) fill,
    law.length_seal key the_nonce payload the_head,
  )

  frame-payload_end : cfg.padding_max ≤ 255 → payload_end frame ≡ ok (12 + (length payload + 16))
  frame-payload_end h =
      let pre = the_head ++ (the_sealed ++ random_bytes (pad_rand cfg rnd) fill) in
      let p = (pad_rand cfg rnd + 1) % 256 in
      let split : pre ++ p ∷ [] ≡ frame =
        append_assoc the_head (the_sealed ++ random_bytes (pad_rand cfg rnd) fill) (p ∷ [])
        ∙ ap (λ t. the_head ++ t)
            (append_assoc the_sealed (random_bytes (pad_rand cfg rnd) fill) (p ∷ [])) in
      let n : length pre + 1 ≡ length frame =
        omega (arith, length-append pre (p ∷ []), ap length split) in
      let first =
        (rtp_header_frame cfg (packet_seq s s.count) (packet_ts s s.count)
          (the_sealed ++ the_padding)).1 in
      let small = pad_rand_bound cfg rnd h in
      let stop =
        payload_end-padded pre p (rw split first) (omega arith) (omega (arith, frame-length)) in
      rw (← split) (stop ∙ ap ok (omega (arith, frame-length)))

  pub unwrap_packet-frame :
      (cache : Cache) (dst : ByteList)
      → length key ≡ 32
      → 0 < length payload
      → cfg.padding_max ≤ 255
      → length payload ≤ length dst
      → (unwrap_packet a cache key frame dst).0
        ≡ ok (length payload, payload ++ drop (length payload) dst)
  unwrap_packet-frame cache dst hk hp hm hd =
      let (n, first, front, back) =
        rtp_header_frame cfg (packet_seq s s.count) (packet_ts s s.count)
          (the_sealed ++ the_padding) in
      let (at_seq, at_ts, at_ssrc) =
        rtp_header_fields cfg (packet_seq s s.count) (packet_ts s s.count)
          (the_sealed ++ the_padding) in
      let cut : take (12 + (length payload + 16) - 12) (the_sealed ++ the_padding) ≡ the_sealed =
        take_seam the_sealed the_padding _
          (omega (arith, law.length_seal key the_nonce payload the_head)) in
      unwrap_packet-opens a law cache key frame dst payload (12 + (length payload + 16)) hk
        (omega (arith, frame-length)) first (frame-payload_end hm) (omega arith) (omega arith)
        (rw (at_seq, at_ts, at_ssrc, front, back, cut)
          (law.unseal_seal key the_nonce payload the_head))
