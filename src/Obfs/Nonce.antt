-- ===== src/Obfs/Nonce.antt =====
-- The nonce of a packet is a function of the state's counter; no two of the first 2^48 agree.
use pwdtt.Prelude.{ℕ, ◌+◌, ◌*◌, ◌/◌, ◌%◌, ◌<◌, ◌≡◌, ap, arith, get_or}
use pwdtt.Obfs.{ByteList, ObfsConfig, ObfsState, build_nonce, packet_seq, packet_ts}

-- The nonce that `obfsWrapPacket` builds at counter `c`.
unfoldable pub packet_nonce : ObfsConfig → ObfsState → ℕ → ByteList
unfolding build_nonce packet_seq packet_ts
packet_nonce cfg s c = build_nonce cfg.ssrc (packet_seq s c) (packet_ts s c)

-- Equal nonces carry equal sequence numbers and time stamps.
build_nonce-injective :
    (ssrc q t q' t' : ℕ) → build_nonce ssrc q t ≡ build_nonce ssrc q' t' → (q ≡ q') × (t ≡ t')
unfolding build_nonce
build_nonce-injective ssrc q t q' t' e =
    let at : (i : ℕ) → get_or (build_nonce ssrc q t) i 0 ≡ get_or (build_nonce ssrc q' t') i 0 =
      λ i. ap (λ b. get_or b i 0) e in
    (omega (arith, at 4, at 5), omega (arith, at 8, at 9, at 10, at 11))

-- A counter is its low 16 bits and the rest.
split_low : (c : ℕ) → c ≡ c / 65536 * 65536 + c % 65536
split_low c = omega arith

-- The sequence number determines the low 16 bits.
seq_low : (s : ObfsState) (c c' : ℕ) → packet_seq s c ≡ packet_seq s c' → c % 65536 ≡ c' % 65536
unfolding packet_seq
seq_low s c c' h = omega arith

-- With the low bits known, the time stamp is affine in the high bits, with an odd slope.
ts_affine :
    (s : ObfsState) (h l : ℕ)
    → l < 65536
    → h < 4294967296
    → packet_ts s (h * 65536 + l) ≡ (s.init_ts + l * 960 + h * 62914561) % 4294967296
unfolding packet_ts
ts_affine s h l hl hh = omega arith

-- The slope is invertible modulo 2^32.
odd_slope :
    (b h h' : ℕ)
    → h < 4294967296
    → h' < 4294967296
    → (b + h * 62914561) % 4294967296 ≡ (b + h' * 62914561) % 4294967296
    → h ≡ h'
odd_slope b h h' p q e = omega arith

-- Under one configuration and one initial state, packets sent at different counter values below
-- 2^48 carry different nonces.
pub packet_nonce-injective :
    (cfg : ObfsConfig) (s : ObfsState) (c c' : ℕ)
    → c < 281474976710656
    → c' < 281474976710656
    → packet_nonce cfg s c ≡ packet_nonce cfg s c'
    → c ≡ c'
unfolding packet_nonce
packet_nonce-injective cfg s c c' p p' e =
    let same =
      build_nonce-injective cfg.ssrc (packet_seq s c) (packet_ts s c) (packet_seq s c')
        (packet_ts s c') e in
    let low = seq_low s c c' same.0 in
    let left = ts_affine s (c / 65536) (c % 65536) (omega arith) (omega arith) in
    let right = ts_affine s (c' / 65536) (c' % 65536) (omega arith) (omega arith) in
    let slope = rw (← split_low c) at left in
    let slope' = rw (← split_low c') at right in
    let high =
      odd_slope (s.init_ts + c % 65536 * 960) (c / 65536) (c' / 65536) (omega arith) (omega arith)
        (omega (arith, slope, slope', same.1, low)) in
    omega (arith, high, low)
