-- ===== src/Obfs/Bytes.antt =====
-- Big-endian fields of the header, and where a packet's parts lie.
use pwdtt.Prelude.{
  ℕ, zero, suc, ◌+◌, ◌-◌, ◌≤◌, ◌<◌, [], ◌∷◌, ◌++◌, ◌≡◌, refl, ap, arith, ok, length, get_or, take,
  drop, length-append,
}
use pwdtt.Obfs.{ByteList, ObfsConfig, rtp_header, random_bytes, payload_end, u16_at, u32_at}

pub length-random_bytes : (n : ℕ) (fill : ℕ → ℕ) → length (random_bytes n fill) ≡ n
unfolding random_bytes
length-random_bytes zero fill = refl
length-random_bytes (suc n) fill = ap suc (length-random_bytes n fill)

get_or_last : (xs : ByteList) (p d n : ℕ) → n ≡ length xs → get_or (xs ++ p ∷ []) n d ≡ p
get_or_last [] p d zero h = refl
get_or_last [] p d (suc n) h = absurd (omega arith)
get_or_last (x ∷ xs) p d zero h = absurd (omega arith)
get_or_last (x ∷ xs) p d (suc n) h = get_or_last xs p d n (omega arith)

-- Reading the fields back.
pub rtp_header_fields :
    (cfg : ObfsConfig) (seq ts : ℕ) (rest : ByteList)
    → let wire = rtp_header cfg seq ts ++ rest in
      (u16_at wire 2 ≡ seq) × (u32_at wire 4 ≡ ts) × (u32_at wire 8 ≡ cfg.ssrc)
unfolding rtp_header
rtp_header_fields cfg seq ts rest = omega arith

-- A packet whose first byte announces padding ends its payload before the padding.
pub payload_end-padded :
    (pre : ByteList) (p : ℕ)
    → get_or (pre ++ p ∷ []) 0 0 ≡ 160
    → 0 < p
    → 12 + p ≤ length pre + 1
    → payload_end (pre ++ p ∷ []) ≡ ok (length pre + 1 - p)
unfolding payload_end
payload_end-padded pre p first pos fits =
    let n : length (pre ++ p ∷ []) ≡ length pre + 1 = length-append pre (p ∷ []) in
    let last : get_or (pre ++ p ∷ []) (length (pre ++ p ∷ []) - 1) 0 ≡ p =
      get_or_last pre p 0 _ (omega arith) in
    rw (first, last, n) (ground arith)

-- The header is the first twelve bytes, and the first of them is 0xA0.
pub rtp_header_frame :
    (cfg : ObfsConfig) (seq ts : ℕ) (rest : ByteList)
    → let head = rtp_header cfg seq ts in
      (length (head ++ rest) ≡ 12 + length rest)
      × (get_or (head ++ rest) 0 0 ≡ 160)
      × (take 12 (head ++ rest) ≡ head)
      × (drop 12 (head ++ rest) ≡ rest)
unfolding rtp_header
rtp_header_frame cfg seq ts rest = (omega arith, refl, refl, refl)
