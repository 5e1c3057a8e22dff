-- ===== src/Obfs.antt =====
-- core/obfs.go: packets dressed as RTP, with an AEAD inside and random padding behind.
-- The cipher is golang.org/x/crypto, so it is a parameter (`Aead`); random bytes are arguments.
pub mod Bytes
pub mod Nonce
pub mod RoundTrip
pub mod Laws
use Prim.Native.Nat.{bit_or}
use pwdtt.Prelude.{
  ℕ, zero, suc, ◌+◌, ◌-◌, ◌*◌, ◌/◌, ◌%◌, ◌^◌, Bool, true, false, ◌&&◌, ◌||◌, not, List, [], ◌∷◌,
  ◌++◌, Option, none, some, Result, ok, err, ltb, leb, ◌==◌, if◌then◌else◌, length, get_or, take,
  drop,
}
use pwdtt.Prelude.Text.{Text, codes, ◌≗◌}

abbrev pub ByteList : Type 0
ByteList = List ℕ

-- chacha20poly1305: whether `New` takes the key, and `Seal` and `Open` of the cipher of a key.
pub record Aead : Type 0 where
  pub new : ByteList → Bool
  pub seal : ByteList → ByteList → ByteList → ByteList → ByteList
  pub unseal : ByteList → ByteList → ByteList → ByteList → Option ByteList

pub data ObfsError : Type 0 where
  bad_key empty_payload too_short not_rtp bad_padding no_payload dst_small cipher_init auth :
      ObfsError

abbrev pub wrap_key_len : ℕ
wrap_key_len = 32

abbrev overhead : ℕ
overhead = 16

-- `aeadCache`: the keys whose cipher is stored.
abbrev pub Cache : Type 0
Cache = List ByteList

unfoldable pub cached : ByteList → Cache → Bool
cached key [] = false
cached key (k ∷ ks) = key ≗ k || cached key ks

-- A cipher is known by its key.
unfoldable pub get_aead : Aead → Cache → ByteList → Result ObfsError ByteList × Cache
get_aead a cache key =
    if not (length key == wrap_key_len)
    then (err bad_key, cache)
    else if cached key cache
    then (ok key, cache)
    else if a.new key
    then (ok key, key ∷ cache)
    else (err cipher_init, cache)

pub record ObfsConfig : Type 0 where
  pub ssrc : ℕ  -- uint32
  pub payload_type : ℕ  -- uint8
  pub padding_max : ℕ

-- `ssrc` is the random number that the source reads.
unfoldable pub new_obfs_config : Text → ℕ → ObfsConfig
unfolding ◌≗◌
new_obfs_config mode ssrc =
    if mode ≗ codes "video"
    then record { ssrc = ssrc; payload_type = 96; padding_max = 60 }
    else record { ssrc = ssrc; payload_type = 111; padding_max = 24 }

pub record ObfsState : Type 0 where
  init_seq : ℕ  -- uint16
  pub init_ts : ℕ  -- uint32
  pub count : ℕ  -- uint64

unfoldable pub new_obfs_state : ℕ → ℕ → ObfsState
new_obfs_state seq ts = record { init_seq = seq; init_ts = ts; count = 0 }

abbrev put_u16 : ℕ → ByteList → ByteList
put_u16 v rest = v / 256 ∷ v % 256 ∷ rest

abbrev put_u32 : ℕ → ByteList → ByteList
put_u32 v rest = v / 16777216 ∷ v / 65536 % 256 ∷ v / 256 % 256 ∷ v % 256 ∷ rest

abbrev pub u16_at : ByteList → ℕ → ℕ
u16_at b i = get_or b i 0 * 256 + get_or b (i + 1) 0

abbrev pub u32_at : ByteList → ℕ → ℕ
u32_at b i =
    get_or b i 0 * 16777216
    + get_or b (i + 1) 0 * 65536
    + get_or b (i + 2) 0 * 256
    + get_or b (i + 3) 0

unfoldable pub build_nonce : ℕ → ℕ → ℕ → ByteList
build_nonce ssrc seq ts = put_u32 ssrc (put_u16 seq (0 ∷ 0 ∷ put_u32 ts []))

-- `state.initSeq + uint16(c)` and `state.initTs + uint32(c)*960 + uint32(c>>16)`
unfoldable pub packet_seq : ObfsState → ℕ → ℕ
packet_seq s c = (s.init_seq + c % 65536) % 65536

unfoldable pub packet_ts : ObfsState → ℕ → ℕ
packet_ts s c =
    (s.init_ts + c % 4294967296 * 960 % 4294967296 + c / 65536 % 4294967296) % 4294967296

-- `rand.Read` into n bytes: the stream `fill` gives byte i.
unfoldable pub random_bytes : ℕ → (ℕ → ℕ) → ByteList
random_bytes zero fill = []
random_bytes (suc n) fill = fill n ∷ random_bytes n fill

unfoldable pub rtp_header : ObfsConfig → ℕ → ℕ → ByteList
rtp_header cfg seq ts =
    bit_or 0x80 0x20 ∷ cfg.payload_type % 128 ∷ put_u16 seq (put_u32 ts (put_u32 cfg.ssrc []))

-- The bytes behind the header are sealed payload, padding, and the padding's length.
unfoldable pub wrap_packet :
    Aead
    → Cache
    → ℕ
    → (ℕ → ℕ)
    → ByteList
    → ByteList
    → ObfsConfig
    → ObfsState
    → Result ObfsError ByteList × ObfsState × Cache
unfolding rtp_header packet_seq packet_ts
wrap_packet a cache rnd fill key payload cfg s =
    if not (length key == wrap_key_len)
    then (err bad_key, s, cache)
    else if length payload == 0
    then (err empty_payload, s, cache)
    else let s' = record s { count = (s.count + 1) % 18446744073709551616 } in
      let seq = packet_seq s s.count in
      let ts = packet_ts s s.count in
      let nonce = build_nonce cfg.ssrc seq ts in
      let pad_rand = if ltb 0 cfg.padding_max then rnd % cfg.padding_max else 0 in
      let head = rtp_header cfg seq ts in
      let (cipher, cache') = get_aead a cache key in
      elim cipher [
        | err e ↦ (err e, s', cache')
        | ok k ↦ (
          ok (
              head
              ++ (a.seal k nonce payload head
                  ++ (random_bytes pad_rand fill ++ (pad_rand + 1) % 256 ∷ []))),
          s',
          cache',
        )
      ]

-- What `wire[0]&0x20` says of the padding: where the ciphertext ends.
unfoldable pub payload_end : ByteList → Result ObfsError ℕ
payload_end wire =
    let n = length wire in
    let pad_len = get_or wire (n - 1) 0 in
    if not (get_or wire 0 0 / 32 % 2 == 0)
    then (if pad_len == 0 || ltb (n - 12) pad_len then err bad_padding else ok (n - pad_len))
    else ok n

-- The result is the count and the buffer `dst` after `Open` wrote into it.
unfoldable pub unwrap_packet :
    Aead → Cache → ByteList → ByteList → ByteList → Result ObfsError (ℕ × ByteList) × Cache
unwrap_packet a cache key wire dst =
    if not (length key == wrap_key_len)
    then (err bad_key, cache)
    else if ltb (length wire) 13
    then (err too_short, cache)
    else if not (get_or wire 0 0 / 64 == 2)
    then (err not_rtp, cache)
    else elim (payload_end wire) [
      | err e ↦ (err e, cache)
      | ok stop ↦
          if leb (stop - 12) overhead
          then (err no_payload, cache)
          else if ltb (length dst) (stop - 12 - overhead)
          then (err dst_small, cache)
          else let nonce = build_nonce (u32_at wire 8) (u16_at wire 2) (u32_at wire 4) in
            let (cipher, cache') = get_aead a cache key in
            elim cipher [
              | err e ↦ (err e, cache')
              | ok k ↦ elim (a.unseal k nonce (take (stop - 12) (drop 12 wire)) (take 12 wire)) [
                | none ↦ (err auth, cache')
                | some plain ↦ (ok (length plain, plain ++ drop (length plain) dst), cache')
              ]
            ]
    ]

unfoldable pub is_rtp_packet : ByteList → Bool
is_rtp_packet wire =
    if ltb (length wire) 13
    then false
    else if not (get_or wire 0 0 / 64 == 2)
    then false
    else let pt = get_or wire 1 0 % 128 in pt == 111 || pt == 96
