-- ===== src/Session/Relay.antt =====
-- core/session.go: one turn of each loop that carries a session's packets, and core/wrap.go.
use pwdtt.Prelude.{
  ℕ, ◌≤◌, ◌<◌, Bool, true, not, List, [], ◌∷◌, ◌++◌, Option, none, some, ok, err, ◌≡◌, refl, arith,
  length, take, take_seam, drop, Bool-cases, inl, inr, zero, suc, ap, ◌==◌, if◌then◌else◌,
}
use pwdtt.Prelude.Text.{Text, ◌≗◌}
use pwdtt.Obfs.{
  ByteList, Aead, Cache, ObfsConfig, ObfsState, wrap_key_len, wrap_packet, unwrap_packet,
  is_rtp_packet, new_obfs_config,
}
use pwdtt.Obfs.RoundTrip.{IsAead}
use pwdtt.Obfs.Laws.{unwrap_packet-wrap_packet, wrap_packet_disguise}

-- The key of a password: an HKDF of it (a parameter), if it is not empty and the HKDF gives enough.
unfoldable derive_wrap_key : (Text → Option ByteList) → Text → Option ByteList
derive_wrap_key hkdf password = if password ≗ [] then none else hkdf password

-- Packets are disguised if there is a key of the right length.
unfoldable uses_wrap : ByteList → Bool
uses_wrap key = length key == wrap_key_len

abbrev keepalive_byte : ℕ
keepalive_byte = 0xFF

-- What of a packet is in the relay's buffer of 1600 + 80 bytes.
unfoldable relay_buffered : ByteList → ByteList
relay_buffered packet = take 1680 packet

unfoldable unwrap_payload : Aead → Cache → ByteList → ByteList → ByteList → Option ByteList
unwrap_payload a cache key plain payload = elim (unwrap_packet a cache key payload plain).0 [
  | err e ↦ none
  | ok (m, written) ↦ some (take m written)
]

-- A packet from the relay: what is handed on to DTLS, if anything. `plain` is the buffer of 1600
-- bytes that payloads are written to.
unfoldable pub relay_in : Aead → Cache → ByteList → ByteList → ByteList → Option ByteList
unfolding uses_wrap relay_buffered unwrap_payload
relay_in a cache key plain packet =
    let payload = relay_buffered packet in
    if not (uses_wrap key)
    then some payload
    else if is_rtp_packet payload
    then unwrap_payload a cache key plain payload
    else none

-- A record of DTLS to the relay: what is sent, or the end of the loop.
unfoldable pub relay_out :
    Aead → Cache → ℕ → (ℕ → ℕ) → ByteList → ObfsConfig → ObfsState → ByteList → Option ByteList
unfolding uses_wrap
relay_out a cache rnd fill key cfg s out =
    if not (uses_wrap key)
    then some out
    else elim (wrap_packet a cache rnd fill key out cfg s).0 [ err e ↦ none | ok wire ↦ some wire ]

-- What the reader hands to the dispatcher: all but keepalives.
unfoldable read_packet : ByteList → Option ByteList
read_packet [] = some []
read_packet (b ∷ []) = if b == keepalive_byte then none else some (b ∷ [])
read_packet (b ∷ c ∷ rest) = some (b ∷ c ∷ rest)

take_all {ℓ} : {A : Type ℓ} (n : ℕ) (xs : List A) → length xs ≤ n → take n xs ≡ xs
take_all zero [] h = refl
take_all zero (x ∷ xs) h = absurd (omega arith)
take_all (suc n) [] h = refl
take_all (suc n) (x ∷ xs) h = ap (◌∷◌ x) (take_all n xs (omega arith))

padding_small : (mode : Text) (ssrc : ℕ) → (new_obfs_config mode ssrc).padding_max ≤ 255
unfolding new_obfs_config
padding_small mode ssrc = ground arith

relay_buffered_all : (p : ByteList) → length p ≤ 1680 → relay_buffered p ≡ p
unfolding relay_buffered
relay_buffered_all p h = take_all 1680 p h

relay_in_opened :
    (a : Aead) (cache : Cache) (key plain wire payload rest : ByteList)
    → uses_wrap key ≡ true
    → length wire ≤ 1680
    → is_rtp_packet wire ≡ true
    → (unwrap_packet a cache key wire plain).0 ≡ ok (length payload, payload ++ rest)
    → relay_in a cache key plain wire ≡ some payload
unfolding relay_in unwrap_payload
relay_in_opened a cache key plain wire payload rest keyed short rtp opened =
    rw
      (
        keyed,
        relay_buffered_all wire short,
        rtp,
        unwrap_payload,
        opened,
        take_seam payload rest (length payload) refl,
      )
      refl

-- What one side's loop sends of a record that is not empty and has at most 1592 bytes, the other
-- side's loop hands on unchanged, with the same key, in either mode, whatever ciphers are cached;
-- without a key of 32 bytes packets go as they are.
pub relay_in-relay_out :
    (a : Aead)
    → IsAead a
    → (mode : Text) (ssrc : ℕ) (key payload plain : ByteList) (s : ObfsState) (rnd : ℕ)
      (fill : ℕ → ℕ) (sent received : Cache)
    → 0 < length payload
    → length payload ≤ 1592
    → length plain ≡ 1600
    → (wire : ByteList) × (relay_out a sent rnd fill key (new_obfs_config mode ssrc) s payload
        ≡ some wire)
      × (relay_in a received key plain wire ≡ some payload)
unfolding relay_in relay_out unwrap_payload uses_wrap
relay_in-relay_out a law mode ssrc key payload plain s rnd fill sent received some_byte small room =
    elim (Bool-cases (length key == wrap_key_len)) [
      | inr bare ↦ (
        payload,
        ground (arith, bare),
        ground (arith, bare, relay_buffered_all payload (omega arith)),
      )
      | inl keyed ↦
          let cfg = new_obfs_config mode ssrc in
          let k : length key ≡ 32 = ground (arith, keyed) in
          let (wire, wrapped, rtp, longer, shorter) =
            wrap_packet_disguise a law mode ssrc key payload s rnd fill sent k some_byte in
          let (wire', wrapped', opened) =
            unwrap_packet-wrap_packet a law key payload cfg s rnd fill sent received plain k
              some_byte (padding_small mode ssrc) (omega arith) in
          let same : wire' ≡ wire = ground (arith, wrapped, wrapped') in
          let opened' = rw same at opened in
          (
            wire,
            ground (arith, keyed, wrapped),
            relay_in_opened a received key plain wire payload (drop (length payload) plain) keyed
                (omega arith) rtp opened',
          )
    ]
