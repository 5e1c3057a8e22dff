-- ===== src/Dispatcher.antt =====
-- core/dispatcher.go: packets of the local client are spread over the workers' channels in chunks,
-- and packets of the workers go back to the client that was heard last.
-- A channel is its queue and its capacity; a send under `select` with `default` succeeds when the
-- queue has room. A slot is known by its pointer, and a packet by its bytes.
pub mod Delivery
pub mod Chunks
pub mod Slots
use pwdtt.Prelude.{
  ℕ, zero, suc, ◌+◌, ◌-◌, ◌%◌, Bool, not, List, [], ◌∷◌, ◌++◌, Option, none, some, ltb, leb, ◌==◌,
  if◌then◌else◌, length, get_elem?, set,
}

abbrev pub Packet : Type 0
Packet = List ℕ

pub record WorkerSlot : Type 0 where
  pub pointer : ℕ
  pub id : ℕ
  pub queue : List Packet
  pub capacity : ℕ

pub record Dispatcher : Type 0 where
  pub client_addr : Option ℕ
  pub workers : List WorkerSlot
  pub rr_index : ℕ  -- int32
  pub rr_count : ℕ  -- int32
  pub return_ch : List Packet
  pub bytes_up : ℕ  -- int64
  pub bytes_down : ℕ  -- int64

abbrev chunk_size : ℕ
chunk_size = 12

unfoldable new_dispatcher : Dispatcher
new_dispatcher = record {
  client_addr = none;
  workers = [];
  rr_index = 0;
  rr_count = 0;
  return_ch = [];
  bytes_up = 0;
  bytes_down = 0;
}

unfoldable pub register : WorkerSlot → Dispatcher → Dispatcher
register w d = record d { workers = d.workers ++ w ∷ [] }

unfoldable pub without_slot : ℕ → List WorkerSlot → List WorkerSlot
without_slot p [] = []
without_slot p (w ∷ ws) =
    let rest = without_slot p ws in if not (w.pointer == p) then w ∷ rest else rest

unfoldable pub unregister : ℕ → Dispatcher → Dispatcher
unfolding without_slot
unregister p d = record d { workers = without_slot p d.workers }

unfoldable pub slot_has_room : WorkerSlot → Bool
slot_has_room w = ltb (length w.queue) w.capacity

abbrev pub enqueue : Packet → WorkerSlot → WorkerSlot
enqueue pkt w = record w { queue = w.queue ++ pkt ∷ [] }

-- `select { case ws[i].SendCh <- pkt: … default: … }`: the new slots if the send succeeds.
unfoldable pub try_send : List WorkerSlot → ℕ → Packet → Option (List WorkerSlot)
try_send ws i pkt = elim (get_elem? ws i) [
  | none ↦ none
  | some w ↦ if slot_has_room w then some (set ws i (enqueue pkt w)) else none
]

-- The loop over the other workers, `rounds` of them left, from offset `i`: which one took the packet.
unfoldable pub try_others : List WorkerSlot → ℕ → Packet → ℕ → ℕ → Option (ℕ × List WorkerSlot)
try_others ws idx pkt zero i = none
try_others ws idx pkt (suc rounds) i =
    let alt = (idx + i) % length ws in
    let next = try_others ws idx pkt rounds (i + 1) in
    elim (try_send ws alt pkt) [ some ws' ↦ some (alt, ws') | none ↦ next ]

-- What `readLoop` does with a packet once there are `n` > 0 workers.
unfoldable pub route : Packet → ℕ → Dispatcher → Dispatcher
route pkt n d =
    let idx = d.rr_index % n in
    elim (try_send d.workers idx pkt) [
      | some ws ↦
          if leb chunk_size (d.rr_count + 1)
          then record d { workers = ws; rr_index = (idx + 1) % n; rr_count = 0 }
          else record d { workers = ws; rr_count = d.rr_count + 1 }
      | none ↦ elim (try_others d.workers idx pkt (n - 1) 1) [
        | some (alt, ws) ↦ record d { workers = ws; rr_index = alt; rr_count = 1 }
        | none ↦ record d { rr_index = (idx + 1) % n; rr_count = 0 }
      ]
    ]

-- One turn of `readLoop` after a read that succeeded.
unfoldable pub read_step : Packet → ℕ → Dispatcher → Dispatcher
read_step pkt addr d =
    let d' = record d {
      client_addr = some addr;
      bytes_up = (d.bytes_up + length pkt) % 18446744073709551616;
    } in
    if length d.workers == 0 then d' else route pkt (length d.workers) d'

-- One turn of `writeLoop` while the context lives: the packet and address of the write, if any.
unfoldable pub write_step : Dispatcher → Dispatcher × Option (Packet × ℕ)
write_step d = elim d.return_ch [
  | [] ↦ (d, none)
  | pkt ∷ rest ↦ elim d.client_addr [
    | none ↦ (record d { return_ch = rest }, none)
    | some addr ↦ (
      record d {
        return_ch = rest;
        bytes_down = (d.bytes_down + length pkt) % 18446744073709551616;
      },
      some (pkt, addr),
    )
  ]
]
