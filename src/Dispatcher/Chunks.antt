-- ===== src/Dispatcher/Chunks.antt =====
-- Round robin by chunks: twelve packets for one worker, then the next worker's turn.
use mathlib.Core.List.{append_assoc}
use mathlib.Core.Path.{ap₂}
use pwdtt.Prelude.{
  ℕ, zero, suc, ◌+◌, ◌%◌, ◌≤◌, ◌<◌, List, [], ◌∷◌, ◌++◌, map, some, ◌≡◌, refl, ap, ◌∙◌, arith,
  length, get_elem?, set, length-append, length-set,
}
use pwdtt.Dispatcher.{
  Packet, WorkerSlot, Dispatcher, enqueue, slot_has_room, try_send, route, read_step,
}

-- The reads of a burst, each a packet and the address it came from.
unfoldable pub read_all : List (Packet × ℕ) → Dispatcher → Dispatcher
read_all [] d = d
read_all ((pkt, addr) ∷ rest) d = read_all rest (read_step pkt addr d)

abbrev pub packets : List (Packet × ℕ) → List Packet
packets = map (λ r. r.0)

abbrev enqueue_all : List Packet → WorkerSlot → WorkerSlot
enqueue_all ps w = record w { queue = w.queue ++ ps }

-- The worker in turn has room: it takes the packet, and the turn passes on after the twelfth.
step_in_turn :
    (pkt : Packet) (addr : ℕ) (d : Dispatcher) (w : WorkerSlot)
    → 0 < length d.workers
    → get_elem? d.workers (d.rr_index % length d.workers) ≡ some w
    → length w.queue < w.capacity
    → let d' = read_step pkt addr d in
      let i = d.rr_index % length d.workers in
      (d'.workers ≡ set d.workers i (enqueue pkt w))
      × (d.rr_count < 11 → (d'.rr_index ≡ d.rr_index) × (d'.rr_count ≡ d.rr_count + 1))
      × (d.rr_count ≡ 11 → (d'.rr_index ≡ (i + 1) % length d.workers) × (d'.rr_count ≡ 0))
unfolding read_step route try_send slot_has_room
step_in_turn pkt addr d w pos at room = ground arith

get_elem?-set :
    (ws : List WorkerSlot) (i : ℕ) (w v : WorkerSlot)
    → get_elem? ws i ≡ some w
    → get_elem? (set ws i v) i ≡ some v
get_elem?-set [] i w v h = absurd (ground arith)
get_elem?-set (x ∷ ws) zero w v h = refl
get_elem?-set (x ∷ ws) (suc i) w v h = get_elem?-set ws i w v h

set-set : (ws : List WorkerSlot) (i : ℕ) (v u : WorkerSlot) → set (set ws i v) i u ≡ set ws i u
set-set [] i v u = refl
set-set (x ∷ ws) zero v u = refl
set-set (x ∷ ws) (suc i) v u = ap (◌∷◌ x) (set-set ws i v u)

-- While the worker in turn has room, a burst that completes its chunk of twelve goes to it in
-- order, no other worker gets any of it, and the next worker's turn begins with an empty chunk.
pub read_all_chunk :
    (first : Packet × ℕ) (burst : List (Packet × ℕ)) (d : Dispatcher) (w : WorkerSlot)
    → 0 < length d.workers
    → get_elem? d.workers (d.rr_index % length d.workers) ≡ some w
    → length w.queue + length (first ∷ burst) ≤ w.capacity
    → d.rr_count + length (first ∷ burst) ≡ 12
    → let d' = read_all (first ∷ burst) d in
      let i = d.rr_index % length d.workers in
      (d'.workers ≡ set d.workers i (enqueue_all (packets (first ∷ burst)) w))
      × (d'.rr_index ≡ (i + 1) % length d.workers)
      × (d'.rr_count ≡ 0)
unfolding read_all
read_all_chunk (pkt, addr) [] d w pos at room full =
    let (sent, stay, turn) = step_in_turn pkt addr d w pos at (omega arith) in
    let (index, count) = turn (omega arith) in (sent, index, count)
read_all_chunk (pkt, addr) (next ∷ burst) d w pos at room full =
    let (sent, stay, turn) = step_in_turn pkt addr d w pos at (omega arith) in
    let (index, count) = stay (omega arith) in
    let d' = read_step pkt addr d in
    let i = d.rr_index % length d.workers in
    let n : length d'.workers ≡ length d.workers = ap length sent ∙ length-set d.workers i _ in
    let at' : get_elem? d'.workers (d'.rr_index % length d'.workers) ≡ some (enqueue pkt w) =
      rw (index, n, sent) (get_elem?-set d.workers i w _ at) in
    let (sent', index', count') =
      read_all_chunk next burst d' (enqueue pkt w) (omega (arith, n)) at'
        (omega (arith, length-append w.queue (pkt ∷ []))) (omega (arith, count)) in
    let turn_same : d'.rr_index % length d'.workers ≡ i = ap₂ (λ a m. a % m) index n in
    let sent_all : (read_all (next ∷ burst) d').workers
        ≡ set (set d.workers i (enqueue pkt w)) i
            (enqueue_all (packets (next ∷ burst)) (enqueue pkt w)) =
      sent'
      ∙ ap₂ (λ ws j. set ws j (enqueue_all (packets (next ∷ burst)) (enqueue pkt w))) sent
          turn_same in
    (
      sent_all
          ∙ set-set d.workers i _ _
          ∙ ap (λ q. set d.workers i (record w { queue = q }))
              (append_assoc w.queue (pkt ∷ []) (packets (next ∷ burst))),
      index' ∙ ap₂ (λ a m. (a + 1) % m) turn_same n,
      count',
    )
