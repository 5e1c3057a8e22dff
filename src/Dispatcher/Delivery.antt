-- ===== src/Dispatcher/Delivery.antt =====
-- Where a packet goes: into exactly one worker's channel, unless every channel is full.
use native.Mathlib.Nat.{mod-eq_of_lt}
use pwdtt.Prelude.{
  ℕ, zero, suc, ◌+◌, ◌-◌, ◌%◌, ◌≤◌, ◌<◌, true, false, Bool-cases, Option-cases, List, none, some,
  ◌≡◌, ◌⊎◌, inl, inr, refl, sym, ap, ◌∙◌, arith, length, get_elem?, set, leb, ◌==◌,
}
use pwdtt.Dispatcher.{
  Packet, WorkerSlot, Dispatcher, enqueue, slot_has_room, try_send, try_others, route, read_step,
}

-- One slot with room took the packet at the end of its queue; the others are as they were.
pub record Delivered (pkt : Packet) (ws ws' : List WorkerSlot) : Type 0 where
  pub target : ℕ
  pub slot : WorkerSlot
  at_target : get_elem? ws target ≡ some slot
  pub room : slot_has_room slot ≡ true
  pub result : ws' ≡ set ws target (enqueue pkt slot)

abbrev Full : List WorkerSlot → ℕ → Type 0
Full ws i = (w : WorkerSlot) → get_elem? ws i ≡ some w → slot_has_room w ≡ false

try_send-some :
    (ws ws' : List WorkerSlot) (i : ℕ) (pkt : Packet)
    → try_send ws i pkt ≡ some ws'
    → (w : WorkerSlot) × (get_elem? ws i ≡ some w)
      × (slot_has_room w ≡ true)
      × (ws' ≡ set ws i (enqueue pkt w))
unfolding try_send
try_send-some ws ws' i pkt h = elim (Option-cases (get_elem? ws i)) [
  | inl e ↦ absurd (ground arith)
  | inr (w, e) ↦ (w, e, ground arith, ground arith)
]

try_send-Delivered :
    (ws ws' : List WorkerSlot) (i : ℕ) (pkt : Packet)
    → try_send ws i pkt ≡ some ws'
    → Delivered pkt ws ws'
try_send-Delivered ws ws' i pkt h =
    let (w, at, room, out) = try_send-some ws ws' i pkt h in
    record { target = i; slot = w; at_target = at; room = room; result = out }

try_send-none : (ws : List WorkerSlot) (i : ℕ) (pkt : Packet) → try_send ws i pkt ≡ none → Full ws i
unfolding try_send
try_send-none ws i pkt h w e = ground arith

try_others-some :
    (ws : List WorkerSlot) (idx : ℕ) (pkt : Packet) (rounds i : ℕ) (alt : ℕ) (ws' : List WorkerSlot)
    → try_others ws idx pkt rounds i ≡ some (alt, ws')
    → Delivered pkt ws ws'
unfolding try_others
try_others-some ws idx pkt zero i alt ws' h = absurd (ground arith)
try_others-some ws idx pkt (suc rounds) i alt ws' h =
    elim (Option-cases (try_send ws ((idx + i) % length ws) pkt)) [
      | inl e ↦ try_others-some ws idx pkt rounds (i + 1) alt ws' (ground arith)
      | inr (out, e) ↦ try_send-Delivered ws ws' ((idx + i) % length ws) pkt (ground arith)
    ]

try_others-none :
    (ws : List WorkerSlot) (idx : ℕ) (pkt : Packet) (rounds i k : ℕ)
    → try_others ws idx pkt rounds i ≡ none
    → i ≤ k
    → k < i + rounds
    → Full ws ((idx + k) % length ws)
unfolding try_others
try_others-none ws idx pkt zero i k h lo hi = absurd (omega arith)
try_others-none ws idx pkt (suc rounds) i k h lo hi =
    elim (Option-cases (try_send ws ((idx + i) % length ws) pkt)) [
      | inr (out, e) ↦ absurd (ground arith)
      | inl e ↦ elim (Bool-cases (i == k)) [
        | inl here ↦
            let same : i ≡ k = ground arith in
            rw (← same) (try_send-none ws ((idx + i) % length ws) pkt e)
        | inr later ↦
            try_others-none ws idx pkt rounds (i + 1) k (ground arith) (ground arith) (omega arith)
      ]
    ]

-- Every position is met at some offset below the number of workers.
offset_of : (n idx j : ℕ) → idx < n → j < n → (k : ℕ) × (k < n) × ((idx + k) % n ≡ j)
offset_of n idx j hi hj = elim (Bool-cases (leb idx j)) [
  | inl le ↦ (j - idx, ground arith, grind arith)
  | inr gt ↦ (j + n - idx, ground arith, grind arith)
]

-- When the worker in turn and all the others refuse, every channel is full.
all-Full :
    (ws : List WorkerSlot) (idx : ℕ) (pkt : Packet)
    → idx < length ws
    → try_send ws idx pkt ≡ none
    → try_others ws idx pkt (length ws - 1) 1 ≡ none
    → (j : ℕ) → j < length ws
    → Full ws j
all-Full ws idx pkt hi first others j hj =
    let (k, hk, at) = offset_of (length ws) idx j hi hj in
    elim (Bool-cases (k == 0)) [
      | inl here ↦
          let same : idx ≡ j =
            sym (mod-eq_of_lt hi) ∙ ap (λ t. t % length ws) (ground arith) ∙ at in
          rw (← same) (try_send-none ws idx pkt first)
      | inr later ↦
          rw (← at)
            (try_others-none ws idx pkt (length ws - 1) 1 k others (ground arith) (omega arith))
    ]

module _ (pkt : Packet) (n : ℕ) (d : Dispatcher) where
  route_first :
      (ws : List WorkerSlot)
      → try_send d.workers (d.rr_index % n) pkt ≡ some ws
      → (route pkt n d).workers ≡ ws
  unfolding route
  route_first ws e = ground arith

  route_other :
      (alt : ℕ) (ws : List WorkerSlot)
      → try_send d.workers (d.rr_index % n) pkt ≡ none
      → try_others d.workers (d.rr_index % n) pkt (n - 1) 1 ≡ some (alt, ws)
      → (route pkt n d).workers ≡ ws
  unfolding route
  route_other alt ws e f = ground arith

  route_nowhere :
      try_send d.workers (d.rr_index % n) pkt ≡ none
      → try_others d.workers (d.rr_index % n) pkt (n - 1) 1 ≡ none
      → (route pkt n d).workers ≡ d.workers
  unfolding route
  route_nowhere e f = ground arith

-- The packet is delivered, or every channel is full and nothing changes in the channels.
abbrev pub Outcome : Packet → List WorkerSlot → List WorkerSlot → Type 0
Outcome pkt ws ws' = Delivered pkt ws ws' ⊎ (((j : ℕ) → j < length ws → Full ws j) × (ws' ≡ ws))

route-Outcome :
    (pkt : Packet) (d : Dispatcher)
    → 0 < length d.workers
    → Outcome pkt d.workers (route pkt (length d.workers) d).workers
route-Outcome pkt d pos =
    let n = length d.workers in
    let idx = d.rr_index % n in
    elim (Option-cases (try_send d.workers idx pkt)) [
      | inr (ws, e) ↦
          rw (route_first pkt n d ws e) (inl (try_send-Delivered d.workers ws idx pkt e))
      | inl e ↦ elim (Option-cases (try_others d.workers idx pkt (n - 1) 1)) [
        | inr ((alt, ws), f) ↦
            rw (route_other pkt n d alt ws e f)
              (inl (try_others-some d.workers idx pkt (n - 1) 1 alt ws f))
        | inl f ↦
            rw (route_nowhere pkt n d e f)
              (inr (all-Full d.workers idx pkt (omega arith) e f, refl))
      ]
    ]

-- A packet that was read goes to the end of the queue of one worker that had room, and all other
-- workers stay as they are; it is dropped only if every worker's queue is full (or there is no
-- worker), and then no queue changes.
pub read_step-Outcome :
    (pkt : Packet) (addr : ℕ) (d : Dispatcher)
    → Outcome pkt d.workers (read_step pkt addr d).workers
unfolding read_step
read_step-Outcome pkt addr d = elim (Bool-cases (length d.workers == 0)) [
  | inl none_yet ↦ rw none_yet (inr (λ j h. absurd (ground arith), refl))
  | inr some_there ↦ rw some_there (
      route-Outcome pkt
        (record d {
          client_addr = some addr;
          bytes_up = (d.bytes_up + length pkt) % 18446744073709551616;
        })
        (ground arith))
]
