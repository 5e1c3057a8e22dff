-- ===== src/Tests/Workers.antt =====
-- Runs for core/dispatcher.go.
use pwdtt.Prelude.{ℕ, [], ◌∷◌, none, ◌≡◌, refl, arith}
use pwdtt.Dispatcher.{Packet, WorkerSlot, Dispatcher, read_step}
use pwdtt.Dispatcher.Delivery.{Outcome, read_step-Outcome}
use pwdtt.Dispatcher.Chunks.{read_all, read_all_chunk}
use pwdtt.Dispatcher.Slots.{HasPointer, IsSound}

abbrev worker : ℕ → ℕ → WorkerSlot
worker p n = record { pointer = p; id = p; queue = []; capacity = n }

abbrev two_workers : Dispatcher
two_workers = record {
  client_addr = none;
  workers = worker 1 4 ∷ worker 2 4 ∷ [];
  rr_index = 1;
  rr_count = 10;
  return_ch = [];
  bytes_up = 0;
  bytes_down = 0;
}

abbrev a_packet : Packet
a_packet = 1 ∷ 2 ∷ []

read_step-Outcome_example :
    Outcome a_packet two_workers.workers (read_step a_packet 9 two_workers).workers
read_step-Outcome_example = read_step-Outcome a_packet 9 two_workers

read_all_chunk_example :
    let d' = read_all ((a_packet, 9) ∷ (3 ∷ [], 9) ∷ []) two_workers in
    (d'.workers ≡ worker 1 4 ∷ record (worker 2 4) { queue = a_packet ∷ (3 ∷ []) ∷ [] } ∷ [])
    × (d'.rr_index ≡ 0)
    × (d'.rr_count ≡ 0)
read_all_chunk_example =
    read_all_chunk (a_packet, 9) ((3 ∷ [], 9) ∷ []) two_workers (worker 2 4) (omega arith) refl
      (omega arith) refl

no_third : ¬ HasPointer 3 two_workers.workers
no_third h = ground arith

two_workers-IsSound : IsSound two_workers
two_workers-IsSound = record {
  bounded = (ground arith, (ground arith, tt));
  count_small = omega arith;
}
