-- ===== src/Dispatcher/Slots.antt =====
-- Registering and unregistering workers, and what stays true of the dispatcher's state.
use mathlib.Core.List.{append-nil}
use pwdtt.Prelude.{
  ℕ, zero, suc, ◌≤◌, ◌<◌, Bool-cases, List, [], ◌∷◌, ◌++◌, ◌≡◌, ◌⊎◌, inl, inr, refl, ap, ◌∙◌, arith,
  length, set, All, length-append, ◌==◌, lt_of_ltb,
}
use pwdtt.Dispatcher.{
  Packet, WorkerSlot, Dispatcher, enqueue, slot_has_room, without_slot, register, unregister,
  read_step, route,
}
use pwdtt.Dispatcher.Delivery.{Outcome, read_step-Outcome}

abbrev pub HasPointer : ℕ → List WorkerSlot → Type 0
HasPointer p [] = ⊥
HasPointer p (w ∷ ws) = (w.pointer ≡ p) ⊎ HasPointer p ws

without_slot-append :
    (p : ℕ) (xs ys : List WorkerSlot)
    → without_slot p (xs ++ ys) ≡ without_slot p xs ++ without_slot p ys
unfolding without_slot
without_slot-append p [] ys = refl
without_slot-append p (w ∷ xs) ys = ground (arith, without_slot-append p xs ys)

without_slot_absent : (p : ℕ) (ws : List WorkerSlot) → ¬ HasPointer p ws → without_slot p ws ≡ ws
unfolding without_slot
without_slot_absent p [] h = refl
without_slot_absent p (w ∷ ws) h =
    let rest = without_slot_absent p ws (λ m. h (inr m)) in
    elim (Bool-cases (w.pointer == p)) [
      | inl same ↦ absurd (h (inl (ground arith)))
      | inr other ↦ rw (other, rest)
    ]

without_slot_gone : (p : ℕ) (ws : List WorkerSlot) → ¬ HasPointer p (without_slot p ws)
unfolding without_slot
without_slot_gone p [] h = h
without_slot_gone p (w ∷ ws) h =
    let rest = without_slot_gone p ws in
    elim (Bool-cases (w.pointer == p)) [
      | inl same ↦ rest (rw same at h)
      | inr other ↦ elim (rw other at h) [ inl e ↦ ground arith | inr m ↦ rest m ]
    ]

without_slot-append_self :
    (w : WorkerSlot) (ws : List WorkerSlot)
    → ¬ HasPointer w.pointer ws
    → without_slot w.pointer (ws ++ w ∷ []) ≡ ws
without_slot-append_self w ws h =
    let last : without_slot w.pointer (w ∷ []) ≡ [] = unfold without_slot in ground arith in
    without_slot-append w.pointer ws (w ∷ [])
    ∙ rw (without_slot_absent w.pointer ws h, last) (append-nil ws)

-- Unregistering leaves no slot of that pointer, and undoes the registration of a slot that was not
-- registered before: the slots, their order and everything else are as they were.
pub unregister-register :
    (w : WorkerSlot) (d : Dispatcher)
    → ¬ HasPointer w.pointer d.workers
    → (unregister w.pointer (register w d) ≡ d)
      × ((e : Dispatcher) → ¬ HasPointer w.pointer (unregister w.pointer e).workers)
unfolding unregister register
unregister-register w d h = (
  ap (λ ws. record d { workers = ws }) (without_slot-append_self w d.workers h),
  λ e. without_slot_gone w.pointer e.workers,
)

abbrev Bounded : WorkerSlot → Type 0
Bounded w = length w.queue ≤ w.capacity

-- No channel holds more than its capacity, and the chunk counter stays below the chunk's size.
pub record IsSound (d : Dispatcher) : Type 0 where
  pub bounded : All Bounded d.workers
  pub count_small : d.rr_count < 12

pub All-set {ℓ κ} :
    {A : Type ℓ} (P : A → Type κ) (xs : List A) (i : ℕ) (v : A)
    → All P xs
    → P v
    → All P (set xs i v)
All-set P [] i v h p = h
All-set P (x ∷ xs) zero v h p = (p, h.1)
All-set P (x ∷ xs) (suc i) v h p = (h.0, All-set P xs i v h.1 p)

Outcome-Bounded :
    (pkt : Packet) (ws ws' : List WorkerSlot)
    → Outcome pkt ws ws'
    → All Bounded ws
    → All Bounded ws'
unfolding slot_has_room
Outcome-Bounded pkt ws ws' (inl e) h =
    let room = e.room in
    rw e.result (
      All-set Bounded ws e.target (enqueue pkt e.slot) h
        (omega (arith, length-append e.slot.queue (pkt ∷ []), lt_of_ltb _ _ room)))
Outcome-Bounded pkt ws ws' (inr full) h = rw full.1 h

read_step_count :
    (pkt : Packet) (addr : ℕ) (d : Dispatcher)
    → d.rr_count < 12
    → (read_step pkt addr d).rr_count < 12
unfolding read_step route
read_step_count pkt addr d h = ground arith

-- Every packet that is read keeps the dispatcher sound.
pub read_step-IsSound :
    (pkt : Packet) (addr : ℕ) (d : Dispatcher) → IsSound d → IsSound (read_step pkt addr d)
read_step-IsSound pkt addr d h = record {
  bounded = Outcome-Bounded pkt d.workers _ (read_step-Outcome pkt addr d) h.bounded;
  count_small = read_step_count pkt addr d h.count_small;
}
