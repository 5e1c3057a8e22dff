-- ===== src/Core/Queue.antt =====
-- core/main.go: `emit` on the channel of events. Any number of calls run at once: each one is a
-- sequence of steps, and the bridge takes events between them.
use pwdtt.Prelude.{
  ℕ, ◌+◌, ◌≤◌, ◌<◌, Bool-cases, List, [], ◌∷◌, ◌++◌, none, some, length, length-append, get_elem?,
  set, total, total-set, ltb, ◌≡◌, ◌⊎◌, inl, inr, refl, sym, ap, ◌∙◌, arith, if◌then◌else◌,
  Option-cases, List-cases, true, false,
}
use mathlib.Core.List.{append_assoc}

module _ {ℓ} {A : Type ℓ} where
  abbrev behind_first : List A → List A
  behind_first [] = []
  behind_first (x ∷ xs) = xs

  -- The head of a list, as a list.
  abbrev first_only : List A → List A
  first_only [] = []
  first_only (x ∷ xs) = x ∷ []

-- Where a call of `emit` is: before its first send, before the receive that makes room, before its
-- second send, or at its end with the event sent or lost.
pub data EmitPhase {ℓ} (A : Type ℓ) : Type ℓ where
  offers : A → EmitPhase A
  drops_oldest : A → EmitPhase A
  retries : A → EmitPhase A
  sent lost : EmitPhase A

-- The channel with its capacity; and, for what is said of them, the events that have entered it and
-- those that have left it, taken by the bridge or dropped, in order.
pub record Channel {ℓ} (A : Type ℓ) : Type ℓ where
  pub queue : List A
  pub entered : List A
  pub gone : List A

module _ {ℓ} {A : Type ℓ} where
  -- A receive that does not wait.
  unfoldable pub receive : Channel A → Channel A
  receive c = record c { queue = behind_first c.queue; gone = c.gone ++ first_only c.queue }

  -- A send that does not wait, with the phases for success and for a full channel.
  unfoldable pub try_to_send : ℕ → A → EmitPhase A → Channel A → EmitPhase A × Channel A
  try_to_send cap ev otherwise c =
      if ltb (length c.queue) cap
      then (sent, record c { queue = c.queue ++ ev ∷ []; entered = c.entered ++ ev ∷ [] })
      else (otherwise, c)

  -- A step of a call.
  unfoldable pub emit_step : ℕ → EmitPhase A → Channel A → EmitPhase A × Channel A
  unfolding receive try_to_send
  emit_step cap (offers ev) c = try_to_send cap ev (drops_oldest ev) c
  emit_step cap (drops_oldest ev) c = (retries ev, receive c)
  emit_step cap (retries ev) c = try_to_send cap ev lost c
  emit_step cap sent c = (sent, c)
  emit_step cap lost c = (lost, c)

  -- A call that no other step interrupts.
  unfoldable pub emit : ℕ → A → Channel A → EmitPhase A × Channel A
  unfolding emit_step
  emit cap ev c =
      let first = emit_step cap (offers ev) c in
      let second = emit_step cap first.0 first.1 in emit_step cap second.0 second.1

-- A step of the i-th call, or one of the bridge.
pub data QueueMove : Type 0 where
  emits : ℕ → QueueMove
  takes : QueueMove

pub record QueueSystem {ℓ} (A : Type ℓ) : Type ℓ where
  pub calls : List (EmitPhase A)
  pub channel : Channel A

module _ {ℓ} {A : Type ℓ} where
  unfoldable pub step_queue : ℕ → QueueMove → QueueSystem A → QueueSystem A
  unfolding emit_step receive
  step_queue cap takes s = record s { channel = receive s.channel }
  step_queue cap (emits i) s = elim (get_elem? s.calls i) [
    | none ↦ s
    | some p ↦
        let r = emit_step cap p s.channel in record { calls = set s.calls i r.0; channel = r.1 }
  ]

  unfoldable pub run_queue : ℕ → List QueueMove → QueueSystem A → QueueSystem A
  unfolding step_queue
  run_queue cap [] s = s
  run_queue cap (m ∷ moves) s = run_queue cap moves (step_queue cap m s)

  abbrev is_sent : EmitPhase A → ℕ
  is_sent sent = 1
  is_sent _ = 0

  -- The channel holds what has entered and not left, within its capacity, and as many events have
  -- entered as calls have sent theirs.
  pub record IsQueue (cap : ℕ) (s : QueueSystem A) : Type ℓ where
    pub fifo : s.channel.gone ++ s.channel.queue ≡ s.channel.entered
    pub bounded : length s.channel.queue ≤ cap
    pub counted : length s.channel.entered ≡ total is_sent s.calls

  first_behind : (q : List A) → first_only q ++ behind_first q ≡ q
  first_behind [] = refl
  first_behind (x ∷ q) = refl

  behind_first-length : (q : List A) → length (behind_first q) ≤ length q
  behind_first-length [] = omega arith
  behind_first-length (x ∷ q) = omega arith

  receive_fifo :
      (c : Channel A)
      → c.gone ++ c.queue ≡ c.entered
      → (receive c).gone ++ (receive c).queue ≡ (receive c).entered
  unfolding receive
  receive_fifo c h =
      append_assoc c.gone (first_only c.queue) (behind_first c.queue)
      ∙ ap (λ q. c.gone ++ q) (first_behind c.queue)
      ∙ h

  -- What a step does to the channel and to its call's part of the count.
  abbrev Stepped : ℕ → EmitPhase A → Channel A → EmitPhase A × Channel A → Type ℓ
  Stepped cap p c r =
      (r.1.gone ++ r.1.queue ≡ r.1.entered)
      × (length r.1.queue ≤ cap)
      × (length r.1.entered + is_sent p ≡ length c.entered + is_sent r.0)

  try_to_send-Stepped :
      (cap : ℕ) (ev : A) (p otherwise : EmitPhase A) (c : Channel A)
      → is_sent p ≡ 0
      → is_sent otherwise ≡ 0
      → c.gone ++ c.queue ≡ c.entered
      → length c.queue ≤ cap
      → Stepped cap p c (try_to_send cap ev otherwise c)
  unfolding try_to_send
  try_to_send-Stepped cap ev p otherwise c np fails h k =
      elim (Bool-cases (ltb (length c.queue) cap)) [
        | inr full ↦ rw (try_to_send, full) (h, k, omega (arith, np, fails))
        | inl room ↦
            rw (try_to_send, room)
              (
                sym (append_assoc c.gone c.queue (ev ∷ [])) ∙ ap (λ l. l ++ ev ∷ []) h,
                ground (arith, room, length-append c.queue (ev ∷ [])),
                omega (arith, np, length-append c.entered (ev ∷ [])),
              )
      ]

  emit_step-Stepped :
      (cap : ℕ) (p : EmitPhase A) (c : Channel A)
      → c.gone ++ c.queue ≡ c.entered
      → length c.queue ≤ cap
      → Stepped cap p c (emit_step cap p c)
  unfolding emit_step receive
  emit_step-Stepped cap (offers ev) c h k =
      try_to_send-Stepped cap ev (offers ev) (drops_oldest ev) c refl refl h k
  emit_step-Stepped cap (drops_oldest ev) c h k =
      (receive_fifo c h, omega (arith, behind_first-length c.queue), refl)
  emit_step-Stepped cap (retries ev) c h k =
      try_to_send-Stepped cap ev (retries ev) lost c refl refl h k
  emit_step-Stepped cap sent c h k = (h, k, refl)
  emit_step-Stepped cap lost c h k = (h, k, refl)

  step_queue-IsQueue :
      (cap : ℕ) (m : QueueMove) (s : QueueSystem A)
      → IsQueue cap s
      → IsQueue cap (step_queue cap m s)
  unfolding step_queue receive
  step_queue-IsQueue cap takes s h = record {
    fifo = receive_fifo s.channel h.fifo;
    bounded = omega (arith, h.bounded, behind_first-length s.channel.queue);
    counted = h.counted;
  }
  step_queue-IsQueue cap (emits i) s h = elim (Option-cases (get_elem? s.calls i)) [
    | inl nobody ↦ rw (step_queue, nobody) h
    | inr (p, at) ↦
        let r = emit_step cap p s.channel in
        let (fifo, bounded, count) = emit_step-Stepped cap p s.channel h.fifo h.bounded in
        rw (step_queue, at)
          record {
            fifo = fifo;
            bounded = bounded;
            counted = omega (arith, count, h.counted, total-set is_sent s.calls i p r.0 at);
          }
  ]

  run_queue-IsQueue :
      (cap : ℕ) (moves : List QueueMove) (s : QueueSystem A)
      → IsQueue cap s
      → IsQueue cap (run_queue cap moves s)
  unfolding run_queue
  run_queue-IsQueue cap [] s h = h
  run_queue-IsQueue cap (m ∷ moves) s h =
      run_queue-IsQueue cap moves (step_queue cap m s) (step_queue-IsQueue cap m s h)

  abbrev pub all_offer : List A → List (EmitPhase A)
  all_offer [] = []
  all_offer (ev ∷ evs) = offers ev ∷ all_offer evs

  none_sent : (evs : List A) → total is_sent (all_offer evs) ≡ 0
  none_sent [] = refl
  none_sent (ev ∷ evs) = omega (arith, none_sent evs)

  -- What an uninterrupted call does to the channel: the event is its last one, and of the others only
  -- the oldest is lost, if the channel was full.
  abbrev pub Emitted : ℕ → A → Channel A → EmitPhase A × Channel A → Type ℓ
  Emitted cap ev c r =
      (r.0 ≡ sent)
      × (((length c.queue < cap) × (r.1.queue ≡ c.queue ++ ev ∷ []))
          ⊎ ((oldest : A) × (rest : List A) × (c.queue ≡ oldest ∷ rest)
              × (length c.queue ≡ cap)
              × (r.1.queue ≡ rest ++ ev ∷ [])))

  send_room :
      (cap : ℕ) (ev : A) (otherwise : EmitPhase A) (c : Channel A)
      → ltb (length c.queue) cap ≡ true
      → try_to_send cap ev otherwise c
        ≡ (sent, record c { queue = c.queue ++ ev ∷ []; entered = c.entered ++ ev ∷ [] })
  unfolding try_to_send
  send_room cap ev otherwise c room = rw room refl

  send_full :
      (cap : ℕ) (ev : A) (otherwise : EmitPhase A) (c : Channel A)
      → ltb (length c.queue) cap ≡ false
      → try_to_send cap ev otherwise c ≡ (otherwise, c)
  unfolding try_to_send
  send_full cap ev otherwise c full = rw full refl

  emit-Emitted :
      (cap : ℕ) (ev : A) (c : Channel A)
      → 0 < cap
      → length c.queue ≤ cap
      → Emitted cap ev c (emit cap ev c)
  unfolding emit emit_step receive
  emit-Emitted cap ev c z k = elim (Bool-cases (ltb (length c.queue) cap)) [
    | inl room ↦
        rw (emit, send_room cap ev (drops_oldest ev) c room)
          (refl, inl (ground (arith, room), refl))
    | inr full ↦ elim (List-cases c.queue) [
      | inl empty ↦ absurd (ground (arith, full, empty))
      | inr (oldest, rest, queue) ↦
          let shorter : length (behind_first c.queue) < length c.queue = rw queue (omega arith) in
          let room : ltb (length (receive c).queue) cap ≡ true = ground (arith, shorter, k) in
          rw
            (
              emit,
              send_full cap ev (drops_oldest ev) c full,
              send_room cap ev lost (receive c) room,
            )
            (refl, inr (oldest, rest, queue, ground (arith, full, k), rw queue refl))
    ]
  ]

  -- However the calls interleave with each other and with the bridge: the channel holds exactly the
  -- events that have entered it and have neither been taken nor dropped, in order and without a gap,
  -- at most as many as it has places; as many have entered as calls have ended with their event sent.
  -- A further call that runs without interruption sends its event, as the last one in the channel, and
  -- drops the oldest one exactly if the channel is full.
  pub run_queue_lem :
      (cap : ℕ) (moves : List QueueMove) (evs : List A) (ev : A)
      → 0 < cap
      → let s = run_queue cap moves record {
        calls = all_offer evs;
        channel = record { queue = []; entered = []; gone = [] };
      } in
        IsQueue cap s × Emitted cap ev s.channel (emit cap ev s.channel)
  run_queue_lem cap moves evs ev z =
      let start : QueueSystem A = record {
        calls = all_offer evs;
        channel = record { queue = []; entered = []; gone = [] };
      } in
      let h =
        run_queue-IsQueue cap moves start
          record { fifo = refl; bounded = omega arith; counted = sym (none_sent evs) } in
      (h, emit-Emitted cap ev (run_queue cap moves start).channel z h.bounded)
