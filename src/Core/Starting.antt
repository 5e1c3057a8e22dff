-- ===== src/Core/Starting.antt =====
-- What a start makes of its configuration.
use pwdtt.Prelude.{
  ℕ, zero, suc, ◌+◌, ◌*◌, ◌≤◌, ◌/◌, ◌%◌, Bool, true, false, not, ◌&&◌, ◌||◌, ltb, Result-cases,
  List, [], ◌∷◌, Option, none, some, ◌++◌, if◌then◌else◌, ap, ◌∙◌, ◌==◌, ◌≡◌, inl, inr, refl, arith,
}
use pwdtt.Core.{
  Surroundings, GroupPlan, Core, StartError, is_empty, worker_count, next_ids, plan_from,
  plan_groups, listens, start_core, start,
}

abbrev pub is_none : Option ℕ → Bool
is_none none = true
is_none (some n) = false

abbrev pub is_ok : Option StartError → Bool
is_ok none = true
is_ok (some e) = false

-- The numbers of workers that groups can have.
worker_count_bounds :
    (workers : ℕ)
    → (9 ≤ worker_count workers) × (worker_count workers ≤ 108) × (worker_count workers % 9 ≡ 0)
unfolding worker_count
worker_count_bounds workers = ground arith

-- All workers of the groups, in order.
abbrev pub all_workers : List GroupPlan → List ℕ
all_workers [] = []
all_workers (p ∷ ps) = p.worker_ids ++ all_workers ps

-- Each group releases the next one, which waits for it; the last one releases none, and only the
-- first of all waits for none and asks for the configuration.
abbrev pub Linked : Option ℕ → List GroupPlan → Type 0
Linked before [] = Unit
Linked before (p ∷ []) =
    (p.waits_for ≡ before) × (p.is_first ≡ is_none before) × (p.releases ≡ none)
Linked before (p ∷ q ∷ ps) =
    (p.waits_for ≡ before)
    × (p.is_first ≡ is_none before)
    × (p.releases ≡ some q.group_id)
    × Linked (some p.group_id) (q ∷ ps)

next_ids-append :
    (a b counter : ℕ) → next_ids a counter ++ next_ids b (counter + a) ≡ next_ids (a + b) counter
unfolding next_ids
next_ids-append zero b counter =
    ap (next_ids b) (omega arith) ∙ ap (λ k. next_ids k counter) (omega arith)
next_ids-append (suc a) b counter =
    let rest : next_ids a (counter + 1) ++ next_ids b (counter + 1 + a)
        ≡ next_ids (a + b) (counter + 1) =
      next_ids-append a b (counter + 1) in
    let place : counter + suc a ≡ counter + 1 + a = omega arith in
    let size : suc a + b ≡ suc (a + b) = omega arith in rw (place, size) (ap (◌∷◌ counter) rest)

plan_from-workers :
    (left g counter : ℕ) → all_workers (plan_from left g counter) ≡ next_ids (left * 9) counter
unfolding plan_from next_ids
plan_from-workers zero g counter = refl
plan_from-workers (suc left) g counter =
    ap (◌++◌ (next_ids 9 counter)) (plan_from-workers left (g + 1) (counter + 9))
    ∙ next_ids-append 9 (left * 9) counter
    ∙ ap (λ k. next_ids k counter) (omega arith)

plan_from-Linked :
    (left g counter : ℕ) (before : Option ℕ)
    → before ≡ (if g == 0 then none else some g)
    → Linked before (plan_from left g counter)
unfolding plan_from
plan_from-Linked zero g counter before h = tt
plan_from-Linked (suc zero) g counter before h = (ground arith, ground arith, refl)
plan_from-Linked (suc (suc left)) g counter before h = (
  ground arith,
  ground arith,
  ground arith,
  plan_from-Linked (suc left) (g + 1) (counter + 9) (some (g + 1)) (ground arith),
)

-- A start makes groups of nine workers each, with the numbers from 1 on in order, as many in all as
-- the configuration asks for, brought to a multiple of nine from 9 to 108; the groups get their
-- credentials one after another, and only the first one asks for the configuration.
pub plan_groups_lem :
    (workers : ℕ)
    → let n = worker_count workers in
      (9 ≤ n)
      × (n ≤ 108)
      × (n % 9 ≡ 0)
      × (all_workers (plan_groups workers) ≡ next_ids n 1)
      × Linked none (plan_groups workers)
unfolding plan_groups
plan_groups_lem workers =
    let (low, high, even) = worker_count_bounds workers in
    let n = worker_count workers in
    (
      low,
      high,
      even,
      plan_from-workers (n / 9) 0 1 ∙ ap (λ k. next_ids k 1) (omega arith),
      plan_from-Linked (n / 9) 0 1 none refl,
    )

start_started : (c : Core) (e : Surroundings) → (start c e).1.started ≡ true
unfolding start
start_started c e = elim (Result-cases (start_core c.config e)) [
  | inl (groups, fine) ↦ ground arith
  | inr (x, failed) ↦ ground arith
]

start_again : (c : Core) (e : Surroundings) → c.started ≡ true → start c e ≡ (none, c)
unfolding start
start_again c e h = rw (h, start) refl

-- A start succeeds exactly if there are a peer, hashes and a password, the peer's address resolves,
-- the key is derived, and a port is free within five attempts or at all, and then the planned groups
-- run; whatever the first start gave, even an error, a second one gives no error and changes nothing.
pub start-start :
    (c : Core) (e e' : Surroundings)
    → c.started ≡ false
    → ((is_ok (start c e).0) ≡ (
        not (is_empty c.config.peer_addr)
        && not (is_empty c.config.hashes)
        && not (is_empty c.config.password)
        && e.resolves
        && e.derives
        && (ltb e.busy_rounds 5 || e.any_port)))
      × ((start c e).1.groups
          ≡ (if is_ok (start c e).0 then plan_groups c.config.workers else c.groups))
      × (start (start c e).1 e' ≡ (none, (start c e).1))
unfolding start start_core listens
start-start c e e' fresh =
    let again = start_again (start c e).1 e' (start_started c e) in
    elim (Result-cases (start_core c.config e)) [
      | inl (groups, fine) ↦ (ground arith, ground arith, again)
      | inr (x, failed) ↦ (ground arith, ground arith, again)
    ]
