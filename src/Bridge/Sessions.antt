-- ===== src/Bridge/Sessions.antt =====
-- backend/bridge.go: `Connect` and `Disconnect`, called in any order while cores run. A step is one
-- critical section, or the start of a core with its outcome.
use pwdtt.Prelude.{
  ℕ, ◌≤◌, Bool, true, false, List, [], ◌∷◌, Option, none, some, Option-cases, get_elem?, set, All,
  All-get, All-set, All-set_only, total, total-set, total_part, ◌≡◌, ◌⊎◌, inl, inr, refl, arith,
  if◌then◌else◌,
}

-- Where a call of `Connect` is: before it, past the first section, with a started core, in the loop
-- that forwards the core's events, or over.
pub data ConnectPhase : Type 0 where
  calling connecting over : ConnectPhase
  started forwarding : ℕ → ConnectPhase

-- The bridge's fields that its calls share, and the cores that have been told to stop.
pub record BridgeShared : Type 0 where
  pub running : Bool
  pub core : Option ℕ
  pub stopped : List ℕ

pub data ConnectMove : Type 0 where
  enter fail publish finish : ConnectMove
  start : ℕ → ConnectMove

abbrev ConnectEffect : Type 0
ConnectEffect = Option (ConnectPhase × BridgeShared)

-- `Connect`: a running bridge refuses; a start may fail, before there is a core or at the core.
unfoldable move_call : ConnectMove → ConnectPhase → BridgeShared → ConnectEffect
move_call enter calling s =
    if s.running then some (over, s) else some (connecting, record s { running = true })
move_call fail connecting s = some (over, record s { running = false })
move_call (start k) connecting s = some (started k, s)
move_call publish (started k) s = some (forwarding k, record s { running = true; core = some k })
move_call finish (forwarding k) s = some (over, record s { running = false; core = none })
move_call _ _ s = none

-- `Disconnect` stops the core that the bridge has.
unfoldable pub disconnect : BridgeShared → BridgeShared
disconnect s = elim s.core [ none ↦ s | some k ↦ record s { stopped = k ∷ s.stopped } ]

pub record BridgeSystem : Type 0 where
  pub calls : List ConnectPhase
  pub shared : BridgeShared

pub data BridgeMove : Type 0 where
  call : ℕ → ConnectMove → BridgeMove
  disconnects : BridgeMove

unfoldable step_bridge : BridgeMove → BridgeSystem → BridgeSystem
unfolding move_call disconnect
step_bridge disconnects s = record s { shared = disconnect s.shared }
step_bridge (call i m) s = elim (get_elem? s.calls i) [
  | none ↦ s
  | some p ↦ elim (move_call m p s.shared) [
    | none ↦ s
    | some (p', shared') ↦ record { calls = set s.calls i p'; shared = shared' }
  ]
]

unfoldable pub run_bridge : List BridgeMove → BridgeSystem → BridgeSystem
unfolding step_bridge
run_bridge [] s = s
run_bridge (m ∷ moves) s = run_bridge moves (step_bridge m s)

abbrev pub idle_bridge : List ConnectPhase → BridgeSystem
idle_bridge calls = record {
  calls = calls;
  shared = record { running = false; core = none; stopped = [] };
}

-- Calls that have the bridge to themselves.
abbrev pub busy : ConnectPhase → ℕ
busy calling = 0
busy connecting = 1
busy over = 0
busy (started k) = 1
busy (forwarding k) = 1

-- The core that a call has published.
abbrev pub published : ConnectPhase → Option ℕ
published (forwarding k) = some k
published _ = none

abbrev Owns : Option ℕ → ConnectPhase → Type 0
Owns c p = (busy p ≡ 0) ⊎ (c ≡ published p)

-- The bridge runs exactly while one call has it; its core is that call's, once it is published, and
-- without a call there is none.
pub record IsSingle (s : BridgeSystem) : Type 0 where
  pub count : total busy s.calls ≡ (if s.shared.running then 1 else 0)
  pub owned : All (λ p. (busy p ≡ 0) ⊎ (s.shared.core ≡ published p)) s.calls
  pub free : (s.shared.running ≡ true) ⊎ (s.shared.core ≡ none)

abbrev Free : BridgeShared → Type 0
Free s = (s.running ≡ true) ⊎ (s.core ≡ none)

-- What a step of a call does: nothing that the invariant sees, or something to the bridge, which
-- then is free or the call's.
abbrev Passes : ConnectPhase → BridgeShared → ConnectPhase × BridgeShared → Type 0
Passes p s r =
    ((s.running ≡ false) ⊎ (busy p ≡ 1))
    × (busy r.0 ≡ (if r.1.running then 1 else 0))
    × Owns r.1.core r.0
    × Free r.1

move_call-Passes :
    (m : ConnectMove) (p : ConnectPhase) (s : BridgeShared) (r : ConnectPhase × BridgeShared)
    → Owns s.core p
    → busy p ≤ (if s.running then 1 else 0)
    → Free s
    → move_call m p s ≡ some r
    → ((r.1 ≡ s) × (busy p ≡ 0) × (busy r.0 ≡ 0)) ⊎ Passes p s r
unfolding move_call
move_call-Passes enter calling s r o n f e = ground arith
move_call-Passes fail connecting s r o n f e = inr (ground arith)
move_call-Passes (start k) connecting s r o n f e = inr (ground arith)
move_call-Passes publish (started k) s r o n f e = inr (ground arith)
move_call-Passes finish (forwarding k) s r o n f e = inr (ground arith)
move_call-Passes _ _ s r o n f e = absurd (ground arith)

step_bridge-IsSingle : (m : BridgeMove) (s : BridgeSystem) → IsSingle s → IsSingle (step_bridge m s)
unfolding step_bridge disconnect
step_bridge-IsSingle disconnects s h =
    let same : ((disconnect s.shared).running ≡ s.shared.running)
        × ((disconnect s.shared).core ≡ s.shared.core) =
      ground arith in
    record {
      count = rw same.0 h.count;
      owned = rw same.1 h.owned;
      free = rw (same.0, same.1) h.free;
    }
step_bridge-IsSingle (call i m) s h = elim (Option-cases (get_elem? s.calls i)) [
  | inl nobody ↦ rw (nobody, step_bridge) h
  | inr (p, at) ↦ elim (Option-cases (move_call m p s.shared)) [
    | inl stuck ↦ rw (at, stuck, step_bridge) h
    | inr (r, can) ↦
        let mine = All-get (Owns s.shared.core) s.calls i p h.owned at in
        let part = total_part busy s.calls i p at in
        let written = total-set busy s.calls i p r.0 at in
        let count = h.count in
        rw (at, can, step_bridge)
          (elim (move_call-Passes m p s.shared r mine (omega (arith, part, count)) h.free can) [
            | inl (same, was, is) ↦ record {
              count = rw same (omega (arith, written, count, was, is));
              owned = rw same (All-set (Owns s.shared.core) s.calls i r.0 h.owned (inl is));
              free = rw same h.free;
            }
            | inr (only, holds, owned, free) ↦
                let alone : total busy s.calls ≡ busy p = ground (arith, only, count, part) in
                record {
                  count = omega (arith, written, holds, alone);
                  owned =
                      All-set_only busy (Owns s.shared.core) (Owns r.1.core) (λ u o n. inl n)
                        s.calls i p r.0 at h.owned alone owned;
                  free = free;
                }
          ])
  ]
]

run_bridge-IsSingle :
    (moves : List BridgeMove) (s : BridgeSystem) → IsSingle s → IsSingle (run_bridge moves s)
unfolding run_bridge
run_bridge-IsSingle [] s h = h
run_bridge-IsSingle (m ∷ moves) s h =
    run_bridge-IsSingle moves (step_bridge m s) (step_bridge-IsSingle m s h)

calling_idle :
    (ps : List ConnectPhase) → All (λ p. p ≡ calling) ps → (total busy ps ≡ 0) × All (Owns none) ps
calling_idle [] h = (refl, tt)
calling_idle (p ∷ ps) (e, h) =
    let (n, o) = calling_idle ps h in
    let mine : busy p ≡ 0 = rw e refl in (omega (arith, mine, n), (inl mine, o))

idle_bridge-IsSingle :
    (moves : List BridgeMove) (calls : List ConnectPhase)
    → All (λ p. p ≡ calling) calls
    → IsSingle (run_bridge moves (idle_bridge calls))
idle_bridge-IsSingle moves calls new =
    let (n, o) = calling_idle calls new in
    run_bridge-IsSingle moves (idle_bridge calls) record { count = n; owned = o; free = inr refl }

abbrev pub stopping : Option ℕ → List ℕ → List ℕ
stopping none ks = ks
stopping (some k) ks = k ∷ ks

-- However calls of Connect and Disconnect interleave: at most one call has the bridge, and exactly
-- while it is running; its core is that of the call that has published one, and there is none
-- without such a call. A Disconnect stops that core; before it is published, while the call starts
-- it, a Disconnect stops nothing.
pub disconnect-run_bridge :
    (moves : List BridgeMove) (calls : List ConnectPhase) (i : ℕ) (p : ConnectPhase)
    → All (λ q. q ≡ calling) calls
    → get_elem? (run_bridge moves (idle_bridge calls)).calls i ≡ some p
    → busy p ≡ 1
    → let s = run_bridge moves (idle_bridge calls) in
      IsSingle s
      × (s.shared.running ≡ true)
      × (total busy s.calls ≡ 1)
      × ((disconnect s.shared).stopped ≡ stopping (published p) s.shared.stopped)
unfolding disconnect
disconnect-run_bridge moves calls i p new at has =
    let s = run_bridge moves (idle_bridge calls) in
    let h = idle_bridge-IsSingle moves calls new in
    let count = h.count in
    let part = total_part busy s.calls i p at in
    let mine = All-get (Owns s.shared.core) s.calls i p h.owned at in
    let core_is : s.shared.core ≡ published p = ground (arith, mine, has) in
    (h, ground (arith, count, part, has), ground (arith, count, part, has), ground (arith, core_is))
