-- ===== src/Captcha/Held.antt =====
-- What a step of a waiter does to the tokens that challenges hold.
use pwdtt.Prelude.{
  ℕ, Bool, true, false, not, ◌&&◌, List, [], ◌∷◌, ◌++◌, Option, none, some, ok, err, get_elem?, set,
  ◌≡◌, ◌⊎◌, inl, inr, refl, arith, Option-cases, All, All-get, All-set, get_elem?-set,
  get_elem?-append, get_elem?-none, All-append,
}
use pwdtt.Prelude.Text.{Text, ◌≗◌, trim_space}
use pwdtt.Captcha.{
  CaptchaCoordinator, CaptchaOutcome, CaptchaPending, ContextError, canceled, deadline_exceeded,
  change, end_context,
}
use pwdtt.Captcha.Waiters.{
  Waiter, WaiterPhase, WaiterMove, outside, queued, admitted, waiting, finishing, leaving, returned,
  ask, acquire, give_up, take_token, notice_end, clear, release, publish, parent_ends,
  deadline_passes, ask_step, acquire_step, quit_step, publish_step, take_step, notice_step,
  clear_step, parent_step, end_pending, move_waiter, new_pending, token_outcome, ended_outcome,
}

-- The number of the challenge at a place.
unfoldable pub id_at : ℕ → List CaptchaPending → Option Text
id_at p rs = elim (get_elem? rs p) [ none ↦ none | some r ↦ some r.id ]

module _ (allowed : Text → Text → Bool) where
  -- A token that may go to the challenge: it has been submitted for its number, and is not empty.
  abbrev Good : Text → Text → Type 0
  Good id token = (allowed id token ≡ true) × ((trim_space token ≗ []) ≡ false)

  unfoldable pub good : Text → Option Text → Bool
  good id none = true
  good id (some token) = allowed id token && not (trim_space token ≗ [])

  abbrev pub Held : CaptchaPending → Type 0
  Held r = good r.id r.result ≡ true

  -- A waiter that finishes with a token has one that may go to its challenge.
  unfoldable pub finishes : List CaptchaPending → WaiterPhase → Bool
  finishes rs (finishing p (ok token)) = elim (id_at p rs) [
    | none ↦ false
    | some id ↦ good id (some token)
  ]
  finishes rs _ = true

  abbrev pub Fits : List CaptchaPending → Waiter → Type 0
  Fits rs w = finishes rs w.phase ≡ true

  -- Numbers stay at their places.
  abbrev pub Keeps : List CaptchaPending → List CaptchaPending → Type 0
  Keeps rs rs' = (p : ℕ) → (id_at p rs ≡ none) ⊎ (id_at p rs' ≡ id_at p rs)

  pub phase-Keeps :
      (rs rs' : List CaptchaPending) (p : WaiterPhase)
      → Keeps rs rs'
      → finishes rs p ≡ true
      → finishes rs' p ≡ true
  unfolding finishes
  phase-Keeps rs rs' (finishing p (ok token)) k h = ground (arith, k p)
  phase-Keeps rs rs' (finishing p (err e)) k h = refl
  phase-Keeps rs rs' outside k h = refl
  phase-Keeps rs rs' queued k h = refl
  phase-Keeps rs rs' admitted k h = refl
  phase-Keeps rs rs' (waiting p) k h = refl
  phase-Keeps rs rs' (leaving out) k h = refl
  phase-Keeps rs rs' (returned out) k h = refl

  -- What a change of the challenges keeps.
  abbrev pub Safe : List CaptchaPending → List CaptchaPending → Type 0
  Safe rs rs' = All Held rs' × Keeps rs rs'

  pub same-Safe : (rs : List CaptchaPending) → All Held rs → Safe rs rs
  same-Safe rs h = (h, λ p. inr refl)

  pub set-Safe :
      (rs : List CaptchaPending) (p : ℕ) (r r' : CaptchaPending)
      → get_elem? rs p ≡ some r
      → r'.id ≡ r.id
      → Held r'
      → All Held rs
      → Safe rs (set rs p r')
  unfolding id_at
  set-Safe rs p r r' at same new h =
      (All-set Held rs p r' h new, λ q. ground (arith, get_elem?-set rs p q r r' at))

  change-Safe :
      (rs : List CaptchaPending) (p : ℕ) (e : ContextError)
      → All Held rs
      → Safe rs (change p (end_context e) rs)
  unfolding change end_context
  change-Safe rs p e h = elim (Option-cases (get_elem? rs p)) [
    | inl missing ↦ rw (missing, change) (same-Safe rs h)
    | inr (r, at) ↦
        let held = All-get Held rs p r h at in
        rw (at, change)
          (set-Safe rs p r (end_context e r) at (ground arith) (ground (arith, held)) h)
  ]

  end_pending-Safe :
      (e : ContextError) (p : WaiterPhase) (rs : List CaptchaPending)
      → All Held rs
      → Safe rs (end_pending e p rs)
  unfolding end_pending
  end_pending-Safe e (waiting p) rs h = change-Safe rs p e h
  end_pending-Safe e (finishing p out) rs h = change-Safe rs p e h
  end_pending-Safe e outside rs h = same-Safe rs h
  end_pending-Safe e queued rs h = same-Safe rs h
  end_pending-Safe e admitted rs h = same-Safe rs h
  end_pending-Safe e (leaving out) rs h = same-Safe rs h
  end_pending-Safe e (returned out) rs h = same-Safe rs h

  append-Safe :
      (rs : List CaptchaPending) (id url : Text)
      → All Held rs
      → Safe rs (rs ++ new_pending id url ∷ [])
  unfolding id_at good
  append-Safe rs id url h = (
    All-append Held rs (new_pending id url ∷ []) h (refl, tt),
    λ q. ground (arith, get_elem?-append rs (new_pending id url) q, get_elem?-none rs q),
  )

  ended_safe :
      (p : ℕ) (c : ContextError) (rs : List CaptchaPending)
      → finishes rs (finishing p (ended_outcome c)) ≡ true
  unfolding finishes
  ended_safe p deadline_exceeded rs = refl
  ended_safe p canceled rs = refl

  -- What a step of a waiter keeps: the challenges, and what it finishes with.
  abbrev SafeStep : CaptchaCoordinator → Waiter × CaptchaCoordinator → Type 0
  SafeStep b r = Safe b.pendings r.1.pendings × Fits r.1.pendings r.0

  module _ (w : Waiter) (b : CaptchaCoordinator) (r : Waiter × CaptchaCoordinator)
      (h : All Held b.pendings) where
    ask_step_safe : ask_step w b ≡ some r → SafeStep b r
    unfolding ask_step finishes
    ask_step_safe e =
        let same : r.1 ≡ b = ground arith in rw same (same-Safe b.pendings h, ground arith)

    acquire_step_safe : acquire_step w b ≡ some r → SafeStep b r
    unfolding acquire_step finishes
    acquire_step_safe e =
        let same : r ≡ (record w { phase = admitted }, record b { gate = true }) = ground arith in
        rw same (same-Safe b.pendings h, refl)

    quit_step_safe : quit_step w b ≡ some r → SafeStep b r
    unfolding quit_step finishes
    quit_step_safe e =
        let same : r.1 ≡ b = ground arith in rw same (same-Safe b.pendings h, ground arith)

    publish_step_safe : (id : Text) → publish_step id w b ≡ some r → SafeStep b r
    unfolding publish_step finishes
    publish_step_safe id e = elim (Option-cases w.parent_error) [
      | inl live ↦ ground (arith, append-Safe b.pendings id w.redirect_uri h)
      | inr (x, ended) ↦ ground (arith, same-Safe b.pendings h)
    ]

    take_step_safe : (p : ℕ) → take_step p w b ≡ some r → SafeStep b r
    unfolding take_step finishes token_outcome good id_at
    take_step_safe p e = elim (Option-cases (get_elem? b.pendings p)) [
      | inl missing ↦ absurd (ground arith)
      | inr (x, at) ↦ elim (Option-cases x.result) [
        | inl empty ↦ absurd (ground arith)
        | inr (token, full) ↦
            let held = All-get Held b.pendings p x h at in
            let x' : CaptchaPending = record x { result = none } in
            let safe = set-Safe b.pendings p x x' at refl refl h in
            let same : r ≡ (
              record w { phase = finishing p (token_outcome token x) },
              record b { pendings = set b.pendings p x' },
            ) =
              ground arith in
            let found = get_elem?-set b.pendings p p x x' at in
            rw same (safe, ground (arith, found, held, full))
      ]
    ]

    notice_step_safe : (p : ℕ) → notice_step p w b ≡ some r → SafeStep b r
    unfolding notice_step finishes
    notice_step_safe p e = elim (Option-cases (get_elem? b.pendings p)) [
      | inl missing ↦ absurd (ground arith)
      | inr (x, at) ↦ elim (Option-cases x.context_error) [
        | inl live ↦ absurd (ground arith)
        | inr (c, ended) ↦
            let same : r ≡ (record w { phase = finishing p (ended_outcome c) }, b) = ground arith in
            rw same (same-Safe b.pendings h, ended_safe p c b.pendings)
      ]
    ]

    clear_step_safe : (p : ℕ) (out : CaptchaOutcome) → clear_step p out w b ≡ some r → SafeStep b r
    unfolding clear_step finishes
    clear_step_safe p out e =
        let safe = change-Safe b.pendings p canceled h in
        let same : (r.0.phase ≡ leaving out)
            × (r.1.pendings ≡ change p (end_context canceled) b.pendings) =
          ground arith in
        rw same.1 (safe, rw same.0 refl)

    parent_step_safe :
        (x : ContextError) (p : WaiterPhase)
        → w.phase ≡ p
        → Fits b.pendings w
        → parent_step x p w b ≡ some r
        → SafeStep b r
    unfolding parent_step
    parent_step_safe x p at f e =
        let safe = end_pending-Safe x p b.pendings h in
        let same : r ≡ (
          record w { parent_error = some x },
          record b { pendings = end_pending x p b.pendings },
        ) =
          ground arith in
        rw same (safe, phase-Keeps b.pendings (end_pending x p b.pendings) w.phase safe.1 f)

    pub move_waiter_safe :
        (m : WaiterMove) (p : WaiterPhase)
        → w.phase ≡ p
        → Fits b.pendings w
        → move_waiter m p w b ≡ some r
        → SafeStep b r
    unfolding move_waiter finishes
    move_waiter_safe (parent_ends x) p at f e = parent_step_safe x p at f e
    move_waiter_safe ask outside at f e = ask_step_safe e
    move_waiter_safe acquire queued at f e = acquire_step_safe e
    move_waiter_safe give_up queued at f e = quit_step_safe e
    move_waiter_safe (publish id) admitted at f e = publish_step_safe id e
    move_waiter_safe take_token (waiting p) at f e = take_step_safe p e
    move_waiter_safe notice_end (waiting p) at f e = notice_step_safe p e
    move_waiter_safe deadline_passes (waiting p) at f e =
        let same : r
            ≡ (w, record b { pendings = change p (end_context deadline_exceeded) b.pendings }) =
          ground arith in
        rw same (change-Safe b.pendings p deadline_exceeded h, rw at refl)
    move_waiter_safe clear (finishing p out) at f e = clear_step_safe p out e
    move_waiter_safe release (leaving out) at f e =
        let same : (r.0.phase ≡ returned out) × (r.1.pendings ≡ b.pendings) = ground arith in
        rw same.1 (same-Safe b.pendings h, rw same.0 refl)
    move_waiter_safe _ _ at f e = absurd (ground arith)
