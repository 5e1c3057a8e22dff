-- ===== src/Captcha/Shut.antt =====
-- What a challenge that no browser is opened for stays through each step.
use pwdtt.Prelude.{
  ℕ, Bool, true, false, not, ◌||◌, get_elem?-set, get_elem?-append, List, Option, none, some,
  length, get_elem?, set, ◌≡◌, ◌⊎◌, inl, inr, refl, arith, Option-cases,
}
use pwdtt.Prelude.Text.{Text, ◌≗◌, ≗_iff}
use pwdtt.Captcha.{
  CaptchaCoordinator, CaptchaOutcome, CaptchaPending, ContextError, canceled, deadline_exceeded,
  is_live, change, end_context, active, launch_failed, submit, cancel, current_with,
}
use pwdtt.Captcha.Waiters.{
  Waiter, WaiterPhase, WaiterMove, outside, queued, admitted, waiting, finishing, leaving, returned,
  ask, acquire, give_up, take_token, notice_end, clear, release, publish, parent_ends,
  deadline_passes, ask_step, acquire_step, quit_step, publish_step, take_step, notice_step,
  clear_step, parent_step, end_pending, move_waiter, new_pending,
}

-- A challenge that no browser is opened for: another one, an ended one, or one that has its browser.
unfoldable pub shut : Text → CaptchaPending → Bool
shut id r = not (r.id ≗ id) || not (is_live r) || r.launched

-- The challenge at a place is shut, if there is one.
unfoldable pub shut_at : Text → Option ℕ → List CaptchaPending → Bool
unfolding shut
shut_at id none rs = true
shut_at id (some p) rs = elim (get_elem? rs p) [ none ↦ true | some r ↦ shut id r ]

abbrev pub Shut : Text → CaptchaCoordinator → Type 0
Shut id b = shut_at id b.current b.pendings ≡ true

pub active-Shut : (id : Text) (b : CaptchaCoordinator) → Shut id b → (active id b).0 ≡ none
unfolding active current_with shut_at
active-Shut id b h = ground arith

pub current_with-some :
    (id : Text) (b : CaptchaCoordinator) (p : ℕ) (r : CaptchaPending)
    → current_with id b ≡ some (p, r)
    → (b.current ≡ some p) × (get_elem? b.pendings p ≡ some r) × ((r.id ≗ id) ≡ true)
unfolding current_with
current_with-some id b p r e = ground arith

current_with-Shut : (id : Text) (b : CaptchaCoordinator) → current_with id b ≡ none → Shut id b
unfolding current_with shut_at shut
current_with-Shut id b e = ground arith

-- Writing a challenge that is shut if the one before was.
shut_at-set :
    (id : Text) (c : Option ℕ) (rs : List CaptchaPending) (p : ℕ) (r r' : CaptchaPending)
    → get_elem? rs p ≡ some r
    → (shut id r ≡ false) ⊎ (shut id r' ≡ true)
    → shut_at id c rs ≡ true
    → shut_at id c (set rs p r') ≡ true
unfolding shut_at
shut_at-set id none rs p r r' at keeps h = refl
shut_at-set id (some q) rs p r r' at keeps h = ground (arith, get_elem?-set rs p q r r' at)

-- A call that changes the current challenge, if it has the number.
module _ (id other : Text) (b : CaptchaCoordinator) where
  pub active_shuts : Shut id b → Shut id (active other b).1
  unfolding active shut
  active_shuts h = elim (Option-cases (current_with other b)) [
    | inl missing ↦ rw (missing, active) h
    | inr ((p, r), found) ↦
        let (c, at, named) = current_with-some other b p r found in
        let r' : CaptchaPending = record r { launched = true } in
        let kept = shut_at-set id b.current b.pendings p r r' at (inr (ground arith)) h in
        ground (arith, found, kept, h)
  ]

  pub cancel_shuts : Shut id b → Shut id (cancel other b).1
  unfolding cancel shut end_context
  cancel_shuts h = elim (Option-cases (current_with other b)) [
    | inl missing ↦ rw (missing, cancel) h
    | inr ((p, r), found) ↦
        let (c, at, named) = current_with-some other b p r found in
        let kept =
          shut_at-set id b.current b.pendings p r (end_context canceled r) at (ground arith) h in
        ground (arith, found, kept, h)
  ]

  pub submit_shuts : (token : Text) → Shut id b → Shut id (submit other token b).1
  unfolding submit shut
  submit_shuts token h = elim (Option-cases (current_with other b)) [
    | inl missing ↦ rw (missing, submit) h
    | inr ((p, r), found) ↦
        let (c, at, named) = current_with-some other b p r found in
        let kept =
          shut_at-set id b.current b.pendings p r (record r { result = some token }) at
            (ground arith) h in
        ground (arith, found, kept, h)
  ]

  pub launch_failed_shuts : (other ≗ id) ≡ false → Shut id b → Shut id (launch_failed other b)
  unfolding launch_failed shut
  launch_failed_shuts apart h = elim (Option-cases (current_with other b)) [
    | inl missing ↦ rw (missing, launch_failed) h
    | inr ((p, r), found) ↦
        let (c, at, named) = current_with-some other b p r found in
        let different : (r.id ≗ id) ≡ false = ground (arith, ≗_iff r.id other, apart, named) in
        let kept =
          shut_at-set id b.current b.pendings p r (record r { launched = false }) at
            (inr (ground arith)) h in
        ground (arith, found, kept, h)
  ]

module _ (id : Text) (c : Option ℕ) where
  change_shuts :
      (p : ℕ) (e : ContextError) (rs : List CaptchaPending)
      → shut_at id c rs ≡ true
      → shut_at id c (change p (end_context e) rs) ≡ true
  unfolding change end_context shut
  change_shuts p e rs h = elim (Option-cases (get_elem? rs p)) [
    | inl missing ↦ rw (missing, change) h
    | inr (r, at) ↦
        let kept = shut_at-set id c rs p r (end_context e r) at (ground arith) h in
        ground (arith, at, kept)
  ]

  end_pending_shuts :
      (e : ContextError) (p : WaiterPhase) (rs : List CaptchaPending)
      → shut_at id c rs ≡ true
      → shut_at id c (end_pending e p rs) ≡ true
  unfolding end_pending
  end_pending_shuts e outside rs h = h
  end_pending_shuts e queued rs h = h
  end_pending_shuts e admitted rs h = h
  end_pending_shuts e (waiting p) rs h = change_shuts p e rs h
  end_pending_shuts e (finishing p out) rs h = change_shuts p e rs h
  end_pending_shuts e (leaving out) rs h = h
  end_pending_shuts e (returned out) rs h = h

-- A new challenge has another number.
abbrev pub Renews : Text → WaiterMove → Type 0
Renews id (publish new) = (new ≗ id) ≡ false
Renews id _ = Unit

module _ (id : Text) (w : Waiter) (b : CaptchaCoordinator) (r : Waiter × CaptchaCoordinator) where
  publish_step_shuts :
      (new : Text) → (new ≗ id) ≡ false → Shut id b → publish_step new w b ≡ some r → Shut id r.1
  unfolding publish_step shut_at shut
  publish_step_shuts new apart h e =
      ground
        (arith, get_elem?-append b.pendings (new_pending new w.redirect_uri) (length b.pendings))

  take_step_shuts : (p : ℕ) → Shut id b → take_step p w b ≡ some r → Shut id r.1
  unfolding take_step shut
  take_step_shuts p h e = elim (Option-cases (get_elem? b.pendings p)) [
    | inl missing ↦ absurd (ground arith)
    | inr (x, at) ↦
        let kept =
          shut_at-set id b.current b.pendings p x (record x { result = none }) at (ground arith)
            h in
        ground (arith, kept)
  ]

  clear_step_shuts :
      (p : ℕ) (out : CaptchaOutcome) → Shut id b → clear_step p out w b ≡ some r → Shut id r.1
  unfolding clear_step shut_at
  clear_step_shuts p out h e = ground (arith, change_shuts id b.current p canceled b.pendings h)

  parent_step_shuts :
      (x : ContextError) (p : WaiterPhase) → Shut id b → parent_step x p w b ≡ some r → Shut id r.1
  unfolding parent_step
  parent_step_shuts x p h e = ground (arith, end_pending_shuts id b.current x p b.pendings h)

  -- Steps that leave the challenges alone.
  ask_step_shuts : Shut id b → ask_step w b ≡ some r → Shut id r.1
  unfolding ask_step
  ask_step_shuts h e = let same : r.1 ≡ b = ground arith in rw same h

  acquire_step_shuts : Shut id b → acquire_step w b ≡ some r → Shut id r.1
  unfolding acquire_step
  acquire_step_shuts h e = ground arith

  quit_step_shuts : Shut id b → quit_step w b ≡ some r → Shut id r.1
  unfolding quit_step
  quit_step_shuts h e = let same : r.1 ≡ b = ground arith in rw same h

  notice_step_shuts : (p : ℕ) → Shut id b → notice_step p w b ≡ some r → Shut id r.1
  unfolding notice_step
  notice_step_shuts p h e = let same : r.1 ≡ b = ground arith in rw same h

  pub move_waiter_shuts :
      (m : WaiterMove) (p : WaiterPhase)
      → Renews id m
      → Shut id b
      → move_waiter m p w b ≡ some r
      → Shut id r.1
  unfolding move_waiter
  move_waiter_shuts (parent_ends x) p n h e = parent_step_shuts x p h e
  move_waiter_shuts ask outside n h e = ask_step_shuts h e
  move_waiter_shuts acquire queued n h e = acquire_step_shuts h e
  move_waiter_shuts give_up queued n h e = quit_step_shuts h e
  move_waiter_shuts (publish new) admitted n h e = publish_step_shuts new n h e
  move_waiter_shuts take_token (waiting p) n h e = take_step_shuts p h e
  move_waiter_shuts notice_end (waiting p) n h e = notice_step_shuts p h e
  move_waiter_shuts deadline_passes (waiting p) n h e =
      ground (arith, change_shuts id b.current p deadline_exceeded b.pendings h)
  move_waiter_shuts clear (finishing p out) n h e = clear_step_shuts p out h e
  move_waiter_shuts release (leaving out) n h e = ground arith
  move_waiter_shuts _ _ n h e = absurd (ground arith)
