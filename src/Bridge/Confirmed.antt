-- ===== src/Bridge/Confirmed.antt =====
-- When the screen is told that the tunnel is up.
use pwdtt.Prelude.{
  ℕ, ◌+◌, Bool, true, false, not, ◌&&◌, ◌||◌, Bool-cases, Option-cases, List, [], ◌∷◌, ◌++◌, none,
  ◌≡◌, inl, inr, refl, sym, ap, ◌∙◌, arith, if◌then◌else◌,
}
use mathlib.Core.List.{append_assoc}
use pwdtt.Prelude.Text.{Text, codes, ◌≗◌}
use pwdtt.Bridge.{
  Journal, CoreEvent, state, progress, diagnostic, failed, other, log, captcha, stats, wg_config,
  ready, UiEvent, state_changed, connected, disconnected, error, vpn_progress, Bridge,
  tunnel_traffic_confirmed, warned, told_once, record_log, handle_stats, handle_config,
  handle_event, end_forwarding, forward_events,
}

abbrev is_connected : UiEvent → ℕ
is_connected (state_changed status) = if status ≗ codes "connected" then 1 else 0
is_connected _ = 0

-- How often the screen is told so.
unfoldable pub connections : List UiEvent → ℕ
connections [] = 0
connections (e ∷ es) = is_connected e + connections es

-- How often the core itself sends the state "connected".
abbrev sends_connected : CoreEvent → ℕ
sends_connected (state status) = if status ≗ codes "connected" then 1 else 0
sends_connected _ = 0

unfoldable pub sent_connected : List CoreEvent → ℕ
sent_connected [] = 0
sent_connected (e ∷ es) = sends_connected e + sent_connected es

-- Events that show traffic both ways, and configurations that WireGuard takes.
abbrev is_traffic : CoreEvent → Bool
is_traffic (stats active up down) = tunnel_traffic_confirmed active up down
is_traffic _ = false

abbrev is_applied : CoreEvent → Bool
is_applied (wg_config takes) = takes
is_applied _ = false

-- WireGuard takes a configuration, if it has not yet, and afterwards there is traffic both ways.
unfoldable pub confirmed : Bool → List CoreEvent → Bool
confirmed applied [] = false
confirmed applied (e ∷ es) = applied && is_traffic e || confirmed (applied || is_applied e) es

connections-append :
    (xs ys : List UiEvent) → connections (xs ++ ys) ≡ connections xs + connections ys
unfolding connections
connections-append [] ys = omega arith
connections-append (x ∷ xs) ys = omega (arith, connections-append xs ys)

-- What the end leaves.
abbrev pub Ended {ℓ} : {L : Type ℓ} → Bridge L × List UiEvent → Type 0
Ended r =
    (r.0.running ≡ false)
    × (r.0.core ≡ none)
    × ((before : List UiEvent) × (r.1 ≡ before ++ disconnected ∷ []))

module _ {ℓ} {L : Type ℓ} (journal : Journal L) (sanitize : Text → Text) where
  warned_quiet : (t : Text) → connections (warned journal sanitize t) ≡ 0
  unfolding connections
  warned_quiet [] = refl
  warned_quiet (c ∷ s) = omega arith

  -- The journal changes neither flag and tells nothing of the kind.
  abbrev Quiet : Bridge L → Bridge L × List UiEvent → Type 0
  Quiet b r =
      (r.0.wg_applied ≡ b.wg_applied)
      × (r.0.connected_published ≡ b.connected_published)
      × (connections r.1 ≡ 0)

  told_once-Quiet :
      (fails : Bool) (b : Bridge L) (l : L) → Quiet b (told_once journal sanitize fails b l)
  unfolding told_once connections
  told_once-Quiet fails b l = ground (arith, warned_quiet (journal.warning l))

  record_log-Quiet :
      (level message : Text) (emit_ui : Bool) (b : Bridge L)
      → Quiet b (record_log journal sanitize level message emit_ui b)
  unfolding record_log connections
  record_log-Quiet level message emit_ui b = elim (Option-cases b.log_file) [
    | inl none_open ↦ ground arith
    | inr (l, held) ↦
        let wrote = journal.write level (sanitize message) l in
        ground (arith, told_once-Quiet wrote.0 b wrote.1)
  ]

  -- A turn of the loop, by its event: what it does to the flags and how often it tells.
  abbrev After : Bool → Bool → ℕ → Bridge L × List UiEvent → Type 0
  After applied published n r =
      (r.0.wg_applied ≡ applied) × (r.0.connected_published ≡ published) × (connections r.1 ≡ n)

  handle_stats-After :
      (active up down : ℕ) (b : Bridge L)
      → let tells =
          b.wg_applied && not b.connected_published && tunnel_traffic_confirmed active up down in
        After b.wg_applied
          (b.connected_published || tells)
          (if tells then 1 else 0)
          (handle_stats journal sanitize active up down b)
  unfolding handle_stats connections ◌≗◌
  handle_stats-After active up down b =
      let level = codes "INFO" in
      let text = codes "[WG] Двусторонний трафик подтверждён, туннель активен" in
      let r =
        record_log journal sanitize level text true (record b { connected_published = true }) in
      let quiet = record_log-Quiet level text true (record b { connected_published = true }) in
      let seam = connections-append r.1 (vpn_progress (codes "success") ∷ connected ∷ []) in
      ground (arith, quiet, seam)

  handle_config-After :
      (takes : Bool) (b : Bridge L)
      → After
          (b.wg_applied || takes)
          b.connected_published
          0
          (handle_config journal sanitize takes b)
  unfolding handle_config connections
  handle_config-After takes b =
      let level = codes "INFO" in
      let text = codes "[WG] Применение конфига..." in
      let text' = codes "[WG] Конфиг применён, ожидаем подтверждения двустороннего трафика" in
      let begun = record_log journal sanitize level text true b in
      let b' : Bridge L = record begun.0 { wg_applied = true } in
      let done = record_log journal sanitize level text' true b' in
      let quiet = record_log-Quiet level text true b in
      let quiet' = record_log-Quiet level text' true b' in
      let seam = connections-append begun.1 done.1 in
      let seam' =
        connections-append begun.1 (vpn_progress (codes "error") ∷ UiEvent.wg_error ∷ []) in
      ground (arith, quiet, quiet', seam, seam')

  abbrev tells : CoreEvent → Bridge L → Bool
  tells e b = b.wg_applied && not b.connected_published && is_traffic e

  abbrev Turned : CoreEvent → Bridge L → Bridge L × List UiEvent → Type 0
  Turned e b r =
      After (b.wg_applied || is_applied e) (b.connected_published || tells e b)
        (sends_connected e + (if tells e b then 1 else 0)) r

  handle_event-Turned :
      (e : CoreEvent) (b : Bridge L) → Turned e b (handle_event journal sanitize e b)
  unfolding handle_event connections
  handle_event-Turned (state status) b = ground arith
  handle_event-Turned (progress text) b = ground arith
  handle_event-Turned (other name) b = ground arith
  handle_event-Turned (captcha name text) b = ground arith
  handle_event-Turned (log level message) b =
      ground (arith, record_log-Quiet level message (not (level ≗ codes "SKIP")) b)
  handle_event-Turned ready b = ground (
    arith,
    record_log-Quiet (codes "INFO") (codes "[ЯДРО] Рабочая DTLS-сессия установлена") true b,
  )
  handle_event-Turned (stats active up down) b = ground (arith, handle_stats-After active up down b)
  handle_event-Turned (wg_config takes) b = ground (arith, handle_config-After takes b)
  handle_event-Turned (failed message) b =
      let r = record_log journal sanitize (codes "ERROR") message false b in
      ground (
        arith,
        record_log-Quiet (codes "ERROR") message false b,
        connections-append r.1 (error (sanitize message) ∷ []),
      )
  handle_event-Turned (diagnostic text) b =
      let r = record_log journal sanitize (codes "DEBUG") text false b in
      ground (arith, record_log-Quiet (codes "DEBUG") text false b, connections-append r.1 [])

  end_forwarding_quiet : (b : Bridge L) → connections (end_forwarding journal sanitize b).1 ≡ 0
  unfolding end_forwarding connections ◌≗◌
  end_forwarding_quiet b = elim (Option-cases b.log_file) [
    | inl none_held ↦ ground arith
    | inr (l, held) ↦
        let closed = journal.close l in
        let b' : Bridge L = record b {
          running = false;
          wg_applied = false;
          connected_published = false;
          core = none;
        } in
        let told = told_once journal sanitize closed.0 b' closed.1 in
        ground (
          arith,
          told_once-Quiet closed.0 b' closed.1,
          connections-append told.1 (disconnected ∷ []),
        )
  ]

  forward_events_count :
      (es : List CoreEvent) (b : Bridge L)
      → connections (forward_events journal sanitize es b).1
        ≡ sent_connected es
          + (if not b.connected_published && confirmed b.wg_applied es then 1 else 0)
  unfolding forward_events confirmed sent_connected
  forward_events_count [] b = ground (arith, end_forwarding_quiet b)
  forward_events_count (e ∷ es) b =
      let first = handle_event journal sanitize e b in
      let rest = forward_events journal sanitize es first.0 in
      ground (
        arith,
        handle_event-Turned e b,
        forward_events_count es first.0,
        connections-append first.1 rest.1,
      )

  end_forwarding-Ended : (b : Bridge L) → Ended (end_forwarding journal sanitize b)
  unfolding end_forwarding told_once
  end_forwarding-Ended b = elim (Option-cases b.log_file) [
    | inl none_held ↦ rw (none_held, end_forwarding) (refl, refl, ([], refl))
    | inr (l, held) ↦
        let fails = (journal.close l).0 && not b.log_warning_sent in
        elim (Bool-cases fails) [
          | inl loud ↦ rw (held, end_forwarding, loud) (refl, refl, (_, refl))
          | inr silent ↦ rw (held, end_forwarding, silent) (refl, refl, ([], refl))
        ]
  ]

  forward_events-Ended :
      (es : List CoreEvent) (b : Bridge L) → Ended (forward_events journal sanitize es b)
  unfolding forward_events
  forward_events-Ended [] b = end_forwarding-Ended b
  forward_events-Ended (e ∷ es) b =
      let first = handle_event journal sanitize e b in
      let rest = forward_events journal sanitize es first.0 in
      let (stopped, free, (before, last)) = forward_events-Ended es first.0 in
      (
        stopped,
        free,
        (
          first.1 ++ before,
          ap (λ xs. first.1 ++ xs) last ∙ sym (append_assoc first.1 before (disconnected ∷ [])),
        ),
      )

  -- From a bridge that has just connected, whatever the core sends, the screen is told the state
  -- "connected" as often as the core sends it, and once more exactly if WireGuard has taken a
  -- configuration and afterwards there has been traffic both ways; at the end the bridge is not
  -- running, has no core, and tells last of all that it is disconnected.
  pub forward_events_lem :
      (es : List CoreEvent) (b : Bridge L)
      → b.wg_applied ≡ false
      → b.connected_published ≡ false
      → (connections (forward_events journal sanitize es b).1
          ≡ sent_connected es + (if confirmed false es then 1 else 0))
        × Ended (forward_events journal sanitize es b)
  forward_events_lem es b w c =
      (ground (arith, w, c, forward_events_count es b), forward_events-Ended es b)
