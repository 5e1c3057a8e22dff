-- ===== src/Bridge.antt =====
-- backend/bridge.go: the bridge between the application and the core. The journal is an interface,
-- and what WireGuard says to a configuration comes with the event.
pub mod Sessions
pub mod Confirmed
use pwdtt.Prelude.{
  ℕ, zero, suc, ◌+◌, Bool, true, false, not, ◌&&◌, ◌||◌, List, [], ◌∷◌, ◌++◌, Option, none, some,
  ltb, ◌==◌, if◌then◌else◌,
}
use pwdtt.Prelude.Text.{Text, codes, ◌≗◌}

-- What the bridge uses of a session's journal: writing a line and closing, which may fail, and its
-- warning. backend/session_log.go provides it.
pub record Journal {ℓ} (L : Type ℓ) : Type ℓ where
  pub write : Text → Text → L → Bool × L
  pub close : L → Bool × L
  pub warning : L → Text

-- What comes from the core; `wg_config` with whether WireGuard takes it.
pub data CoreEvent : Type 0 where
  state progress diagnostic failed other : Text → CoreEvent
  log captcha : Text → Text → CoreEvent
  stats : ℕ → ℕ → ℕ → CoreEvent
  wg_config : Bool → CoreEvent
  ready : CoreEvent

-- What goes to the screen. The last two are the error of WireGuard and progress of the stage "vpn".
pub data UiEvent : Type 0 where
  state_changed connection_progress diagnostic_event error event : Text → UiEvent
  shows log_line : Text → Text → UiEvent
  figures : ℕ → ℕ → ℕ → UiEvent
  wg_error : UiEvent
  vpn_progress : Text → UiEvent

-- The states that the bridge publishes itself; the core may send states too.
abbrev pub connected : UiEvent
connected = state_changed (codes "connected")

abbrev pub disconnected : UiEvent
disconnected = state_changed (codes "disconnected")

pub record Bridge {ℓ} (L : Type ℓ) : Type ℓ where
  pub running : Bool
  pub wg_applied : Bool
  pub connected_published : Bool
  pub core : Option ℕ
  pub log_file : Option L
  pub log_warning_sent : Bool

unfoldable pub tunnel_traffic_confirmed : ℕ → ℕ → ℕ → Bool
tunnel_traffic_confirmed active up down = ltb 0 active && ltb 0 up && ltb 0 down

module _ {ℓ} {L : Type ℓ} (journal : Journal L) (sanitize : Text → Text) where
  abbrev Told : Type ℓ
  Told = Bridge L × List UiEvent

  abbrev pub warned : Text → List UiEvent
  warned [] = []
  warned (c ∷ s) = log_line (codes "WARN") (c ∷ s) ∷ []

  -- The journal's warning after a failure, once a session.
  unfoldable pub told_once : Bool → Bridge L → L → Told
  told_once fails b l =
      if fails && not b.log_warning_sent
      then (record b { log_file = some l; log_warning_sent = true }, warned (journal.warning l))
      else (record b { log_file = some l }, [])

  unfoldable pub record_log : Text → Text → Bool → Bridge L → Told
  unfolding told_once
  record_log level message emit_ui b =
      let text = sanitize message in
      let shown : List UiEvent = if emit_ui then log_line level text ∷ [] else [] in
      elim b.log_file [
        | none ↦ (b, shown)
        | some l ↦
            let wrote = journal.write level text l in
            let told = told_once wrote.0 b wrote.1 in (told.0, shown ++ told.1)
      ]

  -- Events before and after a part that has its own.
  abbrev pub around : List UiEvent → Told → List UiEvent → Told
  around before (b, events) after = (b, before ++ events ++ after)

  unfoldable pub handle_stats : ℕ → ℕ → ℕ → Bridge L → Told
  unfolding tunnel_traffic_confirmed record_log
  handle_stats active up down b =
      if b.wg_applied && not b.connected_published && tunnel_traffic_confirmed active up down
      then around (figures active up down ∷ [])
          (record_log (codes "INFO") (codes "[WG] Двусторонний трафик подтверждён, туннель активен")
            true (record b { connected_published = true }))
          (vpn_progress (codes "success") ∷ connected ∷ [])
      else (b, figures active up down ∷ [])

  unfoldable pub handle_config : Bool → Bridge L → Told
  unfolding record_log
  handle_config applied b =
      let begun = record_log (codes "INFO") (codes "[WG] Применение конфига...") true b in
      let done =
        record_log (codes "INFO")
          (codes "[WG] Конфиг применён, ожидаем подтверждения двустороннего трафика") true
          (record begun.0 { wg_applied = true }) in
      if applied then (done.0, vpn_progress (codes "running") ∷ begun.1 ++ done.1) else (
        begun.0,
        vpn_progress (codes "running") ∷ begun.1 ++ vpn_progress (codes "error") ∷ wg_error ∷ [],
      )

  -- One turn of the loop of `forwardEvents`.
  unfoldable pub handle_event : CoreEvent → Bridge L → Told
  unfolding record_log handle_stats handle_config
  handle_event (state status) b = (b, state_changed status ∷ [])
  handle_event (log level message) b = record_log level message (not (level ≗ codes "SKIP")) b
  handle_event (stats active up down) b = handle_stats active up down b
  handle_event (failed message) b =
      around [] (record_log (codes "ERROR") message false b) (error (sanitize message) ∷ [])
  handle_event (progress data_text) b = (b, connection_progress data_text ∷ [])
  handle_event (diagnostic data_text) b =
      around (diagnostic_event (sanitize data_text) ∷ [])
        (record_log (codes "DEBUG") data_text false b) []
  handle_event (wg_config applied) b = handle_config applied b
  handle_event (captcha name data_text) b = (b, shows name data_text ∷ [])
  handle_event ready b =
      record_log (codes "INFO") (codes "[ЯДРО] Рабочая DTLS-сессия установлена") true b
  handle_event (other name) b = (b, event name ∷ [])

  -- After the channel has been closed.
  unfoldable pub end_forwarding : Bridge L → Told
  unfolding told_once
  end_forwarding b =
      let b' = record b {
        running = false;
        wg_applied = false;
        connected_published = false;
        core = none;
      } in
      elim b.log_file [
        | none ↦ (b', disconnected ∷ [])
        | some l ↦
            let closed = journal.close l in
            let told = told_once closed.0 b' closed.1 in (told.0, told.1 ++ disconnected ∷ [])
      ]

  unfoldable pub forward_events : List CoreEvent → Bridge L → Told
  unfolding handle_event end_forwarding
  forward_events [] b = end_forwarding b
  forward_events (e ∷ es) b =
      let first = handle_event e b in
      let rest = forward_events es first.0 in (rest.0, first.1 ++ rest.1)
