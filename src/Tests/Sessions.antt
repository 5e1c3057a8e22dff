-- ===== src/Tests/Sessions.antt =====
-- Runs for core/session.go, core/protocol.go and backend/bridge.go.
use pwdtt.Prelude.{
  ℕ, ◌+◌, true, false, List, [], ◌∷◌, none, some, ◌≡◌, refl, arith, length, if◌then◌else◌, total,
  zero, suc,
}
use pwdtt.Prelude.Text.{codes}
use pwdtt.Obfs.{ByteList, new_obfs_config}
use pwdtt.Session.{Stages, run_session}
use pwdtt.Session.Protocol.{reads}
use pwdtt.Session.Balance.{perform_all, nothing_held, perform_all-run_session}
use pwdtt.Session.Verdict.{Verdict, run_session-Verdict}
use pwdtt.Session.Relay.{relay_in, relay_out, relay_in-relay_out}
use pwdtt.Bridge.{Journal, Bridge, CoreEvent, state, log, stats, wg_config, forward_events}
use pwdtt.Bridge.Confirmed.{sent_connected, connections, confirmed, Ended, forward_events_lem}
use pwdtt.Bridge.Sessions.{
  BridgeMove, IsSingle, busy, published, stopping, calling, connecting, call, enter, disconnects,
  run_bridge, idle_bridge, disconnect, disconnect-run_bridge,
}
use pwdtt.Tests.Packets.{plain_aead, plain_IsAead, a_key, a_payload, a_state}

abbrev fine : Stages
fine = record {
  splits = true;
  resolves = true;
  dials = true;
  client_starts = true;
  listens = true;
  allocate = none;
  certificate = true;
  place = true;
  dtls_client = true;
  handshake = none;
  answer = reads (codes "[Interface]");
}

perform_all-run_session_example :
    perform_all (run_session true true (codes "1.1.1.1:3478") fine).acts nothing_held
    ≡ some nothing_held
perform_all-run_session_example = perform_all-run_session true true (codes "1.1.1.1:3478") fine

run_session-Verdict_example :
    Verdict true true
      (codes "1.1.1.1:3478")
      fine
      (run_session true true (codes "1.1.1.1:3478") fine)
run_session-Verdict_example = run_session-Verdict true true (codes "1.1.1.1:3478") fine refl

zeros : ℕ → ByteList
zeros zero = []
zeros (suc n) = 0 ∷ zeros n

zeros_lem : (n : ℕ) → length (zeros n) ≡ n
unfolding zeros
zeros_lem zero = refl
zeros_lem (suc n) = omega (arith, zeros_lem n)

relay_in-relay_out_example :
    (wire : ByteList) × (relay_out plain_aead [] 5
        (λ i. i)
        a_key
        (new_obfs_config (codes "video") 7)
        a_state
        a_payload
      ≡ some wire)
    × (relay_in plain_aead [] a_key (zeros 1600) wire ≡ some a_payload)
relay_in-relay_out_example =
    relay_in-relay_out plain_aead plain_IsAead (codes "video") 7 a_key a_payload (zeros 1600)
      a_state 5 (λ i. i) [] [] (omega arith) (omega arith) (zeros_lem 1600)

-- A journal that counts its lines and fails after the first.
abbrev counter : Journal ℕ
counter = record {
  write = λ level text n. (true, n + 1);
  close = λ n. (true, n);
  warning = λ n. codes "full";
}

abbrev just_connected : Bridge ℕ
just_connected = record {
  running = true;
  wg_applied = false;
  connected_published = false;
  core = some 1;
  log_file = some 0;
  log_warning_sent = false;
}

abbrev a_session : List CoreEvent
a_session =
    state (codes "connecting")
    ∷ stats 1 5 5
    ∷ wg_config true
    ∷ log (codes "SKIP") (codes "x")
    ∷ stats 1 5 5
    ∷ stats 1 9 9
    ∷ []

forward_events_lem_example :
    (connections (forward_events counter (λ t. t) a_session just_connected).1
      ≡ sent_connected a_session + (if confirmed false a_session then 1 else 0))
    × Ended (forward_events counter (λ t. t) a_session just_connected)
forward_events_lem_example = forward_events_lem counter (λ t. t) a_session just_connected refl refl

-- The second call is refused, and a Disconnect comes before the first one's core.
abbrev early_disconnect : List BridgeMove
early_disconnect = call 0 enter ∷ call 1 enter ∷ disconnects ∷ []

disconnect-run_bridge_example :
    let s = run_bridge early_disconnect (idle_bridge (calling ∷ calling ∷ [])) in
    IsSingle s
    × (s.shared.running ≡ true)
    × (total busy s.calls ≡ 1)
    × ((disconnect s.shared).stopped ≡ stopping (published connecting) s.shared.stopped)
unfolding run_bridge
disconnect-run_bridge_example =
    disconnect-run_bridge early_disconnect (calling ∷ calling ∷ []) 0 connecting (refl, (refl, tt))
      refl refl
