-- ===== src/Session.antt =====
-- core/session.go: `RunSession`, from its address to its end, over what each stage gives, with the
-- slots, counters and registrations that it takes and gives back as a list of acts. The relay's and
-- the reader's loops, which run beside it, are Session.Relay; core/protocol.go is Session.Protocol.
pub mod Protocol
pub mod Relay
pub mod Balance
pub mod Verdict
use pwdtt.Prelude.{
  Bool, true, false, ◌&&◌, ◌||◌, not, List, [], ◌∷◌, ◌++◌, Option, none, some, Result, ok, err, map,
  length, ◌==◌, if◌then◌else◌,
}
use pwdtt.Prelude.Text.{Text, codes, ◌≗◌, index_of, to_lower}
use pwdtt.WorkerGroup.{SessionError, SessionErrorType, address_dead, wrap_timeout, fatal}
use pwdtt.Session.Protocol.{Answer, request_config}

-- strings.Contains
unfoldable pub contains : Text → Text → Bool
contains s pat = elim (index_of pat s) [ none ↦ false | some i ↦ true ]

unfoldable pub contains_any : Text → List Text → Bool
unfolding contains
contains_any s [] = false
contains_any s (pat ∷ pats) = contains s pat || contains_any s pats

abbrev pub address_dead_markers : List Text
address_dead_markers =
    codes "quota"
    ∷ codes "486"
    ∷ codes "unreachable"
    ∷ codes "timeout"
    ∷ codes "connection refused"
    ∷ codes "no route to host"
    ∷ codes "all retransmissions failed"
    ∷ []

unfoldable pub classify_turn_allocate_error : Option Text → SessionErrorType
unfolding contains_any
classify_turn_allocate_error none = fatal
classify_turn_allocate_error (some message) =
    if contains_any (map to_lower message) address_dead_markers then address_dead else fatal

-- What a session takes and gives back, in order: a place among the three handshakes, its part of the
-- counter of connections, its slot at the dispatcher; and what it tells: the configuration it
-- delivers, and that the core is ready.
pub data Act : Type 0 where
  take_place give_place connect disconnect enrol resign deliver_config tell_ready : Act

-- What the stages give: whether the address splits, resolves and can be dialled, whether the TURN
-- client starts and listens, the error of Allocate, a certificate, a place among the handshakes
-- before the context ends, a DTLS client, the error of its handshake, and the server's answer.
pub record Stages : Type 0 where
  pub splits : Bool
  pub resolves : Bool
  pub dials : Bool
  pub client_starts : Bool
  pub listens : Bool
  pub allocate : Option Text
  pub certificate : Bool
  pub place : Bool
  pub dtls_client : Bool
  pub handshake : Option Text
  pub answer : Answer

-- RunSession's two results and its acts.
pub record Session : Type 0 where
  pub config_delivered : Bool
  pub error : Option SessionError
  pub acts : List Act

abbrev pub failed : SessionErrorType → Text → List Act → Session
failed kind addr acts = record {
  config_delivered = false;
  error = some record { kind = kind; address = addr };
  acts = acts;
}

-- From the registration to the end.
unfoldable pub serve : Bool → List Act → Session
serve config_delivered before = record {
  config_delivered = config_delivered;
  error = none;
  acts = before ++ tell_ready ∷ enrol ∷ resign ∷ disconnect ∷ [];
}

-- After the handshake. A configuration counts as delivered also if another one is in the channel.
unfoldable pub ask_server : Bool → Text → Stages → List Act → Session
unfolding contains serve request_config
ask_server wants_config turn_addr st before =
    if wants_config
    then elim (request_config st.answer) [
      | err message ↦
          if contains message (codes "FATAL_AUTH")
          then failed fatal turn_addr (before ++ disconnect ∷ [])
          else serve false before
      | ok conf ↦
          if conf ≗ [] then serve false before else serve true (before ++ deliver_config ∷ [])
    ]
    else serve false before

-- A handshake that does not come about; with WRAP, one that runs out of time asks for another mode.
unfoldable pub handshake_error : Bool → Text → SessionErrorType
unfolding contains
handshake_error use_wrap message =
    let lower = map to_lower message in
    if use_wrap && (contains lower (codes "deadline") || contains lower (codes "timeout"))
    then wrap_timeout
    else address_dead

unfoldable pub shake_hands : Bool → Bool → Text → Stages → Session
unfolding ask_server handshake_error
shake_hands wants_config use_wrap turn_addr st =
    if not st.certificate
    then failed fatal turn_addr []
    else if not st.place
    then failed fatal turn_addr []
    else if not st.dtls_client
    then failed address_dead turn_addr (take_place ∷ give_place ∷ [])
    else elim st.handshake [
      | some message ↦
          failed (handshake_error use_wrap message) turn_addr (take_place ∷ give_place ∷ [])
      | none ↦ ask_server wants_config turn_addr st (take_place ∷ give_place ∷ connect ∷ [])
    ]

-- `wrap_key_length` is that of the parameters' key, and `wants_config` is `getConfig` with a channel.
unfoldable pub run_session : Bool → Bool → Text → Stages → Session
unfolding shake_hands classify_turn_allocate_error
run_session wants_config use_wrap turn_addr st =
    if turn_addr ≗ []
    then failed fatal [] []
    else if not (st.splits && st.resolves && st.dials && st.client_starts && st.listens)
    then failed address_dead turn_addr []
    else elim st.allocate [
      | some message ↦ failed (classify_turn_allocate_error (some message)) turn_addr []
      | none ↦ shake_hands wants_config use_wrap turn_addr st
    ]
