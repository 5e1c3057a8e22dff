-- ===== src/Session/Balance.antt =====
-- What a session takes it gives back.
use pwdtt.Prelude.{
  Bool, true, false, List, [], ◌∷◌, Option, none, some, Option-cases, Result-cases, ◌≡◌, inl, inr,
  arith, if◌then◌else◌,
}
use pwdtt.Prelude.Text.{Text}
use pwdtt.Session.{
  Act, Stages, take_place, give_place, connect, disconnect, enrol, resign, deliver_config,
  tell_ready, run_session, shake_hands, ask_server, serve,
}
use pwdtt.Session.Protocol.{request_config}

-- What a session has at a time.
pub record Holdings : Type 0 where
  pub place : Bool
  pub connected : Bool
  enrolled : Bool

abbrev pub nothing_held : Holdings
nothing_held = record { place = false; connected = false; enrolled = false }

-- An act, if it is in order: nothing is taken twice or given back without having been taken, a
-- session enrols and delivers only while it counts as connected, and hands over nothing else while it
-- has a place among the handshakes.
unfoldable perform : Act → Holdings → Option Holdings
perform take_place h = if h.place then none else some (record h { place = true })
perform give_place h = if h.place then some (record h { place = false }) else none
perform connect h =
    if h.place then none else if h.connected then none else some (record h { connected = true })
perform disconnect h =
    if h.enrolled then none else if h.connected then some (record h { connected = false }) else none
perform enrol h =
    if h.enrolled then none else if h.connected then some (record h { enrolled = true }) else none
perform resign h = if h.enrolled then some (record h { enrolled = false }) else none
perform deliver_config h = if h.connected then some h else none
perform tell_ready h = if h.connected then some h else none

unfoldable pub perform_all : List Act → Holdings → Option Holdings
unfolding perform
perform_all [] h = some h
perform_all (a ∷ acts) h = elim (perform a h) [ none ↦ none | some h' ↦ perform_all acts h' ]

-- However the stages turn out, a session's acts are in order, and at its end it has given back its
-- place among the handshakes, its part of the counter of connections and its slot.
pub perform_all-run_session :
    (wants_config use_wrap : Bool) (turn_addr : Text) (st : Stages)
    → perform_all (run_session wants_config use_wrap turn_addr st).acts nothing_held
      ≡ some nothing_held
unfolding perform_all run_session shake_hands ask_server serve
perform_all-run_session wants_config use_wrap turn_addr st = elim (Option-cases st.allocate) [
  | inr (message, refused) ↦ ground arith
  | inl relay ↦ elim (Option-cases st.handshake) [
    | inr (message, broken) ↦ ground arith
    | inl shaken ↦ elim (Result-cases (request_config st.answer)) [
      | inl (conf, answered) ↦ ground arith
      | inr (message, denied) ↦ ground arith
    ]
  ]
]
