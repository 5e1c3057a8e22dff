-- ===== src/Session/Verdict.antt =====
-- How a session ends, and what its worker makes of it.
use pwdtt.Prelude.{
  Bool, true, false, not, ◌&&◌, ◌||◌, [], ◌++◌, Option, none, some, Result, ok, err, Option-cases,
  Result-cases, Bool-cases, ◌≡◌, inl, inr, refl, arith, drop, map,
}
use pwdtt.Prelude.Text.{Text, codes, ◌≗◌, ≗_refl, has_prefix, index_of, to_lower}
use pwdtt.WorkerGroup.{SessionError, SessionErrorType, wrap_timeout, fatal}
use pwdtt.Session.{
  Session, Stages, contains, contains_any, address_dead_markers, handshake_error,
  classify_turn_allocate_error, run_session, shake_hands, ask_server, serve,
}
use pwdtt.Session.Protocol.{
  Answer, write_fails, deadline_fails, read_fails, reads, denied, denial, denial_reason, fatal_auth,
  buffered, read_answer, request_config,
}

-- A failure of the connection that does not pass for a refusal.
abbrev pub is_plain : Answer → Bool
is_plain (write_fails e) = not (contains (codes "отправка GETCONF: " ++ e) (codes "FATAL_AUTH"))
is_plain (deadline_fails e) =
    not (contains (codes "установка дедлайна: " ++ e) (codes "FATAL_AUTH"))
is_plain (read_fails e) = not (contains (codes "чтение ответа конфига: " ++ e) (codes "FATAL_AUTH"))
is_plain (reads bytes) = true

-- The server refuses, or gives a configuration.
abbrev pub refuses : Answer → Bool
refuses (reads bytes) = not (buffered bytes ≗ codes "NOCONF") && has_prefix denied (buffered bytes)
refuses _ = false

abbrev grants : Answer → Bool
grants (reads bytes) =
    not (buffered bytes ≗ codes "NOCONF")
    && not (has_prefix denied (buffered bytes))
    && not (buffered bytes ≗ [])
grants _ = false

abbrev pub is_none {ℓ} : {A : Type ℓ} → Option A → Bool
is_none none = true
is_none (some a) = false

-- Every stage up to the handshake has succeeded.
abbrev reached : Text → Stages → Bool
reached turn_addr st =
    not (turn_addr ≗ [])
    && (st.splits && st.resolves && st.dials && st.client_starts && st.listens)
    && is_none st.allocate
    && st.certificate
    && st.place
    && st.dtls_client
    && is_none st.handshake

contains-fatal_auth : (m : Text) → contains (fatal_auth m) (codes "FATAL_AUTH") ≡ true
unfolding contains index_of has_prefix
contains-fatal_auth m = refl

denial_fatal : (reason : Text) → contains (denial reason) (codes "FATAL_AUTH") ≡ true
unfolding denial
denial_fatal reason = contains-fatal_auth (denial_reason reason)

-- How the answer is read.
abbrev Reads : Answer → Result Text Text → Type 0
Reads a (ok conf) = (refuses a ≡ false) × (grants a ≡ not (conf ≗ []))
Reads a (err message) = (grants a ≡ false) × (contains message (codes "FATAL_AUTH") ≡ refuses a)

read_answer_reads : (bytes : Text) → Reads (reads bytes) (read_answer (buffered bytes))
unfolding read_answer ◌≗◌
read_answer_reads bytes = elim (Bool-cases (buffered bytes ≗ codes "NOCONF")) [
  | inl no_conf ↦ rw (no_conf, read_answer) (ground arith, ground arith)
  | inr more ↦ elim (Bool-cases (has_prefix denied (buffered bytes))) [
    | inl refused ↦
        rw (more, read_answer, refused)
          (ground arith, ground (arith, denial_fatal (drop 7 (buffered bytes))))
    | inr granted ↦ rw (more, read_answer, granted) (ground arith, ground arith)
  ]
]

request_config-Reads : (a : Answer) → is_plain a ≡ true → Reads a (request_config a)
unfolding request_config read_answer
request_config-Reads (write_fails e) p = (refl, ground arith)
request_config-Reads (deadline_fails e) p = (refl, ground arith)
request_config-Reads (read_fails e) p = (refl, ground arith)
request_config-Reads (reads bytes) p = read_answer_reads bytes

abbrev is_fatal : SessionErrorType → Bool
is_fatal fatal = true
is_fatal _ = false

abbrev is_wrap_timeout : SessionErrorType → Bool
is_wrap_timeout wrap_timeout = true
is_wrap_timeout _ = false

-- The relay is refused in words that do not blame the address.
abbrev refused_for_good : Option Text → Bool
refused_for_good none = false
refused_for_good (some message) = not (contains_any (map to_lower message) address_dead_markers)

-- The stages of a session whose worker is not to try again.
abbrev ends_for_good : Bool → Text → Stages → Bool
ends_for_good wants_config turn_addr st =
    turn_addr ≗ []
    || (st.splits && st.resolves && st.dials && st.client_starts && st.listens)
      && (refused_for_good st.allocate
          || is_none st.allocate && (not st.certificate || not st.place)
          || reached turn_addr st && wants_config && refuses st.answer)

abbrev pub ended_for_good : Option SessionError → Bool
ended_for_good none = false
ended_for_good (some e) = is_fatal e.kind

-- An error that names the address unless it is final, and asks for another mode only with WRAP.
abbrev pub names : Text → Bool → Option SessionError → Bool
names addr use_wrap none = false
names addr use_wrap (some e) =
    (is_fatal e.kind || (e.address ≗ addr && not (addr ≗ [])))
    && (not (is_wrap_timeout e.kind) || use_wrap)

-- The first part of a session's end: what it says is settled by its stages.
pub record Verdict (wants_config use_wrap : Bool) (turn_addr : Text) (st : Stages) (r : Session)
    : Type 0 where
  pub succeeds : is_none r.error ≡ (reached turn_addr st && not (wants_config && refuses st.answer))
  pub delivers : r.config_delivered ≡ (wants_config && reached turn_addr st && grants st.answer)
  pub final : ended_for_good r.error ≡ ends_for_good wants_config turn_addr st
  pub named : (is_none r.error || names turn_addr use_wrap r.error) ≡ true

classify_kind :
    (message : Text)
    → (is_wrap_timeout (classify_turn_allocate_error (some message)) ≡ false)
      × (is_fatal (classify_turn_allocate_error (some message)) ≡ refused_for_good (some message))
unfolding classify_turn_allocate_error
classify_kind message = ground arith

handshake_kind :
    (use_wrap : Bool) (message : Text)
    → ((not (is_wrap_timeout (handshake_error use_wrap message)) || use_wrap) ≡ true)
      × (is_fatal (handshake_error use_wrap message) ≡ false)
unfolding handshake_error
handshake_kind use_wrap message = ground arith

-- With failures of the connection that do not pass for refusals: a session ends without an error
-- exactly if every stage up to the handshake succeeds and the server does not refuse a request for
-- the configuration; the configuration counts as delivered exactly if it was asked for and granted;
-- its error is final exactly if there is no address, the relay is refused in words that do not blame
-- the address, there is no certificate or no place for a handshake, or the server refuses; an error
-- that is not final names the session's address; and another mode of disguise is only asked
-- for where packets are disguised.
pub run_session-Verdict :
    (wants_config use_wrap : Bool) (turn_addr : Text) (st : Stages)
    → is_plain st.answer ≡ true
    → Verdict wants_config use_wrap turn_addr st (run_session wants_config use_wrap turn_addr st)
unfolding run_session shake_hands ask_server serve
run_session-Verdict wants_config use_wrap turn_addr st plain =
    let same = ≗_refl turn_addr in
    let answered = request_config-Reads st.answer plain in
    elim (Option-cases st.allocate) [
      | inr (message, refused) ↦
          let kind = classify_kind message in
          record {
            succeeds = ground arith;
            delivers = ground arith;
            final = ground (arith, kind);
            named = ground (arith, same, kind);
          }
      | inl relay ↦ elim (Option-cases st.handshake) [
        | inr (message, broken) ↦
            let kind = handshake_kind use_wrap message in
            record {
              succeeds = ground arith;
              delivers = ground arith;
              final = ground (arith, kind);
              named = ground (arith, same, kind);
            }
        | inl shaken ↦ elim (Result-cases (request_config st.answer)) [
          | inl (conf, got) ↦
              let read = rw got at answered in
              record {
                succeeds = ground (arith, read);
                delivers = ground (arith, read);
                final = ground (arith, read);
                named = ground (arith, same);
              }
          | inr (message, denied) ↦
              let read = rw denied at answered in
              record {
                succeeds = ground (arith, read);
                delivers = ground (arith, read);
                final = ground (arith, read);
                named = ground (arith, same);
              }
        ]
      ]
    ]
