-- ===== src/VkAuth.antt =====
-- core/vk_auth_policy.go: what an error of VK's authorisation means, and when the next pair of
-- client credentials is tried. An error is the chain of its causes, outermost first, as errors.Is
-- and errors.As walk it.
pub mod Policy
use pwdtt.Prelude.{
  ℕ, zero, suc, ◌+◌, Bool, true, false, not, ◌&&◌, ◌||◌, List, [], ◌∷◌, Option, none, some, Result,
  ok, err, ◌==◌, ltb, if◌then◌else◌, length, take,
}

pub data VkAuthErrorKind : Type 0 where
  success dns_lookup dns_timeout tcp_timeout tls_failure network http_timeout : VkAuthErrorKind
  rate_limit invalid_client captcha canceled vk_api call_unavailable other : VkAuthErrorKind

-- creds_vkcalls.go: where the first way of getting credentials failed.
pub data VkCallsFailureKind : Type 0 where
  failure_skipped failure_setup failure_network failure_decode failure_vk_api : VkCallsFailureKind
  failure_captcha failure_call failure_okcdn failure_parse : VkCallsFailureKind

-- One error of the chain. `dial` and `timeout` are what net.OpError and net.Error say.
pub data Cause : Type 0 where
  context_canceled context_deadline captcha_error captcha_wait call_unavailable_error : Cause
  certificate_error unreachable plain : Cause
  transport : VkAuthErrorKind → Cause
  dns_error dns_unavailable : (timeout : Bool) → Cause
  http_error api_error calls_api_error ok_api_error : ℕ → Cause
  op_error : (dial : Bool) → (timeout : Bool) → Cause
  net_error url_error : (timeout : Bool) → Cause
  calls_failure : VkCallsFailureKind → Cause

abbrev pub Chain : Type 0
Chain = List Cause

-- The first cause that a test accepts.
unfoldable pub first_cause {ℓ} : {A : Type ℓ} → (Cause → Option A) → Chain → Option A
first_cause f [] = none
first_cause f (c ∷ e) = let rest = first_cause f e in elim (f c) [ none ↦ rest | some a ↦ some a ]

-- `vkAuthAPIErrorCodeKind`
unfoldable pub api_error_code_kind : ℕ → VkAuthErrorKind
api_error_code_kind code =
    if code == 5 || code == 27 || code == 28
    then invalid_client
    else if code == 14
    then captcha
    else if code == 29
    then rate_limit
    else vk_api

abbrev pub is_canceled : Cause → Option VkAuthErrorKind
is_canceled context_canceled = some canceled
is_canceled _ = none

abbrev transport_kind : Cause → Option VkAuthErrorKind
transport_kind (transport k) = some k
transport_kind _ = none

abbrev dns_kind : Cause → Option VkAuthErrorKind
dns_kind (dns_error t) = some (if t then dns_timeout else dns_lookup)
dns_kind _ = none

abbrev dns_unavailable_kind : Cause → Option VkAuthErrorKind
dns_unavailable_kind (dns_unavailable t) = some (if t then dns_timeout else dns_lookup)
dns_unavailable_kind _ = none

abbrev deadline_kind : Cause → Option VkAuthErrorKind
deadline_kind context_deadline = some http_timeout
deadline_kind _ = none

abbrev http_kind : Cause → Option VkAuthErrorKind
http_kind (http_error code) = some (if code == 429 then rate_limit else vk_api)
http_kind _ = none

abbrev api_kind : Cause → Option VkAuthErrorKind
api_kind (api_error code) = some (api_error_code_kind code)
api_kind _ = none

abbrev calls_api_kind : Cause → Option VkAuthErrorKind
calls_api_kind (calls_api_error code) = some (api_error_code_kind code)
calls_api_kind _ = none

abbrev ok_api_kind : Cause → Option VkAuthErrorKind
ok_api_kind (ok_api_error code) = some (if code == 29 then rate_limit else vk_api)
ok_api_kind _ = none

abbrev captcha_kind : Cause → Option VkAuthErrorKind
captcha_kind captcha_error = some captcha
captcha_kind captcha_wait = some captcha
captcha_kind _ = none

abbrev call_kind : Cause → Option VkAuthErrorKind
call_kind call_unavailable_error = some call_unavailable
call_kind _ = none

abbrev op_kind : Cause → Option VkAuthErrorKind
op_kind (op_error dial timeout) =
    some (if timeout then (if dial then tcp_timeout else http_timeout) else network)
op_kind _ = none

abbrev tls_kind : Cause → Option VkAuthErrorKind
tls_kind certificate_error = some tls_failure
tls_kind _ = none

abbrev unreachable_kind : Cause → Option VkAuthErrorKind
unreachable_kind unreachable = some network
unreachable_kind _ = none

-- The first cause that knows of timeouts decides.
abbrev timeout_of : Cause → Option Bool
timeout_of (net_error t) = some t
timeout_of (url_error t) = some t
timeout_of _ = none

abbrev url_kind : Cause → Option VkAuthErrorKind
url_kind (url_error t) = some network
url_kind _ = none

-- The tests in the source's order; each looks through the whole chain.
unfoldable pub first_test : List (Cause → Option VkAuthErrorKind) → Chain → Option VkAuthErrorKind
unfolding first_cause
first_test [] e = none
first_test (f ∷ fs) e =
    let later = first_test fs e in elim (first_cause f e) [ none ↦ later | some k ↦ some k ]

abbrev pub tests : List (Cause → Option VkAuthErrorKind)
tests =
    is_canceled ∷ transport_kind ∷ dns_kind ∷ dns_unavailable_kind ∷ deadline_kind ∷ http_kind
    ∷ api_kind ∷ calls_api_kind ∷ ok_api_kind ∷ captcha_kind ∷ call_kind ∷ op_kind ∷ tls_kind
    ∷ unreachable_kind ∷ []

unfoldable has_timeout : Chain → Bool
unfolding first_cause
has_timeout e = elim (first_cause timeout_of e) [ none ↦ false | some t ↦ t ]

-- `classifyVKAuthError` of an error; without one it is success.
unfoldable pub classify_vk_auth_error : Option Chain → VkAuthErrorKind
unfolding first_test has_timeout
classify_vk_auth_error none = success
classify_vk_auth_error (some e) = elim (first_test tests e) [
  | some k ↦ k
  | none ↦
      if has_timeout e
      then http_timeout
      else elim (first_cause url_kind e) [ some k ↦ k | none ↦ other ]
]

abbrev pub is_invalid_client : VkAuthErrorKind → Bool
is_invalid_client invalid_client = true
is_invalid_client _ = false

unfoldable is_transport : VkAuthErrorKind → Bool
is_transport dns_lookup = true
is_transport dns_timeout = true
is_transport tcp_timeout = true
is_transport tls_failure = true
is_transport network = true
is_transport http_timeout = true
is_transport _ = false

abbrev never_legacy : VkAuthErrorKind → Bool
never_legacy canceled = true
never_legacy captcha = true
never_legacy rate_limit = true
never_legacy call_unavailable = true
never_legacy _ = false

abbrev failure_of : Cause → Option VkCallsFailureKind
failure_of (calls_failure k) = some k
failure_of _ = none

abbrev takes_legacy : VkCallsFailureKind → Bool
takes_legacy failure_network = false
takes_legacy failure_captcha = false
takes_legacy failure_call = false
takes_legacy _ = true

-- `vkAuthShouldUseLegacy`
unfoldable pub should_use_legacy : Chain → Bool
unfolding classify_vk_auth_error is_transport first_cause
should_use_legacy e =
    let kind = classify_vk_auth_error (some e) in
    if is_transport kind || never_legacy kind
    then false
    else elim (first_cause failure_of e) [ none ↦ false | some k ↦ takes_legacy k ]

abbrev attempt_limit : ℕ
attempt_limit = 4

-- What one attempt is given and gives: whether the context has ended before it, and its result.
pub record Attempt (R : Type 0) : Type 0 where
  pub context_error : Option Chain
  pub result : Result Chain R

-- How the walk over the credentials ends.
pub data Walk (R : Type 0) : Type 0 where
  got : R → Walk R
  not_configured : Walk R
  context_over failed rejected : Chain → Walk R

-- The loop, `last` being the error so far.
unfoldable pub try_pairs : {R : Type 0} → List (Attempt R) → Walk R → Walk R
unfolding classify_vk_auth_error
try_pairs [] last = last
try_pairs (a ∷ attempts) last = elim a.context_error [
  | some e ↦ context_over e
  | none ↦ elim a.result [
    | ok r ↦ got r
    | err e ↦
        let next = try_pairs attempts (rejected e) in
        if not (is_invalid_client (classify_vk_auth_error (some e))) then failed e else next
  ]
]

-- `tryVKCredentialPairs` over the attempts that the credentials would give.
unfoldable pub try_vk_credential_pairs : {R : Type 0} → List (Attempt R) → Walk R
unfolding try_pairs
try_vk_credential_pairs [] = not_configured
try_vk_credential_pairs (a ∷ attempts) =
    try_pairs (take attempt_limit (a ∷ attempts)) not_configured
