-- ===== src/Lib.antt =====
-- pwdtt tunnels WireGuard packets through the TURN servers of VK calls. The desktop application
-- (backend/) keeps server profiles and a registry of VK call hashes; the core (core/) opens sessions
-- with them and carries packets, dressed as RTP, between the local WireGuard client and the server.
--
-- Prelude: arithmetic tests, lists over native numbers, texts as lists of code points, sets of texts
-- and association lists keyed by texts. A Go map is an association list.
--
-- Obfs is core/obfs.go. `wrap_packet` and `unwrap_packet` are obfsWrapPacket and obfsUnwrapPacket;
-- `get_aead` is getAEAD with its cache as state, `packet_seq` and `packet_ts` are the wrapped sums
-- of lines 95 and 96. The cipher is a parameter (`Aead`) with the laws `IsAead` as a hypothesis,
-- and the random bytes are arguments. Integers wrap around at 2^16, 2^32 and 2^64 as the source's
-- types do.
--
-- Dispatcher is core/dispatcher.go: `register` and `unregister` on the list of slots, `read_step`
-- and `write_step` for one turn of readLoop and writeLoop. A channel is its queue and its
-- capacity. `try_others` takes one round for each other worker, so n - 1 rounds are all that the
-- source's loop makes. Turns run one after another: a worker that drains its channel, or a
-- registration, between the sends of one turn is not modelled, nor are read errors, packet buffers
-- and Shutdown.
--
-- Blacklist is core/blacklist.go: `ban`, `is_banned`, `clear` on a map from addresses to deadlines.
--
-- VkHash is backend/vk_hash.go: `normalize_vk_call_hash`, with url.Parse as a parameter, and in
-- VkHash.Generate the loop of generateVKHashes, whose request to VK and cancellations are given
-- per attempt. The loop runs on `count + max_vk_hashes` rounds, the source's own maxAttempts.
-- Lengths are those of UTF-8; lower case is that of ASCII and the two characters beyond it that
-- have an ASCII lower case. The index in a link's path counts characters where the source counts
-- bytes.
--
-- VkAuth is core/vk_auth_policy.go. An error is the chain of its causes (`Chain`), which the tests
-- of classifyVKAuthError search one after another (`tests`); `try_vk_credential_pairs` is
-- tryVKCredentialPairs over what each attempt would give, with vkCredentialAttemptLimit as its
-- bound.
--
-- Types is backend/types.go. Registry is the part of backend/vk_hash_manager.go that works on a
-- registry in memory: modes and policies, findVKHashByID and findVKHashByValue,
-- `ensure_vk_hash_entry`, profilesUsingVKHash, and the changes that DeleteVKHash and
-- cleanupOrphanVKHash make.
--
-- Backend is the part that works on the stored files: a state (`Backend`) with the registry file,
-- the profiles of backend/store.go and what can be read and written, and a monad `M` of operations
-- that may fail and keep what they have written. Backend.Checks holds checkVKHashProbe and
-- storedVKHashCheck, Backend.Candidates the choice of candidates, Backend.Replace the replacement
-- of a hash, and Backend.Prepare prepareVKHashes. What the network answers and when contexts end
-- is given by records (`ProbeResult`, `Replacement`, `Preflight`). Operations run one after
-- another, but what others do to the registry while a probe runs is part of the probe
-- (`meanwhile`); between other critical sections no operation is modelled, nor is the registry's
-- mutex. The registry is its decoded content, events and diagnostics are left out, and a sort that
-- the source leaves unstable is a stable one here.
--
-- HashOperations is `run` of backend/vk_hash_operations.go: callers with a key each (`Caller`),
-- the map of calls in flight (`Shared`), and `step`, a move of one caller. `run_moves` takes any
-- list of moves, so every interleaving is one; a probe's result and the end of a context are part
-- of a move.
--
-- SessionLog is backend/session_log.go: `write`, `close` and `snapshot` on the record LogFile,
-- with the outcome of each file operation as an argument; `bounded_line` is boundedLogLine from
-- the formatted text on, and SessionLog.Prune is pruneSessionLogs. A write that is cut short is
-- cut between two characters, and sanitizeDiagnosticText is an argument of `snapshot`.
--
-- Update is the part of backend/update.go that reads and compares semantic versions: `is_newer`,
-- `parse_semantic_version` and `compare_semantic_versions`, whose result is the sign of the
-- source's. Update.Releases is evaluateRelease, selectReleaseAsset and checkUpdate with its way
-- over the web pages; what GitHub answers is given by the record `Web`.
--
-- WorkerGroup is core/worker_group.go from the start of its workers on: `begin_turn` chooses the
-- address and decides who fetches the configuration, `end_session` takes a session's result, and
-- `run_workers` takes any list of such steps of any workers, so every interleaving is one. Pauses
-- are workers that take no step. WorkerGroup.Start has the times of the start, WorkerGroup.Hashes
-- the reading of hashes.
--
-- Captcha is core/captcha_flow.go: the coordinator (`CaptchaCoordinator`) with each operation
-- under its mutex, and waitForCaptcha as the steps of a waiter, its deferred clean-up included
-- (`move_waiter`). `run_captcha` takes any list of steps of waiters and of calls of the window.
--
-- Slider is the part of core/captcha_v2_slider.go that works on the steps of an answer, which are
-- Go ints: `split_slider_steps`, `active_swaps_for_index` and `apply_slider_swaps`, with the
-- square of the size wrapped around at 2^64. Memory that runs out is not modelled.
--
-- WorkProof is solveCaptchaPoWV2 of core/captcha_v2.go, with SHA-256 as a parameter by its
-- hexadecimal digits. `search` runs on the ten million rounds of the source's loop.
--
-- Session is core/session.go over what its stages give (`Stages`): `run_session` with the list of
-- what it takes and gives back. Session.Protocol is core/protocol.go, Session.Relay the two loops
-- that carry packets, with core/wrap.go's decision whether to wrap. A loop reads records of at
-- most 1680 bytes and obfuscation adds 88 at most, which is where the bound of 1592 bytes on a
-- payload comes from. DTLS and TURN are parameters by what they return.
--
-- Core is core/main.go and core/stats.go: `start` with the plan of groups (`plan_groups`),
-- `emit_step` for a call of emit, with any number of calls at once, `write_log`, `patch_mtu`,
-- `itoa` on as many rounds as the number, since each divides it by ten, and `ftoa` with its two
-- decimals. Sockets, the release of groups and the goroutines are not modelled.
--
-- WireGuard is the Linux part of backend/wg.go: `parse_wg_config`, whose scan ends before a line of
-- 64 KiB as the scanner's does, `apply_linux` and `teardown_linux` on the kernel's routes. What the
-- tools of the system answer is a parameter (`Tools`), and each call may fail. A new route stands before others to the same destination, and
-- a deletion takes the first one. That the tools delete a route that is there (`Deletes`) is a
-- hypothesis where it is needed.
--
-- Bridge is backend/bridge.go: `forward_events` over the events of the core, with the screen's
-- journal as an interface, and Bridge.Sessions the interleavings of Connect and Disconnect.
--
-- Not modelled: the VK requests and credentials (core/vk_auth.go, core/creds_vkcalls.go), the rest
-- of the automatic solution of captchas (core/captcha_v2.go, core/captcha_v2_slider.go), the probe
-- and its names (core/hash_probe.go, core/dns.go), bulk and manual operations
-- (backend/vk_hash_operations.go), the quarantine of damaged files in backend/store.go, WireGuard
-- on Windows and macOS, and the windows, login pages and system tools of the application, which
-- are input and output without state of their own.
--
-- Tests runs each theorem at a concrete input.
pub mod Prelude
pub mod Obfs
pub mod Dispatcher
pub mod Blacklist
pub mod VkHash
pub mod VkAuth
pub mod Types
pub mod Registry
pub mod Backend
pub mod HashOperations
pub mod Update
pub mod SessionLog
pub mod WorkerGroup
pub mod Captcha
pub mod Slider
pub mod WorkProof
pub mod Session
pub mod Core
pub mod WireGuard
pub mod Bridge
pub mod Tests
