-- ===== src/Lib.antt =====
-- EightCall: its authority broker; the gate, the redaction, the live tail and the nodes of its detection
-- pipeline; and the policy evaluator and the audit log of its skills.
--
-- The broker (plasma/broker/broker) is the one way from a signed request to a capability that acts on a
-- target. The gate decides a request and hands out a token; the executor verifies the token, meets the
-- live target and consumes the token in the transaction that records the run. Both work on one SQLite
-- database, and what is true over its whole history is what makes a decision binding.
--
-- The parts and their files:
-- Prelude and its children hold Boolean tests, integers, and tables of rows under a text key: `find` is
-- the SELECT by a key, `update` the UPDATE, `append` the INSERT and `upsert` the INSERT OR REPLACE.
-- Broker.Json: the JSON values that canon.py encodes, and Python's dict over them.
-- Broker.Result: what a call returns or raises, with the state that it leaves; the reasons of `Denied`.
-- Broker.Session: session.py, the state machine of an authenticated session; Calls has the methods as
-- data, and Traces what holds over every sequence of calls.
-- Broker.Store: store.py, with a record for each table, and a child for each group of methods: Meta,
-- Targets, Enrollments, Leases, Requests, Decisions, Tokens, Runs. Ops has the writing methods as data,
-- so that a list of them is a history of the database; its children say what holds over histories.
-- Broker.Registry: registry.py, the table of capabilities; Params checks parameters against it.
-- Broker.Grant: grant.py. Broker.Possession: possession.py.
-- Broker.Gate: gate.py. Trust has `load_keys`, `load_policy` and `_grant_for`; Records what is logged;
-- Authorize is `authorize`, whose early returns stand in `screen` (before the nonce is claimed), `vet`
-- (after it) and `issue`; Verify is `verify_token`; Anchor is `checkpoint`.
-- Broker.Actions: actions.py's `run` and `run_authorized`, with the crash points of failpoints.py.
-- Broker.Examples runs the definitions and the theorems on a small broker.
-- Detect.AuthzGate: detect/authz_gate.py, the older gate of the detection pipeline. Match has
-- `_target_matches` and `_params_within`; Evaluate is `_evaluate`, whose early returns stand in
-- `check_shape`, `identify`, `prove`, `spend` and `match_grants`; Audit is `authorize` with
-- `_append_audit`, and `verify_audit_chain`; Audit.Restart is what a new process reads back; and Policy
-- is `from_policy` with `_resolve_caller` and `_parse_grant`.
-- Detect.Redact: detect/redact.py. Scan is `scan_text`, Luhn `_luhn_ok`, Rewrite `redact_text`, Findings
-- `capture_hit` and Evidence the `EvidenceLog`.
-- Detect.LiveTail: detect/livetail.py, a session over the lines of tail. `feed` is split by its early
-- returns into `feed_text`, `feed_attributed` and `feed_content`; `follow_loop` is the loop of `follow`.
-- Detect.Nodebox: detect/nodebox_crypto.py and detect/nodebox_protocol.py. Channel is `SecureChannel`;
-- Protocol has the transcripts, `Session.advance` and the two handshakes. Its children are the programs
-- around them. Controller is detect/nodebox_controller.py: Sessions has the events of a session,
-- Dispatch `apply` with the gate's decision, and Life the controller as a step on what it meets. Agent is
-- the commands of detect/nodebox_agent.py; Layers the attestation scope of detect/nodebox_layers.py; Ssh
-- the command line and the session of detect/nodebox_broker.py; and SshGate detect/nodebox_sshgate.py,
-- with Render for the authorized keys and Validate for the checks of a policy.
-- Detect.Examples and its children run all of these.
-- Skills.EvalPolicy: skills/blue/authz-gate/scripts/eval_policy.py. Skills.AuditLog:
-- skills/blue/authz-gate/scripts/audit_log.py, a log that is chained by hashes. Skills.Examples runs both.
--
-- State is passed explicitly: an Action takes the state to a result and the state that is left, and what
-- was written before a raise stays written, as in the program's autocommitted statements and its
-- transactions. A claim of a token and the rows of a revocation are transactions in the program and are
-- one step here. SQLite's primary keys and UNIQUE columns are tests that end in IntegrityError.
--
-- Loops are recursions on their lists. How ssh reads a command line, in Detect.Nodebox.Ssh.Words, follows
-- its manual: options in the way of getopt, the destination, and options again before the command.
-- Fuel is used in one place, the decimal digits of a number n in
-- Detect.Redact, where n + 1 rounds are enough. Times, versions and revisions are natural
-- numbers, read once per call of `time.time()` and handed in as arguments; where the program subtracts
-- and may go below 0, the comparison is written with a sum. Code outside the broker is a parameter, the
-- record Host of Broker.Gate: hashlib over the canonical encoding, base64 with json, and OpenSSL. What a
-- capability does on the network, the peer at an address and the failpoint are in the record World of
-- Broker.Actions. The primitives of the cryptography package are the record Crypto of Detect.Nodebox, and
-- secrets and random bytes are arguments. In Detect.Redact what a regular expression finds, the entropy
-- test on floats, the hashes, the clock and JSON's texts are parameters; in SshGate `fnmatchcase` and the
-- test of an address against a network; and in Agent the record Node has sha256 and the signature.
--
-- Not modelled: reading and writing files, SQLite's set-up and migration, the command line (cli.py), the
-- runtime and its TLS transport (runtime.py, mtls.py, agent.py), OpenSSL's command line (crypto.py) and
-- the self-tests (selftest.py, stress.py, poptest.py), since they are input, output and processes. The
-- detection gate's policy is modelled behind the reading of its YAML file; ISO times, which it parses,
-- are a parameter in microseconds, and a signature is of ASCII characters. Of the nodebox programs the sockets, threads, key files and command
-- lines are left out, of SshGate the Match blocks of sshd_config, and of LiveTail the reading of the
-- allowlist and the process and thread behind its lines. The rest of the detection pipeline (detect), the pods and control plane
-- (plasma/pods, plasma/control-plane) and the tools are separate programs.
pub mod Prelude
pub mod Broker
pub mod Detect
pub mod Skills
