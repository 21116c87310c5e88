-- ===== src/Lib.antt =====
-- Token-Shrinker: a local runtime that reduces the context and the terminal output that is sent to
-- a language model. This library models the core of its Rust workspace (crates/) and proves what
-- the modelled code guarantees.
--
-- Parts of the program. A client's request is a JSON-RPC envelope in a length-prefixed frame
-- (ts-protocol). The router chooses a mode and its token budget from the requested
-- operations (ts-router), and the context engine scores the candidates that the providers found,
-- removes duplicates by content hash, ranks and packs what is left within the budget and hashes
-- the bundle (ts-context). Repository files are named by handles and lose their secrets before they
-- become candidates (ts-repo); the daemon makes a query of them for a client, and admits, counts and
-- cancels the requests that its threads serve (ts-daemon). The output profile says how terse the
-- answer may be (ts-output). Commands run under a policy with bounded capture of their output (ts-exec), which the terminal compressor
-- summarizes as it arrives, and long sources are cut down to the lines that matter (ts-compress).
-- Memories are kept in a table that queries read by scope, text and expiry (ts-memory), and are
-- candidates for the context engine; what every stage saved is accounted in four more tables
-- (ts-telemetry). Optional external providers run behind a circuit breaker, with a native
-- fallback (ts-provider). Updates are checked against a signed manifest (ts-update). The shared
-- identifiers, counts and routing types are those of ts-types.
--
-- Which file models which code:
--   Types and its children: crates/ts-types/src/lib.rs (RequestId::new, CounterId::new,
--     ProtocolVersion, TokenBudget and TokenCount, RouteMode, RouteRequest, RouteDecision).
--   Router: crates/ts-router/src/lib.rs (RouterConfig, route).
--   Output: crates/ts-output/src/lib.rs (ProfileConfig, resolve, PreservationPolicy).
--   Context and its children: crates/ts-context/src/lib.rs. Budget is select_within_budget; Relevance
--     is RelevanceSignals; SourceId, ContentHash, Candidate and Bundle are the data with their
--     constructors and hash_bundle; Build is build_context, one definition per loop.
--   Protocol: crates/ts-protocol/src/lib.rs (RpcRequest::validate, write_frame, read_frame).
--   Exec: crates/ts-exec/src/lib.rs. Capture is read_bounded, Wait is wait_for_exit, Policy is
--     ExecutionPolicy::new and ExecutionPolicy::admit, Engine is ExecutionEngine::execute.
--   Compress: crates/ts-compress/src/lib.rs. Terminal is TerminalCompressor and compress_terminal,
--     Lines the loop of push_chunk and str::lines, Ranges is ranges and omitted_ranges, Extract is
--     compress_context, one definition per loop, Artifacts is RawArtifactStore.
--   Memory: crates/ts-memory/src/lib.rs. Rows has the statements on the table, Store the operations of
--     MemoryStore, Store/Pool those of MemoryPool and migrate.
--   Telemetry: crates/ts-telemetry/src/lib.rs. Store has the tables with their foreign keys and the
--     operations of TelemetryStore, Savings is token_savings.
--   Update: crates/ts-update/src/lib.rs (verify_manifest, verify_artifact). Check is check_update.
--   Repo: crates/ts-repo/src/lib.rs. Paths is normalized_relative, encode_path and
--     decode_relative_path, Redaction is redact_assignments, Load is load_text with the cache, Files
--     is candidate_from_path, Scan is scan_cancellable and scan_chunked, Chunks is chunk_candidate and
--     symbol_candidate, Fetch is fetch, Symbols is scan_with_symbols.
--   Daemon: crates/ts-daemon/src/lib.rs. Terms is query_terms and query_path_hints, Baseline is
--     build_baseline_context, Registry is CapabilityRegistry, Service is RequestGate and ServiceGraph
--     with the threads of dispatch in Service/Threads, Connection is handle_connection and daemon_call.
--   Provider: crates/ts-provider/src/lib.rs. Circuit is CircuitBreaker and ManagedProcess::run.
--   Prelude: what the components share, with the operations of the Rust standard library that
--     they call (Result, sort_by, BTreeMap, to_be_bytes, the tests of u8 and str).
--   Tests: runs at concrete inputs, and every result at inputs that meet its hypotheses.
--
-- Conventions. A text, a path and a byte string are the bytes of their UTF-8, as numbers. An unsigned
-- integer is a number with the width's wrap-around or saturation written out; usize has 64
-- bits. A panic is none, and so is a call that never returns (a wait for a process that is not killed, a
-- read of a pipe that stays open). An allocation fails only above isize::MAX bytes: memory does not run
-- out. A BTreeMap is its entries in ascending order of the keys; a set of
-- candidates is the list of the pairs of an index and a candidate. Mutable local variables of
-- a loop are a record that the loop passes on. Parameters stand for what is not in the
-- repository: SHA-256 (crate sha2), a token counter (the trait TokenCounter), the JSON values
-- with their serializer and decoder (serde_json), the operating system's answers (files,
-- processes, clocks), the tables of Unicode (Prelude/Unicode), versions, times, keys and
-- signatures (Update's Libraries), the full-text index of SQLite (Memory/Store's FullText). An
-- SQL statement is the function on the rows of its table that the statement says; a call of SQLite
-- that fails is an argument, and leaves the table as it was, since each writing operation is one
-- transaction or one statement. Loops run over lists and need no fuel, with four exceptions. Each turn
-- of the loop of push_chunk takes a newline off its buffer, each turn of decode_relative_path a
-- byte, and each turn of chunk_candidate a line, so the lengths are enough.
-- wait_for_exit polls until a process ends: its loop runs on fuel, and one turn for each sleep that fits in
-- the timeout, and two more, are enough, since a turn begins at least one sleep after the one before.
--
-- Not modelled: the printing of errors and debug texts and the serde attributes; spawning and
-- killing processes, threads and pipes; the MCP session, the version probe and the response reader
-- of ts-provider, and the external compressors and memory providers that use them (ts-compress,
-- ts-memory) and the external graph provider (ts-repo); the start and the stop of the daemon's process,
-- its sockets, files and log (ts-daemon); the MCP server (ts-mcp), whose handlers turn JSON values into
-- calls of these components and back, and its ledger of tasks; the opening of databases and their
-- indexes; the command line (ts-cli) and the TypeScript packages, which parse arguments and print.
pub mod Prelude
pub mod Types
pub mod Router
pub mod Protocol
pub mod Exec
pub mod Provider
pub mod Compress
pub mod Memory
pub mod Telemetry
pub mod Update
pub mod Repo
pub mod Output
pub mod Context
mod Tests
pub mod Daemon
