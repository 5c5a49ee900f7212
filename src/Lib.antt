-- ===== src/Lib.antt =====
-- rthas: Arthas-style runtime probes for Rust.
--
-- A program carries probes (rthas-macros), each of which opens a span on every call of its function
-- while it is enabled (rthas/src/span.rs, rthas/src/probe.rs). A span that ends becomes an event in
-- the process's bounded recorder (rthas/src/event.rs) and, where asked for, a fragment of the time
-- tunnel (rthas/src/tunnel.rs). An agent thread (rthas/src/agent.rs) reads commands from a socket;
-- `trace` follows the recorder by a cursor and puts call trees together from the events
-- (rthas/src/tree.rs); `enable` selects probes by patterns (rthas/src/probe.rs), and the output of a
-- command may run through `grep`, `tee` and `wc` (rthas/src/pipe.rs). Where a program has no probes,
-- rthas-ebpf attaches uprobes from outside and builds the call trees from their enter and exit
-- events (rthas-ebpf/src/tree.rs).
--
-- The files:
-- - Event, Event/Recorder: `Event`, `Recorder` of rthas/src/event.rs, in
--   Event/Recorder/Retention the laws of reading by a cursor;
-- - Values: `looks_like_err` and `EARLY_RETURN` of rthas/src/lib.rs;
-- - Probe: the flags of a `Probe` of rthas/src/probe.rs, and Probe/Registry its `Registry`;
-- - Span: `SpanGuard` of rthas/src/span.rs: `begin`, `finish`, `emit` and `drop` over the span
--   counter, the thread-locals CURRENT and DEPTH and the recorder, in one `State`; Span/Calls runs
--   whole call structures through them;
-- - Tunnel: `Tunnel` of rthas/src/tunnel.rs, by its operations in Tunnel/Store, and by its lookups
--   in Tunnel/Lookup;
-- - Tree: `Forest` of rthas/src/tree.rs, with `take` and `drain_roots` in Tree/Take; Tree/Adopt,
--   Tree/Rebuild and Tree/Collect put trees together again from their events;
-- - Glob: `glob_match` of rthas/src/probe.rs (and rthas-ebpf/src/glob.rs, the same text);
-- - Pipe: `split_pipeline` of rthas/src/pipe.rs; Pipe/Grep and Pipe/Tee are its stages `Grep` and
--   `parse_tee`, Pipe/Stage is `Stage` and `Pipeline`;
-- - Uprobes: `Forest` of rthas-ebpf/src/tree.rs: `enter` and `exit`;
-- - Base64: `encode` and `decode` of rthas/src/base64.rs; History: rthas/src/history.rs; Jobs:
--   the command lines and the table of rthas/src/jobs.rs;
-- - Agent: rthas/src/agent.rs: Agent/Args is `Args`, Agent/Scope is `ProbeScope`, Agent/Access has
--   the verbs of `dispatch_verb`, `auth` and the comparison of secrets, Agent/Access/Dispatch is
--   `dispatch`, `run_redirected`, `spawn_background`, `dispatch_piped`, `dispatch_verb` and
--   `handle_client`, Agent/Switches the arms that turn probes on and off or clear the
--   buffer, and Agent/Stats `Agg` and `aggregate_events`;
-- - Client: rthas-cli/src/main.rs: Client/Scan is `file_contains` and `contains`, Client/Target is
--   `rotate_target_flags` and `parse_target`;
-- - Profiler: rthas/src/profiler.rs: Profiler/Session is the session and the handler of the wall
--   clock, Profiler/Session/Machine the steps of `stop` among those of others, Profiler/Stacks the
--   filters, Profiler/CallTree is `Node`;
-- - Attached: Attached/Symbols is the selection of rthas-ebpf/src/symbols.rs, Attached/Sampling is
--   `collect_samples` and `ingest` of rthas-ebpf/src/server.rs and `RawEvent` of
--   rthas-ebpf/src/event.rs;
-- - Calendar: `civil_from_days` of rthas/src/time.rs (and of rthas-ebpf/src/stats.rs, the same text);
-- - Prelude: what they share: lists, association lists for hash maps, machine words, signed
--   integers, text;
-- - Samples: instances and tests.
--
-- Mutation is state passing: an operation takes the state and answers with the new one. A hash map
-- is an association list. A lock that is held during an operation of the source is left out; `stop`
-- of the profiler lets it go on its way, so Profiler/Session/Machine goes through it step by step,
-- with other connections in between. Counters of 64 and 32 bits wrap as they do in release builds
-- (`succ_u64`, `succ_u32`), and so do the `i64` of dates and of the tree of counts; theorems that
-- need it ask that they do not. Text is a list of code points, bytes are numbers.
--
-- Fuel: `take` recurses with one more than the number of nodes, `drain_roots` with the number of
-- roots to hand out: in Tree/Take/Totality both are shown to be enough for every forest. The
-- loop of `write` has as many rounds as there are bytes, and each round takes a line feed out; that
-- of `contains` in Client/Scan has one round more than there are bytes, and each round passes one. A
-- result that runs out of fuel is told apart from every other (`none`), but for `write` and
-- `contains`, where the refinement and the equivalence leave no room for it.
--
-- Inputs, and so parameters: clock readings, thread and task numbers, backtraces, files and reads
-- from them, the writer that commands write to, the reading of bytes as UTF-8, what pprof and the
-- timer of the system answer, the records that a ring buffer of the kernel gives.
--
-- A command that the agent dispatches is an effect, and so are the lines that it answers and the
-- files that it opens; an error of writing to the client ends the connection and has no state.
--
-- Not modelled: sockets and threads, the handlers of the agent but those named above, process and
-- thread statistics, the rendering of the job table, time formats, the collection of the probes by
-- the linker, macros (token trees), symbol tables and the eBPF loader, and renderings as tables.
pub mod Agent
pub mod Attached
pub mod Base64
pub mod Calendar
pub mod Client
pub mod Event
pub mod Glob
pub mod History
pub mod Jobs
pub mod Pipe
pub mod Prelude
pub mod Probe
pub mod Profiler
pub mod Samples
pub mod Span
pub mod Tree
pub mod Tunnel
pub mod Uprobes
pub mod Values
