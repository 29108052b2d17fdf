-- ===== src/Lib.antt =====
-- oteltracing-c: a verification library of the tracer.
--
-- A program embeds a `struct otel_span`, starts it, annotates it and ends it; the span is copied
-- by value into the ring of its thread, and a drain encodes it into a reused OTLP batch that is
-- handed to a transport, and gives it to a span sink, which may be the SQLite store. The files
-- follow that path.
--
--   Base: numbers, Booleans, lists and C strings that the other files share; Base/Int has
--     `int64_t` and `int`, Base/Double the 64 bits of a `double`.
--   Span: `struct otel_span`, `struct otel_attr`, `struct otel_event` of oteltracing.h. The
--     arena maps the offset at which an allocation starts to the string or record that was
--     stored there; offsets, sizes and rounding are those of the C code.
--   Span/Arena: `otel_arena_alloc`, `otel_arena_putn`, `otel_arena_put`. Span/Arena/Alloc says
--     what an allocation gives.
--   Span/Attrs: `otel_span_set_name`, `otel_span_set_status`, `otel_span_attr_*` of
--     oteltracing.h.
--   Span/Events: `otel_span_event`, `otel_event_attr_*` of oteltracing.h, `otel_span_event_`
--     of oteltracing.c.
--   Span/View: the abstract content of a span (name, message, attributes, events with their
--     attributes) and the predicate `IsSpan own s m`, that the span s holds the content m: all
--     its lists are linked in the order of their offsets, end at their tails, do not share
--     records, and lie in the used part of the arena. The children carry it over the stores
--     that the operations make.
--   Span/Chain, Span/Memory: linked lists in the arena, and stores into it.
--   Span/Read: the accessors of oteltracing.h as walks over the lists.
--   Span/Start: `otel_span_init`, `otel_span_start_root_`, `_child_`, `_remote_` of
--     oteltracing.c and their wrappers.
--   Otlp: `otlp_kind`, `otlp_add_attr`, `otlp_add_span`, `otlp_flush` of oteltracing.c. The
--     batch borrows pointers into ring slots; `pending` follows them.
--   Tracer: the switches of oteltracing.c, which `otel_init`, `otel_shutdown`,
--     `otel_set_transport`, `otel_set_span_sink` and `otel_set_enabled` set. Tracer/Sampler:
--     `otel_set_sampler`, of the bits of its ratio. Tracer/Capacity: `otel_set_ring_capacity`.
--   Tracer/Ring: the ring of a thread, `otel_span_end_`, `otel_thread_register`, and the loop
--     of `otel_drain_ctx`; Tracer/Ring/Threads has their interleavings as a step relation.
--   Tracer/Init: `otel_init`, with what the machine gives as an argument. Tracer/Packed: the
--     sizes of packed messages, a parameter, and what the buffer has room for;
--     Tracer/Drain/Fits carries that over a drain.
--   Tracer/Registry: the contexts of all threads, by address, the list `OT.threads` and
--     `otel_tls`: `otel_thread_register`, `otel_thread_unregister`, `otel_span_end`,
--     `otel_drain` and `otel_shutdown` on them, where an access to a freed context has no
--     result. Its children follow any sequence of calls.
--   Tracer/Drain: `otel_emit_span`, `otel_drain_ctx`, `otel_drain`, over the batch and a span
--     sink.
--   Sqlite: the span store of otel_sqlite.c over a parameter for SQLite. Sqlite/Hex:
--     `otel_sqlite_hex`. Sqlite/Sink: `otel_sqlite_insert_attr`, `otel_sqlite_begin`,
--     `otel_sqlite_span`, `otel_sqlite_prune`, `otel_sqlite_end`; its children say what the
--     calls do to the tables. Sqlite/Tables: the tables of otel_sqlite_schema.h, the effect of
--     the statements, and what is relied on, where `contents` is what a connection reads and
--     `saved` what is left when it is closed. Sqlite/Schema: the texts given to SQLite.
--     Sqlite/Open: `otel_sqlite_open`, `otel_sqlite_close`, `otel_sqlite_set_max_spans` on
--     `S`, the switches of the tracer and the handles. Sqlite/Flusher: `otel_sqlite_flusher`
--     next to the part of `otel_sqlite_close` that stops it, as steps on the lock, the flag
--     and `S`. Sqlite/Lite: a small database for the examples.
--   OtelTrace: the viewer, tools/otel-trace.c. OtelTrace/Args: the loop of `main` over its
--     arguments, and the command that it selects; `strtoll`, `atoi` and `db_open` are
--     parameters. OtelTrace/Query: `append_filters`, `bind_filters`, and the texts of
--     `cmd_list` and `cmd_spans`. OtelTrace/Tree: `print_subtree`, which lines it prints for
--     the nodes of a trace. OtelTrace/Rows: the text of attributes, events and durations;
--     OtelTrace/Show: `cmd_show`, with what it loads and prints; OtelTrace/Listing: the tables
--     of `cmd_list`, `cmd_spans` and `cmd_stats`, and `cmd_sql`.
--   Random: `otel_random_next` of otel_random.h. Platform: the big-endian words of
--     otel_platform.h.
--   Span/Tests, Otlp/Tests, Tracer/Tests, Sqlite/Tests, OtelTrace/Tests, OtelTrace/Views,
--     Tests: concrete spans and batches, and runs of the operations on them.
--
-- Bounds: every record takes 16 bytes of the arena or more and every attribute 24 with its key, so
-- a span holds at most 167 records; the walks have fuel 256 and the 8-bit and 16-bit counters do
-- not wrap. The walk over a ring has the capacity and one as its fuel; the doubling of a capacity
-- ends within 32 rounds up to 2^31 spans. A size is below 2^62, which keeps the rounding of a
-- `size_t` from wrapping. The count that a drain returns is an `int` of 32 bits; it is the number
-- of spans below 2^31 of them. `cmd_show` has at most 2^30 rows, so that its `int cap` does not
-- overflow. A cutoff of a prune has at most 19 digits, and its text fits the buffer of 512 bytes.
-- `print_subtree` has fuel for one call below another for each node and one more.
--
-- Not modelled: the packing of protobuf-c and the transport are outside the repository, so a
-- request is the list of span messages that the batch leads to. Time is an argument of the
-- operations. Locks are outside too: what they promise is in the guards of Sqlite/Flusher; a drain
-- of all rings is one step of Tracer/Drain, and Tracer/Ring/Threads has the steps on one ring.
-- SQLite is outside: the record Sqlite has the calls that the sink makes, Stores their documented
-- behaviour, without the errors on which SQLite rolls a whole transaction back. The products of
-- seconds and microseconds in `bind_filters` have no bound here. Only the sizes of packed messages
-- matter to Tracer/Packed: the records Wire and IsWire have them with the bounds of the wire
-- format. Each call of Tracer/Registry is one step. The two calls of `calloc` in
-- `otel_thread_register`, and `strdup` in the viewer, are taken to succeed; the code does not look
-- at what they return. The buffer and the locks that shutdown frees, the ticks of the stopwatch,
-- and what the viewer writes to standard error are not modelled.
pub mod Base
pub mod OtelTrace
pub mod Otlp
pub mod Platform
pub mod Random
pub mod Span
pub mod Sqlite
pub mod Tests
pub mod Tracer
