-- ===== src/OtelTrace.antt =====
-- The viewer, tools/otel-trace.c: its arguments, its queries and its tree of spans.
pub mod Args
pub mod Listing
pub mod Query
pub mod Rows
pub mod Show
pub mod Tree
mod Tests
mod Views
