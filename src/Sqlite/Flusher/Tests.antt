-- ===== src/Sqlite/Flusher/Tests.antt =====
-- A close that meets the flusher in its wait.
use oteltracing_c.Base.{◌≡◌, ◌≤◌, ◌⊎◌, refl, true, false, some, List, [], ◌∷◌}
use oteltracing_c.Base.Text.{codes}
use oteltracing_c.Tracer.Drain.{SinkCall, begin, span, end}
use oteltracing_c.Span.Tests.{event_span}
use oteltracing_c.Sqlite.Lite.{lite}
use oteltracing_c.Sqlite.Open.{World, zeroed, stop_thread, drain_into}
use oteltracing_c.Sqlite.Flusher.{
  nobody, of_closer, locking, waiting, joining, locked, returned, joined, Shared, Step, clear, lock,
  wait, wake, unlock, drain, close_lock, close_clear, close_signal, close_unlock, stay, more,
}
use oteltracing_c.Sqlite.Flusher.Measure.{drain_all}
use oteltracing_c.Sqlite.Flusher.Joins.{close-Joins}

-- a store with a flusher, over a database with no rows
abbrev with_thread : World lite
with_thread = record {
  s = record (zeroed lite) {
    db = some (record {
      tables = record { spans = []; attrs = []; events = []; event_attrs = [] };
      saved = record { spans = []; attrs = []; events = []; event_attrs = [] };
      last = 0;
      busy = false;
      locked = false;
    });
    running = true;
    have_thread = true;
    interval_ms = 250;
    sink = true;
  };
  switches = record {
    initialized = true;
    transport_present = false;
    sink_present = true;
    runtime_on = true;
    enabled = true;
  };
  attached = true;
  service = codes "shop";
  opened = 1;
  closed = [];
  statements = 4;
}

-- The flusher waits, and the close has the lock.
abbrev met : Shared lite
met = record { world = with_thread; lock = of_closer; flusher = waiting; closer = locked }

abbrev calls : List SinkCall
calls = begin ∷ span event_span ∷ end ∷ []

-- The close waits for the thread, which woke up and did a drain.
abbrev woke : Shared lite
woke = record {
  world = drain_into lite (clear lite with_thread) calls;
  lock = nobody;
  flusher = locking;
  closer = joining;
}

close-Joins_example :
    6 ≤ 10
    × (((u' : Shared lite) × Step lite woke u')
        ⊎ ((woke.closer ≡ joined)
            × (woke.flusher ≡ returned)
            × (drains : List (List SinkCall)) × (woke.world
                ≡ stop_thread lite (drain_all lite with_thread drains))))
close-Joins_example =
    close-Joins lite with_thread refl refl 3 6 met woke
      (more (more (more stay (lock refl refl)) (wait refl refl)) (close_lock refl refl refl)) refl
      (more
        (more
          (more (more (more (more stay (close_clear refl)) (close_signal refl)) (close_unlock refl))
            (wake refl refl))
          (unlock refl))
        (drain calls refl))
