-- ===== src/Scenarios/Hubs.antt =====
-- A ring with three events, and a window of rates.
use Prim.Native.Nat.{max}
use frond.Shared.{ℕ, String, ◌≡◌, refl, none, some, List, [], ◌∷◌, ◌++◌, length, take, ltb, arith}
use frond.Hub.Ring.{EncodedEventRecord, ReadOptions, EventRing, read, oldest_retained_sequence}
use frond.Hub.Ring.Search.{IsOrdered}
use frond.Hub.Ring.Reads.{
  push_all, empty_ring, Holds, push_all_lem, wanted, since_records, read_exact,
}
use frond.Hub.Rate.Ticks.{ticks, advance_rate-eq-ticks}
use frond.Hub.Rate.{IsWindow, advance_rate, empty_rate}

abbrev event : ℕ → String → EncodedEventRecord
event sequence tag = record {
  sequence = sequence;
  tag = tag;
  category = "graph";
  severity = "info";
  work_id = 1;
  node_ids = "todo:1" ∷ [];
  channel = none;
  name = none;
}

abbrev first_batch : List EncodedEventRecord
first_batch = event 4 "NodeReady" ∷ event 6 "NodeEvicted" ∷ []

abbrev second_batch : List EncodedEventRecord
second_batch = event 7 "NodeReady" ∷ []

push_all_example :
    Holds 100
      (first_batch ++ second_batch)
      (push_all (empty_ring 100) (first_batch ∷ second_batch ∷ []))
push_all_example = push_all_lem 100 (first_batch ∷ second_batch ∷ [])

abbrev ring : EventRing
ring = record { capacity = 100; records = first_batch ++ second_batch; evicted = 0 }

abbrev ready_after_4 : ReadOptions
ready_after_4 = record {
  since = some 4;
  limit = 1;
  tag = some "NodeReady";
  category = none;
  severity = none;
  work_id = none;
  node_id = none;
  channel = none;
  name = none;
}

ring-IsOrdered : IsOrdered ring.records
ring-IsOrdered = ground arith

read_exact_example :
    read ring ready_after_4
    ≡ some (record {
      records = take 1 (wanted ready_after_4 (since_records (some 4) ring.records));
      oldest_retained_sequence = oldest_retained_sequence ring;
      evicted_count = 0;
      has_more = ltb 1 (length (wanted ready_after_4 (since_records (some 4) ring.records)));
    })
read_exact_example = read_exact ring ready_after_4 ring-IsOrdered (omega arith)

empty_rate-IsWindow : IsWindow (empty_rate 5500)
unfolding empty_rate
empty_rate-IsWindow = record { full = refl; on_grid = refl }

advance_rate-eq-ticks_example : advance_rate (empty_rate 5500) 9000 ≡ record {
  buckets = ticks 4 (empty_rate 5500).buckets;
  bucket_at = max (empty_rate 5500).bucket_at 9000;
}
unfolding empty_rate
advance_rate-eq-ticks_example = advance_rate-eq-ticks (empty_rate 5500) 9000 empty_rate-IsWindow
