-- ===== src/Hub/Ring/Reads.antt =====
-- What the ring of apps/hub/src/retention.ts holds over a number of batches, and its reads.
use frond.Shared.{
  ℕ, zero, suc, ◌+◌, ◌-◌, ◌≤◌, ◌<◌, ◌≡◌, ◌⊎◌, refl, sym, ap, ◌∙◌, Option, none, some, List, [], ◌∷◌,
  ◌++◌, append_assoc, append-nil, arith, nat_eq, length, length-append, length-drop, ltb, take,
  drop, keep, Bool-cases, inl, inr,
}
use frond.Shared.Newest.{drop-append, drop-drop}
use frond.Hub.Ring.{
  EncodedEventRecord, ReadOptions, EventRing, trim_slack, two_32, push, size, matches, read_loop,
  read_start, read, oldest_retained_sequence,
}
use frond.Hub.Ring.Search.{IsOrdered, newer, index_after_exact}

-- The ring after a number of batches, the first of the list the first to come.
unfoldable pub push_all : EventRing → List (List EncodedEventRecord) → EventRing
unfolding push
push_all ring [] = ring
push_all ring (batch ∷ batches) = push_all (push ring batch) batches

abbrev pub empty_ring : ℕ → EventRing
empty_ring capacity = record { capacity = capacity; records = []; evicted = 0 }

abbrev pub pushed : List (List EncodedEventRecord) → List EncodedEventRecord
pushed [] = []
pushed (batch ∷ batches) = batch ++ pushed batches

-- What a ring is to hold of all the events that have come.
pub record Holds (capacity : ℕ) (history : List EncodedEventRecord) (ring : EventRing)
    : Type 0 where
  pub same_capacity : ring.capacity ≡ capacity
  pub rest : ring.records ≡ drop ring.evicted history
  pub counted : ring.evicted + size ring ≡ length history
  pub bounded : size ring ≤ capacity + trim_slack
  pub recent : (ring.evicted ≡ 0) ⊎ (capacity ≤ size ring)

push-Holds :
    (capacity : ℕ) (history batch : List EncodedEventRecord) (ring : EventRing)
    → Holds capacity history ring
    → Holds capacity (history ++ batch) (push ring batch)
unfolding push
push-Holds capacity history batch ring h =
    let joined : ring.records ++ batch ≡ drop ring.evicted (history ++ batch) =
      ap (λ l. l ++ batch) h.rest
      ∙ sym (drop-append ring.evicted history batch (omega (arith, h.counted))) in
    let excess = length (ring.records ++ batch) - ring.capacity in
    elim (Bool-cases (ltb (ring.capacity + trim_slack) (length (ring.records ++ batch)))) [
      | inl e ↦
          rw (e, push)
            (record {
              same_capacity = h.same_capacity;
              rest = ap (drop excess) joined ∙ drop-drop excess ring.evicted (history ++ batch);
              counted = ground (
                arith,
                e,
                h.counted,
                length-append history batch,
                length-append ring.records batch,
                length-drop excess (ring.records ++ batch),
              );
              bounded =
                  ground (arith, e, h.same_capacity, length-drop excess (ring.records ++ batch));
              recent =
                  inr (
                    ground (arith, e, h.same_capacity, length-drop excess (ring.records ++ batch)));
            })
      | inr e ↦
          rw (e, push)
            (record {
              same_capacity = h.same_capacity;
              rest = joined;
              counted =
                  omega (
                    arith,
                    h.counted,
                    length-append history batch,
                    length-append ring.records batch,
                  );
              bounded = ground (arith, e, h.same_capacity);
              recent = ground (arith, h.recent, length-append ring.records batch);
            })
    ]

push_all-Holds :
    (capacity : ℕ) (history : List EncodedEventRecord) (ring : EventRing)
    (batches : List (List EncodedEventRecord))
    → Holds capacity history ring
    → Holds capacity (history ++ pushed batches) (push_all ring batches)
unfolding push_all
push_all-Holds capacity history ring [] h = rw (append-nil history) h
push_all-Holds capacity history ring (batch ∷ batches) h =
    rw (← append_assoc history batch (pushed batches)) (
      push_all-Holds capacity (history ++ batch) (push ring batch) batches
        (push-Holds capacity history batch ring h))

-- However the events come in batches, the ring then holds the end of all of them, in order, and
-- counts those before it as evicted; it holds at most `trim_slack` more than its capacity, and has
-- evicted none as long as it holds less than its capacity.
pub push_all_lem :
    (capacity : ℕ) (batches : List (List EncodedEventRecord))
    → Holds capacity (pushed batches) (push_all (empty_ring capacity) batches)
push_all_lem capacity batches = push_all-Holds capacity [] (empty_ring capacity) batches (record {
  same_capacity = refl;
  rest = refl;
  counted = refl;
  bounded = omega arith;
  recent = inl refl;
})

-- What a read asks for.
abbrev pub wanted : ReadOptions → List EncodedEventRecord → List EncodedEventRecord
wanted options rs = keep (λ r. matches r options) rs

read_loop_lem :
    (rs : List EncodedEventRecord) (options : ReadOptions) (matched : List EncodedEventRecord)
    (room : ℕ)
    → length matched + room ≡ options.limit
    → ((read_loop rs options matched).0 ≡ matched ++ take room (wanted options rs))
      × ((read_loop rs options matched).1 ≡ ltb room (length (wanted options rs)))
unfolding read_loop
read_loop_lem [] options matched zero h = (sym (append-nil matched), ground arith)
read_loop_lem [] options matched (suc room) h = (sym (append-nil matched), ground arith)
read_loop_lem (r ∷ rs) options matched zero h = elim (Bool-cases (matches r options)) [
  | inr e ↦ rw (e, read_loop) (read_loop_lem rs options matched zero h)
  | inl e ↦ rw (e, read_loop) (ground (arith, h, append-nil matched))
]
read_loop_lem (r ∷ rs) options matched (suc room) h = elim (Bool-cases (matches r options)) [
  | inr e ↦ rw (e, read_loop) (read_loop_lem rs options matched (suc room) h)
  | inl e ↦
      rw (e, read_loop)
        (ground (
          arith,
          h,
          read_loop_lem rs options (matched ++ r ∷ []) room
              (omega (arith, h, length-append matched (r ∷ []))),
          append_assoc matched (r ∷ []) (take room (wanted options rs)),
        ))
]

-- The records of a ring that a read starts from.
abbrev pub since_records : Option ℕ → List EncodedEventRecord → List EncodedEventRecord
since_records none rs = rs
since_records (some since) rs = keep (newer since) rs

read_start_lem :
    (ring : EventRing) (since : Option ℕ)
    → IsOrdered ring.records
    → size ring + size ring < two_32
    → (start : ℕ) × (read_start ring since ≡ some start)
      × (drop start ring.records ≡ since_records since ring.records)
unfolding read_start
read_start_lem ring none o w = (0, refl, refl)
read_start_lem ring (some since) o w = index_after_exact ring.records since o w

-- A read of a ring that is ordered by sequence always ends. It gives the first `limit` records, in
-- order, of those that are newer than `since`, where it is given, and match the options, and says
-- that there is more exactly if more than `limit` do.
pub read_exact :
    (ring : EventRing) (options : ReadOptions)
    → IsOrdered ring.records
    → size ring + size ring < two_32
    → let found = wanted options (since_records options.since ring.records) in
      read ring options
      ≡ some (record {
        records = take options.limit found;
        oldest_retained_sequence = oldest_retained_sequence ring;
        evicted_count = ring.evicted;
        has_more = ltb options.limit (length found);
      })
unfolding read
read_exact ring options o w =
    let (start, found, from) = read_start_lem ring options.since o w in
    let loop = read_loop_lem (drop start ring.records) options [] options.limit (omega arith) in
    ground (arith, found, from, loop)
