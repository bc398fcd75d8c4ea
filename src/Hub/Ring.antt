-- ===== src/Hub/Ring.antt =====
-- EventRing and matches of apps/hub/src/retention.ts: the events that the hub keeps for one
-- attachment, and the binary search that a read starts with. The fields of a record that a read
-- looks at are those below. The `while` loop runs on fuel, and `none` says that it ran out. `>>>` works on 32 bits, which is written out.
pub mod Search
pub mod Reads
use frond.Shared.{
  ℕ, zero, suc, ◌+◌, ◌-◌, ◌/◌, ◌%◌, String, ◌≡◌, Bool, true, false, not, ◌&&◌, Option, none, some,
  List, [], ◌∷◌, ◌++◌, if◌then◌else◌, ◌==◌, string_eq, nat_eq, has, length, ltb, leb, drop,
  get_elem?,
}

pub record EncodedEventRecord : Type 0 where
  pub sequence : ℕ
  pub tag : String
  pub category : String
  pub severity : String
  pub work_id : ℕ
  pub node_ids : List String
  pub channel : Option String
  pub name : Option String

abbrev pub retained_per_attachment : ℕ
retained_per_attachment = 10000

abbrev pub trim_slack : ℕ
trim_slack = 512

pub record EventWindow : Type 0 where
  pub records : List EncodedEventRecord
  pub oldest_retained_sequence : Option ℕ
  pub evicted_count : ℕ
  pub has_more : Bool

pub record ReadOptions : Type 0 where
  pub since : Option ℕ
  pub limit : ℕ
  pub tag : Option String
  pub category : Option String
  pub severity : Option String
  pub work_id : Option ℕ
  pub node_id : Option String
  pub channel : Option String
  pub name : Option String

pub record EventRing : Type 0 where
  pub capacity : ℕ
  pub records : List EncodedEventRecord
  pub evicted : ℕ

unfoldable pub push : EventRing → List EncodedEventRecord → EventRing
push ring batch =
    let records = ring.records ++ batch in
    let excess = length records - ring.capacity in
    if ltb (ring.capacity + trim_slack) (length records)
    then record ring { records = drop excess records; evicted = ring.evicted + excess }
    else record ring { records = records }

abbrev pub size : EventRing → ℕ
size ring = length ring.records

sequence_of : Option EncodedEventRecord → Option ℕ
sequence_of none = none
sequence_of (some r) = some r.sequence

unfoldable pub oldest_retained_sequence : EventRing → Option ℕ
unfolding sequence_of
oldest_retained_sequence ring = sequence_of (get_elem? ring.records 0)

unfoldable pub newest_sequence : EventRing → Option ℕ
unfolding sequence_of
newest_sequence ring = elim ring.records [
  | [] ↦ none
  | r ∷ rs ↦ sequence_of (get_elem? ring.records (length ring.records - 1))
]

-- `option !== undefined && field !== option` fails the match.
agrees : Option String → String → Bool
agrees none field = true
agrees (some option) field = field == option

-- The same for a field that may be missing.
agrees_optional : Option String → Option String → Bool
agrees_optional none field = true
agrees_optional (some option) none = false
agrees_optional (some option) (some field) = field == option

agrees_work : Option ℕ → ℕ → Bool
agrees_work none field = true
agrees_work (some option) field = field == option

includes : Option String → List String → Bool
unfolding has
includes none fields = true
includes (some option) fields = has option fields

unfoldable pub matches : EncodedEventRecord → ReadOptions → Bool
unfolding agrees agrees_optional agrees_work includes
matches r options =
    if not (agrees options.tag r.tag)
    then false
    else if not (agrees options.category r.category)
    then false
    else if not (agrees options.severity r.severity)
    then false
    else if not (agrees_work options.work_id r.work_id)
    then false
    else if not (includes options.node_id r.node_ids)
    then false
    else if not (agrees_optional options.channel r.channel)
    then false
    else agrees_optional options.name r.name

-- `record !== undefined && record.sequence <= since`.
abbrev pub at_most : ℕ → List EncodedEventRecord → ℕ → Bool
at_most since records index = elim (get_elem? records index) [
  | none ↦ false
  | some r ↦ leb r.sequence since
]

abbrev pub two_32 : ℕ
two_32 = 4294967296

-- `(low + high) >>> 1`.
abbrev pub middle : ℕ → ℕ → ℕ
middle low high = ((low + high) % two_32) / 2

pub index_loop : ℕ → List EncodedEventRecord → ℕ → ℕ → ℕ → Option ℕ
index_loop zero records since low high = none
index_loop (suc fuel) records since low high =
    let upper = index_loop fuel records since (middle low high + 1) high in
    let lower = index_loop fuel records since low (middle low high) in
    if ltb low high
    then (if at_most since records (middle low high) then upper else lower)
    else some low

-- Every round makes the interval smaller.
unfoldable pub index_after : List EncodedEventRecord → ℕ → Option ℕ
unfolding index_loop
index_after records since = index_loop (suc (length records)) records since 0 (length records)

-- The `for` loop over the records from `start` on: what matched, and whether there is more.
pub read_loop :
    List EncodedEventRecord → ReadOptions → List EncodedEventRecord → List EncodedEventRecord × Bool
unfolding matches
read_loop [] options matched = (matched, false)
read_loop (r ∷ rs) options matched =
    let skipped = read_loop rs options matched in
    let pushed = read_loop rs options (matched ++ r ∷ []) in
    if not (matches r options)
    then skipped
    else if length matched == options.limit
    then (matched, true)
    else pushed

pub read_start : EventRing → Option ℕ → Option ℕ
unfolding index_after
read_start ring none = some 0
read_start ring (some since) = index_after ring.records since

unfoldable pub read : EventRing → ReadOptions → Option EventWindow
unfolding read_loop read_start
read ring options = elim (read_start ring options.since) [
  | none ↦ none
  | some start ↦
      let (matched, has_more) = read_loop (drop start ring.records) options [] in
      some (record {
        records = matched;
        oldest_retained_sequence = oldest_retained_sequence ring;
        evicted_count = ring.evicted;
        has_more = has_more;
      })
]
