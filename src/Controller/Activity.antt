-- ===== src/Controller/Activity.antt =====
-- services/controller/internal/activity/ring.go: the ring of recent events. A method returns the
-- new ring beside its result; `now` is what the clock says when the method asks for it.
pub mod Slots
pub mod View
pub mod Ids
pub mod Throttle
pub mod Runs
mod Tests
use ice_hive.Prelude.{
  ℕ, zero, suc, ◌+◌, ◌-◌, ◌%◌, ◌^◌, Bool, true, false, not, ◌&&◌, ◌||◌, List, [], ◌∷◌, ◌++◌, Option,
  none, some, ltb, leb, ◌==◌, if◌then◌else◌, length, take, get_or, set, replicate,
}
use ice_hive.Prelude.Int.{ℤ, pos, negsuc, pos_part, neg_part, ◌-ℤ◌, ltb_ℤ, leb_ℤ}
use ice_hive.Text.{Bytes, codes, is_nil, str_eq, trim_space}
use ice_hive.Text.Decimal.{decimal}
use ice_hive.Dict.{Dict, lookup, insert}

abbrev pub heartbeat_received : Bytes
heartbeat_received = codes "heartbeat_received"

abbrev pub collection_enqueued : Bytes
collection_enqueued = codes "collection_enqueued"

abbrev pub collection_run : Bytes
collection_run = codes "collection_run"

abbrev pub default_capacity : ℕ
default_capacity = 200

abbrev pub default_list_limit : ℕ
default_list_limit = 50

abbrev pub max_list_limit : ℕ
max_list_limit = 100

pub record Event : Type 0 where
  pub success : Option Bool
  pub id : Bytes
  pub kind : Bytes
  pub summary : Bytes
  pub service_name : Bytes
  pub collector_type : Bytes
  pub source_id : Bytes
  pub unix_ms : ℤ

-- Go's zero value.
abbrev pub blank : Event
blank = record {
  success = none;
  id = [];
  kind = [];
  summary = [];
  service_name = [];
  collector_type = [];
  source_id = [];
  unix_ms = pos 0;
}

-- `hb_min_gap` is in milliseconds; `seq` is an unsigned word of 64 bits.
pub record Ring : Type 0 where
  pub last_hb : Dict ℤ
  pub buf : List Event
  pub hb_min_gap : ℕ
  pub seq : ℕ
  pub cap : ℕ
  pub next : ℕ
  pub full : Bool

ring_of : ℕ → Ring
ring_of capacity = record {
  last_hb = [];
  buf = replicate capacity blank;
  hb_min_gap = 10000;
  seq = 0;
  cap = capacity;
  next = 0;
  full = false;
}

unfoldable pub new_ring : ℤ → Ring
unfolding ring_of
new_ring capacity = ring_of (if ltb_ℤ capacity (pos 1) then default_capacity else pos_part capacity)

unfoldable pub append_locked : Ring → Event → Ring
append_locked r e =
    let next' = (r.next + 1) % r.cap in
    record r { buf = set r.buf r.next e; next = next'; full = (next' == 0) || r.full }

-- What `Record` fills in: the time when it is not positive, and the id when it is empty.
unfoldable pub stamp : ℤ → ℕ → Event → Event
stamp now seq e = record e {
  unix_ms = if leb_ℤ e.unix_ms (pos 0) then now else e.unix_ms;
  id = if is_nil e.id then decimal seq else e.id;
}

unfoldable pub next_seq : ℕ → Event → ℕ
next_seq seq e = if is_nil e.id then (seq + 1) % 2 ^ 64 else seq

-- `Record`
unfoldable pub record_event : ℤ → Ring → Event → Ring
record_event now r e =
    let seq' = next_seq r.seq e in append_locked (record r { seq = seq' }) (stamp now seq' e)

-- The heartbeat is due: there is none before it, or the last one is old enough.
is_due : ℕ → Option ℤ → ℤ → Bool
is_due gap none unix_ms = true
is_due gap (some last) unix_ms = not (ltb_ℤ (unix_ms -ℤ last) (pos gap))

unfoldable pub accept_heartbeat : Ring → Bytes → ℤ → Ring × Bool
unfolding is_due
accept_heartbeat r service_name unix_ms =
    if is_due r.hb_min_gap (lookup service_name r.last_hb) unix_ms
    then (record r { last_hb = insert service_name unix_ms r.last_hb }, true)
    else (r, false)

heartbeat_summary : Bytes → Bytes → Bytes
heartbeat_summary service_name version =
    let v = trim_space version in
    if is_nil v
    then codes "Heartbeat from " ++ service_name
    else codes "Heartbeat from " ++ service_name ++ codes " (" ++ v ++ codes ")"

unfoldable pub unix_ms_or_now : ℤ → ℤ → ℤ
unix_ms_or_now now unix_ms = if leb_ℤ unix_ms (pos 0) then now else unix_ms

heartbeat_event : Bytes → Bytes → ℤ → Event
unfolding heartbeat_summary
heartbeat_event service_name version ms = record blank {
  unix_ms = ms;
  kind = heartbeat_received;
  summary = heartbeat_summary service_name version;
  service_name = service_name;
}

-- `RecordHeartbeat`; the clock is read once for the heartbeat and once by `Record`.
unfoldable pub record_heartbeat : ℤ → ℤ → Ring → Bytes → Bytes → ℤ → Ring
unfolding heartbeat_event
record_heartbeat now later r name version unix_ms =
    let service_name = trim_space name in
    let ms = unix_ms_or_now now unix_ms in
    let (r', accepted) = accept_heartbeat r service_name ms in
    if is_nil service_name
    then r
    else if not accepted
    then r'
    else record_event later r' (heartbeat_event service_name version ms)

-- The arrow of the text, in UTF-8.
abbrev arrow : Bytes
arrow = 0xe2 ∷ 0x86 ∷ 0x92 ∷ []

abbrev ellipsis : Bytes
ellipsis = 0xe2 ∷ 0x80 ∷ 0xa6 ∷ []

enqueue_summary : Bytes → Bytes → Bytes
enqueue_summary collector_type label =
    if not (is_nil collector_type) && not (str_eq label collector_type)
    then codes "Published collection request "
      ++ arrow
      ++ codes " "
      ++ collector_type
      ++ codes " ("
      ++ label
      ++ codes ")"
    else codes "Published collection request for " ++ label

unfoldable pub enqueue_label : Bytes → Bytes → Bytes → Bytes
enqueue_label collector_type source_id source_spec =
    if not (is_nil source_spec)
    then source_spec
    else if not (is_nil source_id)
    then source_id
    else collector_type

enqueued_event : Bytes → Bytes → Bytes → Event
unfolding enqueue_summary enqueue_label
enqueued_event collector_type source_id source_spec = record blank {
  kind = collection_enqueued;
  summary = enqueue_summary collector_type (enqueue_label collector_type source_id source_spec);
  collector_type = collector_type;
  source_id = source_id;
}

-- `RecordCollectionEnqueued`
unfoldable pub record_enqueued : ℤ → Ring → Bytes → Bytes → Bytes → Ring
unfolding enqueued_event
record_enqueued now r collector_type source_id source_spec =
    record_event now r
      (enqueued_event (trim_space collector_type) (trim_space source_id) (trim_space source_spec))

unfoldable pub truncate_err : Bytes → Bytes
truncate_err err_msg =
    let e = trim_space err_msg in if ltb 80 (length e) then take 80 e ++ ellipsis else e

run_summary : Bytes → Bytes → Bytes → Bool → Bytes
unfolding truncate_err
run_summary source_id collector_type err_msg success =
    let e = truncate_err err_msg in
    let failed = codes "Collection run failed for " ++ source_id in
    let summary =
      if success
      then codes "Collection run ok for " ++ source_id
      else if is_nil e
      then failed
      else failed ++ codes ": " ++ e in
    if is_nil collector_type then summary else summary ++ codes " [" ++ collector_type ++ codes "]"

run_event : Bytes → Bytes → Bool → Bytes → Event
unfolding run_summary
run_event source_id collector_type success err_msg = record blank {
  kind = collection_run;
  summary = run_summary source_id collector_type err_msg success;
  collector_type = collector_type;
  source_id = source_id;
  success = some success;
}

-- `RecordCollectionRun`
unfoldable pub record_run : ℤ → Ring → Bytes → Bytes → Bool → Bytes → Ring
unfolding run_event
record_run now r source_id collector_type success err_msg =
    record_event now r
      (run_event (trim_space source_id) (trim_space collector_type) success err_msg)

unfoldable pub clamp_list_limit : ℤ → ℕ
clamp_list_limit limit =
    if leb_ℤ limit (pos 0)
    then default_list_limit
    else if ltb_ℤ (pos max_list_limit) limit
    then max_list_limit
    else pos_part limit

unfoldable pub filled_count : Ring → ℕ
filled_count r = if r.full then r.cap else r.next

-- `(r.next - 1 - i + r.cap) % r.cap`; with `i < r.cap` the sum is never negative.
unfoldable pub slot : Ring → ℕ → ℕ
slot r i = (r.next + r.cap - 1 - i) % r.cap

-- The loop's rounds from `i` on, as many as the second number says.
unfoldable pub read_slots : Ring → ℕ → ℕ → List Event
read_slots r i zero = []
read_slots r i (suc n) = get_or r.buf (slot r i) blank ∷ read_slots r (i + 1) n

unfoldable pub newest_slice : Ring → ℕ → List Event
newest_slice r limit = let n = filled_count r in read_slots r 0 (if ltb n limit then n else limit)

-- `List`
unfoldable pub list_events : Ring → ℤ → List Event
list_events r limit = newest_slice r (clamp_list_limit limit)
