-- ===== src/Controller/Activity/View.antt =====
-- The ring against a plain history: `List` shows the newest events, newest first.
use ice_hive.Prelude.{
  ℕ, zero, suc, ◌+◌, ◌-◌, ◌≤◌, ◌<◌, min, ◌≡◌, refl, sym, ap, ap₂, ◌∙◌, List, [], ◌∷◌, arith, length,
  get_or, take, take-take, length-take,
}
use ice_hive.Prelude.Int.{ℤ}
use ice_hive.Controller.Activity.{
  Event, Ring, blank, max_list_limit, ring_of, new_ring, append_locked, record_event, stamp,
  next_seq, filled_count, slot, read_slots, list_events, clamp_list_limit,
}
use ice_hive.Controller.Activity.Slots.{
  IsValid, new_ring-IsValid, append_locked-IsValid, view, view-append, newest_slice_lem,
  length-read_slots, filled_count-le,
}

-- `Record` for one event after another, each with the clock's time.
unfoldable pub record_all : Ring → List (ℤ × Event) → Ring
record_all r [] = r
record_all r ((now, e) ∷ es) = record_all (record_event now r e) es

-- The events as they are kept, oldest first, when `seq` numbers have been given out.
unfoldable pub stamped : ℕ → List (ℤ × Event) → List Event
stamped seq [] = []
stamped seq ((now, e) ∷ es) = let seq' = next_seq seq e in stamp now seq' e ∷ stamped seq' es

-- The newest of a history that is given oldest first, before those of an older one.
abbrev pub newest_first : List Event → List Event → List Event
newest_first [] old = old
newest_first (e ∷ es) old = newest_first es (e ∷ old)

take-cons : (c : ℕ) (e : Event) (es : List Event) → 0 < c → take c (e ∷ es) ≡ e ∷ take (c - 1) es
take-cons zero e es h = absurd (omega arith)
take-cons (suc n) e es h = ap (λ k. e ∷ take k es) (omega arith)

-- The content does not depend on the counter of ids.
read_slots-seq :
    (r : Ring) (seq i n : ℕ) → read_slots (record r { seq = seq }) i n ≡ read_slots r i n
unfolding read_slots slot
read_slots-seq r seq i zero = refl
read_slots-seq r seq i (suc n) =
    ap (◌∷◌ (get_or r.buf (slot r i) blank)) (read_slots-seq r seq (i + 1) n)

record_event-IsValid : (now : ℤ) (r : Ring) (e : Event) → IsValid r → IsValid (record_event now r e)
unfolding record_event
record_event-IsValid now r e v =
    append_locked-IsValid _ _
      (record { storage = v.storage; some_room = v.some_room; next_in = v.next_in })

cap-record_event : (now : ℤ) (r : Ring) (e : Event) → (record_event now r e).cap ≡ r.cap
unfolding record_event append_locked
cap-record_event now r e = refl

seq-record_event : (now : ℤ) (r : Ring) (e : Event) → (record_event now r e).seq ≡ next_seq r.seq e
unfolding record_event append_locked
seq-record_event now r e = refl

pub view-record_event :
    (now : ℤ) (r : Ring) (e : Event)
    → IsValid r
    → view (record_event now r e) ≡ stamp now (next_seq r.seq e) e ∷ take (r.cap - 1) (view r)
unfolding record_event
view-record_event now r e v =
    view-append (record r { seq = next_seq r.seq e }) _
      (record { storage = v.storage; some_room = v.some_room; next_in = v.next_in })
    ∙ ap (λ es. stamp now (next_seq r.seq e) e ∷ take (r.cap - 1) es)
        (unfold view in
          unfold filled_count in read_slots-seq r (next_seq r.seq e) 0 (filled_count r))

view-record_all :
    (es : List (ℤ × Event)) (r : Ring) (old : List Event)
    → IsValid r
    → view r ≡ take r.cap old
    → view (record_all r es) ≡ take r.cap (newest_first (stamped r.seq es) old)
unfolding record_all stamped
view-record_all [] r old v h = h
view-record_all ((now, e) ∷ es) r old v h =
    view-record_all es (record_event now r e) (stamp now (next_seq r.seq e) e ∷ old)
      (record_event-IsValid now r e v) kept
    ∙ ap₂ (λ c seq. take c (newest_first (stamped seq es) (stamp now (next_seq r.seq e) e ∷ old)))
        (cap-record_event now r e) (seq-record_event now r e)
  where
    kept :
        view (record_event now r e)
        ≡ take (record_event now r e).cap (stamp now (next_seq r.seq e) e ∷ old)
    kept =
        view-record_event now r e v
        ∙ ap (λ l. stamp now (next_seq r.seq e) e ∷ take (r.cap - 1) l) h
        ∙ ap (◌∷◌ (stamp now (next_seq r.seq e) e)) (take-take (r.cap - 1) r.cap old (omega arith))
        ∙ sym (take-cons r.cap (stamp now (next_seq r.seq e) e) old v.some_room)
        ∙ ap (λ c. take c (stamp now (next_seq r.seq e) e ∷ old)) (sym (cap-record_event now r e))

view-new_ring : (capacity : ℤ) → view (new_ring capacity) ≡ []
unfolding view filled_count new_ring ring_of read_slots
view-new_ring capacity = refl

seq-new_ring : (capacity : ℤ) → (new_ring capacity).seq ≡ 0
unfolding new_ring ring_of
seq-new_ring capacity = refl

take-nil : (n : ℕ) → take {A = Event} n [] ≡ []
take-nil zero = refl
take-nil (suc n) = refl

-- After any events were recorded in a new ring, `List` returns the newest of them, newest first: as
-- many as the clamped limit and the capacity allow, each with the id and the time it was given.
pub list_events-record_all :
    (capacity limit : ℤ) (es : List (ℤ × Event))
    → list_events (record_all (new_ring capacity) es) limit
      ≡ take
          (clamp_list_limit limit)
          (take (new_ring capacity).cap (newest_first (stamped 0 es) []))
unfolding list_events
list_events-record_all capacity limit es =
    newest_slice_lem (record_all (new_ring capacity) es) (clamp_list_limit limit)
    ∙ ap (take (clamp_list_limit limit)) (
        view-record_all es (new_ring capacity) [] (new_ring-IsValid capacity)
          (view-new_ring capacity ∙ sym (take-nil (new_ring capacity).cap))
        ∙ ap (λ seq. take (new_ring capacity).cap (newest_first (stamped seq es) []))
            (seq-new_ring capacity))

clamp_list_limit-le : (limit : ℤ) → clamp_list_limit limit ≤ max_list_limit
unfolding clamp_list_limit
clamp_list_limit-le limit = ground arith

length-view : (r : Ring) → length (view r) ≡ filled_count r
unfolding view
length-view r = length-read_slots r 0 (filled_count r)

-- `List` of a valid ring returns exactly the smaller of the clamped limit and the number of events
-- held, so never more than 100 and never more than the capacity.
pub length-list_events :
    (r : Ring) (limit : ℤ)
    → IsValid r
    → (length (list_events r limit) ≡ min (clamp_list_limit limit) (filled_count r))
      × (length (list_events r limit) ≤ max_list_limit)
      × (length (list_events r limit) ≤ r.cap)
unfolding list_events
length-list_events r limit v = omega (
  arith,
  ap length (newest_slice_lem r (clamp_list_limit limit)),
  length-take (clamp_list_limit limit) (view r),
  length-view r,
  filled_count-le r v,
  clamp_list_limit-le limit,
)
