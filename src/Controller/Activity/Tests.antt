-- ===== src/Controller/Activity/Tests.antt =====
-- The ring at concrete events.
use ice_hive.Prelude.{◌≤◌, min, ◌≡◌, refl, List, [], ◌∷◌, none, arith, length, take, map}
use ice_hive.Prelude.Int.{ℤ, pos, ◌-ℤ◌}
use ice_hive.Text.{Bytes, codes, str_eq}
use ice_hive.Dict.{lookup, insert}
use ice_hive.Controller.Activity.{
  Event, blank, new_ring, append_locked, stamp, next_seq, record_event, accept_heartbeat,
  clamp_list_limit, filled_count, slot, read_slots, newest_slice, list_events, max_list_limit,
}
use ice_hive.Controller.Activity.Slots.{new_ring-IsValid}
use ice_hive.Controller.Activity.View.{
  record_all, stamped, newest_first, list_events-record_all, length-list_events,
}
use ice_hive.Controller.Activity.Ids.{DistinctIds, stamped-DistinctIds}
use ice_hive.Controller.Activity.Throttle.{Spaced, accepted, accepted-Spaced}

abbrev event : Bytes → Event
event s = record blank { summary = s }

abbrev three : List (ℤ × Event)
three = (pos 5, event (codes "a")) ∷ (pos 6, event (codes "b")) ∷ (pos 7, event (codes "c")) ∷ []

-- Two of three events fit, and the newest stands first.
two_left :
    map (λ e. e.summary) (list_events (record_all (new_ring (pos 2)) three) (pos 9))
    ≡ codes "c" ∷ codes "b" ∷ []
unfolding list_events record_all new_ring append_locked stamp next_seq record_event clamp_list_limit
    filled_count slot read_slots newest_slice
two_left = refl

list_events-record_all_example :
    list_events (record_all (new_ring (pos 2)) three) (pos 9)
    ≡ take
        (clamp_list_limit (pos 9))
        (take (new_ring (pos 2)).cap (newest_first (stamped 0 three) []))
list_events-record_all_example = list_events-record_all (pos 2) (pos 9) three

length-list_events_example :
    (length (list_events (new_ring (pos 2)) (pos 9))
      ≡ min (clamp_list_limit (pos 9)) (filled_count (new_ring (pos 2))))
    × (length (list_events (new_ring (pos 2)) (pos 9)) ≤ max_list_limit)
    × (length (list_events (new_ring (pos 2)) (pos 9)) ≤ (new_ring (pos 2)).cap)
length-list_events_example =
    length-list_events (new_ring (pos 2)) (pos 9) (new_ring-IsValid (pos 2))

stamped-DistinctIds_example : DistinctIds (stamped 0 three)
stamped-DistinctIds_example = stamped-DistinctIds 0 three (omega arith) (refl, (refl, (refl, tt)))

abbrev beats : List (Bytes × ℤ)
beats =
    (codes "s", pos 1000)
    ∷ (codes "s", pos 2000)
    ∷ (codes "t", pos 2500)
    ∷ (codes "s", pos 11000)
    ∷ []

throttled :
    accepted (new_ring (pos 2)) beats
    ≡ (codes "s", pos 1000) ∷ (codes "t", pos 2500) ∷ (codes "s", pos 11000) ∷ []
unfolding accepted accept_heartbeat lookup insert new_ring str_eq ◌-ℤ◌
throttled = refl

accepted-Spaced_example : Spaced 10000 (codes "s") none (accepted (new_ring (pos 2)) beats)
unfolding new_ring lookup
accepted-Spaced_example = accepted-Spaced (new_ring (pos 2)) beats (codes "s")
