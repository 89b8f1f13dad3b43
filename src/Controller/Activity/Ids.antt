-- ===== src/Controller/Activity/Ids.antt =====
-- The ids that a ring gives out.
use ice_hive.Prelude.{ℕ, ◌+◌, ◌^◌, ◌≤◌, ◌<◌, ◌≡◌, ◌≢◌, ap, List, [], ◌∷◌, arith, length, All}
use ice_hive.Prelude.Int.{ℤ}
use ice_hive.Text.Decimal.{decimal, decimal-injective}
use ice_hive.Controller.Activity.{Event, stamp, next_seq}
use ice_hive.Controller.Activity.View.{stamped}

abbrev pub Unnamed : List (ℤ × Event) → Type 0
Unnamed = All (λ p. p.1.id ≡ [])

-- No two events of the list have the same id.
abbrev pub DistinctIds : List Event → Type 0
DistinctIds [] = Unit
DistinctIds (e ∷ es) = All (λ f. e.id ≢ f.id) es × DistinctIds es

id-stamp :
    (now : ℤ) (seq : ℕ) (e : Event)
    → e.id ≡ []
    → seq + 1 < 2 ^ 64
    → (next_seq seq e ≡ seq + 1) × ((stamp now (next_seq seq e) e).id ≡ decimal (seq + 1))
unfolding next_seq stamp
id-stamp now seq e h b = rw h (omega arith, ap decimal (omega arith))

-- An id that was given out does not come again.
stamped-ne :
    (m seq : ℕ) (es : List (ℤ × Event))
    → m ≤ seq
    → seq + length es < 2 ^ 64
    → Unnamed es
    → All (λ f. decimal m ≢ f.id) (stamped seq es)
unfolding stamped
stamped-ne m seq [] h b u = tt
stamped-ne m seq ((now, e) ∷ es) h b (hu, u) =
    let i = id-stamp now seq e hu (omega arith) in
    (
      rw i.1 (λ k. absurd (omega (arith, decimal-injective m (seq + 1) k))),
      rw i.0 (stamped-ne m (seq + 1) es (omega arith) (omega arith) u),
    )

-- The ids given to events that come without one are all different, as long as fewer than 2^64 ids
-- have been given out.
pub stamped-DistinctIds :
    (seq : ℕ) (es : List (ℤ × Event))
    → seq + length es < 2 ^ 64
    → Unnamed es
    → DistinctIds (stamped seq es)
unfolding stamped
stamped-DistinctIds seq [] b u = tt
stamped-DistinctIds seq ((now, e) ∷ es) b (hu, u) =
    let i = id-stamp now seq e hu (omega arith) in
    (
      rw (i.1, i.0) (stamped-ne (seq + 1) (seq + 1) es (omega arith) (omega arith) u),
      rw i.0 (stamped-DistinctIds (seq + 1) es (omega arith) u),
    )
