-- ===== src/Controller/Activity/Throttle.antt =====
-- Heartbeats of one service are shown at most every ten seconds.
use ice_hive.Prelude.{
  ℕ, ◌≡◌, ◌⊎◌, inl, inr, true, false, List, [], ◌∷◌, Option, none, some, arith, if◌then◌else◌,
  Bool-cases,
}
use mathlib.Core.Path.{subst}
use ice_hive.Prelude.Int.{ℤ, pos, ◌-ℤ◌, ◌≤ℤ◌}
use ice_hive.Text.{Bytes, str_eq}
use ice_hive.Text.Trim.{str_eq→eq}
use ice_hive.Dict.{lookup, insert, lookup-insert}
use ice_hive.Controller.Activity.{Ring, is_due, accept_heartbeat}

abbrev seen : Ring → Bytes → ℤ → Ring
seen r name ms = record r { last_hb = insert name ms r.last_hb }

-- The heartbeats of a sequence that are accepted, in order.
unfoldable pub accepted : Ring → List (Bytes × ℤ) → List (Bytes × ℤ)
accepted r [] = []
accepted r ((name, ms) ∷ hs) =
    let (r', shown) = accept_heartbeat r name ms in
    let rest = accepted r' hs in if shown then (name, ms) ∷ rest else rest

-- Counted from the last one, each heartbeat of the service is at least `gap` later than the one
-- before it.
abbrev pub Follows : ℕ → Option ℤ → ℤ → Type 0
Follows gap none ms = Unit
Follows gap (some last) ms = pos gap ≤ℤ (ms -ℤ last)

abbrev pub Spaced : ℕ → Bytes → Option ℤ → List (Bytes × ℤ) → Type 0
Spaced gap name last [] = Unit
Spaced gap name last ((n, ms) ∷ hs) =
    if str_eq n name
    then Follows gap last ms × Spaced gap name (some ms) hs
    else Spaced gap name last hs

abbrev Accepts : Ring → Bytes → ℤ → Type 0
Accepts r name ms =
    (accept_heartbeat r name ms ≡ (record r { last_hb = insert name ms r.last_hb }, true))
    × Follows r.hb_min_gap (lookup name r.last_hb) ms

is_due-Follows :
    (gap : ℕ) (last : Option ℤ) (ms : ℤ) → is_due gap last ms ≡ true → Follows gap last ms
unfolding is_due
is_due-Follows gap none ms h = tt
is_due-Follows gap (some last) ms h = ground arith

accept_heartbeat-cases :
    (r : Ring) (name : Bytes) (ms : ℤ)
    → (accept_heartbeat r name ms ≡ (r, false)) ⊎ Accepts r name ms
unfolding accept_heartbeat
accept_heartbeat-cases r name ms =
    elim (Bool-cases (is_due r.hb_min_gap (lookup name r.last_hb) ms)) [
      | inl e ↦ inr (rw e, is_due-Follows r.hb_min_gap (lookup name r.last_hb) ms e)
      | inr e ↦ inl (rw e)
    ]

Spaced-cons :
    (gap : ℕ) (name n : Bytes) (ms : ℤ) (last : Option ℤ) (hs : List (Bytes × ℤ))
    → ((n ≡ name) → Follows gap last ms)
    → Spaced gap name (if str_eq n name then some ms else last) hs
    → Spaced gap name last ((n, ms) ∷ hs)
Spaced-cons gap name n ms last hs f h = elim (Bool-cases (str_eq n name)) [
  | inl e ↦ rw e (f (str_eq→eq n name e), rw e at h)
  | inr e ↦ rw e (rw e at h)
]

-- A run of heartbeats: those accepted of any one service are spaced by the ring's gap, counted from
-- the last that the ring remembers.
pub accepted-Spaced :
    (r : Ring) (hs : List (Bytes × ℤ)) (name : Bytes)
    → Spaced r.hb_min_gap name (lookup name r.last_hb) (accepted r hs)
unfolding accepted
accepted-Spaced r [] name = tt
accepted-Spaced r ((n, ms) ∷ hs) name = elim (accept_heartbeat-cases r n ms) [
  | inl e ↦ rw e (accepted-Spaced r hs name)
  | inr (e, f) ↦ rw e (
      Spaced-cons r.hb_min_gap name n ms (lookup name r.last_hb) (accepted (seen r n ms) hs)
        (λ k. subst (λ w. Follows r.hb_min_gap (lookup w r.last_hb) ms) k f)
        (rw (lookup-insert n name ms r.last_hb) at (accepted-Spaced (seen r n ms) hs name)))
]
