-- ===== src/Controller/Activity/Slots.antt =====
-- The slots of the ring: what `append` does to them, and what `List` reads from them.
use native.Mathlib.Nat.{mod-eq_of_lt, mod_self, mod-eq-sub-mod}
use native.Mathlib.Decide.{dec_lt}
use ice_hive.Prelude.{
  ℕ, zero, suc, ◌+◌, ◌-◌, ◌%◌, ◌≤◌, ◌<◌, min, ◌≡◌, ◌≢◌, refl, sym, ap, ap₂, ◌∙◌, inl, inr, List,
  ◌∷◌, arith, ltb, ◌==◌, if◌then◌else◌, Bool-cases, length, get_or, take, length-set,
  get_or-set_self, get_or-set_ne, length-replicate, take_all,
}
use ice_hive.Prelude.Int.{ℤ, pos_part}
use ice_hive.Controller.Activity.{
  Event, Ring, blank, default_capacity, ring_of, new_ring, append_locked, filled_count, slot,
  read_slots, newest_slice,
}

pub record IsValid (r : Ring) : Type 0 where
  pub storage : length r.buf ≡ r.cap
  pub some_room : 0 < r.cap
  pub next_in : r.next < r.cap

pub new_ring-IsValid : (capacity : ℤ) → IsValid (new_ring capacity)
unfolding new_ring ring_of
new_ring-IsValid capacity =
    ground
      (arith, length-replicate default_capacity blank, length-replicate (pos_part capacity) blank)

pub append_locked-IsValid : (r : Ring) (e : Event) → IsValid r → IsValid (append_locked r e)
unfolding append_locked
append_locked-IsValid r e v = ground (arith, length-set r.buf r.next e)

-- The slot of the i-th newest event, without the remainder.
slot_lem :
    (r : Ring) (i : ℕ)
    → IsValid r
    → i < r.cap
    → slot r i ≡ (if ltb i r.next then r.next - 1 - i else r.next + r.cap - 1 - i)
unfolding slot
slot_lem r i v h = elim (dec_lt i r.next) [
  | yes p ↦ ground (
    arith,
    mod-eq-sub-mod {n = r.next + r.cap - 1 - i} {m = r.cap} (omega arith),
    mod-eq_of_lt {n = r.next + r.cap - 1 - i - r.cap} {m = r.cap} (omega arith),
  )
  | no p ↦ ground (arith, mod-eq_of_lt {n = r.next + r.cap - 1 - i} {m = r.cap} (omega arith))
]

next_lem : (n c : ℕ) → n < c → (n + 1) % c ≡ (if n + 1 == c then 0 else n + 1)
next_lem n c h = elim (dec_lt (n + 1) c) [
  | yes p ↦ ground (arith, mod-eq_of_lt {n = n + 1} {m = c} p)
  | no p ↦ let e : n + 1 ≡ c = omega arith in ground (arith, ap (λ k. k % c) e, mod_self c)
]

slot-append_zero : (r : Ring) (e : Event) → IsValid r → slot (append_locked r e) 0 ≡ r.next
unfolding append_locked
slot-append_zero r e v =
    slot_lem (append_locked r e) 0 (append_locked-IsValid r e v) v.some_room
    ∙ ground (arith, next_lem r.next r.cap)

slot-append_suc :
    (r : Ring) (e : Event) (i : ℕ)
    → IsValid r
    → i + 1 < r.cap
    → slot (append_locked r e) (i + 1) ≡ slot r i
unfolding append_locked
slot-append_suc r e i v h =
    slot_lem (append_locked r e) (i + 1) (append_locked-IsValid r e v) h
    ∙ ground (arith, next_lem r.next r.cap, slot_lem r i v)

slot-ne-next : (r : Ring) (i : ℕ) → IsValid r → i + 1 < r.cap → r.next ≢ slot r i
slot-ne-next r i v h = ground (arith, slot_lem r i v)

get_or-append :
    (r : Ring) (e : Event) (i : ℕ)
    → IsValid r
    → i + 1 < r.cap
    → get_or (append_locked r e).buf (slot (append_locked r e) (i + 1)) blank
      ≡ get_or r.buf (slot r i) blank
get_or-append r e i v h =
    ap (λ j. get_or (append_locked r e).buf j blank) (slot-append_suc r e i v h)
    ∙ (unfold append_locked in get_or-set_ne r.buf r.next (slot r i) e blank (slot-ne-next r i v h))

read_slots-append :
    (r : Ring) (e : Event) (i n : ℕ)
    → IsValid r
    → i + n < r.cap
    → read_slots (append_locked r e) (i + 1) n ≡ read_slots r i n
unfolding read_slots
read_slots-append r e i zero v h = refl
read_slots-append r e i (suc n) v h =
    ap₂ ◌∷◌ (get_or-append r e i v (omega arith)) (read_slots-append r e (i + 1) n v (omega arith))

get_or-append_zero :
    (r : Ring) (e : Event)
    → IsValid r
    → get_or (append_locked r e).buf (slot (append_locked r e) 0) blank ≡ e
get_or-append_zero r e v =
    ap (λ j. get_or (append_locked r e).buf j blank) (slot-append_zero r e v)
    ∙ (unfold append_locked in get_or-set_self r.buf r.next e blank (omega arith))

read_slots-append_zero :
    (r : Ring) (e : Event) (n : ℕ)
    → IsValid r
    → n < r.cap
    → read_slots (append_locked r e) 0 (suc n) ≡ e ∷ read_slots r 0 n
unfolding read_slots
read_slots-append_zero r e n v h =
    ap₂ ◌∷◌ (get_or-append_zero r e v) (read_slots-append r e 0 n v (omega arith))

pub length-read_slots : (r : Ring) (i n : ℕ) → length (read_slots r i n) ≡ n
unfolding read_slots
length-read_slots r i zero = refl
length-read_slots r i (suc n) = ap suc (length-read_slots r (i + 1) n)

take-read_slots : (r : Ring) (i m n : ℕ) → m ≤ n → take m (read_slots r i n) ≡ read_slots r i m
unfolding read_slots
take-read_slots r i zero n h = refl
take-read_slots r i (suc m) zero h = absurd (omega arith)
take-read_slots r i (suc m) (suc n) h =
    ap (◌∷◌ (get_or r.buf (slot r i) blank)) (take-read_slots r (i + 1) m n (omega arith))

pub filled_count-le : (r : Ring) → IsValid r → filled_count r ≤ r.cap
unfolding filled_count
filled_count-le r v = ground arith

filled_count-append :
    (r : Ring) (e : Event)
    → IsValid r
    → filled_count (append_locked r e) ≡ suc (min (filled_count r) (r.cap - 1))
unfolding filled_count append_locked
filled_count-append r e v = ground (arith, next_lem r.next r.cap)

-- The whole content of the ring, newest first.
unfoldable pub view : Ring → List Event
view r = read_slots r 0 (filled_count r)

-- An event goes before what the ring showed, and what does not fit behind it is forgotten.
pub view-append :
    (r : Ring) (e : Event) → IsValid r → view (append_locked r e) ≡ e ∷ take (r.cap - 1) (view r)
unfolding view
view-append r e v = rw (filled_count-append r e v) (
    read_slots-append_zero r e (min (filled_count r) (r.cap - 1)) v (omega arith)
    ∙ ap (◌∷◌ e) (sym rest))
  where
    rest :
        take (r.cap - 1) (read_slots r 0 (filled_count r))
        ≡ read_slots r 0 (min (filled_count r) (r.cap - 1))
    rest = elim (dec_lt (filled_count r) (r.cap - 1)) [
      | yes p ↦
          take_all (r.cap - 1) (read_slots r 0 (filled_count r))
            (omega (arith, length-read_slots r 0 (filled_count r)))
          ∙ ap (read_slots r 0) (omega arith)
      | no p ↦
          take-read_slots r 0 (r.cap - 1) (filled_count r) (omega arith)
          ∙ ap (read_slots r 0) (omega arith)
    ]

-- `List` is a prefix of the content.
pub newest_slice_lem : (r : Ring) (limit : ℕ) → newest_slice r limit ≡ take limit (view r)
unfolding newest_slice view
newest_slice_lem r limit = elim (Bool-cases (ltb (filled_count r) limit)) [
  | inl e ↦ rw e (
      sym (
        take_all limit (read_slots r 0 (filled_count r))
          (ground (arith, length-read_slots r 0 (filled_count r)))))
  | inr e ↦ rw e (sym (take-read_slots r 0 limit (filled_count r) (ground arith)))
]
