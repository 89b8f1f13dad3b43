-- ===== src/Amqp/Consume/Settle.antt =====
-- Every delivery is settled once, as the handler said.
use ice_hive.Prelude.{
  suc, ◌≡◌, refl, ap, inl, inr, Bool, true, false, List, [], ◌∷◌, Option, if◌then◌else◌, length,
  All, Bool-cases,
}
use ice_hive.Text.{Bytes, is_nil}
use ice_hive.Amqp.Consume.{
  Delivery, Settled, acked, nacked, ack_failed, Run, settle, consume_json, consume_control,
  on_event,
}

module _ {ℓ} {S : Type ℓ} where
  -- What happens to deliveries under a verdict on each body, with the state that the verdicts pass
  -- on: a body that is accepted is acknowledged, any other is not, and a failed acknowledgement ends
  -- the run with the later deliveries untouched.
  pub data Settles (verdict : S → Bytes → S × Bool)
      : S → List Delivery → List Settled → Bool → S → Type ℓ where
    end : {s : S} → Settles verdict s [] [] false s
    take :
        {s s1 s' : S} {d : Delivery} {ds : List Delivery} {xs : List Settled} {stopped : Bool}
        → verdict s d.body ≡ (s1, true)
        → d.ack_works ≡ true
        → Settles verdict s1 ds xs stopped s'
        → Settles verdict s (d ∷ ds) (acked ∷ xs) stopped s'
    refuse :
        {s s1 s' : S} {d : Delivery} {ds : List Delivery} {xs : List Settled} {stopped : Bool}
        → verdict s d.body ≡ (s1, false)
        → Settles verdict s1 ds xs stopped s'
        → Settles verdict s (d ∷ ds) (nacked ∷ xs) stopped s'
    break :
        {s s' : S} {d : Delivery} {ds : List Delivery}
        → verdict s d.body ≡ (s', true)
        → d.ack_works ≡ false
        → Settles verdict s (d ∷ ds) (ack_failed ∷ []) true s'

  -- consumeJSONOnce: an empty body is refused, and the handler does not see it.
  unfoldable pub json_verdict : (S → Bytes → S × Bool) → S → Bytes → S × Bool
  json_verdict h s body = if is_nil body then (s, false) else h s body

  json_verdict_empty :
      (h : S → Bytes → S × Bool) (s : S) (body : Bytes)
      → is_nil body ≡ true
      → json_verdict h s body ≡ (s, false)
  unfolding json_verdict
  json_verdict_empty h s body e = rw e

  json_verdict_full :
      (h : S → Bytes → S × Bool) (s : S) (body : Bytes)
      → is_nil body ≡ false
      → json_verdict h s body ≡ h s body
  unfolding json_verdict
  json_verdict_full h s body e = rw e

  module _ (verdict : S → Bytes → S × Bool) where
    abbrev pub SettlesRun : S → List Delivery → Run S → Type ℓ
    SettlesRun s ds r = Settles verdict s ds r.settled r.stopped r.state

    settle-Settles :
        (s : S) (v : S × Bool) (d : Delivery) (ds : List Delivery) (rest : Run S)
        → verdict s d.body ≡ v
        → SettlesRun v.0 ds rest
        → SettlesRun s (d ∷ ds) (settle v.0 v.1 d.ack_works rest)
    unfolding settle
    settle-Settles s (s1, true) d ds rest e h = elim (Bool-cases d.ack_works) [
      | inl a ↦ simp a (take e a h)
      | inr a ↦ simp a (break e a)
    ]
    settle-Settles s (s1, false) d ds rest e h = refuse e h

  -- The JSON consumer goes through the deliveries in order and settles each once: it acknowledges
  -- what its handler takes, and refuses what the handler does not take and every empty body, which
  -- the handler never sees. It stops early only at an acknowledgement that fails.
  pub consume_json-Settles :
      (h : S → Bytes → S × Bool) (s : S) (ds : List Delivery)
      → SettlesRun (json_verdict h) s ds (consume_json h s ds)
  unfolding consume_json
  consume_json-Settles h s [] = end
  consume_json-Settles h s (d ∷ ds) = elim (Bool-cases (is_nil d.body)) [
    | inl e ↦
        simp e
          (refuse {s1 = s} {d = d} (json_verdict_empty h s d.body e) (consume_json-Settles h s ds))
    | inr e ↦ simp e (
        settle-Settles (json_verdict h) s (h s d.body) d ds (consume_json h (h s d.body).0 ds)
          (json_verdict_full h s d.body e) (consume_json-Settles h (h s d.body).0 ds))
  ]

  -- The consumer of control events goes through the deliveries in order and settles each once: it
  -- acknowledges an event that its handler takes, and refuses one that the handler does not take and
  -- every body that cannot be decoded. It stops early only at an acknowledgement that fails.
  pub consume_control-Settles {κ} :
      {E : Type κ} (decode : Bytes → Option E) (h : S → E → S × Bool) (s : S) (ds : List Delivery)
      → SettlesRun
          (λ t body. on_event decode h t (decode body))
          s
          ds
          (consume_control decode h s ds)
  unfolding consume_control
  consume_control-Settles decode h s [] = end
  consume_control-Settles decode h s (d ∷ ds) =
      settle-Settles (λ t body. on_event decode h t (decode body)) s
        (on_event decode h s (decode d.body)) d ds
        (consume_control decode h (on_event decode h s (decode d.body)).0 ds) refl
        (consume_control-Settles decode h (on_event decode h s (decode d.body)).0 ds)

  -- With every acknowledgement taken, each delivery is settled: none is left, and the run goes on.
  pub Settles-All :
      (verdict : S → Bytes → S × Bool) {s : S} {ds : List Delivery} {xs : List Settled}
      {stopped : Bool} {s' : S}
      → Settles verdict s ds xs stopped s'
      → All (λ d. d.ack_works ≡ true) ds
      → (length xs ≡ length ds) × (stopped ≡ false)
  Settles-All verdict end a = (refl, refl)
  Settles-All verdict (take e k r) a = let h = Settles-All verdict r a.1 in (ap suc h.0, h.1)
  Settles-All verdict (refuse e r) a = let h = Settles-All verdict r a.1 in (ap suc h.0, h.1)
  Settles-All verdict (break e k) a = cc (a.0, k)
