-- ===== src/Amqp/Consume.antt =====
-- services/common/pkg/amqpctl/client.go: what a consumer does with the deliveries of its channel,
-- and the loop that keeps it running.
pub mod Settle
use ice_hive.Prelude.{
  ℕ, zero, suc, Bool, true, false, List, [], ◌∷◌, Option, none, some, if◌then◌else◌,
}
use ice_hive.Text.{Bytes, is_nil}
use ice_hive.Amqp.Broker.{Broker}
use ice_hive.Amqp.Client.{Client, renew}

-- A delivery: its body, and whether the broker takes its acknowledgement.
pub record Delivery : Type 0 where
  pub body : Bytes
  pub ack_works : Bool

-- What is told to the broker about a delivery; a failed acknowledgement ends the consumer.
pub data Settled : Type 0 where
  acked nacked ack_failed : Settled

-- How a run over the deliveries ends: the handlers' state, what was settled in order, and whether
-- the consumer stopped at an acknowledgement that failed.
pub record Run {ℓ} (S : Type ℓ) : Type ℓ where
  pub state : S
  pub settled : List Settled
  pub stopped : Bool

module _ {ℓ} {S : Type ℓ} where
  abbrev pub note : Settled → Run S → Run S
  note x r = record r { settled = x ∷ r.settled }

  -- The body of the loop behind the handler, whose verdict is `handled`. `rest` are the rounds to come.
  settle : S → Bool → Bool → Run S → Run S
  settle s handled ack_works rest =
      if handled
      then if ack_works
        then note acked rest
        else record { state = s; settled = ack_failed ∷ []; stopped = true }
      else note nacked rest

  -- The loop of consumeJSONOnce. The handler returns its state and whether it had no error; it is
  -- not called for an empty body.
  unfoldable pub consume_json : (S → Bytes → S × Bool) → S → List Delivery → Run S
  unfolding settle
  consume_json h s [] = record { state = s; settled = []; stopped = false }
  consume_json h s (d ∷ ds) =
      let (s', handled) = h s d.body in
      let skipped = note nacked (consume_json h s ds) in
      let rest = settle s' handled d.ack_works (consume_json h s' ds) in
      if is_nil d.body then skipped else rest

  -- The loop of consumeControlOnce with `deliver` in it. `decode` is proto.Unmarshal; the handler
  -- is not called for a body that cannot be decoded.
  module _ {κ} {E : Type κ} (decode : Bytes → Option E) (h : S → E → S × Bool) where
    unfoldable pub on_event : S → Option E → S × Bool
    on_event s none = (s, false)
    on_event s (some e) = h s e

    unfoldable pub consume_control : S → List Delivery → Run S
    unfolding settle on_event
    consume_control s [] = record { state = s; settled = []; stopped = false }
    consume_control s (d ∷ ds) =
        let (s', handled) = on_event s (decode d.body) in
        settle s' handled d.ack_works (consume_control s' ds)
