-- ===== src/Amqp/Names.antt =====
-- services/common/pkg/amqpctl/config.go: exchange, queue and routing key names.
use ice_hive.Prelude.{
  ◌≡◌, ◌≢◌, refl, sym, ap, ◌∙◌, inl, inr, true, false, [], ◌∷◌, ◌++◌, if◌then◌else◌, Bool-cases,
}
use ice_hive.Text.{
  Bytes, codes, is_nil, is_space, has_prefix, trim_space, trim, trim_left, trim_right,
}
use ice_hive.Text.Trim.{is_nil→ne_nil, trim_space_idem, trim_right-append, trim_right_idem}
use ice_hive.Text.Parts.{has_prefix-append}

abbrev pub default_control_exchange : Bytes
default_control_exchange = codes "ex_icehive"

abbrev pub queue_name_prefix : Bytes
queue_name_prefix = codes "ih_"

abbrev pub routing_key_heartbeats : Bytes
routing_key_heartbeats = codes "control.heartbeats"

abbrev pub routing_key_collector_entities : Bytes
routing_key_collector_entities = codes "collector.entities"

abbrev pub routing_key_control_events : Bytes
routing_key_control_events = codes "control.events"

abbrev pub collection_request_prefix : Bytes
collection_request_prefix = codes "collector.collection_request"

abbrev pub source_schema_prefix : Bytes
source_schema_prefix = codes "collector.source_schema"

pub record Config : Type 0 where
  pub url : Bytes
  pub exchange : Bytes
  pub connection_name : Bytes

unfoldable pub exchange_name : Config → Bytes
exchange_name c = if is_nil c.exchange then default_control_exchange else c.exchange

unfoldable pub queue_name : Bytes → Bytes
queue_name name =
    let logical = trim_space name in
    if is_nil logical
    then queue_name_prefix
    else if has_prefix logical queue_name_prefix
    then logical
    else queue_name_prefix ++ logical

unfoldable pub collection_request_key : Bytes → Bytes
collection_request_key collector_type =
    collection_request_prefix ++ (codes "." ++ trim_space collector_type)

unfoldable pub source_schema_key : Bytes → Bytes
source_schema_key collector_type = source_schema_prefix ++ (codes "." ++ trim_space collector_type)

-- Text that is trimmed and carries the prefix is a queue name already.
queue_name_of_prefixed :
    (s : Bytes) → trim_space s ≡ s → has_prefix s queue_name_prefix ≡ true → queue_name s ≡ s
unfolding queue_name has_prefix
queue_name_of_prefixed [] t h = cc
queue_name_of_prefixed (c ∷ s) t h = rw t (rw h refl)

-- What is trimmed is trimmed on its right.
right_of_trimmed : (s : Bytes) → trim_space s ≡ s → trim_right is_space s ≡ s
unfolding trim_space trim
right_of_trimmed s t =
    ap (trim_right is_space) (sym t) ∙ trim_right_idem is_space (trim_left is_space s) ∙ t

prefixed-trimmed :
    (s : Bytes)
    → s ≢ []
    → trim_space s ≡ s
    → trim_space (queue_name_prefix ++ s) ≡ queue_name_prefix ++ s
unfolding trim_space trim trim_left is_space
prefixed-trimmed s n t = trim_right-append is_space queue_name_prefix s n (right_of_trimmed s t)

named_nil : (s : Bytes) → is_nil (trim_space s) ≡ true → queue_name s ≡ queue_name_prefix
unfolding queue_name
named_nil s e = rw e

named_prefixed :
    (s : Bytes)
    → is_nil (trim_space s) ≡ false
    → has_prefix (trim_space s) queue_name_prefix ≡ true
    → queue_name s ≡ trim_space s
unfolding queue_name
named_prefixed s e f = rw (e, f)

named_other :
    (s : Bytes)
    → is_nil (trim_space s) ≡ false
    → has_prefix (trim_space s) queue_name_prefix ≡ false
    → queue_name s ≡ queue_name_prefix ++ trim_space s
unfolding queue_name
named_other s e f = rw (e, f)

-- The prefix is applied once: every queue name carries it, and naming a queue by its name again
-- changes nothing.
pub queue_name_once :
    (s : Bytes)
    → (has_prefix (queue_name s) queue_name_prefix ≡ true)
      × (queue_name (queue_name s) ≡ queue_name s)
queue_name_once s = elim (Bool-cases (is_nil (trim_space s))) [
  | inl e ↦
      rw (named_nil s e)
        (unfold queue_name has_prefix trim_space trim trim_left trim_right is_space in (refl, refl))
  | inr e ↦ elim (Bool-cases (has_prefix (trim_space s) queue_name_prefix)) [
    | inl f ↦
        rw (named_prefixed s e f) (f, queue_name_of_prefixed (trim_space s) (trim_space_idem s) f)
    | inr f ↦ rw (named_other s e f) (
      has_prefix-append queue_name_prefix (trim_space s),
      queue_name_of_prefixed (queue_name_prefix ++ trim_space s)
          (prefixed-trimmed (trim_space s) (is_nil→ne_nil (trim_space s) e) (trim_space_idem s))
          (has_prefix-append queue_name_prefix (trim_space s)),
    )
  ]
]
