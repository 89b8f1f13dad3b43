-- ===== src/Bootstrap/Ready.antt =====
-- What a worker has when the fetch succeeds, and from where.
use ice_hive.Prelude.{
  ◌≡◌, ◌⊎◌, refl, sym, inl, inr, true, false, not, ◌&&◌, ◌||◌, arith, if◌then◌else◌, if_both,
  Bool-cases, Result, ok, err, ◌>>=◌, Result-cases,
}
use mathlib.Core.Path.{subst}
use ice_hive.Text.{Bytes, codes, is_nil, trim_space, equal_fold}
use ice_hive.Amqp.Names.{default_control_exchange, routing_key_control_events}
use ice_hive.ControllerUrl.{trim_base, has_api_prefix, with_api_prefix, is_method_not_allowed}
use ice_hive.Bootstrap.{
  Controller, WorkerRuntime, Error, config_value, assembled_url, with_sink, or_else, finish_runtime,
  fetch_at, Fetched, retried, after_first, fetch, connect_error, error_text,
}

-- The settings that every worker connects with.
pub record IsReady (wr : WorkerRuntime) : Type 0 where
  pub url_given : is_nil wr.amqp_url ≡ false
  pub exchange_given : is_nil wr.amqp_exchange ≡ false
  pub key_given : is_nil wr.routing_key_control_events ≡ false

or_else-given :
    (k : Controller) (v default : Bytes)
    → is_nil default ≡ false
    → is_nil (or_else k v default) ≡ false
or_else-given k v default h = ground (arith, h)

module _ (k : Controller) where
  abbrev pub Accepts : Result (Error k) WorkerRuntime → Type 0
  Accepts (err e) = Unit
  Accepts (ok wr) = IsReady wr

  finish_runtime-Accepts :
      (base kind url exchange key : Bytes) → Accepts (finish_runtime k base kind url exchange key)
  unfolding finish_runtime with_sink
  finish_runtime-Accepts base kind url exchange key =
      elim (Bool-cases (is_nil (if is_nil url then assembled_url k base else url))) [
        | inl e ↦ rw e tt
        | inr e ↦
            let x = or_else-given k exchange default_control_exchange refl in
            let y = or_else-given k key routing_key_control_events refl in
            rw e (
              if_both IsReady (equal_fold (trim_space kind) (codes "persister"))
                (record { url_given = e; exchange_given = x; key_given = y })
                (record { url_given = e; exchange_given = x; key_given = y }))
      ]

  bind-Accepts :
      (r : Result (Error k) Bytes) (f : Bytes → Result (Error k) WorkerRuntime)
      → ((v : Bytes) → Accepts (f v))
      → Accepts (r >>= f)
  bind-Accepts (ok v) f h = h v
  bind-Accepts (err e) f h = tt

  fetch_at-Accepts : (base kind : Bytes) → Accepts (fetch_at k base kind)
  unfolding fetch_at
  fetch_at-Accepts base kind = bind-Accepts (config_value k base (codes "amqp.url")) _ (λ url.
      bind-Accepts (config_value k base (codes "amqp.exchange")) _ (λ exchange.
        bind-Accepts (config_value k base (codes "amqp.routing_key_control_events")) _
          (λ key. finish_runtime-Accepts base kind url exchange key)))

  -- The settings are complete, they are what the controller gives at the base returned, and this
  -- base is the trimmed one or that with the prefix.
  pub record From (base_url kind : Bytes) (wr : WorkerRuntime) (base : Bytes) : Type 0 where
    pub ready : IsReady wr
    pub there : fetch_at k base kind ≡ ok wr
    pub known_base : (base ≡ trim_base base_url) ⊎ (base ≡ with_api_prefix (trim_base base_url))

  -- Why there are no settings: no base, no kind or id, or a failure at the trimmed base.
  pub data Refused (base_url kind id : Bytes) : Type 0 where
    no_base : is_nil (trim_base base_url) ≡ true → Refused base_url kind id
    no_name : (is_nil (trim_space kind) || is_nil (trim_space id)) ≡ true → Refused base_url kind id
    no_answer :
        (e : Error k) → fetch_at k (trim_base base_url) kind ≡ err e → Refused base_url kind id

  abbrev pub Arrives : Bytes → Bytes → Bytes → Fetched k → Type 0
  Arrives base_url kind id (err e) = Refused base_url kind id
  Arrives base_url kind id (ok (wr, base)) = From base_url kind wr base

  arrives_at :
      (base_url kind base : Bytes) (wr : WorkerRuntime)
      → fetch_at k base kind ≡ ok wr
      → (base ≡ trim_base base_url) ⊎ (base ≡ with_api_prefix (trim_base base_url))
      → From base_url kind wr base
  arrives_at base_url kind base wr e b = record {
    ready = subst Accepts e (fetch_at-Accepts base kind);
    there = e;
    known_base = b;
  }

  retried-Arrives :
      (base_url kind id : Bytes) (e : Error k)
      → Refused base_url kind id
      → Arrives base_url kind id (
          retried k e
            (with_api_prefix (trim_base base_url))
            (fetch_at k (with_api_prefix (trim_base base_url)) kind))
  unfolding retried
  retried-Arrives base_url kind id e why =
      let b = with_api_prefix (trim_base base_url) in
      elim (Result-cases (fetch_at k b kind)) [
        | inl (wr, q) ↦ rw q (arrives_at base_url kind b wr q (inr refl))
        | inr (f, q) ↦ rw q why
      ]

  after_first-Arrives :
      (base_url kind id : Bytes)
      → Arrives base_url kind id
          (after_first k (trim_base base_url) kind (fetch_at k (trim_base base_url) kind))
  unfolding after_first
  after_first-Arrives base_url kind id =
      let b = trim_base base_url in
      elim (Result-cases (fetch_at k b kind)) [
        | inl (wr, q) ↦ rw q (arrives_at base_url kind b wr q (inl refl))
        | inr (e, q) ↦
            subst (λ r. Arrives base_url kind id (after_first k b kind r)) (sym q)
              (if_both (Arrives base_url kind id)
                (is_method_not_allowed (connect_error k e) (error_text k e)
                  && not (has_api_prefix b))
                (retried-Arrives base_url kind id e (no_answer e q)) (no_answer e q))
      ]

  -- Whenever the fetch gives settings, none of the broker's URL, the exchange and the routing key is
  -- empty, the settings are what one reading at the returned base gives, and that base is the
  -- trimmed base URL, or it with the API prefix. When it gives an error, the base was blank, or the
  -- kind or the id was, or the reading at the trimmed base failed.
  pub fetch-Arrives :
      (base_url kind id : Bytes) → Arrives base_url kind id (fetch k base_url kind id)
  unfolding fetch
  fetch-Arrives base_url kind id = elim (Bool-cases (is_nil (trim_base base_url))) [
    | inl e ↦ rw e (no_base e)
    | inr n ↦ elim (Bool-cases (is_nil (trim_space kind) || is_nil (trim_space id))) [
      | inl e ↦ rw (n, e) (no_name e)
      | inr e ↦ rw (n, e) (after_first-Arrives base_url kind id)
    ]
  ]
