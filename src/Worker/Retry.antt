-- ===== src/Worker/Retry.antt =====
-- services/common/pkg/collector/run.go, services/common/pkg/persist/run.go and
-- services/controller/main.go: the loops that try until an attempt succeeds or the context is done.
use ice_hive.Prelude.{ℕ, zero, suc, ◌+◌, ◌≡◌, refl, sym, ap, ◌∙◌, Bool, true, false, arith}
use mathlib.Core.Path.{subst}

-- How a loop has ended, or that it goes on.
pub data Ended {ℓ} (A : Type ℓ) : Type ℓ where
  ready : A → Ended A
  stopped running : Ended A

abbrev pub is_over {ℓ} : {A : Type ℓ} → Ended A → Bool
is_over (ready a) = true
is_over stopped = true
is_over running = false

module _ {ℓ κ} {A : Type ℓ} {S : Type κ} (round : S → Ended A × S) where
  -- The loop, for a number of rounds
  unfoldable pub retry : ℕ → S → Ended A × S
  retry zero s = (running, s)
  retry (suc n) s =
      let (r, s') = round s in
      let rest = retry n s' in
      elim r [ ready a ↦ (ready a, s') | stopped ↦ (stopped, s') | running ↦ rest ]

  -- The world behind so many rounds that have not ended the loop.
  pub data Rounds : ℕ → S → S → Type (ℓ ⊔ κ) where
    none_yet : (s : S) → Rounds 0 s s
    one_more : (s s' t : S) (n : ℕ) → round s ≡ (running, s') → Rounds n s' t → Rounds (suc n) s t

  retry-step : (n : ℕ) (s s' : S) → round s ≡ (running, s') → retry (suc n) s ≡ retry n s'
  unfolding retry
  retry-step n s s' e =
      ap
        (λ x.
          let (r, s1) = x in
          elim r as (λ _. Ended A × S) [
            | ready a ↦ (ready a, s1)
            | stopped ↦ (stopped, s1)
            | running ↦ retry n s1
          ])
        e

  last_round :
      (k : ℕ) (s t : S) (x : Ended A)
      → round s ≡ (x, t)
      → is_over x ≡ true
      → retry (suc k) s ≡ (x, t)
  unfolding retry
  last_round k s t x e h =
      ap
        (λ x.
          let (r, s1) = x in
          elim r as (λ _. Ended A × S) [
            | ready a ↦ (ready a, s1)
            | stopped ↦ (stopped, s1)
            | running ↦ retry k s1
          ])
        e
      ∙ over x h
    where
      over :
          (x : Ended A)
          → is_over x ≡ true
          → (elim x as (λ _. Ended A × S) [
            | ready a ↦ (ready a, t)
            | stopped ↦ (stopped, t)
            | running ↦ retry k t
          ])
            ≡ (x, t)
      over (ready a) h = refl
      over stopped h = refl
      over running h = absurd (ground (arith, h))

  pub retry_ends :
      (n k : ℕ) (s t t' : S) (x : Ended A)
      → Rounds n s t
      → round t ≡ (x, t')
      → is_over x ≡ true
      → retry (suc (n + k)) s ≡ (x, t')
  retry_ends n k s t t' x (none_yet z) e h = last_round (0 + k) z t' x e h
  retry_ends n k s t t' x (one_more z s' y m e' r) e h =
      retry-step (suc m + k) z s' e'
      ∙ ap (λ i. retry i s') (omega arith)
      ∙ retry_ends m k s' y t' x r e h

  go_on :
      (n : ℕ) (s s' t : S) (x : Ended A)
      → round s ≡ (x, s')
      → retry (suc n) s ≡ (running, t)
      → (x ≡ running) × (retry n s' ≡ (running, t))
  go_on n s s' t (ready a) e h = absurd (ground (arith, last_round n s s' (ready a) e refl, h))
  go_on n s s' t stopped e h = absurd (ground (arith, last_round n s s' stopped e refl, h))
  go_on n s s' t running e h = (refl, sym (retry-step n s s' e) ∙ h)

  pub retry_running : (n : ℕ) (s t : S) → retry n s ≡ (running, t) → Rounds n s t
  unfolding retry
  retry_running zero s t h = subst (Rounds 0 s) (ap (λ p. p.1) h) (none_yet s)
  retry_running (suc n) s t h =
      let (x, s') = round s in
      let (e, rest) = go_on n s s' t x refl h in
      one_more s s' t n (ap (λ y. (y, s')) e) (retry_running n s' t rest)
