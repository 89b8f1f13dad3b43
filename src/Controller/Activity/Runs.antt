-- ===== src/Controller/Activity/Runs.antt =====
-- The activity of a reported run: RecordCollectionRun, as a reader of the ring sees it.
use ice_hive.Prelude.{
  ℕ, ◌+◌, ◌-◌, ◌%◌, ◌^◌, ◌≡◌, refl, sym, ap, ◌∙◌, Bool, true, false, [], ◌∷◌, ◌++◌, some, if_both,
  if◌then◌else◌, take, append-nil, append_assoc,
}
use ice_hive.Prelude.Int.{ℤ}
use ice_hive.Text.{Bytes, codes, is_nil, trim_space}
use ice_hive.Text.Decimal.{decimal}
use ice_hive.Controller.Activity.{
  Event, Ring, collection_run, truncate_err, run_summary, run_event, record_run, stamp, next_seq,
}
use ice_hive.Controller.Activity.Slots.{IsValid, view}
use ice_hive.Controller.Activity.View.{view-record_event}

-- A text that begins with the other.
abbrev Begins : Bytes → Bytes → Type 0
Begins p text = (rest : Bytes) × (text ≡ p ++ rest)

-- The text says of the source whether its run succeeded.
abbrev pub Tells : Bool → Bytes → Bytes → Type 0
Tells true source_id text = Begins (codes "Collection run ok for " ++ source_id) text
Tells false source_id text = Begins (codes "Collection run failed for " ++ source_id) text

-- The event of a run of a source of the type.
pub record IsRunEvent (now : ℤ) (seq : ℕ) (source_id collector_type : Bytes) (success : Bool)
    (e : Event) : Type 0 where
  pub kind : e.kind ≡ collection_run
  pub source : e.source_id ≡ source_id
  pub type : e.collector_type ≡ collector_type
  pub flag : e.success ≡ some success
  pub time : e.unix_ms ≡ now
  pub number : e.id ≡ decimal seq
  pub told : Tells success source_id e.summary

Begins-self : (p : Bytes) → Begins p p
Begins-self p = ([], sym (append-nil p))

Begins-append : (p text more : Bytes) → Begins p text → Begins p (text ++ more)
Begins-append p text more (rest, e) =
    (rest ++ more, ap (λ t. t ++ more) e ∙ append_assoc p rest more)

-- Behind the text goes the type in brackets, if there is one.
with_type :
    (p text type : Bytes)
    → Begins p text
    → Begins p (if is_nil type then text else text ++ codes " [" ++ type ++ codes "]")
with_type p text type h =
    if_both (Begins p) (is_nil type) h
      (Begins-append p _ _ (Begins-append p _ _ (Begins-append p text _ h)))

run_summary-Tells :
    (source_id collector_type err_msg : Bytes) (success : Bool)
    → Tells success source_id (run_summary source_id collector_type err_msg success)
unfolding run_summary truncate_err
run_summary-Tells id type err_msg true =
    let p = codes "Collection run ok for " ++ id in with_type p p type (Begins-self p)
run_summary-Tells id type err_msg false =
    let p = codes "Collection run failed for " ++ id in
    let e = truncate_err err_msg in
    with_type p (if is_nil e then p else p ++ codes ": " ++ e) type (
      if_both (Begins p) (is_nil e) (Begins-self p)
        (Begins-append p _ _ (Begins-append p p _ (Begins-self p))))

-- A run that is recorded stands before all that the ring showed, with the next number and the time.
pub record_run-Shown :
    (now : ℤ) (r : Ring) (source_id collector_type : Bytes) (success : Bool) (err_msg : Bytes)
    → IsValid r
    → (e : Event) × (view (record_run now r source_id collector_type success err_msg)
        ≡ e ∷ take (r.cap - 1) (view r))
      × IsRunEvent now
          ((r.seq + 1) % 2 ^ 64)
          (trim_space source_id)
          (trim_space collector_type)
          success
          e
unfolding record_run run_event stamp next_seq
record_run-Shown now r source_id collector_type success err_msg v =
    let id = trim_space source_id in
    let type = trim_space collector_type in
    let e = run_event id type success err_msg in
    (
      stamp now (next_seq r.seq e) e,
      view-record_event now r e v,
      record {
        kind = refl;
        source = refl;
        type = refl;
        flag = refl;
        time = refl;
        number = refl;
        told = run_summary-Tells id type err_msg success;
      },
    )
