-- ===== src/PQueue/Setup/Ready.antt =====
-- How far a call of the set-up of a queue gets, and what holds then.
use mathlib.Core.Path.{subst}
use tool_boslib.Base.{
  ℕ, ◌≡◌, ◌≢◌, refl, sym, ap, ◌∙◌, List, ◌++◌, Bool, true, false, ◌&&◌, arith, Run, ok, ◌>>=◌,
  Returns, ◌⊎◌, inl, inr,
}
use tool_boslib.PQueue.{Status, Stage}
use tool_boslib.PQueue.Setup.{Setup, Resource, Outcomes, proceed}
use tool_boslib.PQueue.Setup.Held.{Balanced, held, gathered, added, enter-Balanced}

-- The calls that never give NULL get their memory.
pub record HasMemory (o : Outcomes) : Type 0 where
  pub mutexes : (i : ℕ) → o.new_mutex i ≡ true
  pub cond : o.new_cond ≡ true
  pub mem_locks : (i : ℕ) → o.new_mem_lock i ≡ true
  pub loader : o.new_loader ≡ true
  pub serialize_write : o.new_serialize_write ≡ true
  pub serialize_read : o.new_serialize_read ≡ true

-- The stages at which there is no loader yet.
abbrev pub early : Stage → Bool
early Stage.invalid = true
early Stage.clean = true
early Stage.push_cond_init = true
early Stage.mem_lock_init = true
early _ = false

-- At a stage, the queue holds what it has at that stage.
pub record ReadyAt (stage : Stage) (s : Setup) : Type 0 where
  pub balanced : Balanced s.max_length s.has_loader stage s.acquired s.released
  pub no_loader : (early stage && s.has_loader) ≡ false

-- The call reaches the stage `goal` and succeeds, or it fails, since some call was `refused`, at a
-- stage that `rests` admits; `Inv` holds in both cases.
abbrev pub Reaches :
    (Stage → Setup → Type 0) → Bool → (Stage → Bool) → Stage → Status × Setup → Type 0
Reaches Inv refused rests goal r =
    Inv r.1.stage r.1
    × (((r.0 ≡ Status.ok) × (r.1.stage ≡ goal))
        ⊎ ((r.0 ≢ Status.ok) × (rests r.1.stage ≡ true) × (refused ≡ true)))

proceed-failed :
    (status : Status) (s : Setup) (next : Setup → Run (Status × Setup))
    → status ≢ Status.ok
    → proceed (status, s) next ≡ ok (status, s)
proceed-failed Status.ok s next h = absurd (h refl)
proceed-failed Status.retrieve_data_failed s next h = refl
proceed-failed Status.store_data_failed s next h = refl
proceed-failed Status.queue_empty s next h = refl
proceed-failed Status.queue_full s next h = refl
proceed-failed Status.timeout s next h = refl
proceed-failed Status.alloc_mem_failed s next h = refl
proceed-failed Status.init_mutex_failed s next h = refl
proceed-failed Status.init_cond_failed s next h = refl
proceed-failed Status.init_dynamic_loader_failed s next h = refl
proceed-failed Status.init_serialize_failed s next h = refl
proceed-failed Status.load_indirect_serialize_failed s next h = refl
proceed-failed Status.init_mem_channel_failed s next h = refl
proceed-failed Status.open_mem_channel_failed s next h = refl
proceed-failed Status.init_calc_size_serializer_failed s next h = refl
proceed-failed Status.open_calc_size_serializer_failed s next h = refl
proceed-failed Status.calc_size_failed s next h = refl
proceed-failed Status.already_setup s next h = refl
proceed-failed Status.no_such_queue s next h = refl

-- Two stages in a row.
pub proceed-Reaches :
    (Inv : Stage → Setup → Type 0) (refused : Bool) (rests : Stage → Bool) (middle goal : Stage)
    (call : Run (Status × Setup)) (next : Setup → Run (Status × Setup))
    → Returns call (Reaches Inv refused rests middle)
    → ((s : Setup)
        → Inv middle s
        → Returns (next (record s { stage = middle })) (Reaches Inv refused rests goal))
    → Returns (call >>= λ r. proceed r next) (Reaches Inv refused rests goal)
proceed-Reaches Inv refused rests middle goal call next (r, run, (inv, inl (done, at))) more =
    let next_run =
      subst
        (λ st.
          Inv st r.1 → Returns (next (record r.1 { stage = st })) (Reaches Inv refused rests goal))
        (sym at) (more r.1) inv in
    (
      next_run.0,
      ap (λ c. c >>= λ r'. proceed r' next) run
          ∙ ap (λ st. proceed (st, r.1) next) done
          ∙ next_run.1,
      next_run.2,
    )
proceed-Reaches Inv refused rests middle goal call next (r, run, (inv, inr (failed, rest, why)))
      more =
    rw (run, proceed-failed r.0 r.1 next failed) (r, refl, (inv, inr (failed, rest, why)))

abbrev pub is_ok : Status → Bool
is_ok Status.ok = true
is_ok _ = false

pub not_ok : (status : Status) → is_ok status ≡ false → status ≢ Status.ok
not_ok status h e = let c : false ≡ true = sym h ∙ ap is_ok e in ground arith

-- The stages up to `q`, of which there are `k` after `p`.
pub climb :
    (n : ℕ) (b : Bool) (acquired released : List Resource) (k : ℕ) (p q : Stage)
    → held n b q ≡ gathered n b k q ++ held n b p
    → Balanced n b p acquired released
    → Balanced n b q (gathered n b k q ++ acquired) released
climb n b acquired released k p q = enter-Balanced n b p q (gathered n b k q) acquired released

-- The stage after `p`.
pub step :
    (n : ℕ) (b : Bool) (acquired released : List Resource) (p q : Stage)
    → held n b q ≡ added n b q ++ held n b p
    → Balanced n b p acquired released
    → Balanced n b q (added n b q ++ acquired) released
step n b acquired released p q = enter-Balanced n b p q (added n b q) acquired released
