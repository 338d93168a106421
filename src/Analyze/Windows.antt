-- ===== src/Analyze/Windows.antt =====
-- count.go: what the metrics of a window add up to.
use gta.Base.{
  ℕ, suc, ◌+◌, ◌≡◌, ◌∙◌, refl, ap, Bool, true, false, Option, none, some, List, [], ◌∷◌, ◌++◌, eqb,
  if◌then◌else◌, if_elim, arith, String, string_eq,
}
use gta.Analyze.{
  Env, Values, Metric, Aggregate, Group, window_start, group_key, emit, roll, put_value, flush,
  final_flush, count_add, count_in, new_agg, Program,
}
use gta.Analyze.Counts.{weight, total, kept, weight-append, weight-emit, counts_once, regroup}

pub data Call (A : Type 0) : Type 0 where
  adds : ℕ → Env A → Call A
  flushes : Call A
  flushes_all : Call A

module _ {A F : Type 0} (o : Values A F) where
  abbrev pub emitted :
      Aggregate A ℕ × List (Metric ℕ) → List (Metric ℕ) → Aggregate A ℕ × List (Metric ℕ)
  emitted (a, ms) out = (a, out ++ ms)

  -- A call, with all metrics that were given out so far.
  unfoldable pub step : Aggregate A ℕ × List (Metric ℕ) → Call A → Aggregate A ℕ × List (Metric ℕ)
  unfolding count_add flush final_flush
  step (a, out) (adds t env) = ((count_add o t env a).0, out)
  step (a, out) flushes = emitted (flush a) out
  step (a, out) flushes_all = emitted (final_flush a) out

  unfoldable pub run :
      Aggregate A ℕ × List (Metric ℕ) → List (Call A) → Aggregate A ℕ × List (Metric ℕ)
  unfolding step
  run s [] = s
  run s (c ∷ cs) = run (step s c) cs

  abbrev pub is_some {ℓ} : {B : Type ℓ} → Option B → Bool
  is_some none = false
  is_some (some x) = true

  -- The events of a window that have a group.
  unfoldable pub events_in : ℕ → ℕ → List (String × Program A) → List (Call A) → ℕ
  unfolding window_start group_key
  events_in w window group_by [] = 0
  events_in w window group_by (adds t env ∷ cs) =
      let rest = events_in w window group_by cs in
      if is_some (group_key o group_by env)
      then (if eqb (window_start t window) w then suc rest else rest)
      else rest
  events_in w window group_by (flushes ∷ cs) = events_in w window group_by cs
  events_in w window group_by (flushes_all ∷ cs) = events_in w window group_by cs

  -- What a state holds of a window: given out, ready, or still counted.
  abbrev pub held : ℕ → Aggregate A ℕ × List (Metric ℕ) → ℕ
  held w (a, out) = weight w out + kept w a

  abbrev pub gained : ℕ → ℕ → List (String × Program A) → Call A → ℕ
  gained w window group_by c = events_in w window group_by (c ∷ [])

  flush-held :
      (w : ℕ) (a : Aggregate A ℕ) (out : List (Metric ℕ))
      → held w (emitted (flush a) out) ≡ held w (a, out)
  unfolding flush weight
  flush-held w a out = ground (arith, weight-append w out a.ready)

  final_flush-held :
      (w : ℕ) (a : Aggregate A ℕ) (out : List (Metric ℕ))
      → held w (emitted (final_flush a) out) ≡ held w (a, out)
  unfolding final_flush weight total
  final_flush-held w a out = ground (arith, weight-append w out (emit a), weight-emit w a)

  count_in-held :
      (w t : ℕ) (a : Aggregate A ℕ) (out : List (Metric ℕ)) (g : Option Group)
      → held w ((count_in o g t a).0, out)
        ≡ (if is_some g then (if eqb (window_start t a.window) w then 1 else 0) else 0)
          + held w (a, out)
  count_in-held w t a out none = omega arith
  count_in-held w t a out (some g) = ground (arith, counts_once w (window_start t a.window) g a)

  step-held :
      (w : ℕ) (a : Aggregate A ℕ) (out : List (Metric ℕ)) (c : Call A)
      → held w (step (a, out) c) ≡ gained w a.window a.group_by c + held w (a, out)
  unfolding step events_in count_add
  step-held w a out (adds t env) = count_in-held w t a out (group_key o a.group_by env)
  step-held w a out flushes = flush-held w a out ∙ omega arith
  step-held w a out flushes_all = final_flush-held w a out ∙ omega arith

  -- A call leaves the window and the groups as they were set.
  abbrev pub setting : Aggregate A ℕ × List (Metric ℕ) → ℕ × List (String × Program A)
  setting (a, out) = (a.window, a.group_by)

  count_in-setting :
      (t : ℕ) (a : Aggregate A ℕ) (out : List (Metric ℕ)) (g : Option Group)
      → setting ((count_in o g t a).0, out) ≡ (a.window, a.group_by)
  unfolding put_value roll
  count_in-setting t a out none = refl
  count_in-setting t a out (some g) =
      if_elim (λ (b : Aggregate A ℕ). setting (put_value 0 suc g b, out) ≡ (a.window, a.group_by))
        (eqb (window_start t a.window) a.wstart) _ _ (λ e. refl) (λ e. refl)

  step-setting :
      (a : Aggregate A ℕ) (out : List (Metric ℕ)) (c : Call A)
      → setting (step (a, out) c) ≡ (a.window, a.group_by)
  unfolding step count_add flush final_flush
  step-setting a out (adds t env) = count_in-setting t a out (group_key o a.group_by env)
  step-setting a out flushes = refl
  step-setting a out flushes_all = refl

  events_in-cons :
      (w window : ℕ) (group_by : List (String × Program A)) (c : Call A) (cs : List (Call A))
      → events_in w window group_by (c ∷ cs)
        ≡ gained w window group_by c + events_in w window group_by cs
  unfolding events_in
  events_in-cons w window group_by (adds t env) cs = ground arith
  events_in-cons w window group_by flushes cs = omega arith
  events_in-cons w window group_by flushes_all cs = omega arith

  nothing_held :
      (w now window : ℕ) (output : String) (group_by : List (String × Program A)) (n : ℕ)
      → held w (new_agg now window output group_by, []) + n ≡ n
  unfolding new_agg weight total
  nothing_held w now window output group_by n = ground arith

  -- Over any calls, with events in any order of time, every event that has a group is counted once,
  -- in the window of its time: the values of that window's metrics that were given out, that are
  -- ready and that are still counted grow by the number of its events.
  pub run-held :
      (w : ℕ) (a : Aggregate A ℕ) (out : List (Metric ℕ)) (cs : List (Call A))
      → held w (run (a, out) cs) ≡ held w (a, out) + events_in w a.window a.group_by cs
  unfolding run events_in
  run-held w a out [] = omega arith
  run-held w a out (c ∷ cs) =
      run-held w (step (a, out) c).0 (step (a, out) c).1 cs
      ∙ ap (λ z. held w (step (a, out) c) + events_in w z.0 z.1 cs) (step-setting a out c)
      ∙ regroup (events_in w a.window a.group_by cs) (held w (a, out)) _ _ _ (step-held w a out c)
          (events_in-cons w a.window a.group_by c cs)

  -- All that was given out of a window once everything is flushed is the number of its events with a
  -- group, over any calls on a new aggregator and with events in any order of time.
  pub run-flushed :
      (w now window : ℕ) (output : String) (group_by : List (String × Program A))
      (cs : List (Call A))
      → weight w (step (run (new_agg now window output group_by, []) cs) flushes_all).1
        ≡ events_in w window group_by cs
  unfolding step final_flush new_agg
  run-flushed w now window output group_by cs =
      let s = run (new_agg now window output group_by, []) cs in
      weight-append w s.1 (emit s.0)
      ∙ ap (λ n. weight w s.1 + n) (weight-emit w s.0)
      ∙ run-held w (new_agg now window output group_by) [] cs
      ∙ nothing_held w now window output group_by (events_in w window group_by cs)
