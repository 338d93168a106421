-- ===== src/Analyze/Engine.antt =====
-- engine.go and rate.go: the rules, each with a filter, further fields and an aggregator.
use gta.Base.{
  ℕ, Bool, true, false, Option, none, some, List, [], ◌∷◌, ◌++◌, map, String, string_eq,
  if◌then◌else◌,
}
use gta.Base.Dict.{Dict, insert}
use gta.Analyze.{Env, Program, Values, Metric, Aggregate, count_add, sum_add, flush, final_flush}

pub data Aggregator (A F : Type 0) : Type 0 where
  count : Aggregate A ℕ → Aggregator A F
  sum : Program A → Aggregate A F → Aggregator A F
  rate : Aggregate A ℕ → Aggregator A F

pub record CompiledRule (A F : Type 0) : Type 0 where
  pub name : String
  pub filter : Option (Program A)
  pub enrich : Dict String (Program A)
  pub aggregate : Aggregator A F

pub data Verdict : Type 0 where
  passes skips fails : Verdict

module _ {A F : Type 0} (o : Values A F) where
  abbrev pub bool_verdict : Option Bool → Verdict
  bool_verdict none = fails
  bool_verdict (some true) = passes
  bool_verdict (some false) = skips

  unfoldable pub filter_verdict : Option (Program A) → Env A → Verdict
  filter_verdict none env = passes
  filter_verdict (some p) env = elim (p env) [ none ↦ fails | some x ↦ bool_verdict (o.as_bool x) ]

  -- The fields of a rule, computed in the environment of the event and put over it.
  unfoldable pub enriched : Env A → Dict String (Program A) → Env A → Option (Env A)
  unfolding insert
  enriched env [] agg_env = some agg_env
  enriched env ((k, p) ∷ rest) agg_env = elim (p env) [
    | none ↦ none
    | some x ↦ enriched env rest (insert k x agg_env)
  ]

  abbrev pub counted : Aggregate A ℕ × Bool → Aggregator A F × Bool
  counted (a, ok) = (count a, ok)

  abbrev pub rated : Aggregate A ℕ × Bool → Aggregator A F × Bool
  rated (a, ok) = (rate a, ok)

  abbrev pub summed : Program A → Aggregate A F × Bool → Aggregator A F × Bool
  summed value (a, ok) = (sum value a, ok)

  -- Aggregator.Add.
  unfoldable pub add_to : ℕ → Env A → Aggregator A F → Aggregator A F × Bool
  unfolding count_add sum_add
  add_to t env (count a) = counted (count_add o t env a)
  add_to t env (rate a) = rated (count_add o t env a)
  add_to t env (sum value a) = summed value (sum_add o value t env a)

  abbrev pub with_aggregate : CompiledRule A F → Aggregator A F × Bool → CompiledRule A F × Bool
  with_aggregate r (a, ok) = (record r { aggregate = a }, ok)

  abbrev pub added : ℕ → CompiledRule A F → Option (Env A) → CompiledRule A F × Bool
  added t r none = (r, false)
  added t r (some env) = with_aggregate r (add_to t env r.aggregate)

  abbrev pub by_verdict : ℕ → Env A → CompiledRule A F → Verdict → CompiledRule A F × Bool
  by_verdict t env r fails = (r, false)
  by_verdict t env r skips = (r, true)
  by_verdict t env r passes = added t r (enriched env r.enrich env)

  -- One round of Process; false is its error.
  unfoldable pub process_rule : ℕ → Env A → CompiledRule A F → CompiledRule A F × Bool
  unfolding filter_verdict enriched add_to
  process_rule t env r = by_verdict t env r (filter_verdict r.filter env)

  abbrev pub in_front :
      CompiledRule A F → List (CompiledRule A F) × Bool → List (CompiledRule A F) × Bool
  in_front r (rs, ok) = (r ∷ rs, ok)

  abbrev pub go_on :
      CompiledRule A F × Bool
      → List (CompiledRule A F)
      → List (CompiledRule A F) × Bool
      → List (CompiledRule A F) × Bool
  go_on (r, true) rs rest = in_front r rest
  go_on (r, false) rs rest = (r ∷ rs, false)

  -- Process; it gives no metrics.
  unfoldable pub process : ℕ → Env A → List (CompiledRule A F) → List (CompiledRule A F) × Bool
  unfolding process_rule
  process t env [] = ([], true)
  process t env (r ∷ rs) = go_on (process_rule t env r) rs (process t env rs)

  -- RateAgg.finalize, in a window of so many nanoseconds.
  unfoldable pub finalize : ℕ → Metric ℕ → Metric F
  finalize window m = record {
    name = m.name;
    window = m.window;
    group = m.group;
    value = o.per_second (o.of_count m.value) window;
  }

  unfoldable pub as_float_metric : Metric ℕ → Metric F
  as_float_metric m = record {
    name = m.name;
    window = m.window;
    group = m.group;
    value = o.of_count m.value;
  }

  abbrev pub flushed_count : Aggregate A ℕ × List (Metric ℕ) → Aggregator A F × List (Metric F)
  flushed_count (a, ms) = (count a, map as_float_metric ms)

  abbrev pub flushed_rate : Aggregate A ℕ × List (Metric ℕ) → Aggregator A F × List (Metric F)
  flushed_rate (a, ms) = (rate a, map (finalize a.window) ms)

  abbrev pub flushed_sum :
      Program A → Aggregate A F × List (Metric F) → Aggregator A F × List (Metric F)
  flushed_sum value (a, ms) = (sum value a, ms)

  unfoldable pub flush_one : Bool → Aggregator A F → Aggregator A F × List (Metric F)
  unfolding flush final_flush finalize as_float_metric
  flush_one final (count a) = flushed_count (if final then final_flush a else flush a)
  flush_one final (rate a) = flushed_rate (if final then final_flush a else flush a)
  flush_one final (sum value a) = flushed_sum value (if final then final_flush a else flush a)

  abbrev pub flushed_rule :
      CompiledRule A F
      → Aggregator A F × List (Metric F)
      → List (CompiledRule A F) × List (Metric F)
      → List (CompiledRule A F) × List (Metric F)
  flushed_rule r (a, ms) (rs, others) = (record r { aggregate = a } ∷ rs, ms ++ others)

  -- Flush, and FlushAll for `final`.
  unfoldable pub flush_rules :
      Bool → List (CompiledRule A F) → List (CompiledRule A F) × List (Metric F)
  unfolding flush_one
  flush_rules final [] = ([], [])
  flush_rules final (r ∷ rs) = flushed_rule r (flush_one final r.aggregate) (flush_rules final rs)
