-- ===== src/Analyze.antt =====
-- pkg/analyze: the aggregators over windows of time (count.go, sum.go, rate.go, aggregator.go) and the
-- engine that feeds them (engine.go). The programs of expr-lang are functions of their environment, and
-- what they answer and the floats are types of `Values`. A time is the nanoseconds since Go's zero
-- time, the float of a count is the count until it leaves the engine, and a map is gone over in the
-- order of its entries.
pub mod Engine
pub mod Counts
pub mod Windows
pub mod Merging
mod Examples
use gta.Base.{
  ℕ, suc, ◌+◌, ◌-◌, ◌%◌, Bool, true, false, Option, none, some, List, [], ◌∷◌, ◌++◌, eqb,
  if◌then◌else◌, String, ◌==◌, string_eq,
}
use gta.Base.Dict.{Dict, insert, lookup}
use Prim.Native.String.{◌++◌ as join}

abbrev pub Env : Type 0 → Type 0
Env A = Dict String A

-- expr.Run on a compiled program; `none` is its error.
abbrev pub Program : Type 0 → Type 0
Program A = Env A → Option A

-- What the code does with an answer of a program and with floats: `%v`, the type assertions, the sum,
-- and the name of a group that has none.
pub record Values (A F : Type 0) : Type 0 where
  pub print : A → String
  pub as_bool : A → Option Bool
  pub as_float : A → Option F
  pub zero_float : F
  pub plus : F → F → F
  pub of_count : ℕ → F
  pub per_second : F → ℕ → F
  pub group_number : ℕ → String

pub record Metric (V : Type 0) : Type 0 where
  pub name : String
  pub window : ℕ
  pub group : Dict String String
  pub value : V

pub record Aggregate (A V : Type 0) : Type 0 where
  pub window : ℕ
  pub output : String
  pub group_by : List (String × Program A)
  pub state : Dict String V
  pub groups : Dict String (Dict String String)
  pub wstart : ℕ
  pub ready : List (Metric V)

pub record Group : Type 0 where
  pub key : String
  pub group : Dict String String

-- `Truncate`, which leaves a time alone where the window is 0.
unfoldable pub window_start : ℕ → ℕ → ℕ
window_start t window = if eqb window 0 then t else t - t % window

unfoldable pub new_agg : {A V : Type 0} → ℕ → ℕ → String → List (String × Program A) → Aggregate A V
unfolding window_start
new_agg now window output group_by = record {
  window = window;
  output = output;
  group_by = group_by;
  state = [];
  groups = [];
  wstart = window_start now window;
  ready = [];
}

abbrev pub join_bar : String → String → Bool → String
join_bar part rest is_last = if is_last then part else join (join part "|") rest

abbrev pub is_nil {ℓ} : {A : Type ℓ} → List A → Bool
is_nil [] = true
is_nil (x ∷ xs) = false

module _ {A F : Type 0} (o : Values A F) where
  unfoldable pub eval_string : Program A → Env A → Option String
  eval_string p env = elim (p env) [ none ↦ none | some x ↦ some (o.print x) ]

  unfoldable pub eval_float : Program A → Env A → Option F
  eval_float p env = elim (p env) [ none ↦ none | some x ↦ o.as_float x ]

  abbrev pub with_key : String → Bool → Option Group → Option Group
  with_key s is_last none = none
  with_key s is_last (some g) = some (record g { key = join_bar s g.key is_last })

  -- The loop of groupKey, with the group so far and the key of the rest.
  unfoldable pub group_parts :
      Env A → ℕ → Dict String String → List (String × Program A) → Option Group
  unfolding eval_string insert
  group_parts env i group [] = some (record { key = ""; group = group })
  group_parts env i group ((name, p) ∷ rest) = elim (eval_string p env) [
    | none ↦ none
    | some s ↦ with_key s (is_nil rest) (
        group_parts env (i + 1) (insert (if name == "" then o.group_number i else name) s group)
          rest)
  ]

  unfoldable pub group_key : List (String × Program A) → Env A → Option Group
  unfolding group_parts
  group_key [] env = some (record { key = "_"; group = ("group", "_") ∷ [] })
  group_key (p ∷ ps) env = group_parts env 0 [] (p ∷ ps)

module _ {V : Type 0} where
  -- One metric for each key of the window.
  unfoldable pub closed :
      String → ℕ → Dict String (Dict String String) → Dict String V → List (Metric V)
  unfolding lookup
  closed output wstart groups [] = []
  closed output wstart groups ((k, v) ∷ rest) =
      record {
        name = output;
        window = wstart;
        group = elim (lookup k groups) [ none ↦ [] | some g ↦ g ];
        value = v;
      }
      ∷ closed output wstart groups rest

  abbrev pub value_or : V → Option V → V
  value_or zero none = zero
  value_or zero (some v) = v

module _ {A V : Type 0} where
  unfoldable pub emit : Aggregate A V → List (Metric V)
  unfolding closed
  emit a = a.ready ++ closed a.output a.wstart a.groups a.state

  unfoldable pub roll : ℕ → Aggregate A V → Aggregate A V
  unfolding emit
  roll ws a =
      if eqb ws a.wstart
      then a
      else record a { ready = emit a; wstart = ws; state = []; groups = [] }

  -- `a.state[key] += v`, where a missing key reads as zero.
  unfoldable pub put_value : V → (V → V) → Group → Aggregate A V → Aggregate A V
  unfolding insert lookup
  put_value zero add g a = record a {
    state = insert g.key (add (value_or zero (lookup g.key a.state))) a.state;
    groups = insert g.key g.group a.groups;
  }

  unfoldable pub flush : Aggregate A V → Aggregate A V × List (Metric V)
  flush a = (record a { ready = [] }, a.ready)

  unfoldable pub final_flush : Aggregate A V → Aggregate A V × List (Metric V)
  unfolding emit
  final_flush a = (record a { ready = []; state = []; groups = [] }, emit a)

module _ {A F : Type 0} (o : Values A F) where
  abbrev pub count_in : Option Group → ℕ → Aggregate A ℕ → Aggregate A ℕ × Bool
  count_in none t a = (a, false)
  count_in (some g) t a = (put_value 0 suc g (roll (window_start t a.window) a), true)

  -- CountAgg.Add on an event at time `t`; false is its error.
  unfoldable pub count_add : ℕ → Env A → Aggregate A ℕ → Aggregate A ℕ × Bool
  unfolding group_key put_value roll window_start
  count_add t env a = count_in (group_key o a.group_by env) t a

  abbrev pub sum_in : Option Group → Option F → ℕ → Aggregate A F → Aggregate A F × Bool
  sum_in none v t a = (a, false)
  sum_in (some g) none t a = (a, false)
  sum_in (some g) (some v) t a =
      (put_value o.zero_float (λ x. o.plus x v) g (roll (window_start t a.window) a), true)

  -- SumAgg.Add.
  unfoldable pub sum_add : Program A → ℕ → Env A → Aggregate A F → Aggregate A F × Bool
  unfolding group_key eval_float put_value roll window_start
  sum_add value t env a = sum_in (group_key o a.group_by env) (eval_float o value env) t a
