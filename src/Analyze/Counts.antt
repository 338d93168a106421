-- ===== src/Analyze/Counts.antt =====
-- count.go: what an aggregator still has of a window.
use gta.Base.{
  ℕ, suc, ◌+◌, ◌≡◌, ◌∙◌, refl, ap, Bool, true, false, Option, some, List, [], ◌∷◌, ◌++◌, eqb,
  if◌then◌else◌, if_elim, arith, String, string_eq, ◌==◌,
}
use gta.Base.Dict.{Dict, insert, lookup}
use gta.Analyze.{Metric, Aggregate, Group, closed, emit, roll, value_or, put_value}

-- The values of the metrics of a window.
unfoldable pub weight : ℕ → List (Metric ℕ) → ℕ
weight w [] = 0
weight w (m ∷ ms) = let rest = weight w ms in if eqb m.window w then m.value + rest else rest

unfoldable pub total : Dict String ℕ → ℕ
total [] = 0
total ((k, v) ∷ rest) = v + total rest

pub weight-append :
    (w : ℕ) (ms ns : List (Metric ℕ)) → weight w (ms ++ ns) ≡ weight w ms + weight w ns
unfolding weight
weight-append w [] ns = omega arith
weight-append w (m ∷ ms) ns = ground (arith, weight-append w ms ns)

weight-closed :
    (w : ℕ) (output : String) (ws : ℕ) (groups : Dict String (Dict String String))
    (state : Dict String ℕ)
    → weight w (closed output ws groups state) ≡ (if eqb ws w then total state else 0)
unfolding weight closed total
weight-closed w output ws groups [] = ground arith
weight-closed w output ws groups ((k, v) ∷ rest) =
    ground (arith, weight-closed w output ws groups rest)

abbrev counted : Bool → ℕ → Option ℕ → ℕ
counted b v other = suc (value_or 0 (if b then some v else other))

count_entry :
    (k k' : String) (v : ℕ) (rest : Dict String ℕ) (b : Bool)
    → total (insert k (counted false v (lookup k rest)) rest) ≡ suc (total rest)
    → total (
        if b
        then (k, counted b v (lookup k rest)) ∷ rest
        else (k', v) ∷ insert k (counted b v (lookup k rest)) rest)
      ≡ suc (v + total rest)
unfolding total
count_entry k k' v rest true h = omega arith
count_entry k k' v rest false h = ground (arith, h)

total-insert :
    (k : String) (state : Dict String ℕ)
    → total (insert k (suc (value_or 0 (lookup k state))) state) ≡ suc (total state)
unfolding total insert lookup
total-insert k [] = refl
total-insert k ((k', v) ∷ rest) = count_entry k k' v rest (k' == k) (total-insert k rest)

pub regroup : (x y z g e : ℕ) → z ≡ g + y → e ≡ g + x → z + x ≡ y + e
regroup x y z g e h h' = omega arith

module _ {A : Type 0} where
  -- What an aggregator still has of a window: ready, or in the counts.
  abbrev pub kept : ℕ → Aggregate A ℕ → ℕ
  kept w a = weight w a.ready + (if eqb a.wstart w then total a.state else 0)

  pub weight-emit : (w : ℕ) (a : Aggregate A ℕ) → weight w (emit a) ≡ kept w a
  unfolding emit
  weight-emit w a =
      weight-append w a.ready (closed a.output a.wstart a.groups a.state)
      ∙ ap (λ n. weight w a.ready + n) (weight-closed w a.output a.wstart a.groups a.state)

  roll-wstart : (ws : ℕ) (a : Aggregate A ℕ) → (roll ws a).wstart ≡ ws
  unfolding roll
  roll-wstart ws a =
      if_elim (λ (b : Aggregate A ℕ). b.wstart ≡ ws) (eqb ws a.wstart) _ _ (λ e. ground (arith, e))
        (λ e. refl)

  -- To begin a window loses nothing of it and of the others.
  roll-kept : (w ws : ℕ) (a : Aggregate A ℕ) → kept w (roll ws a) ≡ kept w a
  unfolding roll total
  roll-kept w ws a =
      if_elim (λ (b : Aggregate A ℕ). kept w b ≡ kept w a) (eqb ws a.wstart) _ _ (λ e. refl)
        (λ e. ground (arith, weight-emit w a))

  put_value-kept :
      (w : ℕ) (g : Group) (a : Aggregate A ℕ)
      → kept w (put_value 0 suc g a) ≡ (if eqb a.wstart w then suc (kept w a) else kept w a)
  unfolding put_value
  put_value-kept w g a = ground (arith, total-insert g.key a.state)

  pub counts_once :
      (w ws : ℕ) (g : Group) (a : Aggregate A ℕ)
      → kept w (put_value 0 suc g (roll ws a)) ≡ (if eqb ws w then suc (kept w a) else kept w a)
  counts_once w ws g a =
      put_value-kept w g (roll ws a)
      ∙ ap (λ n. if eqb n w then suc (kept w (roll ws a)) else kept w (roll ws a))
          (roll-wstart ws a)
      ∙ ap (λ n. if eqb ws w then suc n else n) (roll-kept w ws a)
