-- ===== src/Analyze/Merging.antt =====
-- aggregator.go: groups whose parts join to the same key.
use gta.Base.{
  ℕ, suc, ◌+◌, ◌≡◌, ◌∙◌, refl, sym, ap, subst, Bool, none, some, List, [], ◌∷◌, ◌++◌, eqb,
  if◌then◌else◌, if_elim, arith, String, string_eq, eq_self,
}
use gta.Base.Dict.{Dict, insert, lookup}
use gta.Analyze.{
  Env, Values, Aggregate, Group, window_start, group_key, closed, emit, roll, value_or, put_value,
  final_flush, count_add, count_in, new_agg, Program,
}
use gta.Analyze.Windows.{adds, flushes_all, step, run}

-- An aggregator that has counted one key, so many times.
abbrev one_key : {A : Type 0} → Aggregate A ℕ → ℕ → String → ℕ → Dict String String → Aggregate A ℕ
one_key a ws k n group = record a { wstart = ws; state = (k, n) ∷ []; groups = (k, group) ∷ [] }

roll_same : {A : Type 0} (a : Aggregate A ℕ) → roll a.wstart a ≡ a
unfolding roll
roll_same {A = A} a =
    if_elim (λ (b : Aggregate A ℕ). b ≡ a) (eqb a.wstart a.wstart) _ _ (λ e. refl)
      (λ e. absurd (ground (arith, e)))

put_again :
    {A : Type 0} (a : Aggregate A ℕ) (ws n : ℕ) (g : Group) (group : Dict String String)
    → put_value 0 suc g (one_key a ws g.key n group) ≡ one_key a ws g.key (n + 1) g.group
unfolding put_value insert lookup
put_again a ws n g group =
    subst
      (λ (b : Bool).
        record (one_key a ws g.key n group) {
          state =
              if b
              then (g.key, suc (value_or 0 (if b then some n else none))) ∷ []
              else (g.key, n) ∷ ((g.key, suc (value_or 0 (if b then some n else none))) ∷ []);
          groups = if b then (g.key, g.group) ∷ [] else (g.key, group) ∷ ((g.key, g.group) ∷ []);
        }
        ≡ one_key a ws g.key (n + 1) g.group)
      (sym (eq_self g.key)) (ap (λ m. one_key a ws g.key m g.group) (omega arith))

one_closed :
    {A : Type 0} (a : Aggregate A ℕ) (ws : ℕ) (k : String) (group : Dict String String)
    → emit (one_key a ws k 2 group)
      ≡ a.ready ++ (record { name = a.output; window = ws; group = group; value = 2 } ∷ [])
unfolding emit closed lookup
one_closed a ws k group =
    subst
      (λ (b : Bool).
        a.ready
          ++ (record {
            name = a.output;
            window = ws;
            group = elim (if b then some group else none) [ none ↦ [] | some g ↦ g ];
            value = 2;
          }
              ∷ [])
        ≡ a.ready ++ (record { name = a.output; window = ws; group = group; value = 2 } ∷ []))
      (sym (eq_self k)) refl

module _ {A : Type 0} (now window ws : ℕ) (output : String)
    (group_by : List (String × Program A)) where
  abbrev fresh : Aggregate A ℕ
  fresh = new_agg now window output group_by

  first_count : (g : Group) → put_value 0 suc g (roll ws fresh) ≡ one_key fresh ws g.key 1 g.group
  unfolding new_agg roll put_value insert lookup emit closed
  first_count g =
      if_elim (λ (b : Aggregate A ℕ). put_value 0 suc g b ≡ one_key fresh ws g.key 1 g.group)
        (eqb ws fresh.wstart) _ _
        (λ e.
          ap (λ n. one_key fresh n g.key 1 g.group)
            (let same : fresh.wstart ≡ ws = ground (arith, e) in same))
        (λ e. refl)

  second_count :
      (g : Group) (group : Dict String String)
      → put_value 0 suc g (roll ws (one_key fresh ws g.key 1 group))
        ≡ one_key fresh ws g.key 2 g.group
  second_count g group =
      ap (put_value 0 suc g) (roll_same (one_key fresh ws g.key 1 group))
      ∙ put_again fresh ws 1 g group

module _ {A F : Type 0} (o : Values A F) (now window : ℕ) (output : String)
    (group_by : List (String × Program A)) where
  count_known :
      (t : ℕ) (env : Env A) (g : Group) (a : Aggregate A ℕ)
      → group_key o a.group_by env ≡ some g
      → (count_add o t env a).0 ≡ put_value 0 suc g (roll (window_start t a.window) a)
  unfolding count_add
  count_known t env g a e = ap (λ z. (count_in o z t a).0) e

  -- Two events of one window whose groups join to the same key are given out as one metric: it counts
  -- both, under the group of the second one.
  pub same_key_merges :
      (t t' : ℕ) (env env' : Env A) (g g' : Group)
      → group_key o group_by env ≡ some g
      → group_key o group_by env' ≡ some g'
      → g.key ≡ g'.key
      → window_start t window ≡ window_start t' window
      → (step o
          (run o (new_agg now window output group_by, []) (adds t env ∷ (adds t' env' ∷ [])))
          flushes_all).1
        ≡ record { name = output; window = window_start t window; group = g'.group; value = 2 } ∷ []
  unfolding step run final_flush new_agg
  same_key_merges t t' env env' g g' known known' same at =
      let ws = window_start t window in
      let one = new_agg now window output group_by in
      let first : (count_add o t env one).0 ≡ one_key one ws g'.key 1 g.group =
        count_known t env g one known
        ∙ first_count now window ws output group_by g
        ∙ ap (λ k. one_key one ws k 1 g.group) same in
      let second : (count_add o t' env' (one_key one ws g'.key 1 g.group)).0
          ≡ one_key one ws g'.key 2 g'.group =
        count_known t' env' g' (one_key one ws g'.key 1 g.group) known'
        ∙ ap (λ n. put_value 0 suc g' (roll n (one_key one ws g'.key 1 g.group))) (sym at)
        ∙ second_count now window ws output group_by g' g.group in
      ap emit (ap (λ a. (count_add o t' env' a).0) first ∙ second)
      ∙ one_closed one ws g'.key g'.group
