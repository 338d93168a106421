-- ===== src/Analyze/Examples.antt =====
-- The theorems on aggregators at events grouped by two fields.
use gta.Base.{ℕ, ◌+◌, ◌/◌, ◌≡◌, refl, none, some, true, List, [], ◌∷◌, String, string_eq}
use gta.Base.Dict.{lookup, insert}
use gta.Analyze.{Env, Program, Values, group_key, window_start, new_agg}
use gta.Analyze.Windows.{Call, adds, flushes, flushes_all, step, run, events_in, run-flushed}
use gta.Analyze.Counts.{weight}
use gta.Analyze.Merging.{same_key_merges}

abbrev texts : Values String ℕ
texts = record {
  print = λ s. s;
  as_bool = λ s. some true;
  as_float = λ s. none;
  zero_float = 0;
  plus = λ x y. x + y;
  of_count = λ n. n;
  per_second = λ n window. n / window;
  group_number = λ i. "group";
}

abbrev field : String → Program String
field name env = lookup name env

abbrev by_fields : List (String × Program String)
by_fields = ("x", field "x") ∷ (("y", field "y") ∷ [])

abbrev first : Env String
first = ("x", "a|b") ∷ (("y", "c") ∷ [])

abbrev second : Env String
second = ("x", "a") ∷ (("y", "b|c") ∷ [])

-- A late event of the window at 10, behind one of the window at 20.
abbrev calls : List (Call String)
calls = adds 12 first ∷ (flushes ∷ (adds 21 second ∷ (adds 13 first ∷ [])))

run-flushed_example :
    weight 10 (step texts (run texts (new_agg 5 10 "hits" by_fields, []) calls) flushes_all).1
    ≡ events_in texts 10 10 by_fields calls
run-flushed_example = run-flushed texts 10 5 10 "hits" by_fields calls

two_in_window : events_in texts 10 10 by_fields calls ≡ 2
unfolding events_in group_key window_start lookup insert
two_in_window = refl

same_key_merges_example :
    (step texts
      (run texts (new_agg 5 10 "hits" by_fields, []) (adds 12 first ∷ (adds 13 second ∷ [])))
      flushes_all).1
    ≡ record {
      name = "hits";
      window = window_start 12 10;
      group = ("x", "a") ∷ (("y", "b|c") ∷ []);
      value = 2;
    }
      ∷ []
unfolding group_key window_start lookup insert
same_key_merges_example =
    same_key_merges texts 5 10 "hits" by_fields 12 13 first second
      (record { key = "a|b|c"; group = ("x", "a|b") ∷ (("y", "c") ∷ []) })
      (record { key = "a|b|c"; group = ("x", "a") ∷ (("y", "b|c") ∷ []) }) refl refl refl refl
