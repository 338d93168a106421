-- ===== src/PluginDev/Examples.antt =====
-- The theorems on launched processes at a plugin that is built anew and launched again.
use gta.Base.{
  ◌≡◌, ◌≢◌, refl, true, none, some, List, [], ◌∷◌, String, string_eq, nat_eq, arith, eq_iff,
}
use gta.Base.Dict.{lookup, insert, delete}
use gta.PluginDev.{
  stopped, no_process, new_tracker, Tracker, launched, launch, activate, begin_activate,
  finish_activate, deactivate, has_live, stop, wait_done, drop_if, record_attempt, alive,
}
use gta.PluginDev.History.{Step, activates, comes_to_end, is_waited_for, step, run, run-deactivate}
use gta.PluginDev.Racing.{racing_activates_orphan}

abbrev calls : List Step
calls =
    activates "r" true true true "p"
    ∷ (comes_to_end 0 ∷ (is_waited_for "p" 0 ∷ (activates "r" true true true "p" ∷ [])))

named : ◌≢◌ {A = String} "p" ""
named = ground (arith, eq_iff "p" "")

run-deactivate_example :
    (deactivate true "p" (run {Proof = String} {Verify = String} calls new_tracker)).1 ≡ stopped 1
unfolding run step activate begin_activate finish_activate deactivate has_live stop wait_done
    drop_if launch record_attempt alive lookup insert delete
run-deactivate_example = run-deactivate String String calls 1 "p" refl named

reached : ◌≢◌ {A = String} "r" ""
reached = ground (arith, eq_iff "r" "")

abbrev no_processes : Tracker String String
no_processes = new_tracker

racing_activates_orphan_example :
    let one = begin_activate "r" true "p" no_processes in
    let two = begin_activate "r" true "p" one.0 in
    let first = finish_activate true true "p" two.0 in
    let second = finish_activate true true "p" first.0 in
    let after = (deactivate true "p" second.0).0 in
    (one.1 ≡ none)
    × (two.1 ≡ none)
    × (first.1 ≡ launched 0)
    × (second.1 ≡ launched 1)
    × ((deactivate true "p" second.0).1 ≡ stopped 1)
    × ((deactivate true "p" after).1 ≡ no_process)
    × (lookup 0 after.running ≡ some "p")
unfolding has_live lookup
racing_activates_orphan_example =
    racing_activates_orphan "r" "r" "p" no_processes reached reached named refl
