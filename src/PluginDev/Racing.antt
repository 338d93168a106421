-- ===== src/PluginDev/Racing.antt =====
-- activate.go: two calls of Activate that overlap.
use gta.Base.{
  ℕ, ◌+◌, ◌≡◌, ◌≢◌, ◌∙◌, refl, ap, sym, subst, true, false, Option, none, some, if_elim, arith,
  String, ◌==◌, string_eq, nat_eq, eq_iff,
}
use gta.Base.Dict.{
  lookup, lookup-insert_self, lookup-insert_ne, lookup-delete_self, lookup-delete_ne,
}
use gta.PluginDev.{
  Tracker, Outcome, stopped, no_process, launched, record_attempt, has_live, begin_activate,
  finish_activate, launch, stop, stop_found, deactivate,
}

module _ {Proof Verify : Type 0} where
  deactivate_found :
      (name : String) (t : Tracker Proof Verify) (o : Option ℕ)
      → name ≢ ""
      → lookup name t.procs ≡ o
      → deactivate true name t ≡ stop_found true name o t
  unfolding deactivate
  deactivate_found name t o named e =
      if_elim (λ (z : Tracker Proof Verify × Outcome). z ≡ stop_found true name o t) (name == "") _
        _ (λ b. absurd (named ((eq_iff name "").0 b))) (λ b. ap (λ z. stop_found true name z t) e)

  -- With no live process, a call passes the check and leaves the tracker as it is.
  begin_passes :
      (registry name : String) (t : Tracker Proof Verify)
      → registry ≢ ""
      → name ≢ ""
      → has_live name t ≡ false
      → begin_activate registry true name t ≡ (t, none)
  unfolding begin_activate
  begin_passes registry name t reached named idle =
      let P : Tracker Proof Verify × Option Outcome → Type 0 = λ z. z ≡ (t, none) in
      if_elim P (name == "") _ _ (λ b. absurd (named ((eq_iff name "").0 b)))
        (λ b.
          if_elim P (registry == "") _ _ (λ b. absurd (reached ((eq_iff registry "").0 b)))
            (λ b.
              if_elim P (has_live name t) _ _ (λ b. absurd (ground (arith, b, idle))) (λ b. refl)))

  -- What two launches from a tracker come to, where `t` is the one before them.
  abbrev Launched : String → Tracker Proof Verify → Tracker Proof Verify → Type 0
  Launched name t start =
      let first = finish_activate true true name start in
      let second = finish_activate true true name first.0 in
      let after = (deactivate true name second.0).0 in
      (first.1 ≡ launched t.next)
      × (second.1 ≡ launched (t.next + 1))
      × ((deactivate true name second.0).1 ≡ stopped (t.next + 1))
      × ((deactivate true name after).1 ≡ no_process)
      × (lookup t.next after.running ≡ some name)

  finish_twice : (name : String) (t : Tracker Proof Verify) → name ≢ "" → Launched name t t
  unfolding finish_activate launch stop record_attempt
  finish_twice name t named =
      let both = (finish_activate true true name (finish_activate true true name t).0).0 in
      let found =
        deactivate_found name both (some (t.next + 1)) named
          (lookup-insert_self name (t.next + 1) (launch name t).procs) in
      (
        refl,
        refl,
        ap (λ z. z.1) found,
        ap (λ z. (deactivate true name z.0).1) found
            ∙ ap (λ z. z.1)
                (deactivate_found name (stop_found true name (some (t.next + 1)) both).0 none named
                  (lookup-delete_self name both.procs)),
        ap (λ z. lookup t.next z.0.running) found
            ∙ lookup-delete_ne (t.next + 1) t.next both.running (λ e. omega arith)
            ∙ lookup-insert_ne (t.next + 1) t.next name (launch name t).running (λ e. omega arith)
            ∙ lookup-insert_self t.next name t.running,
      )

  -- Where a plugin has a binary but no live process, of two calls of Activate that both come to the
  -- launch before either does it, each passes the check and launches a process, if both processes
  -- start and stay up, and the tracker has the second only: a Deactivate whose kill succeeds stops that
  -- one, a further Deactivate finds nothing to stop, and the first process still runs.
  pub racing_activates_orphan :
      (registry registry' name : String) (t : Tracker Proof Verify)
      → registry ≢ ""
      → registry' ≢ ""
      → name ≢ ""
      → has_live name t ≡ false
      → let one = begin_activate registry true name t in
        let two = begin_activate registry' true name one.0 in
        let first = finish_activate true true name two.0 in
        let second = finish_activate true true name first.0 in
        let after = (deactivate true name second.0).0 in
        (one.1 ≡ none)
        × (two.1 ≡ none)
        × (first.1 ≡ launched t.next)
        × (second.1 ≡ launched (t.next + 1))
        × ((deactivate true name second.0).1 ≡ stopped (t.next + 1))
        × ((deactivate true name after).1 ≡ no_process)
        × (lookup t.next after.running ≡ some name)
  racing_activates_orphan registry registry' name t reached reached' named idle =
      let once = begin_passes registry name t reached named idle in
      let twice =
        ap (λ z. begin_activate registry' true name z.0) once
        ∙ begin_passes registry' name t reached' named idle in
      let (one_launches, other_launches, stops, nothing, runs) =
        subst (Launched name t) (sym (ap (λ z. z.0) twice)) (finish_twice name t named) in
      (ap (λ z. z.1) once, ap (λ z. z.1) twice, one_launches, other_launches, stops, nothing, runs)
