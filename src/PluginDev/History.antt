-- ===== src/PluginDev/History.antt =====
-- state.go and activate.go: what any sequence of calls leaves running.
use gta.Base.{
  ℕ, ◌≡◌, ◌≢◌, refl, sym, ap, subst, Bool, true, false, not, Option, none, some, List, [], ◌∷◌,
  if◌then◌else◌, if_elim, arith, String, ◌==◌, string_eq, nat_eq, eq_iff, Option-cases, inl, inr,
  ltb, ◌&&◌,
}
use gta.Base.Dict.{lookup}
use gta.PluginDev.{
  Tracker, Outcome, stopped, new_tracker, is_known, activation, deactivation, record_attempt,
  has_live, begin_activate, finish_activate, go_on, activate, stop_found, deactivate, ends,
  wait_done,
}
use gta.PluginDev.Tracked.{Tracked, launch-Tracked, stop-Tracked, ends-Tracked, wait_done-Tracked}

-- What may happen in turn: a call, the end of a process, and its goroutine once it has ended.
pub data Step : Type 0 where
  activates : String → Bool → Bool → Bool → String → Step
  deactivates : Bool → String → Step
  comes_to_end : ℕ → Step
  is_waited_for : String → ℕ → Step

module _ {Proof Verify : Type 0} where
  unfoldable pub step : Step → Tracker Proof Verify → Tracker Proof Verify
  unfolding activate deactivate wait_done
  step (activates registry has_binary starts stays name) t =
      (activate registry has_binary starts stays name t).0
  step (deactivates killed name) t = (deactivate killed name t).0
  step (comes_to_end p) t = ends p t
  step (is_waited_for name p) t =
      if ltb p t.next && not (is_known (lookup p t.running)) then wait_done name p t else t

  unfoldable pub run : List Step → Tracker Proof Verify → Tracker Proof Verify
  unfolding step
  run [] t = t
  run (s ∷ steps) t = run steps (step s t)

  attempt-Tracked :
      (name : String) (ok : Bool) (t : Tracker Proof Verify) (a : _)
      → Tracked t
      → Tracked (record_attempt name a ok t)
  unfolding record_attempt
  attempt-Tracked name ok t a h = record {
    tracked = h.tracked;
    unmarked = h.unmarked;
    fresh = h.fresh;
  }

  finish-Tracked :
      (starts stays : Bool) (name : String) (t : Tracker Proof Verify)
      → has_live name t ≡ false
      → Tracked t
      → Tracked (finish_activate starts stays name t).0
  unfolding finish_activate
  finish-Tracked starts stays name t idle h =
      let P : Tracker Proof Verify × Outcome → Type 0 = λ z. Tracked z.0 in
      let new = launch-Tracked name t idle h in
      if_elim P (not starts) _ _ (λ b. attempt-Tracked name false t activation h)
        (λ b.
          if_elim P stays _ _ (λ b. attempt-Tracked name true _ activation new)
            (λ b. attempt-Tracked name false _ activation new))

  activate-Tracked :
      (registry : String) (has_binary starts stays : Bool) (name : String)
      (t : Tracker Proof Verify)
      → Tracked t
      → Tracked (activate registry has_binary starts stays name t).0
  unfolding activate begin_activate
  activate-Tracked registry has_binary starts stays name t h =
      let P : Tracker Proof Verify × Option Outcome → Type 0 =
        λ z. Tracked (go_on starts stays name z).0 in
      if_elim P (name == "") _ _ (λ b. h)
        (λ b.
          if_elim P (registry == "") _ _ (λ b. h)
            (λ b.
              if_elim P (not has_binary) _ _ (λ b. attempt-Tracked name false t activation h)
                (λ b.
                  if_elim P (has_live name t) _ _ (λ b. attempt-Tracked name false t activation h)
                    (λ idle. finish-Tracked starts stays name t idle h))))

  deactivate-Tracked :
      (killed : Bool) (name : String) (t : Tracker Proof Verify)
      → Tracked t
      → Tracked (deactivate killed name t).0
  unfolding deactivate
  deactivate-Tracked killed name t h =
      if_elim (λ (z : Tracker Proof Verify × Outcome). Tracked z.0) (name == "") _ _ (λ b. h)
        (λ b. elim (Option-cases (lookup name t.procs)) [
          | inl e ↦
              subst (λ o. Tracked (stop_found killed name o t).0) (sym e)
                (attempt-Tracked name false t deactivation h)
          | inr (p, e) ↦
              subst (λ o. Tracked (stop_found killed name o t).0) (sym e)
                (if_elim (λ (z : Tracker Proof Verify × Outcome). Tracked z.0) killed _ _
                  (λ b. attempt-Tracked name true _ deactivation (stop-Tracked name p t e h))
                  (λ b. attempt-Tracked name false t deactivation h))
        ])

  step-Tracked : (s : Step) (t : Tracker Proof Verify) → Tracked t → Tracked (step s t)
  unfolding step
  step-Tracked (activates registry has_binary starts stays name) t h =
      activate-Tracked registry has_binary starts stays name t h
  step-Tracked (deactivates killed name) t h = deactivate-Tracked killed name t h
  step-Tracked (comes_to_end p) t h = ends-Tracked p t h
  step-Tracked (is_waited_for name p) t h =
      if_elim (λ (z : Tracker Proof Verify). Tracked z)
        (ltb p t.next && not (is_known (lookup p t.running))) _ _
        (λ b.
          wait_done-Tracked name p t (ground (arith, b))
            (gone (lookup p t.running) (ground (arith, b))) h)
        (λ b. h)
    where
      gone : (o : Option String) → is_known o ≡ false → o ≡ none
      gone none e = refl
      gone (some x) e = absurd (ground (arith, e))

  run-Tracked : (steps : List Step) (t : Tracker Proof Verify) → Tracked t → Tracked (run steps t)
  unfolding run
  run-Tracked [] t h = h
  run-Tracked (s ∷ steps) t h = run-Tracked steps (step s t) (step-Tracked s t h)

  new-Tracked : Tracked (new_tracker {Proof = Proof} {Verify = Verify})
  unfolding lookup
  new-Tracked = record {
    tracked = λ p name e. absurd cc;
    unmarked = λ p name e. absurd cc;
    fresh = λ p le. refl;
  }

module _ (Proof Verify : Type 0) where
  -- Over any calls that do not overlap, with processes that end and are waited for at any time, a
  -- process that runs can be stopped: Deactivate finds it under the name of its plugin.
  pub run-deactivate :
      (steps : List Step) (p : ℕ) (name : String)
      → lookup p (run {Proof = Proof} {Verify = Verify} steps new_tracker).running ≡ some name
      → name ≢ ""
      → (deactivate true name (run {Proof = Proof} {Verify = Verify} steps new_tracker)).1
        ≡ stopped p
  unfolding deactivate
  run-deactivate steps p name e named =
      let h = run-Tracked steps new_tracker new-Tracked in
      if_elim (λ (z : Tracker Proof Verify × Outcome). z.1 ≡ stopped p) (name == "") _ _
        (λ b. absurd (named ((eq_iff name "").0 b)))
        (λ b.
          ap
            (λ o.
              (stop_found {Proof = Proof} {Verify = Verify} true name o (run steps new_tracker)).1)
            (h.tracked p name e))
