-- ===== src/PluginDev/Tracked.antt =====
-- state.go and activate.go: calls one after the other keep every process that runs in the tracker.
use gta.Base.{
  ℕ, ◌≤◌, ◌<◌, ◌≡◌, ◌≢◌, ◌∙◌, sym, ap, subst, Bool, true, false, not, none, some, if◌then◌else◌,
  if_elim, arith, String, ◌==◌, string_eq, eqb, nat_eq, eq_iff, eq_self,
}
use gta.Base.Dict.{insert, delete, lookup, lookup-insert, lookup-delete}
use gta.PluginDev.{
  Tracker, is_known, alive, live, has_live, launch, stop, ends, is_same, drop_if, wait_done,
}

only : (p q : ℕ) → some p ≡ some q → p ≡ q
only p q e = cc

module _ {Proof Verify : Type 0} where
  -- Each process that runs is the one of its plugin, and is not marked as exited; numbers that are
  -- not given out yet are not marked.
  pub record Tracked (t : Tracker Proof Verify) : Type 0 where
    pub tracked :
        (p : ℕ) (name : String) → lookup p t.running ≡ some name → lookup name t.procs ≡ some p
    pub unmarked :
        (p : ℕ) (name : String) → lookup p t.running ≡ some name → lookup p t.exited ≡ none
    pub fresh : (p : ℕ) → t.next ≤ p → lookup p t.exited ≡ none

  alive_of : (t : Tracker Proof Verify) (p : ℕ) → lookup p t.exited ≡ none → alive t p ≡ true
  unfolding alive
  alive_of t p e = ap (λ o. not (is_known o)) e

  -- The process that is launched is the only one of its plugin.
  pub launch-Tracked :
      (name : String) (t : Tracker Proof Verify)
      → has_live name t ≡ false
      → Tracked t
      → Tracked (launch name t)
  unfolding launch has_live
  launch-Tracked name t idle h = record {
    tracked = λ p at e.
        if_elim (λ z. z ≡ some at → lookup at (insert name t.next t.procs) ≡ some p) (t.next == p)
          (some name) (lookup p t.running)
          (λ b e'.
            let same : name ≡ at = cc in
            lookup-insert name at t.next t.procs
            ∙ subst (λ z. (if name == z then some t.next else lookup z t.procs) ≡ some p) same
                (subst (λ (c : Bool). (if c then some t.next else lookup name t.procs) ≡ some p)
                  (sym (eq_self name)) (ap some ((nat_eq.beq_iff t.next p).0 b))))
          (λ b e'.
            lookup-insert name at t.next t.procs
            ∙ if_elim (λ z. z ≡ some p) (name == at) (some t.next) (lookup at t.procs)
                (λ b'. absurd (busy p at e' ((eq_iff name at).0 b'))) (λ b'. h.tracked p at e'))
          (sym (lookup-insert t.next p name t.running) ∙ e);
    unmarked = λ p at e.
        if_elim (λ z. z ≡ some at → lookup p t.exited ≡ none) (t.next == p) (some name)
          (lookup p t.running) (λ b e'. h.fresh p (ground (arith, b))) (λ b e'. h.unmarked p at e')
          (sym (lookup-insert t.next p name t.running) ∙ e);
    fresh = λ p le. h.fresh p (omega arith);
  }
    where
      busy : (p : ℕ) (at : String) → lookup p t.running ≡ some at → name ≢ at
      busy p at e same =
          let yes =
            ap (live t) (subst (λ z. lookup z t.procs ≡ some p) (sym same) (h.tracked p at e))
            ∙ alive_of t p (h.unmarked p at e) in
          ground (arith, yes, idle)

  pub stop-Tracked :
      (name : String) (p : ℕ) (t : Tracker Proof Verify)
      → lookup name t.procs ≡ some p
      → Tracked t
      → Tracked (stop name p t)
  unfolding stop
  stop-Tracked name p t at h = record {
    tracked = λ q other e.
        if_elim (λ z. z ≡ some other → lookup other (delete name t.procs) ≡ some q) (p == q) none
          (lookup q t.running) (λ b e'. absurd cc)
          (λ b e'.
            lookup-delete name other t.procs
            ∙ if_elim (λ z. z ≡ some q) (name == other) none (lookup other t.procs)
                (λ b'. absurd (
                  let here =
                    subst (λ z. lookup z t.procs ≡ some q) (sym ((eq_iff name other).0 b'))
                      (h.tracked q other e') in
                  let same : p ≡ q = only p q (sym at ∙ here) in ground (arith, b, same)))
                (λ b'. h.tracked q other e'))
          (sym (lookup-delete p q t.running) ∙ e);
    unmarked = λ q other e.
        if_elim (λ z. z ≡ some other → lookup q t.exited ≡ none) (p == q) none (lookup q t.running)
          (λ b e'. absurd cc) (λ b e'. h.unmarked q other e')
          (sym (lookup-delete p q t.running) ∙ e);
    fresh = h.fresh;
  }

  pub ends-Tracked : (p : ℕ) (t : Tracker Proof Verify) → Tracked t → Tracked (ends p t)
  ends-Tracked p t h = record {
    tracked = λ q name e. h.tracked q name (still q name e);
    unmarked = λ q name e. h.unmarked q name (still q name e);
    fresh = h.fresh;
  }
    where
      still :
          (q : ℕ) (name : String)
          → lookup q (delete p t.running) ≡ some name
          → lookup q t.running ≡ some name
      still q name e =
          if_elim (λ z. z ≡ some name → lookup q t.running ≡ some name) (p == q) none
            (lookup q t.running) (λ b e'. absurd cc) (λ b e'. e')
            (sym (lookup-delete p q t.running) ∙ e)

  -- The goroutine of an old process leaves the one that was launched since in the tracker.
  pub wait_done-Tracked :
      (name : String) (p : ℕ) (t : Tracker Proof Verify)
      → p < t.next
      → lookup p t.running ≡ none
      → Tracked t
      → Tracked (wait_done name p t)
  unfolding wait_done drop_if
  wait_done-Tracked name p t old ended h =
      if_elim (λ (z : Tracker Proof Verify). Tracked z) (is_same p (lookup name t.procs)) _ _
        (λ b. record {
          tracked = λ q other e.
              lookup-delete name other t.procs
              ∙ if_elim (λ z. z ≡ some q) (name == other) none (lookup other t.procs)
                  (λ b'. absurd (
                    let here =
                      subst (λ z. lookup z t.procs ≡ some q) (sym ((eq_iff name other).0 b'))
                        (h.tracked q other e) in
                    let same : eqb q p ≡ true = sym (ap (is_same p) here) ∙ b in
                    let at : p ≡ q = ground (arith, same) in not_running q other at e))
                  (λ b'. h.tracked q other e);
          unmarked = λ q other e. unmarked_still q other e;
          fresh = λ q le. fresh_still q le;
        })
        (λ b. record {
          tracked = h.tracked;
          unmarked = λ q other e. unmarked_still q other e;
          fresh = λ q le. fresh_still q le;
        })
    where
      not_running : (q : ℕ) (other : String) → p ≡ q → lookup q t.running ≢ some other
      not_running q other same e =
          let gone = subst (λ z. lookup z t.running ≡ none) same ended in
          let clash : none ≡ some other = sym gone ∙ e in cc

      fresh_still : (q : ℕ) → t.next ≤ q → lookup q (insert p true t.exited) ≡ none
      fresh_still q le =
          lookup-insert p q true t.exited
          ∙ if_elim (λ z. z ≡ none) (p == q) (some true) (lookup q t.exited)
              (λ b. absurd (ground (arith, b, old, le))) (λ b. h.fresh q le)

      unmarked_still :
          (q : ℕ) (other : String)
          → lookup q t.running ≡ some other
          → lookup q (insert p true t.exited) ≡ none
      unmarked_still q other e =
          lookup-insert p q true t.exited
          ∙ if_elim (λ z. z ≡ none) (p == q) (some true) (lookup q t.exited)
              (λ b. absurd (not_running q other ((nat_eq.beq_iff p q).0 b) e))
              (λ b. h.unmarked q other e)
