-- ===== src/Runs/Recovery.antt =====
-- run_registry.go: what recover makes of each file.
use gta.Base.{
  ℕ, ◌-◌, ◌≡◌, ◌∙◌, refl, sym, ap, subst, Bool, true, false, not, Option, none, some, [], ◌∷◌, ltb,
  ◌&&◌, if◌then◌else◌, if_elim, arith, String, string_eq, ◌==◌, eq_self, eq_iff,
}
use gta.Base.Dict.{lookup, lookup-insert}
use gta.Runs.{
  RunRecord, RunRegistry, Files, Write, written, refused, torn, persist, recover_files, recover_run,
  hour,
}

-- A run that a restart takes up again.
abbrev pub goes_on : ℕ → RunRecord → Bool
goes_on now rec = not rec.ended && not (ltb hour (now - rec.time_from))

abbrev pub taken_up : ℕ → Option (Option RunRecord) → Option RunRecord → Option RunRecord
taken_up now none other = other
taken_up now (some none) other = other
taken_up now (some (some rec)) other = if goes_on now rec then some rec else other

-- Each file stands once, under the name of its run.
abbrev pub Named : String → Option RunRecord → Type 0
Named name none = Unit
Named name (some rec) = rec.run_id ≡ name

abbrev pub Filed : Files → Type 0
Filed [] = Unit
Filed ((name, f) ∷ rest) = (lookup name rest ≡ none) × (Named name f × Filed rest)

persist-active :
    (w : Write) (rec : RunRecord) (r : RunRegistry)
    → (persist w rec r).0.active_runs ≡ r.active_runs
unfolding persist
persist-active written rec r = refl
persist-active refused rec r = refl
persist-active torn rec r = refl

recover_run-lookup :
    (now : ℕ) (w : String → Write) (id : String) (rec : RunRecord) (r : RunRegistry)
    → lookup id (recover_run now w rec r).active_runs
      ≡ (if goes_on now rec && (rec.run_id == id) then some rec else lookup id r.active_runs)
unfolding recover_run
recover_run-lookup now w id rec r =
    if_elim
      (λ (t : RunRegistry).
        lookup id t.active_runs
        ≡ (if goes_on now rec && (rec.run_id == id) then some rec else lookup id r.active_runs))
      rec.ended _ _ (λ e. ground (arith, e))
      (λ e.
        if_elim
          (λ (t : RunRegistry).
            lookup id t.active_runs
            ≡ (if goes_on now rec && (rec.run_id == id) then some rec else lookup id r.active_runs))
          (ltb hour (now - rec.time_from)) _ _
          (λ e'. ap (lookup id) (persist-active (w rec.run_id) _ r) ∙ ground (arith, e'))
          (λ e'. lookup-insert rec.run_id id rec r.active_runs ∙ ground (arith, e, e')))

module _ (now : ℕ) (w : String → Write) where
  same_name :
      (id name : String) (rec : RunRecord) (rest : Files) (other : Option RunRecord)
      → rec.run_id ≡ name
      → lookup name rest ≡ none
      → (name == id) ≡ true
      → taken_up now
          (lookup id rest)
          (if goes_on now rec && (rec.run_id == id) then some rec else other)
        ≡ (if goes_on now rec then some rec else other)
  same_name id name rec rest other owns alone e =
      let at : name ≡ id = (eq_iff name id).0 e in
      ap (λ z. taken_up now z (if goes_on now rec && (rec.run_id == id) then some rec else other))
        (subst (λ z. lookup z rest ≡ none) at alone)
      ∙ ap (λ (b : Bool). if goes_on now rec && b then some rec else other)
          (subst (λ z. (rec.run_id == z) ≡ true) (owns ∙ at) (eq_self rec.run_id))
      ∙ ground arith

  pub recover_files-lookup :
      (id : String) (files : Files) (r : RunRegistry)
      → Filed files
      → lookup id (recover_files now w files r).active_runs
        ≡ taken_up now (lookup id files) (lookup id r.active_runs)
  unfolding recover_files lookup
  recover_files-lookup id [] r h = refl
  recover_files-lookup id ((name, none) ∷ rest) r (alone, (owns, h)) =
      recover_files-lookup id rest r h
      ∙ if_elim
          (λ z.
            taken_up now (lookup id rest) (lookup id r.active_runs)
            ≡ taken_up now z (lookup id r.active_runs))
          (name == id) _ _
          (λ e.
            ap (λ z. taken_up now z (lookup id r.active_runs))
              (subst (λ z. lookup z rest ≡ none) ((eq_iff name id).0 e) alone))
          (λ e. refl)
  recover_files-lookup id ((name, some rec) ∷ rest) r (alone, (owns, h)) =
      recover_files-lookup id rest (recover_run now w rec r) h
      ∙ ap (taken_up now (lookup id rest)) (recover_run-lookup now w id rec r)
      ∙ if_elim
          (λ z.
            taken_up now (lookup id rest)
              (if goes_on now rec && (rec.run_id == id) then some rec else lookup id r.active_runs)
            ≡ taken_up now z (lookup id r.active_runs))
          (name == id) _ _ (λ e. same_name id name rec rest (lookup id r.active_runs) owns alone e)
          (λ e.
            ap
              (λ (b : Bool).
                taken_up now (lookup id rest)
                  (if goes_on now rec && b then some rec else lookup id r.active_runs))
              (subst (λ z. (z == id) ≡ false) (sym owns) e)
            ∙ ap (taken_up now (lookup id rest)) (ground arith))
