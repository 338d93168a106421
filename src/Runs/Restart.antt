-- ===== src/Runs/Restart.antt =====
-- run_registry.go: a restart against the calls before it.
use gta.Base.{
  ℕ, ◌-◌, ◌≡◌, ◌∙◌, refl, sym, ap, subst, true, false, Option, none, some, List, [], ◌∷◌, ltb,
  if◌then◌else◌, if_elim, arith, String, string_eq, ◌==◌, eq_self, eq_iff, Option-cases, inl, inr,
}
use gta.Base.Dict.{insert, lookup, lookup-insert, lookup-delete}
use gta.Runs.{
  RunRecord, RunRegistry, RunSummary, Files, Write, written, persist, begin, begin_if, end, end_if,
  ended_record, recover, hour,
}
use gta.Runs.Recovery.{taken_up, Named, Filed, recover_files-lookup}

-- A file of a run that did not end.
abbrev pub unended : Option (Option RunRecord) → Option RunRecord
unended none = none
unended (some none) = none
unended (some (some rec)) = if rec.ended then none else some rec

lookup-Named :
    (id : String) (files : Files) (rec : RunRecord)
    → Filed files
    → lookup id files ≡ some (some rec)
    → rec.run_id ≡ id
unfolding lookup
lookup-Named id [] rec h e = absurd cc
lookup-Named id ((name, f) ∷ rest) rec (alone, (owns, h)) at =
    if_elim (λ z. z ≡ some (some rec) → rec.run_id ≡ id) (name == id) _ _
      (λ t e.
        let same : f ≡ some rec = cc in subst (λ z. Named name z) same owns ∙ (eq_iff name id).0 t)
      (λ t e. lookup-Named id rest rec h e) at

insert-Filed :
    (files : Files) (id : String) (rec : RunRecord)
    → rec.run_id ≡ id
    → Filed files
    → Filed (insert id (some rec) files)
unfolding insert lookup
insert-Filed [] id rec owns h = (refl, (owns, tt))
insert-Filed ((name, f) ∷ rest) id rec owns (alone, (owns', h)) =
    if_elim (λ (m : Files). Filed m) (name == id) _ _
      (λ e. (subst (λ z. lookup z rest ≡ none) ((eq_iff name id).0 e) alone, (owns, h)))
      (λ e. (
        lookup-insert id name (some rec) rest
            ∙ if_elim (λ z. z ≡ none) (id == name) _ _
                (λ t. absurd (
                  let yes = subst (λ z. (z == id) ≡ true) ((eq_iff id name).0 t) (eq_self id) in
                  ground (arith, yes, e)))
                (λ t. alone),
        (owns', insert-Filed rest id rec owns h),
      ))

-- The registry and its files tell the same of each run.
pub record Holds (r : RunRegistry) : Type 0 where
  pub filed : Filed r.files
  pub agree : (id : String) → lookup id r.active_runs ≡ unended (lookup id r.files)

runs_on :
    (o : Option (Option RunRecord)) (rec : RunRecord)
    → unended o ≡ some rec
    → (o ≡ some (some rec)) × (rec.ended ≡ false)
runs_on none rec e = absurd cc
runs_on (some none) rec e = absurd cc
runs_on (some (some r)) rec e =
    if_elim (λ z. z ≡ some rec → (some (some r) ≡ some (some rec)) × (rec.ended ≡ false)) r.ended _
      _ (λ t e. absurd cc)
      (λ t e.
        let same : r ≡ rec = cc in
        (ap (λ z. some (some z)) same, subst (λ z. z.ended ≡ false) same t))
      e

begin-Holds :
    (rec : RunRecord) (r : RunRegistry)
    → rec.ended ≡ false
    → Holds r
    → Holds (begin written rec r).0
unfolding begin persist
begin-Holds rec r runs h = elim (Option-cases (lookup rec.run_id r.active_runs)) [
  | inr (old, e) ↦ subst (λ o. Holds (begin_if o written rec r).0) (sym e) h
  | inl e ↦
      subst (λ o. Holds (begin_if o written rec r).0) (sym e)
        (record {
          filed = insert-Filed r.files rec.run_id rec refl h.filed;
          agree = λ id.
              lookup-insert rec.run_id id rec r.active_runs
              ∙ if_elim
                  (λ z.
                    (if rec.run_id == id then some rec else lookup id r.active_runs) ≡ unended z)
                  (rec.run_id == id) (some (some rec)) (lookup id r.files)
                  (λ t. ground (arith, t, runs)) (λ f. ground (arith, f, h.agree id))
              ∙ ap unended (sym (lookup-insert rec.run_id id (some rec) r.files));
        })
]

end-Holds :
    (id : String) (time_to : ℕ) (summary : RunSummary) (r : RunRegistry)
    → Holds r
    → Holds (end written id time_to summary r).0
unfolding end persist
end-Holds id time_to summary r h = elim (Option-cases (lookup id r.active_runs)) [
  | inr (rec, e) ↦
      let found = runs_on (lookup id r.files) rec (sym (h.agree id) ∙ e) in
      let owns = lookup-Named id r.files rec h.filed found.0 in
      subst (λ o. Holds (end_if o written id time_to summary r).0) (sym e)
        (record {
          filed = insert-Filed r.files rec.run_id (ended_record time_to summary rec) refl h.filed;
          agree = λ at.
              lookup-delete id at r.active_runs
              ∙ if_elim (λ z. (if id == at then none else lookup at r.active_runs) ≡ unended z)
                  (id == at) (some (some (ended_record time_to summary rec))) (lookup at r.files)
                  (λ t. ground (arith, t)) (λ f. ground (arith, f, h.agree at))
              ∙ ap unended (
                  sym (
                    lookup-insert rec.run_id at (some (ended_record time_to summary rec)) r.files
                    ∙ ap
                        (λ z.
                          if z == at
                          then some (some (ended_record time_to summary rec))
                          else lookup at r.files)
                        owns));
        })
  | inl e ↦ subst (λ o. Holds (end_if o written id time_to summary r).0) (sym e) h
]

pub data Op : Type 0 where
  begins : (rec : RunRecord) → rec.ended ≡ false → Op
  ends : String → ℕ → RunSummary → Op

unfoldable pub step : Op → RunRegistry → RunRegistry
unfolding begin end
step (begins rec runs) r = (begin written rec r).0
step (ends id time_to summary) r = (end written id time_to summary r).0

unfoldable pub run : List Op → RunRegistry → RunRegistry
unfolding step
run [] r = r
run (op ∷ ops) r = run ops (step op r)

run-Holds : (ops : List Op) (r : RunRegistry) → Holds r → Holds (run ops r)
unfolding run step
run-Holds [] r h = h
run-Holds (begins rec runs ∷ ops) r h = run-Holds ops _ (begin-Holds rec r runs h)
run-Holds (ends id time_to summary ∷ ops) r h = run-Holds ops _ (end-Holds id time_to summary r h)

abbrev pub empty : RunRegistry
empty = record { active_runs = []; files = [] }

-- What a restart keeps of an active run.
abbrev pub young : ℕ → Option RunRecord → Option RunRecord
young now none = none
young now (some rec) = if ltb hour (now - rec.time_from) then none else some rec

taken-young :
    (now : ℕ) (o : Option (Option RunRecord)) → taken_up now o none ≡ young now (unended o)
taken-young now none = refl
taken-young now (some none) = refl
taken-young now (some (some rec)) =
    if_elim (λ z. taken_up now (some (some rec)) none ≡ young now z) rec.ended _ _
      (λ e. ground (arith, e)) (λ e. ground (arith, e))

-- After any calls of Begin and End whose files are written, a registry that starts on the files has
-- the active runs of the one before, with all they had, but for those begun more than an hour ago.
pub run-recover :
    (ops : List Op) (now : ℕ) (w : String → Write) (id : String)
    → lookup id (recover now w (run ops empty).files).active_runs
      ≡ young now (lookup id (run ops empty).active_runs)
unfolding recover lookup
run-recover ops now w id =
    let h = run-Holds ops empty (record { filed = tt; agree = λ id. refl }) in
    recover_files-lookup now w id (run ops empty).files _ h.filed
    ∙ taken-young now (lookup id (run ops empty).files)
    ∙ ap (young now) (sym (h.agree id))
