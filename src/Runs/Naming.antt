-- ===== src/Runs/Naming.antt =====
-- run_registry.go: GenerateRunID. How a sequence number is printed behind the prefix of a session, and
-- read from a name with that prefix, are arguments.
use gta.Base.{
  ℕ, ◌+◌, ◌≤◌, ◌≡◌, ◌∙◌, sym, ap, subst, Option, none, some, [], ◌∷◌, ltb, if◌then◌else◌, if_elim,
  arith, String, string_eq, ◌==◌, eq_iff, Option-cases, inl, inr,
}
use gta.Base.Dict.{lookup}
use gta.Runs.{Files}

-- A name without the prefix has no number; one with it that no number follows has 0.
pub record SessionNames : Type 0 where
  pub seq_of : String → Option ℕ
  pub name_of : ℕ → String

abbrev pub seq_or : Option ℕ → ℕ → ℕ
seq_or none best = best
seq_or (some seq) best = if ltb best seq then seq else best

unfoldable pub max_seq : SessionNames → Files → ℕ
max_seq names [] = 0
max_seq names ((name, f) ∷ rest) = seq_or (names.seq_of name) (max_seq names rest)

unfoldable pub generate_run_id : SessionNames → Files → String
unfolding max_seq
generate_run_id names files = names.name_of (max_seq names files + 1)

seq_or-best : (o : Option ℕ) (best : ℕ) → best ≤ seq_or o best
seq_or-best none best = omega arith
seq_or-best (some seq) best = ground arith

seq_or-seq : (o : Option ℕ) (seq best : ℕ) → o ≡ some seq → seq ≤ seq_or o best
seq_or-seq o seq best e = subst (λ z. seq ≤ seq_or z best) (sym e) (ground arith)

named-max_seq :
    (names : SessionNames) (id : String) (seq : ℕ) (files : Files) (f : Option _)
    → names.seq_of id ≡ some seq
    → lookup id files ≡ some f
    → seq ≤ max_seq names files
unfolding max_seq lookup
named-max_seq names id seq [] f e at = absurd cc
named-max_seq names id seq ((name, g) ∷ rest) f e at =
    if_elim (λ z. z ≡ some f → seq ≤ seq_or (names.seq_of name) (max_seq names rest)) (name == id) _
      _
      (λ t at'.
        seq_or-seq (names.seq_of name) seq (max_seq names rest)
          (ap (names.seq_of) ((eq_iff name id).0 t) ∙ e))
      (λ t at'.
        let below = named-max_seq names id seq rest f e at' in
        let best = seq_or-best (names.seq_of name) (max_seq names rest) in omega arith)
      at

-- A new id is the name of no file, provided a printed number is read back.
pub generate_run_id-fresh :
    (names : SessionNames) (files : Files)
    → ((n : ℕ) → names.seq_of (names.name_of n) ≡ some n)
    → lookup (generate_run_id names files) files ≡ none
unfolding generate_run_id
generate_run_id-fresh names files reads =
    elim (Option-cases (lookup (generate_run_id names files) files)) [
      | inl e ↦ e
      | inr (f, e) ↦ absurd (
          let low =
            named-max_seq names _ (max_seq names files + 1) files f
              (reads (max_seq names files + 1)) e in
          omega arith)
    ]
