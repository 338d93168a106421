-- ===== src/Baseline/Past.antt =====
-- baseline.go: the value before a change is the value after the last change that set it.
use gta.Base.{
  ℕ, ◌≡◌, ◌∙◌, refl, sym, ap, subst, true, false, not, Option, none, some, List, [], ◌∷◌, ◌&&◌,
  if◌then◌else◌, if_elim, arith, String, ◌==◌, string_eq, eq_self, Bool-cases, inl, inr, All,
}
use gta.Base.Dict.{insert, lookup, lookup-insert}
use gta.Dispatch.Events.{Value}
use gta.Baseline.{
  EntityKey, key_eq, same_key_iff, StateChange, EntityBaseline, BaselineStore, EnrichedStateChange,
  Origin, is_valid, is_null, key_of, base_or_new, known, with_before, updated, put_change,
  apply_change, and_result, apply_changes,
}

-- The changes so far with their entities, the last one first.
abbrev pub History : Type 0
History = List (EntityKey × StateChange)

-- The value that the last change of a path of an entity left.
unfoldable pub last_after : EntityKey → String → History → Option Value
last_after key path [] = none
last_after key path ((k, sc) ∷ past) =
    let earlier = last_after key path past in
    if (k == key) && ((sc.path == path) && not (is_null sc.after)) then some sc.after else earlier

-- The entity of a change: the session of the call, the flow of the event and the subject.
abbrev pub entity : Origin → StateChange → EntityKey
entity o sc = record {
  session_id = o.session_id;
  flow_id = o.flow_id;
  subject_type = sc.subject_type;
  subject_id = sc.subject_id;
}

abbrev pub after_all : Origin → List StateChange → History → History
after_all o [] past = past
after_all o (sc ∷ scs) past = after_all o scs ((entity o sc, sc) ∷ past)

-- What is to be answered for a change, by the value that is known before it.
abbrev pub answer : Origin → StateChange → Option Value → EnrichedStateChange
answer o sc none = record {
  change = sc;
  event_id = o.event_id;
  flow_id = o.flow_id;
  timestamp = o.now;
  entity_version = sc.version;
  before_resolved = false;
  after_resolved = not (is_null sc.after);
}
answer o sc (some v) = record {
  change = record {
    subject_type = sc.subject_type;
    subject_id = sc.subject_id;
    op = sc.op;
    path = sc.path;
    before = v;
    after = sc.after;
    version = sc.version;
    metadata = sc.metadata;
  };
  event_id = o.event_id;
  flow_id = o.flow_id;
  timestamp = o.now;
  entity_version = sc.version;
  before_resolved = true;
  after_resolved = not (is_null sc.after);
}

-- What is to be answered for the changes of an event.
unfoldable pub expected : Origin → List StateChange → History → List EnrichedStateChange
unfolding last_after
expected o [] past = []
expected o (sc ∷ scs) past =
    answer o sc (last_after (entity o sc) sc.path past) ∷ expected o scs ((entity o sc, sc) ∷ past)

with_before-answer :
    (o : Origin) (sc : StateChange) (old : Option Value) → with_before o sc old ≡ answer o sc old
unfolding with_before
with_before-answer o sc none = refl
with_before-answer o sc (some v) = refl

key_of-entity : (o : Origin) (sc : StateChange) → key_of o sc ≡ entity o sc
unfolding key_of
key_of-entity o sc = refl

-- The store knows what the history left, of every path of every entity.
pub record Agrees (s : BaselineStore) (past : History) : Type 0 where
  pub values :
      (key : EntityKey) (path : String) → known path (lookup key s) ≡ last_after key path past
  pub settled :
      (key : EntityKey) (b : EntityBaseline) → lookup key s ≡ some b → b.has_history ≡ true

known-updated :
    (now : ℕ) (sc : StateChange) (path : String) (b : Option EntityBaseline)
    → known path (some (updated now sc (base_or_new now b)))
      ≡ (if sc.path == path then some sc.after else lookup path (base_or_new now b).state)
unfolding known updated
known-updated now sc path b = lookup-insert sc.path path sc.after (base_or_new now b).state

-- Of a baseline with a history all values are known.
state_known :
    (now : ℕ) (path : String) (o : Option EntityBaseline)
    → ((b : EntityBaseline) → o ≡ some b → b.has_history ≡ true)
    → lookup path (base_or_new now o).state ≡ known path o
unfolding known lookup
state_known now path none h = refl
state_known now path (some b) h =
    if_elim (λ z. lookup path b.state ≡ z) b.has_history _ _ (λ e. refl)
      (λ e. absurd (ground (arith, e, h b refl)))

pub put_null :
    (o : Origin) (sc : StateChange) (s : BaselineStore)
    → is_null sc.after ≡ true
    → put_change o sc s ≡ s
unfolding put_change
put_null o sc s e =
    if_elim (λ z. z ≡ s) (is_null sc.after) _ _ (λ t. refl) (λ f. absurd (ground (arith, e, f)))

put_some :
    (o : Origin) (sc : StateChange) (s : BaselineStore)
    → is_null sc.after ≡ false
    → put_change o sc s
      ≡ insert (key_of o sc) (updated o.now sc (base_or_new o.now (lookup (key_of o sc) s))) s
unfolding put_change
put_some o sc s e =
    if_elim
      (λ z.
        z ≡ insert (key_of o sc) (updated o.now sc (base_or_new o.now (lookup (key_of o sc) s))) s)
      (is_null sc.after) _ _ (λ t. absurd (ground (arith, e, t))) (λ f. refl)

module _ (o : Origin) (sc : StateChange) (s : BaselineStore) (past : History)
    (h : Agrees s past) where
  -- A change without a value leaves all as it was.
  null-Agrees : is_null sc.after ≡ true → Agrees s ((key_of o sc, sc) ∷ past)
  unfolding last_after
  null-Agrees e = record {
    values = λ key path. h.values key path ∙ ground (arith, e);
    settled = h.settled;
  }

  fresh : EntityBaseline
  fresh = updated o.now sc (base_or_new o.now (lookup (key_of o sc) s))

  -- At the entity of the change.
  here :
      (path : String)
      → is_null sc.after ≡ false
      → known path (some fresh) ≡ last_after (key_of o sc) path ((key_of o sc, sc) ∷ past)
  unfolding fresh last_after
  here path e =
      known-updated o.now sc path (lookup (key_of o sc) s)
      ∙ ap (λ z. if sc.path == path then some sc.after else z)
          (state_known o.now path (lookup (key_of o sc) s) (h.settled (key_of o sc))
            ∙ h.values (key_of o sc) path)
      ∙ picked (eq_self (key_of o sc))
    where
      picked :
          (key_of o sc == key_of o sc) ≡ true
          → (if sc.path == path then some sc.after else last_after (key_of o sc) path past) ≡ (
              if (key_of o sc == key_of o sc) && ((sc.path == path) && not (is_null sc.after))
              then some sc.after
              else last_after (key_of o sc) path past)
      picked t = ground (arith, t, e)

  elsewhere :
      (key : EntityKey) (path : String)
      → (key_of o sc == key) ≡ false
      → known path (lookup key s) ≡ last_after key path ((key_of o sc, sc) ∷ past)
  unfolding last_after
  elsewhere key path e = h.values key path ∙ ground (arith, e)

  some-Agrees :
      is_null sc.after ≡ false → Agrees (insert (key_of o sc) fresh s) ((key_of o sc, sc) ∷ past)
  unfolding fresh updated
  some-Agrees e = record {
    values = λ key path.
        ap (known path) (lookup-insert (key_of o sc) key fresh s)
        ∙ if_elim (λ z. known path z ≡ last_after key path ((key_of o sc, sc) ∷ past))
            (key_of o sc == key) _ _
            (λ t.
              subst (λ k. known path (some fresh) ≡ last_after k path ((key_of o sc, sc) ∷ past))
                ((same_key_iff (key_of o sc) key).0 t) (here path e))
            (λ f. elsewhere key path f);
    settled = λ key b at.
        if_elim (λ z. z ≡ some b → b.has_history ≡ true) (key_of o sc == key) (some fresh)
          (lookup key s)
          (λ t same. let eq : fresh ≡ b = cc in subst (λ z. z.has_history ≡ true) eq refl)
          (λ f same. h.settled key b same) (sym (lookup-insert (key_of o sc) key fresh s) ∙ at);
  }

  put_change-Agrees : Agrees (put_change o sc s) ((key_of o sc, sc) ∷ past)
  unfolding updated fresh
  put_change-Agrees = elim (Bool-cases (is_null sc.after)) [
    | inl e ↦
        subst (λ t. Agrees t ((key_of o sc, sc) ∷ past)) (sym (put_null o sc s e)) (null-Agrees e)
    | inr e ↦
        subst (λ t. Agrees t ((key_of o sc, sc) ∷ past)) (sym (put_some o sc s e)) (some-Agrees e)
  ]

pub and_result-store :
    (e : EnrichedStateChange) (rest : BaselineStore × Option (List EnrichedStateChange))
    → (and_result e rest).0 ≡ rest.0
and_result-store e (s, none) = refl
and_result-store e (s, some es) = refl

pub and_some :
    (e : EnrichedStateChange) (es : List EnrichedStateChange)
    (rest : BaselineStore × Option (List EnrichedStateChange))
    → rest.1 ≡ some es
    → and_result e rest ≡ (rest.0, some (e ∷ es))
and_some e es (s, none) h = absurd (ground (arith, h))
and_some e es (s, some xs) h = ap (λ z. and_result e (s, z)) h

-- A valid change is answered, and the rest goes on from its store.
pub valid_round :
    (o : Origin) (sc : StateChange) (scs : List StateChange) (s : BaselineStore)
    → is_valid sc ≡ true
    → apply_changes o (sc ∷ scs) s
      ≡ and_result (apply_change o sc s).1 (apply_changes o scs (put_change o sc s))
unfolding apply_changes apply_change
valid_round o sc scs s ok =
    if_elim (λ z. z ≡ and_result (apply_change o sc s).1 (apply_changes o scs (put_change o sc s)))
      (is_valid sc) _ _ (λ t. refl) (λ f. absurd (ground (arith, f, ok)))

-- The changes of an event, if all are valid, are answered with the value before each of them as the
-- last change to the same path of the same entity left it, in this event or an earlier one, and
-- unresolved, with their own value before, where there was none; and the store agrees with the longer
-- history.
pub apply_changes-Agrees :
    (o : Origin) (scs : List StateChange) (s : BaselineStore) (past : History)
    → Agrees s past
    → All (λ sc. is_valid sc ≡ true) scs
    → ((apply_changes o scs s).1 ≡ some (expected o scs past))
      × Agrees (apply_changes o scs s).0 (after_all o scs past)
unfolding apply_changes apply_change expected
apply_changes-Agrees o [] s past h valid = (refl, h)
apply_changes-Agrees o (sc ∷ scs) s past h (ok, valid) =
    let key = key_of-entity o sc in
    let rest =
      apply_changes-Agrees o scs (put_change o sc s) ((entity o sc, sc) ∷ past)
        (subst (λ k. Agrees (put_change o sc s) ((k, sc) ∷ past)) key
          (put_change-Agrees o sc s past h))
        valid in
    let round = valid_round o sc scs s ok ∙ and_some _ _ _ rest.0 in
    let known_before = ap (λ k. known sc.path (lookup k s)) key ∙ h.values (entity o sc) sc.path in
    (
      ap (λ z. z.1) round
          ∙ ap (λ z. some (z ∷ expected o scs ((entity o sc, sc) ∷ past)))
              (ap (with_before o sc) known_before
                ∙ with_before-answer o sc (last_after (entity o sc) sc.path past)),
      subst (λ z. Agrees z (after_all o scs ((entity o sc, sc) ∷ past))) (sym (ap (λ z. z.0) round))
          rest.1,
    )
