-- ===== src/Baseline.antt =====
-- pkg/state/baseline.go: the states of entities that the changes of events build up. The changes
-- of an event are found in Baseline.Extraction. The store is the one in memory, a version is given by
-- the 64 bits of an int64, and the mutex makes a call of Apply one step.
pub mod Past
pub mod Faults
pub mod Extraction
mod Examples
use gta.Base.{
  ℕ, Bool, ◌+◌, ◌%◌, ◌^◌, true, false, not, Option, none, some, List, [], ◌∷◌, ltb, leb, eqb, ◌&&◌,
  ◌||◌, if◌then◌else◌, String, ◌==◌, string_eq, ascii, Eq, ◌↔◌, ◌≡◌, arith, eq_iff,
}
use gta.Base.Dict.{Dict, insert, lookup}
use gta.Dispatch.Events.{Value, null}

pub record EntityKey : Type 0 where
  pub session_id : String
  pub flow_id : String
  pub subject_type : String
  pub subject_id : String

abbrev pub same_key : EntityKey → EntityKey → Bool
same_key a b =
    (a.session_id == b.session_id)
    && ((a.flow_id == b.flow_id)
        && ((a.subject_type == b.subject_type) && (a.subject_id == b.subject_id)))

pub same_key_iff : (a b : EntityKey) → (same_key a b ≡ true) ↔ (a ≡ b)
same_key_iff a b = ground (
  arith,
  eq_iff a.session_id b.session_id,
  eq_iff a.flow_id b.flow_id,
  eq_iff a.subject_type b.subject_type,
  eq_iff a.subject_id b.subject_id,
)

instance abbrev pub key_eq : Eq EntityKey
key_eq = record { beq = same_key; beq_iff = same_key_iff }

pub record StateChange : Type 0 where
  pub subject_type : String
  pub subject_id : String
  pub op : String
  pub path : String
  pub before : Value
  pub after : Value
  pub version : ℕ
  pub metadata : Value

pub record EntityBaseline : Type 0 where
  pub version : ℕ
  pub state : Dict String Value
  pub first_seen : ℕ
  pub last_seen : ℕ
  pub has_history : Bool

abbrev pub BaselineStore : Type 0
BaselineStore = Dict EntityKey EntityBaseline

pub record EnrichedStateChange : Type 0 where
  pub change : StateChange
  pub event_id : String
  pub flow_id : String
  pub timestamp : ℕ
  pub entity_version : ℕ
  pub before_resolved : Bool
  pub after_resolved : Bool

-- unicode.IsSpace.
abbrev pub is_space : ℕ → Bool
is_space c =
    (leb 9 c && leb c 13)
    || (eqb c 32
        || (eqb c 133
            || (eqb c 160
                || (eqb c 5760
                    || ((leb 8192 c && leb c 8202)
                        || (eqb c 8232
                            || (eqb c 8233 || (eqb c 8239 || (eqb c 8287 || eqb c 12288)))))))))

unfoldable pub all_space : List ℕ → Bool
all_space [] = true
all_space (c ∷ cs) = is_space c && all_space cs

-- strings.TrimSpace leaves nothing.
unfoldable pub is_blank : String → Bool
unfolding all_space ascii
is_blank s = all_space (ascii s)

-- StateChange.Validate answers nil.
unfoldable pub is_valid : StateChange → Bool
unfolding is_blank
is_valid sc =
    not (is_blank sc.subject_type)
    && (not (is_blank sc.subject_id)
        && (not (is_blank sc.op)
            && (not (is_blank sc.path)
                && ((sc.op == "set") || ((sc.op == "delete") || (sc.op == "merge"))))))

abbrev pub is_null : Value → Bool
is_null null = true
is_null _ = false

-- What an event brings to its changes.
pub record Origin : Type 0 where
  pub session_id : String
  pub flow_id : String
  pub event_id : String
  pub now : ℕ

unfoldable pub key_of : Origin → StateChange → EntityKey
key_of o sc = record {
  session_id = o.session_id;
  flow_id = o.flow_id;
  subject_type = sc.subject_type;
  subject_id = sc.subject_id;
}

abbrev pub base_or_new : ℕ → Option EntityBaseline → EntityBaseline
base_or_new now (some b) = b
base_or_new now none = record {
  version = 0;
  state = [];
  first_seen = now;
  last_seen = now;
  has_history = false;
}

-- The value of a path before the change, if the baseline has one.
unfoldable pub known : String → Option EntityBaseline → Option Value
unfolding lookup
known path none = none
known path (some b) = if b.has_history then lookup path b.state else none

-- The embedded StateChange gets the known value.
abbrev pub before_of : Value → StateChange → StateChange
before_of v sc = record sc { before = v }

unfoldable pub with_before : Origin → StateChange → Option Value → EnrichedStateChange
with_before o sc old = record {
  change = elim old [ some v ↦ before_of v sc | none ↦ sc ];
  event_id = o.event_id;
  flow_id = o.flow_id;
  timestamp = o.now;
  entity_version = sc.version;
  before_resolved = elim old [ some v ↦ true | none ↦ false ];
  after_resolved = not (is_null sc.after);
}

-- The order of two int64, each given by its 64 bits.
abbrev pub int_less : ℕ → ℕ → Bool
int_less a b = ltb ((a + 2 ^ 63) % 2 ^ 64) ((b + 2 ^ 63) % 2 ^ 64)

unfoldable pub updated : ℕ → StateChange → EntityBaseline → EntityBaseline
unfolding insert
updated now sc b = record {
  version = if int_less b.version sc.version then sc.version else b.version;
  state = insert sc.path sc.after b.state;
  first_seen = b.first_seen;
  last_seen = now;
  has_history = true;
}

unfoldable pub put_change : Origin → StateChange → BaselineStore → BaselineStore
unfolding updated key_of insert lookup
put_change o sc s =
    if is_null sc.after
    then s
    else insert (key_of o sc) (updated o.now sc (base_or_new o.now (lookup (key_of o sc) s))) s

-- One round of the loop.
unfoldable pub apply_change :
    Origin → StateChange → BaselineStore → BaselineStore × EnrichedStateChange
unfolding put_change with_before known key_of lookup
apply_change o sc s = (put_change o sc s, with_before o sc (known sc.path (lookup (key_of o sc) s)))

abbrev pub and_result :
    EnrichedStateChange
    → BaselineStore × Option (List EnrichedStateChange)
    → BaselineStore × Option (List EnrichedStateChange)
and_result e (s, none) = (s, none)
and_result e (s, some es) = (s, some (e ∷ es))

-- The loop; `none` is the error of an invalid change.
unfoldable pub apply_changes :
    Origin → List StateChange → BaselineStore → BaselineStore × Option (List EnrichedStateChange)
unfolding apply_change is_valid
apply_changes o [] s = (s, some [])
apply_changes o (sc ∷ scs) s =
    let (s', e) = apply_change o sc s in
    let rest = and_result e (apply_changes o scs s') in if is_valid sc then rest else (s, none)
