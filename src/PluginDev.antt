-- ===== src/PluginDev.antt =====
-- pkg/plugindev/state.go and activate.go: the processes of plugins that the developer plane launches.
-- A launched process is a number, the one of its launchedProc, and the processes that the system runs
-- stand beside the tracker. Times, texts and the log files are left out, and so is the explanation of
-- a failure.
pub mod Tracked
pub mod History
pub mod Racing
mod Examples
use gta.Base.{
  [], ℕ, suc, ◌+◌, Bool, true, false, not, Option, none, some, ltb, ◌&&◌, if◌then◌else◌, String,
  ◌==◌, string_eq, eqb, nat_eq,
}
use gta.Base.Dict.{Dict, insert, delete, lookup}

pub data Action : Type 0 where
  build activation deactivation : Action

pub record LastAttempt : Type 0 where
  pub action : Action
  pub ok : Bool

-- The maps of Tracker, the exited flags, and the processes that run, each with its plugin.
pub record Tracker (Proof Verify : Type 0) : Type 0 where
  pub procs : Dict String ℕ
  pub last_try : Dict String LastAttempt
  pub validated : Dict String Proof
  pub last_verify : Dict String Verify
  pub exited : Dict ℕ Bool
  pub running : Dict ℕ String
  pub next : ℕ

pub data Outcome : Type 0 where
  launched : ℕ → Outcome
  no_name no_registry no_binary already_active start_failed died no_process kill_failed : Outcome
  stopped : ℕ → Outcome

abbrev pub is_known {ℓ} : {A : Type ℓ} → Option A → Bool
is_known none = false
is_known (some x) = true

abbrev pub is_same : ℕ → Option ℕ → Bool
is_same p none = false
is_same p (some q) = eqb q p

abbrev pub new_tracker : {Proof Verify : Type 0} → Tracker Proof Verify
new_tracker = record {
  procs = [];
  last_try = [];
  validated = [];
  last_verify = [];
  exited = [];
  running = [];
  next = 0;
}

module _ {Proof Verify : Type 0} where
  unfoldable pub record_attempt :
      String → Action → Bool → Tracker Proof Verify → Tracker Proof Verify
  unfolding insert
  record_attempt name action ok t = record t {
    last_try = insert name (record { action = action; ok = ok }) t.last_try;
  }

  -- RecordBuild; `ok` is false too where there is no response.
  unfoldable pub record_build : String → Bool → Tracker Proof Verify → Tracker Proof Verify
  unfolding record_attempt delete
  record_build name ok t =
      let t' = record_attempt name build ok t in
      if ok
      then record t' {
        validated = delete name t'.validated;
        last_verify = delete name t'.last_verify;
      }
      else t'

  unfoldable pub set_validated : String → Proof → Tracker Proof Verify → Tracker Proof Verify
  unfolding insert
  set_validated name p t = record t { validated = insert name p t.validated }

  unfoldable pub record_verify : String → Verify → Tracker Proof Verify → Tracker Proof Verify
  unfolding insert
  record_verify name v t = record t { last_verify = insert name v t.last_verify }

  unfoldable pub alive : Tracker Proof Verify → ℕ → Bool
  unfolding lookup
  alive t p = not (is_known (lookup p t.exited))

  abbrev pub live : Tracker Proof Verify → Option ℕ → Bool
  live t none = false
  live t (some p) = alive t p

  -- What the check in front of a launch looks for.
  unfoldable pub has_live : String → Tracker Proof Verify → Bool
  unfolding alive lookup
  has_live name t = live t (lookup name t.procs)

  -- cmd.Start and trackProc.
  unfoldable pub launch : String → Tracker Proof Verify → Tracker Proof Verify
  unfolding insert
  launch name t = record t {
    procs = insert name t.next t.procs;
    running = insert t.next name t.running;
    next = t.next + 1;
  }

  -- Activate up to the launch; without an outcome it goes on. Nothing is held between the check and
  -- the launch, so another call may come in between.
  unfoldable pub begin_activate :
      String → Bool → String → Tracker Proof Verify → Tracker Proof Verify × Option Outcome
  unfolding record_attempt has_live
  begin_activate registry has_binary name t =
      if name == ""
      then (t, some no_name)
      else if registry == ""
      then (t, some no_registry)
      else if not has_binary
      then (record_attempt name activation false t, some no_binary)
      else if has_live name t
      then (record_attempt name activation false t, some already_active)
      else (t, none)

  -- The launch and the wait; `stays` tells whether the process is alive at the end of it.
  unfoldable pub finish_activate :
      Bool → Bool → String → Tracker Proof Verify → Tracker Proof Verify × Outcome
  unfolding record_attempt launch
  finish_activate starts stays name t =
      if not starts
      then (record_attempt name activation false t, start_failed)
      else if stays
      then (record_attempt name activation true (launch name t), launched t.next)
      else (record_attempt name activation false (launch name t), died)

  abbrev pub go_on :
      Bool → Bool → String → Tracker Proof Verify × Option Outcome → Tracker Proof Verify × Outcome
  go_on starts stays name (t, none) = finish_activate starts stays name t
  go_on starts stays name (t, some o) = (t, o)

  unfoldable pub activate :
      String → Bool → Bool → Bool → String → Tracker Proof Verify → Tracker Proof Verify × Outcome
  unfolding begin_activate finish_activate
  activate registry has_binary starts stays name t =
      go_on starts stays name (begin_activate registry has_binary name t)

  -- Process.Kill and dropProc.
  unfoldable pub stop : String → ℕ → Tracker Proof Verify → Tracker Proof Verify
  unfolding delete
  stop name p t = record t { running = delete p t.running; procs = delete name t.procs }

  abbrev pub stop_found :
      Bool → String → Option ℕ → Tracker Proof Verify → Tracker Proof Verify × Outcome
  stop_found killed name none t = (record_attempt name deactivation false t, no_process)
  stop_found killed name (some p) t =
      if killed
      then (record_attempt name deactivation true (stop name p t), stopped p)
      else (record_attempt name deactivation false t, kill_failed)

  unfoldable pub deactivate : Bool → String → Tracker Proof Verify → Tracker Proof Verify × Outcome
  unfolding record_attempt stop lookup
  deactivate killed name t =
      if name == "" then (t, no_name) else stop_found killed name (lookup name t.procs) t

  -- A process comes to its end.
  abbrev pub ends : ℕ → Tracker Proof Verify → Tracker Proof Verify
  ends p t = record t { running = delete p t.running }

  unfoldable pub drop_if : String → ℕ → Tracker Proof Verify → Tracker Proof Verify
  unfolding delete lookup
  drop_if name p t =
      if is_same p (lookup name t.procs) then record t { procs = delete name t.procs } else t

  -- The goroutine of trackProc on a process that has come to its end.
  unfoldable pub wait_done : String → ℕ → Tracker Proof Verify → Tracker Proof Verify
  unfolding drop_if insert
  wait_done name p t = drop_if name p (record t { exited = insert p true t.exited })
