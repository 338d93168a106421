-- ===== src/Runs.antt =====
-- cmd/gt-mcp/run_registry.go: the runs that a user begins and ends, in memory and in a file each.
-- Times are nanoseconds. A name in the directory of runs has a record, or `none` where its run.json
-- cannot be read as one; a run id is one name of a directory.
pub mod Recovery
pub mod Restart
pub mod Naming
mod Examples
use gta.Base.{
  ℕ, zero, suc, ◌-◌, ◌/◌, Bool, true, false, not, Option, none, some, List, [], ◌∷◌, ltb, leb, ◌&&◌,
  if◌then◌else◌, String, ◌==◌, string_eq,
}
use gta.Base.Dict.{Dict, insert, delete, lookup}

pub data ℤ : Type 0 where
  pos negsuc : ℕ → ℤ

abbrev pub neg : ℕ → ℤ
neg zero = pos 0
neg (suc n) = negsuc n

-- The milliseconds from `b` to `a`, towards 0.
abbrev pub millis_between : ℕ → ℕ → ℤ
millis_between a b = if leb b a then pos ((a - b) / 1000000) else neg ((b - a) / 1000000)

pub record SnapshotBaseline : Type 0 where
  pub raw_packets : ℕ
  pub events : ℕ
  pub metrics : ℕ
  pub decode_errors : ℕ

pub record RunSummary : Type 0 where
  pub captured_flow_count : ℤ
  pub captured_message_count : ℤ
  pub client_request_count : ℤ
  pub server_message_count : ℤ
  pub decode_error_count : ℤ

pub record RunRecord : Type 0 where
  pub run_id : String
  pub session_id : String
  pub feature_name : String
  pub project_path : String
  pub plugin_name : String
  pub device : String
  pub filter : String
  pub port : ℕ
  pub time_from : ℕ
  pub time_to : Option ℕ
  pub duration_ms : ℤ
  pub isolation_mode : String
  pub capture_status : String
  pub baseline : SnapshotBaseline
  pub summary : Option RunSummary
  pub ended : Bool

abbrev pub Files : Type 0
Files = Dict String (Option RunRecord)

pub record RunRegistry : Type 0 where
  pub active_runs : Dict String RunRecord
  pub files : Files

-- What comes of a write: a new file, nothing, or a file that cannot be read.
pub data Write : Type 0 where
  written refused torn : Write

pub data Answer : Type 0 where
  ok already_exists not_found not_written : Answer

unfoldable pub persist : Write → RunRecord → RunRegistry → RunRegistry × Answer
unfolding insert
persist written rec r = (record r { files = insert rec.run_id (some rec) r.files }, ok)
persist refused rec r = (r, not_written)
persist torn rec r = (record r { files = insert rec.run_id none r.files }, not_written)

abbrev pub begin_if : Option RunRecord → Write → RunRecord → RunRegistry → RunRegistry × Answer
begin_if (some old) w rec r = (r, already_exists)
begin_if none w rec r =
    persist w rec (record r { active_runs = insert rec.run_id rec r.active_runs })

unfoldable pub begin : Write → RunRecord → RunRegistry → RunRegistry × Answer
unfolding persist insert lookup
begin w rec r = begin_if (lookup rec.run_id r.active_runs) w rec r

abbrev pub ended_record : ℕ → RunSummary → RunRecord → RunRecord
ended_record time_to summary rec = record rec {
  time_to = some time_to;
  duration_ms = millis_between time_to rec.time_from;
  summary = some summary;
  ended = true;
}

abbrev pub end_if :
    Option RunRecord → Write → String → ℕ → RunSummary → RunRegistry → RunRegistry × Answer
end_if none w id time_to summary r = (r, not_found)
end_if (some rec) w id time_to summary r =
    persist w (ended_record time_to summary rec)
      (record r { active_runs = delete id r.active_runs })

unfoldable pub end : Write → String → ℕ → RunSummary → RunRegistry → RunRegistry × Answer
unfolding persist delete lookup
end w id time_to summary r = end_if (lookup id r.active_runs) w id time_to summary r

abbrev pub from_file : Option (Option RunRecord) → Option RunRecord
from_file none = none
from_file (some f) = f

unfoldable pub get : String → RunRegistry → Option RunRecord
unfolding lookup
get id r = elim (lookup id r.active_runs) [
  | some rec ↦ some rec
  | none ↦ from_file (lookup id r.files)
]

abbrev pub hour : ℕ
hour = 3600000000000

abbrev pub lost_summary : RunSummary
lost_summary = record {
  captured_flow_count = negsuc 0;
  captured_message_count = negsuc 0;
  client_request_count = negsuc 0;
  server_message_count = negsuc 0;
  decode_error_count = negsuc 0;
}

-- One round of recover on a record; an old run that did not end is written back as ended.
unfoldable pub recover_run : ℕ → (String → Write) → RunRecord → RunRegistry → RunRegistry
unfolding persist insert
recover_run now w rec r =
    if rec.ended
    then r
    else if ltb hour (now - rec.time_from)
    then (persist (w rec.run_id) (record rec { ended = true; summary = some lost_summary }) r).0
    else record r { active_runs = insert rec.run_id rec r.active_runs }

unfoldable pub recover_files : ℕ → (String → Write) → Files → RunRegistry → RunRegistry
unfolding recover_run
recover_files now w [] r = r
recover_files now w ((name, none) ∷ rest) r = recover_files now w rest r
recover_files now w ((name, some rec) ∷ rest) r = recover_files now w rest (recover_run now w rec r)

-- NewRunRegistry on the files of an earlier run.
unfoldable pub recover : ℕ → (String → Write) → Files → RunRegistry
unfolding recover_files
recover now w files = recover_files now w files (record { active_runs = []; files = files })
