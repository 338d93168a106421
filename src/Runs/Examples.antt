-- ===== src/Runs/Examples.antt =====
-- The theorems on runs at a registry that began two and ended one.
use gta.Base.{◌≡◌, refl, none, false, List, [], ◌∷◌, string_eq}
use gta.Base.Dict.{lookup}
use gta.Runs.{RunRecord, written, pos, lost_summary, recover}
use gta.Runs.Restart.{Op, begins, ends, run, empty, young, run-recover}

abbrev first : RunRecord
first = record {
  run_id = "run_s_001";
  session_id = "s";
  feature_name = "login";
  project_path = "";
  plugin_name = "p";
  device = "";
  filter = "";
  port = 0;
  time_from = 7;
  time_to = none;
  duration_ms = pos 0;
  isolation_mode = "reuse_existing";
  capture_status = "running";
  baseline = record { raw_packets = 1; events = 2; metrics = 3; decode_errors = 0 };
  summary = none;
  ended = false;
}

abbrev second : RunRecord
second = record first { run_id = "run_s_002" }

abbrev calls : List Op
calls = begins first refl ∷ (begins second refl ∷ (ends "run_s_001" 9000000 lost_summary ∷ []))

run-recover_example :
    lookup "run_s_002" (recover 100 (λ id. written) (run calls empty).files).active_runs
    ≡ young 100 (lookup "run_s_002" (run calls empty).active_runs)
run-recover_example = run-recover calls 100 (λ id. written) "run_s_002"
