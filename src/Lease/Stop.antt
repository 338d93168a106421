-- ===== src/Lease/Stop.antt =====
-- proxy_lease.go: `StopLeaseCapture` and `ReleaseProxyLease`. `StopOutcome` is what `StopSession`
-- answers: the session has ended, and `finalizeTask` has cleared it; there is no such session; or
-- an error, after which the session may still end later. `ctrl.StopCapture` only logs its error.
use gta.Base.{ℕ, String, Option, none, some, ◌==◌, string_eq, if◌then◌else◌}
use gta.Lease.{Lease, Service, Caller, get_lease_for_owner, clear_lease_capture, reclaim_lease}

pub data StopOutcome : Type 0 where
  ended no_active_capture stop_error : StopOutcome

pub data StopResult : Type 0 where
  stopped : String → StopResult
  lease_not_found not_capturing session_error : StopResult

-- `StopSession` as the service sees it.
unfoldable pub stop_session : Service → String → StopOutcome → ℕ → Service
stop_session s session_id ended now = clear_lease_capture s session_id now
stop_session s session_id no_active_capture now = s
stop_session s session_id stop_error now = s

unfoldable pub after_stop : Service → String → StopOutcome → ℕ → Service × StopResult
unfolding stop_session
after_stop s session_id stop_error now = (stop_session s session_id stop_error now, session_error)
after_stop s session_id outcome now =
    (clear_lease_capture (stop_session s session_id outcome now) session_id now, stopped session_id)

unfoldable pub stop_on : Service → StopOutcome → ℕ → Option Lease → Service × StopResult
unfolding after_stop
stop_on s outcome now none = (s, lease_not_found)
stop_on s outcome now (some l) =
    if l.session_id == "" then (s, not_capturing) else after_stop s l.session_id outcome now

unfoldable pub stop_lease_capture :
    Service → Caller → String → StopOutcome → ℕ → Service × StopResult
unfolding stop_on
stop_lease_capture s c lease_id outcome now =
    stop_on s outcome now (get_lease_for_owner s c lease_id)

unfoldable pub release_capturing :
    Service → String → String → StopOutcome → ℕ → Service × StopResult
unfolding stop_session
release_capturing s lease_id session_id stop_error now =
    (stop_session s session_id stop_error now, session_error)
release_capturing s lease_id session_id outcome now =
    (reclaim_lease (stop_session s session_id outcome now) lease_id, stopped session_id)

unfoldable pub release_on : Service → String → StopOutcome → ℕ → Option Lease → Service × StopResult
unfolding release_capturing
release_on s lease_id outcome now none = (s, lease_not_found)
release_on s lease_id outcome now (some l) =
    if l.session_id == ""
    then (reclaim_lease s lease_id, stopped "")
    else release_capturing s lease_id l.session_id outcome now

unfoldable pub release_proxy_lease :
    Service → Caller → String → StopOutcome → ℕ → Service × StopResult
unfolding release_on
release_proxy_lease s c lease_id outcome now =
    release_on s lease_id outcome now (get_lease_for_owner s c lease_id)
