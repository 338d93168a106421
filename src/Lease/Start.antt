-- ===== src/Lease/Start.antt =====
-- proxy_lease.go: `StartLeaseCapture`. Each part that holds `leaseMu` is one step: `begin` checks
-- the lease and takes a port, `commit` records the session. What happens between them is the
-- environment's: `StartEnv` holds the outcomes of the probe, of the session and of the agent.
use gta.Base.{
  ℕ, ◌+◌, String, Bool, not, Option, none, some, List, [], ◌∷◌, ◌==◌, string_eq, if◌then◌else◌,
}
use gta.Base.Dict.{lookup}
use gta.Lease.Ports.{PortRange, allocate, release}
use gta.Lease.{Lease, Service, Caller, get_lease_for_owner, put, clear_lease_capture}

pub record StartRequest : Type 0 where
  pub lease_id : String
  pub plugin : String
  pub plugin_owners : List String
  pub include_hosts : List String
  pub include_ports : List ℕ

pub record StartEnv : Type 0 where
  pub bindable : ℕ → Bool
  pub session : Option String
  pub ready : Bool
  pub agent_started : Bool
  pub quiet_stop_ends : Bool
  pub now : ℕ

pub data StartError : Type 0 where
  not_found already_capturing agent_not_running ports_exhausted : StartError
  port_busy session_failed not_ready agent_refused : StartError

pub data StartResult : Type 0 where
  started : String → StartResult
  start_failed : StartError → StartResult

abbrev pub or_list {ℓ} : {A : Type ℓ} → List A → List A → List A
or_list [] ys = ys
or_list (x ∷ xs) ys = x ∷ xs

-- The parameters of the request, or else those of the lease. The agent gets the hosts and the ports
-- and the session the plugin; the owners are computed, but the session gets those of the request.
pub record Effective : Type 0 where
  pub plugin : String
  pub plugin_owners : List String
  pub hosts : List String
  pub ports : List ℕ

unfoldable pub effective : Lease → StartRequest → Effective
effective l req = record {
  plugin = if req.plugin == "" then l.plugin else req.plugin;
  plugin_owners = or_list req.plugin_owners l.plugin_owners;
  hosts = or_list req.include_hosts l.include_hosts;
  ports = or_list req.include_ports l.include_ports;
}

pub data Begun : Type 0 where
  refused : StartError → Begun
  port : Service → ℕ → Begun

unfoldable pub take_grpc_port : Service → Option (ℕ × PortRange) → Begun
take_grpc_port s none = refused ports_exhausted
take_grpc_port s (some (p, range)) = port (record s { grpc_ports = range }) p

unfoldable pub begin : Service → Lease → Begun
unfolding take_grpc_port
begin s l =
    if not (l.session_id == "")
    then refused already_capturing
    else if not l.agent.running
    then refused agent_not_running
    else take_grpc_port s (allocate s.grpc_ports)

-- The lease as it now stands in the table takes over the session; a lease that was reclaimed in
-- the meantime is no longer in the table, and what is written to it has no effect there.
unfoldable pub commit_to : Service → Option Lease → String → ℕ → ℕ → Service
commit_to s none session_id p now = s
commit_to s (some l) session_id p now = put s (record l {
  session_id = session_id;
  grpc_port = p;
  capture_count = l.capture_count + 1;
  last_capture_at = now;
})

unfoldable pub commit : Service → String → String → ℕ → ℕ → Service
unfolding commit_to
commit s lease_id session_id p now = commit_to s (lookup lease_id s.leases) session_id p now

unfoldable pub rollback : Service → ℕ → Service
rollback s p = record s { grpc_ports = release s.grpc_ports p }

-- `stopSessionQuiet`: a session that does end goes through `finalizeTask`, which clears it.
unfoldable pub stop_session_quiet : Service → StartEnv → String → Service
stop_session_quiet s env session_id =
    if env.quiet_stop_ends then clear_lease_capture s session_id env.now else s

-- From the probe on. `ready` and `agent_started` are read once the session is there.
unfoldable pub with_session : Service → Lease → StartEnv → ℕ → Option String → Service × StartResult
unfolding commit rollback stop_session_quiet
with_session s l env p none = (rollback s p, start_failed session_failed)
with_session s l env p (some session_id) =
    if not env.ready
    then (rollback (stop_session_quiet s env session_id) p, start_failed not_ready)
    else if not env.agent_started
    then (rollback (stop_session_quiet s env session_id) p, start_failed agent_refused)
    else (commit s l.lease_id session_id p env.now, started session_id)

unfoldable pub with_port : Service → Lease → StartEnv → Begun → Service × StartResult
unfolding rollback with_session
with_port s l env (refused e) = (s, start_failed e)
with_port s l env (port s' p) =
    if not (env.bindable p)
    then (rollback s' p, start_failed port_busy)
    else with_session s' l env p env.session

unfoldable pub on_lease : Service → StartEnv → Option Lease → Service × StartResult
unfolding with_port begin
on_lease s env none = (s, start_failed not_found)
on_lease s env (some l) = with_port s l env (begin s l)

unfoldable pub start_lease_capture :
    Service → Caller → StartRequest → StartEnv → Service × StartResult
unfolding on_lease
start_lease_capture s c req env = on_lease s env (get_lease_for_owner s c req.lease_id)
