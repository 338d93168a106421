-- ===== src/Lease.antt =====
-- cmd/gt-pipeline/proxy_lease.go: the state of the proxy leases. A lease keeps its agent process
-- and two ports; a capture on it borrows a third port until the session ends. `Service` holds the
-- fields of `pipelineService` that the leases use. A `*proxyLease` that the code changes is the
-- entry of the map, under its id.
pub mod Ports
pub mod Start
pub mod Stop
pub mod Create
pub mod View
pub mod Ledger
pub mod Invariant
pub mod Conservation
pub mod Flows
pub mod Placement
pub mod Creation
pub mod History
pub mod Races
mod Examples
use gta.Base.{
  ℕ, suc, ◌+◌, String, Bool, true, false, not, ◌&&◌, ◌||◌, Option, none, some, List, [], ◌∷◌,
  length, eqb, ◌==◌, string_eq, if◌then◌else◌,
}
use gta.Base.Dict.{Dict, lookup, insert, delete}
use Ports.{PortRange, new_port_range, release}

pub record Agent : Type 0 where
  pub pid : ℕ
  pub running : Bool

pub record Lease : Type 0 where
  pub lease_id : String
  pub owner : String
  pub project_id : String
  pub plugin : String
  pub plugin_owners : List String
  pub include_hosts : List String
  pub include_ports : List ℕ
  pub device : String
  pub agent_port : ℕ
  pub ctrl_port : ℕ
  pub grpc_port : ℕ
  pub sticky : Bool
  pub session_id : String
  pub last_capture_at : ℕ
  pub capture_count : ℕ
  pub agent : Agent
  pub created_at : ℕ

pub record Service : Type 0 where
  pub leases : Dict String Lease
  pub agent_ports : PortRange
  pub ctrl_ports : PortRange
  pub grpc_ports : PortRange
  pub sticky_ports : Dict String ℕ

abbrev pub max_leases_per_owner : ℕ
max_leases_per_owner = 5

-- The service as it starts, with the three ranges of ports.
unfoldable pub new_service : Service
unfolding new_port_range
new_service = record {
  leases = [];
  agent_ports = new_port_range 12100 12199;
  ctrl_ports = new_port_range 19500 19599;
  grpc_ports = new_port_range 19100 19199;
  sticky_ports = [];
}

-- Who calls: `auth.OwnerFrom` and the admin mark of `auth.PrincipalFrom`.
pub record Caller : Type 0 where
  pub name : String
  pub is_admin : Bool

unfoldable pub count_leases : String → Dict String Lease → ℕ
count_leases owner [] = 0
count_leases owner ((_, l) ∷ m) =
    if l.owner == owner then suc (count_leases owner m) else count_leases owner m

-- A lease of somebody else reads as not found.
owned_by : Caller → Option Lease → Option Lease
owned_by c none = none
owned_by c (some l) = if c.is_admin || (l.owner == c.name) then some l else none

unfoldable pub get_lease_for_owner : Service → Caller → String → Option Lease
unfolding owned_by
get_lease_for_owner s c lease_id = owned_by c (lookup lease_id s.leases)

abbrev pub put : Service → Lease → Service
put s l = record s { leases = insert l.lease_id l s.leases }

-- The process of a lease ends by itself, as `agentProcess.running` will report.
exited : Service → Option Lease → Service
exited s none = s
exited s (some l) = put s (record l { agent = record { pid = l.agent.pid; running = false } })

unfoldable pub agent_exits : Service → String → Service
unfolding exited
agent_exits s lease_id = exited s (lookup lease_id s.leases)

-- The first lease of the map on this session.
unfoldable pub find_session : String → Dict String Lease → Option Lease
find_session session_id [] = none
find_session session_id ((_, l) ∷ m) =
    if l.session_id == session_id then some l else find_session session_id m

cleared : Service → ℕ → Option Lease → Service
cleared s now none = s
cleared s now (some l) = record s {
  leases =
      insert l.lease_id (record l { session_id = ""; grpc_port = 0; last_capture_at = now })
        s.leases;
  grpc_ports = release s.grpc_ports l.grpc_port;
}

unfoldable pub clear_lease_capture : Service → String → ℕ → Service
unfolding cleared
clear_lease_capture s session_id now = cleared s now (find_session session_id s.leases)

-- The ports of a lease that leaves the table go back to their ranges.
unfoldable pub release_ports : Service → Lease → Service
release_ports s l = record s {
  agent_ports = release s.agent_ports l.agent_port;
  ctrl_ports = release s.ctrl_ports l.ctrl_port;
  grpc_ports = if eqb l.grpc_port 0 then s.grpc_ports else release s.grpc_ports l.grpc_port;
}

reclaimed : Service → String → Option Lease → Service
unfolding release_ports
reclaimed s lease_id none = s
reclaimed s lease_id (some l) = release_ports (record s { leases = delete lease_id s.leases }) l

unfoldable pub reclaim_lease : Service → String → Service
unfolding reclaimed
reclaim_lease s lease_id = reclaimed s lease_id (lookup lease_id s.leases)

release_all : Service → Dict String Lease → Service
unfolding release_ports
release_all s [] = s
release_all s ((_, l) ∷ m) = release_all (release_ports s l) m

unfoldable pub cleanup_proxy_leases : Service → Service
unfolding release_all
cleanup_proxy_leases s = release_all (record s { leases = [] }) s.leases
