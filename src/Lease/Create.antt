-- ===== src/Lease/Create.antt =====
-- proxy_lease.go: `CreateProxyLease` and `allocateAgentPortLocked`. `CreateEnv` holds what the
-- probes, the agent's process and its control interface answer, the new id and the clock.
use gta.Base.{
  ℕ, String, Bool, true, false, not, Option, none, some, List, [], leb, ◌==◌, string_eq,
  if◌then◌else◌,
}
use Prim.Native.String.{◌++◌ as join}
use gta.Base.Dict.{lookup, insert}
use gta.Lease.Ports.{PortRange, allocate, reserve, release}
use gta.Lease.{Agent, Lease, Service, Caller, count_leases, max_leases_per_owner}
use gta.Lease.Start.{
  StartRequest, StartEnv, StartError, StartResult, started, start_failed, start_lease_capture,
}

pub record CreateRequest : Type 0 where
  pub project_id : String
  pub plugin : String
  pub plugin_owners : List String
  pub include_hosts : List String
  pub include_ports : List ℕ
  pub device : String
  pub no_sticky : Bool
  pub no_auto_start : Bool

pub record CreateEnv : Type 0 where
  pub bindable : ℕ → Bool
  pub spawned : Option ℕ
  pub running : Bool
  pub control_ready : Bool
  pub lease_id : String
  pub now : ℕ
  pub starting : StartEnv

pub data CreateError : Type 0 where
  over_limit no_ctrl_port agent_port_busy ctrl_port_busy : CreateError
  spawn_failed agent_exited control_not_ready : CreateError

pub data CreateResult : Type 0 where
  created : String → CreateResult
  created_idle : String → StartError → CreateResult
  create_failed : CreateError → CreateResult

unfoldable pub sticky_key : String → String → String
sticky_key owner device = join (join owner "|") device

unfoldable pub any_agent_port : PortRange → Option (ℕ × PortRange) → ℕ × Bool × PortRange
any_agent_port range none = (0, false, range)
any_agent_port range (some (p, range')) = (p, false, range')

unfoldable pub again_or_any : PortRange → Option ℕ → ℕ × Bool × PortRange
unfolding any_agent_port
again_or_any range none = any_agent_port range (allocate range)
again_or_any range (some p) =
    let (ok, range') = reserve range p in
    if ok then (p, true, range') else any_agent_port range (allocate range)

-- The port, whether it is the one of last time, and the range. Port 0 stands for no port.
unfoldable pub allocate_agent_port : Service → String → String → Bool → ℕ × Bool × PortRange
unfolding again_or_any
allocate_agent_port s owner device no_sticky =
    again_or_any s.agent_ports
      (if no_sticky then none else lookup (sticky_key owner device) s.sticky_ports)

pub record Placed : Type 0 where
  pub service : Service
  pub agent_port : ℕ
  pub ctrl_port : ℕ
  pub sticky : Bool

unfoldable pub with_ctrl_port :
    Service → ℕ → Bool → PortRange → Option (ℕ × PortRange) → Option Placed
with_ctrl_port s a sticky agents none = none
with_ctrl_port s a sticky agents (some (c, ctrls)) = some (record {
  service = record s { agent_ports = agents; ctrl_ports = ctrls };
  agent_port = a;
  ctrl_port = c;
  sticky = sticky;
})

-- Step 1, under the lock: both ports. Without a control port the agent's port goes back.
unfoldable pub place : Service → String → CreateRequest → Option Placed
unfolding allocate_agent_port with_ctrl_port
place s owner req =
    let (a, sticky, agents) = allocate_agent_port s owner req.device req.no_sticky in
    with_ctrl_port s a sticky agents (allocate s.ctrl_ports)

-- The service after a failed `place`: the agent's port was taken and given back.
unfoldable pub unplaced : Service → String → CreateRequest → Service
unfolding allocate_agent_port
unplaced s owner req =
    let (a, sticky, agents) = allocate_agent_port s owner req.device req.no_sticky in
    record s { agent_ports = release agents a }

pub data Launch : Type 0 where
  down : CreateError → Launch
  up : Agent → Launch

unfoldable pub launched : CreateEnv → Option ℕ → Launch
launched env none = down spawn_failed
launched env (some pid) =
    if not env.running
    then down agent_exited
    else if not env.control_ready
    then down control_not_ready
    else up (record { pid = pid; running = true })

-- Steps 2 to 4: probe both ports, spawn the agent, wait for its control interface.
unfoldable pub launch : CreateEnv → ℕ → ℕ → Launch
unfolding launched
launch env a c =
    if not (env.bindable a)
    then down agent_port_busy
    else if not (env.bindable c)
    then down ctrl_port_busy
    else launched env env.spawned

unfoldable pub release_both : Placed → Service
release_both p = record p.service {
  agent_ports = release p.service.agent_ports p.agent_port;
  ctrl_ports = release p.service.ctrl_ports p.ctrl_port;
}
  where
    open p use {service}

abbrev pub new_lease : CreateEnv → String → CreateRequest → Placed → Agent → Lease
new_lease env owner req p agent = record {
  lease_id = env.lease_id;
  owner = owner;
  project_id = req.project_id;
  plugin = req.plugin;
  plugin_owners = req.plugin_owners;
  include_hosts = req.include_hosts;
  include_ports = req.include_ports;
  device = req.device;
  agent_port = p.agent_port;
  ctrl_port = p.ctrl_port;
  grpc_port = 0;
  sticky = p.sticky;
  session_id = "";
  last_capture_at = 0;
  capture_count = 0;
  agent = agent;
  created_at = env.now;
}

-- Step 5, under the lock: the lease enters the table, and its port is remembered for the device.
unfoldable pub enter : CreateEnv → String → CreateRequest → Placed → Agent → Service
enter env owner req p agent = record service {
  leases = insert env.lease_id (new_lease env owner req p agent) service.leases;
  sticky_ports =
      if req.device == ""
      then service.sticky_ports
      else insert (sticky_key owner req.device) p.agent_port service.sticky_ports;
}
  where
    open p use {service}

unfoldable pub auto_start : Service × StartResult → String → Service × CreateResult
auto_start (s, started session_id) lease_id = (s, created lease_id)
auto_start (s, start_failed e) lease_id = (s, created_idle lease_id e)

abbrev pub start_request : String → StartRequest
start_request lease_id = record {
  lease_id = lease_id;
  plugin = "";
  plugin_owners = [];
  include_hosts = [];
  include_ports = [];
}

unfoldable pub entered : Service → Caller → CreateRequest → CreateEnv → Service × CreateResult
unfolding auto_start
entered s c req env =
    if req.no_auto_start
    then (s, created env.lease_id)
    else auto_start (start_lease_capture s c (start_request env.lease_id) env.starting) env.lease_id

unfoldable pub on_launch :
    Caller → CreateRequest → CreateEnv → Placed → Launch → Service × CreateResult
unfolding release_both entered enter
on_launch c req env p (down e) = (release_both p, create_failed e)
on_launch c req env p (up agent) =
    if leb max_leases_per_owner (count_leases c.name p.service.leases)
    then (release_both p, create_failed over_limit)
    else entered (enter env c.name req p agent) c req env

unfoldable pub on_place :
    Service → Caller → CreateRequest → CreateEnv → Option Placed → Service × CreateResult
unfolding unplaced on_launch launch
on_place s c req env none = (unplaced s c.name req, create_failed no_ctrl_port)
on_place s c req env (some p) = on_launch c req env p (launch env p.agent_port p.ctrl_port)

unfoldable pub create_proxy_lease :
    Service → Caller → CreateRequest → CreateEnv → Service × CreateResult
unfolding on_place place
create_proxy_lease s c req env =
    if leb max_leases_per_owner (count_leases c.name s.leases)
    then (s, create_failed over_limit)
    else on_place s c req env (place s c.name req)
