-- ===== src/Lease/View.antt =====
-- proxy_lease.go: `ListProxyLeases`, `GetProxyLease` and the fields of `buildLeaseView` that come
-- from the lease itself. `running_task` answers for `getTask` and the state of the task.
use gta.Base.{
  eqb, ℕ, ◌≡◌, ◌≢◌, ◌↔◌, ◌⊎◌, String, Bool, true, false, not, ◌&&◌, ◌||◌, Option, none, some, List,
  [], ◌∷◌, arith, eq_iff, string_eq, ◌==◌, if◌then◌else◌,
}
use gta.Base.Dict.{Dict, lookup}
use gta.Lease.{Lease, Service, Caller, get_lease_for_owner}

pub record LeaseView : Type 0 where
  pub lease_id : String
  pub owner : String
  pub project_id : String
  pub plugin : String
  pub include_hosts : List String
  pub include_ports : List ℕ
  pub device : String
  pub agent_listen_port : ℕ
  pub mobile_grpc_port : ℕ
  pub agent_running : Bool
  pub agent_pid : ℕ
  pub session_id : String
  pub created_at : ℕ
  pub control_port : ℕ
  pub capture_count : ℕ
  pub sticky_port : Bool
  pub last_capture_at : Option ℕ
  pub session_running : Bool
  pub capture_running : Bool

-- The time 0 is Go's zero time, which the view leaves out.
unfoldable pub build_lease_view : (String → Bool) → Lease → LeaseView
build_lease_view running_task l = record {
  lease_id = l.lease_id;
  owner = l.owner;
  project_id = l.project_id;
  plugin = l.plugin;
  include_hosts = l.include_hosts;
  include_ports = l.include_ports;
  device = l.device;
  agent_listen_port = l.agent_port;
  mobile_grpc_port = l.grpc_port;
  agent_running = l.agent.running;
  agent_pid = l.agent.pid;
  session_id = l.session_id;
  created_at = l.created_at;
  control_port = l.ctrl_port;
  capture_count = l.capture_count;
  sticky_port = l.sticky;
  last_capture_at = if eqb l.last_capture_at 0 then none else some l.last_capture_at;
  session_running = running;
  capture_running = running;
}
  where
    running : Bool
    running = not (l.session_id == "") && running_task l.session_id

-- The tests of the loop in `ListProxyLeases`.
unfoldable pub listed : Caller → Lease → Bool
listed c l =
    if c.is_admin
    then true
    else if c.name == ""
    then l.owner == ""
    else (l.owner == "") || (l.owner == c.name)

unfoldable pub list_proxy_leases : (String → Bool) → Caller → Dict String Lease → List LeaseView
unfolding listed build_lease_view
list_proxy_leases running_task c [] = []
list_proxy_leases running_task c ((_, l) ∷ m) =
    let rest = list_proxy_leases running_task c m in
    if listed c l then build_lease_view running_task l ∷ rest else rest

unfoldable pub get_proxy_lease : (String → Bool) → Service → Caller → String → Option LeaseView
get_proxy_lease running_task s c lease_id = elim (get_lease_for_owner s c lease_id) [
  | none ↦ none
  | some l ↦ some (build_lease_view running_task l)
]

module _ (running_task : String → Bool) (s : Service) (c : Caller) (lease_id : String) (l : Lease)
    (at : lookup lease_id s.leases ≡ some l) (na : c.is_admin ≡ false) where
  opened :
      get_proxy_lease running_task s c lease_id
      ≡ (if l.owner == c.name then some (build_lease_view running_task l) else none)
  unfolding get_proxy_lease get_lease_for_owner
  opened = ground arith

  listed_iff : (listed c l ≡ true) ↔ ((l.owner ≡ "") ⊎ (l.owner ≡ c.name))
  unfolding listed
  listed_iff = (
    λ h. ground (arith, eq_iff c.name "", eq_iff l.owner "", eq_iff l.owner c.name),
    λ h. ground (arith, eq_iff c.name "", eq_iff l.owner "", eq_iff l.owner c.name),
  )

  -- A caller who is no admin lists their own leases and the anonymous ones, and opens only their
  -- own: an anonymous lease that a named caller lists reads as not found when they ask for it.
  pub listed_not_opened :
      ((listed c l ≡ true) ↔ ((l.owner ≡ "") ⊎ (l.owner ≡ c.name)))
      × ((get_proxy_lease running_task s c lease_id ≡ some (build_lease_view running_task l))
          ↔ (l.owner ≡ c.name))
      × (c.name ≢ "" → l.owner ≡ "" → get_proxy_lease running_task s c lease_id ≡ none)
  listed_not_opened = (
    listed_iff,
    (
      λ h. ground (arith, opened, eq_iff l.owner c.name),
      λ h. ground (arith, opened, eq_iff l.owner c.name),
    ),
    λ named anonymous. ground (arith, opened, eq_iff l.owner c.name),
  )
