-- ===== src/Lease/Examples.antt =====
-- The theorems on the leases at a service with leases of two devices of one owner.
use gta.Base.{
  ℕ, ◌≡◌, ◌≢◌, ◌⊎◌, refl, String, true, false, inr, Option, none, some, [], ◌∷◌, arith, eq_iff,
  string_eq, nat_eq,
}
use gta.Base.Dict.{lookup, insert}
use gta.Lease.Ports.{allocate, scan, taken}
use gta.Lease.{Lease, Service, Caller, new_service, count_leases}
use gta.Lease.Start.{StartEnv, begin, port, commit}
use gta.Lease.Create.{CreateRequest, CreateEnv, create_proxy_lease, sticky_key}
use gta.Lease.Invariant.{Inv}
use gta.Lease.History.{Call, step, Reach, fresh, next, Reach-Inv, ports_exclusive}
use gta.Lease.Ledger.{holders}
use gta.Lease.Races.{Replaced, double_start_leaks}
use gta.Lease.View.{listed, listed_not_opened}

abbrev alice : Caller
alice = record { name = "alice"; is_admin = false }

abbrev starting : StartEnv
starting = record {
  bindable = λ p. true;
  session = some "s1";
  ready = true;
  agent_started = true;
  quiet_stop_ends = true;
  now = 2;
}

abbrev phone : CreateRequest
phone = record {
  project_id = "";
  plugin = "http";
  plugin_owners = [];
  include_hosts = [];
  include_ports = [];
  device = "phone";
  no_sticky = false;
  no_auto_start = true;
}

abbrev env : String → CreateEnv
env lease_id = record {
  bindable = λ p. true;
  spawned = some 42;
  running = true;
  control_ready = true;
  lease_id = lease_id;
  now = 1;
  starting = starting;
}

abbrev first : Call
first = Call.creates alice phone (env "lease_1")

abbrev second : Call
second = Call.creates alice (record phone { device = "tablet" }) (env "lease_2")

session_named : ◌≢◌ {A = Option String} (some "s1") (some "")
session_named e = ground (arith, eq_iff "s1" "")

one_lease : Service
one_lease = step new_service first

two_leases : Service
unfolding one_lease
two_leases = step one_lease second

Reach-one : Reach one_lease
unfolding one_lease new_service lookup
Reach-one = next fresh first (refl, session_named)

free_id : lookup "lease_2" one_lease.leases ≡ none
unfolding one_lease step create_proxy_lease new_service lookup insert allocate scan count_leases
free_id = refl

Reach-two : Reach two_leases
unfolding two_leases
Reach-two = next Reach-one second (free_id, session_named)

Reach-Inv_example : Inv two_leases
Reach-Inv_example = Reach-Inv Reach-two

lease_of : String → ℕ → ℕ → String → Lease
lease_of id a c device = record {
  lease_id = id;
  owner = "alice";
  project_id = "";
  plugin = "http";
  plugin_owners = [];
  include_hosts = [];
  include_ports = [];
  device = device;
  agent_port = a;
  ctrl_port = c;
  grpc_port = 0;
  sticky = false;
  session_id = "";
  last_capture_at = 0;
  capture_count = 0;
  agent = record { pid = 42; running = true };
  created_at = 1;
}

first_lease : lookup "lease_1" two_leases.leases ≡ some (lease_of "lease_1" 12100 19500 "phone")
unfolding two_leases one_lease step create_proxy_lease new_service lookup insert allocate scan
    count_leases lease_of
first_lease = refl

second_lease : lookup "lease_2" two_leases.leases ≡ some (lease_of "lease_2" 12101 19501 "tablet")
unfolding two_leases one_lease step create_proxy_lease new_service lookup insert allocate scan
    count_leases lease_of sticky_key
second_lease = refl

two_ids : ◌≢◌ {A = String} "lease_1" "lease_2"
two_ids = ground (arith, eq_iff "lease_1" "lease_2")

ports_exclusive_example :
    (◌≢◌ {A = ℕ} 12100 12101 ⊎ ◌≡◌ {A = ℕ} 12100 0)
    × (◌≢◌ {A = ℕ} 19500 19501 ⊎ ◌≡◌ {A = ℕ} 19500 0)
    × (◌≢◌ {A = ℕ} 0 0 ⊎ ◌≡◌ {A = ℕ} 0 0)
unfolding lease_of
ports_exclusive_example =
    ports_exclusive "lease_1" "lease_2" (lease_of "lease_1" 12100 19500 "phone")
      (lease_of "lease_2" 12101 19501 "tablet") Reach-two two_ids first_lease second_lease

listed_not_opened_example : listed alice (lease_of "lease_1" 12100 19500 "phone") ≡ true
unfolding lease_of
listed_not_opened_example =
    (listed_not_opened (λ t. true) two_leases alice "lease_1"
        (lease_of "lease_1" 12100 19500 "phone") first_lease refl).0.1
      (inr refl)

taken_once : Service
unfolding two_leases one_lease
taken_once = record two_leases {
  grpc_ports = record { base = 19100; max = 19199; used = insert 19100 tt []; cursor = 1 };
}

taken_twice : Service
unfolding two_leases one_lease
taken_twice = record two_leases {
  grpc_ports = record {
    base = 19100;
    max = 19199;
    used = insert 19101 tt (insert 19100 tt []);
    cursor = 2;
  };
}

begin_once : begin two_leases (lease_of "lease_1" 12100 19500 "phone") ≡ port taken_once 19100
unfolding taken_once two_leases one_lease step create_proxy_lease new_service lookup insert allocate
    scan count_leases lease_of begin
begin_once = refl

begin_twice : begin taken_once (lease_of "lease_1" 12100 19500 "phone") ≡ port taken_twice 19101
unfolding taken_once taken_twice two_leases one_lease step create_proxy_lease new_service lookup
    insert allocate scan count_leases lease_of begin
begin_twice = refl

double_start_leaks_example :
    let s4 = commit (commit taken_twice "lease_1" "s1" 19100 5) "lease_1" "s2" 19101 5 in
    Replaced "lease_1" "s2" 19101 s4
    × (taken s4.grpc_ports 19100 ≡ true)
    × (holders (λ x. x.grpc_port) 19100 s4.leases ≡ 0)
unfolding lease_of
double_start_leaks_example =
    double_start_leaks two_leases (Reach-Inv Reach-two) (lease_of "lease_1" 12100 19500 "phone")
      first_lease taken_once taken_twice 19100 19101 "s1" "s2" 5 begin_once begin_twice

-- A service whose range of agent ports has one port, which is taken.
abbrev no_agent_port : Service
no_agent_port = record {
  leases = [];
  agent_ports = record { base = 12100; max = 12100; used = (12100, tt) ∷ []; cursor = 0 };
  ctrl_ports = record { base = 19500; max = 19599; used = []; cursor = 0 };
  grpc_ports = record { base = 19100; max = 19199; used = []; cursor = 0 };
  sticky_ports = [];
}

abbrev not_sticky : CreateRequest
not_sticky = record phone { no_sticky = true }

none_free : allocate no_agent_port.agent_ports ≡ none
unfolding allocate scan lookup
none_free = refl
