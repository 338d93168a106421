-- ===== src/Lease/History.antt =====
-- proxy_lease.go: every sequence of calls, session ends and agent exits from a new service.
use gta.Base.{
  sym, eqb_iff, ◌∙◌, ℕ_discrete, ℕ, ◌<◌, ◌≡◌, ◌≢◌, ◌⊎◌, String, Bool, true, none, some, [], ◌∷◌,
  arith, eqb, string_eq, nat_eq, inl, inr,
}
use gta.Base.Dict.{Dict, lookup, delete, lookup-delete_ne}
use gta.Lease.Ports.{PortRange, new_port_range}
use gta.Lease.Ports.Search.{new_port_range-IsRange}
use gta.Lease.Ledger.{tally, tally-delete, Accounts}
use gta.Lease.{
  Lease, Service, Caller, new_service, count_leases, clear_lease_capture, agent_exits,
  cleanup_proxy_leases,
}
use gta.Lease.Start.{StartRequest, StartEnv, start_lease_capture}
use gta.Lease.Stop.{StopOutcome, stop_lease_capture, release_proxy_lease}
use gta.Lease.Create.{CreateRequest, CreateEnv, create_proxy_lease}
use gta.Lease.Invariant.{Inv}
use gta.Lease.Conservation.{clear-Inv, agent_exits-Inv, cleanup-Inv}
use gta.Lease.Flows.{start-Inv, stop-Inv, release-Inv}
use gta.Lease.Creation.{create-Inv}

pub data Call : Type 0 where
  creates : Caller → CreateRequest → CreateEnv → Call
  starts : Caller → StartRequest → StartEnv → Call
  stops releases : Caller → String → StopOutcome → ℕ → Call
  session_ends : String → ℕ → Call
  agent_dies : String → Call
  shuts_down : Call

unfoldable pub step : Service → Call → Service
step s (creates c req env) = (create_proxy_lease s c req env).0
step s (starts c req env) = (start_lease_capture s c req env).0
step s (stops c lease_id outcome now) = (stop_lease_capture s c lease_id outcome now).0
step s (releases c lease_id outcome now) = (release_proxy_lease s c lease_id outcome now).0
step s (session_ends session_id now) = clear_lease_capture s session_id now
step s (agent_dies lease_id) = agent_exits s lease_id
step s shuts_down = cleanup_proxy_leases s

-- What the generated ids are relied on for: a lease's id is new, and a session's is not empty.
abbrev pub Admissible : Service → Call → Type 0
Admissible s (creates c req env) =
    (lookup env.lease_id s.leases ≡ none) × (env.starting.session ≢ some "")
Admissible s (starts c req env) = env.session ≢ some ""
Admissible s _ = Unit

pub data Reach : Service → Type 0 where
  fresh : Reach new_service
  next : {s : Service} → Reach s → (call : Call) → Admissible s call → Reach (step s call)

new_service-Inv : Inv new_service
unfolding new_service new_port_range lookup count_leases tally
new_service-Inv = record {
  distinct = tt;
  named = λ k l e. cc;
  idle = λ k l e f. cc;
  limited = λ owner. omega arith;
  agents = (new_port_range-IsRange 12100 12199 (omega arith), omega arith);
  ctrls = (new_port_range-IsRange 19500 19599 (omega arith), omega arith);
  grpcs = (new_port_range-IsRange 19100 19199 (omega arith), omega arith);
  agent_accounts = λ p pos. ground arith;
  ctrl_accounts = λ p pos. ground arith;
  grpc_accounts = λ p pos. ground arith;
}

step-Inv : (s : Service) (call : Call) → Admissible s call → Inv s → Inv (step s call)
unfolding step
step-Inv s (creates c req env) a v = create-Inv c req env a.1 s v a.0
step-Inv s (starts c req env) a v = start-Inv s v env a c req
step-Inv s (stops c lease_id outcome now) a v = stop-Inv s v now c lease_id outcome
step-Inv s (releases c lease_id outcome now) a v = release-Inv s v now c lease_id outcome
step-Inv s (session_ends session_id now) a v = clear-Inv 0 0 0 s v session_id now
step-Inv s (agent_dies lease_id) a v = agent_exits-Inv 0 0 0 s v lease_id
step-Inv s shuts_down a v = cleanup-Inv s v

-- In every state that calls, ends of sessions and exits of agents reach one after the other, each
-- port of the three ranges is taken exactly if one lease holds it, no port is held by two leases,
-- an idle lease holds no capture port, and no owner has more than five leases.
pub Reach-Inv : {s : Service} → Reach s → Inv s
Reach-Inv fresh = new_service-Inv
Reach-Inv (next r call a) = step-Inv _ call a (Reach-Inv r)

tally_pos :
    (t : Lease → Bool) (k : String) (l : Lease) (m : Dict String Lease)
    → lookup k m ≡ some l
    → t l ≡ true
    → 0 < tally t m
unfolding tally lookup
tally_pos t k l [] h e = cc
tally_pos t k l ((j, x) ∷ m) h e = ground (arith, tally_pos t k l m)

-- Two leases that held one port would count twice in its account.
module _ (s : Service) (v : Inv s) (j k : String) (x y : Lease) (ne : j ≢ k)
    (at_j : lookup j s.leases ≡ some x) (at_k : lookup k s.leases ≡ some y) where
  once : (f : Lease → ℕ) (range : PortRange) → Accounts f range 0 s.leases → f x ≡ f y → f x ≡ 0
  once f range acc same = elim (ℕ_discrete (f x) 0) [
    | yes zero_port ↦ zero_port
    | no real ↦ absurd (
        ground (
          arith,
          acc (f x),
          tally-delete (λ l. eqb (f l) (f x)) j x s.leases v.distinct at_j,
          tally_pos (λ l. eqb (f l) (f x)) k y (delete j s.leases)
              (lookup-delete_ne j k s.leases ne ∙ at_k) ((eqb_iff (f y) (f x)).1 (sym same)),
        ))
  ]

  apart :
      (f : Lease → ℕ) (range : PortRange) → Accounts f range 0 s.leases → (f x ≢ f y) ⊎ (f x ≡ 0)
  apart f range acc = elim (ℕ_discrete (f x) (f y)) [
    | yes same ↦ inr (once f range acc same)
    | no other ↦ inl other
  ]

-- In a reachable state two leases never share an agent port, a control port or a capture port; 0
-- stands for none.
pub ports_exclusive :
    {s : Service} (j k : String) (x y : Lease)
    → Reach s
    → j ≢ k
    → lookup j s.leases ≡ some x
    → lookup k s.leases ≡ some y
    → ((x.agent_port ≢ y.agent_port) ⊎ (x.agent_port ≡ 0))
      × ((x.ctrl_port ≢ y.ctrl_port) ⊎ (x.ctrl_port ≡ 0))
      × ((x.grpc_port ≢ y.grpc_port) ⊎ (x.grpc_port ≡ 0))
ports_exclusive {s} j k x y r ne at_j at_k =
    let v = Reach-Inv r in
    (
      apart s v j k x y ne at_j at_k (λ l. l.agent_port) s.agent_ports v.agent_accounts,
      apart s v j k x y ne at_j at_k (λ l. l.ctrl_port) s.ctrl_ports v.ctrl_accounts,
      apart s v j k x y ne at_j at_k (λ l. l.grpc_port) s.grpc_ports v.grpc_accounts,
    )
