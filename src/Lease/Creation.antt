-- ===== src/Lease/Creation.antt =====
-- proxy_lease.go: `CreateProxyLease` keeps the accounts and the limit on each owner's leases.
use gta.Base.{
  ℕ, ◌+◌, ◌<◌, ◌≡◌, ◌≢◌, sym, subst, String, Option, none, some, arith, eqb, leb, string_eq, nat_eq,
  eq_iff, if_elim,
}
use gta.Base.Dict.{lookup, insert, lookup-insert}
use gta.Fifo.{Distinct-insert}
use gta.Lease.Ledger.{
  bit, holders, owns, Accounts-settle, Accounts-rollback, tally-insert_new, count_leases-tally,
}
use gta.Lease.{Agent, Lease, Service, Caller, count_leases, max_leases_per_owner}
use gta.Lease.Start.{StartResult, started, start_failed}
use gta.Lease.Create.{
  CreateRequest, CreateEnv, CreateResult, Launch, up, down, Placed, place, launch, release_both,
  new_lease, enter, auto_start, start_request, entered, on_launch, on_place, create_proxy_lease,
}
use gta.Lease.Invariant.{InvWith, Inv}
use gta.Lease.Conservation.{release-IsPorts}
use gta.Lease.Flows.{start-Inv}
use gta.Lease.Placement.{SetAside, unplaced-Inv, place-Inv}

module _ (p : Placed) (v : InvWith p.agent_port p.ctrl_port 0 p.service) where
  open p use {service, agent_port, ctrl_port}

  release_both-Inv : Inv (release_both p)
  unfolding release_both
  release_both-Inv = record {
    distinct = v.distinct;
    named = v.named;
    idle = v.idle;
    limited = v.limited;
    agents = release-IsPorts service.agent_ports agent_port v.agents;
    ctrls = release-IsPorts service.ctrl_ports ctrl_port v.ctrls;
    grpcs = v.grpcs;
    agent_accounts =
        Accounts-rollback (λ l. l.agent_port) service.agent_ports service.leases agent_port
          v.agent_accounts;
    ctrl_accounts =
        Accounts-rollback (λ l. l.ctrl_port) service.ctrl_ports service.leases ctrl_port
          v.ctrl_accounts;
    grpc_accounts = v.grpc_accounts;
  }

  module _ (env : CreateEnv) (owner : String) (req : CreateRequest) (agent : Agent)
      (fresh : lookup env.lease_id service.leases ≡ none) where
    abbrev entrant : Lease
    entrant = new_lease env owner req p agent

    grows :
        (f : Lease → ℕ) (q : ℕ)
        → holders f q (insert env.lease_id entrant service.leases)
          ≡ bit (eqb (f entrant) q) + holders f q service.leases
    grows f q = tally-insert_new (λ x. eqb (f x) q) env.lease_id entrant service.leases fresh

    enter-Inv :
        count_leases owner service.leases < max_leases_per_owner → Inv (enter env owner req p agent)
    unfolding enter
    enter-Inv below = record {
      distinct = Distinct-insert env.lease_id entrant service.leases v.distinct;
      named = λ k x e. ground (
        arith,
        lookup-insert env.lease_id k entrant service.leases,
        eq_iff env.lease_id k,
        v.named k x,
      );
      idle = λ k x e empty. ground (
        arith,
        lookup-insert env.lease_id k entrant service.leases,
        eq_iff env.lease_id k,
        v.idle k x,
      );
      limited = λ o. ground (
        arith,
        v.limited o,
        eq_iff owner o,
        count_leases-tally o (insert env.lease_id entrant service.leases),
        count_leases-tally o service.leases,
        tally-insert_new (owns o) env.lease_id entrant service.leases fresh,
      );
      agents = v.agents;
      ctrls = v.ctrls;
      grpcs = v.grpcs;
      agent_accounts =
          Accounts-settle (λ l. l.agent_port) service.agent_ports service.leases _ agent_port
            v.agent_accounts (λ q pos. grows (λ l. l.agent_port) q);
      ctrl_accounts =
          Accounts-settle (λ l. l.ctrl_port) service.ctrl_ports service.leases _ ctrl_port
            v.ctrl_accounts (λ q pos. grows (λ l. l.ctrl_port) q);
      grpc_accounts =
          Accounts-settle (λ l. l.grpc_port) service.grpc_ports service.leases _ 0 v.grpc_accounts
            (λ q pos. grows (λ l. l.grpc_port) q);
    }

abbrev Kept : Service × CreateResult → Type 0
Kept r = Inv r.0

auto_start-Inv :
    (r : Service × StartResult) (lease_id : String) → Inv r.0 → Kept (auto_start r lease_id)
unfolding auto_start
auto_start-Inv (s, started session_id) lease_id v = v
auto_start-Inv (s, start_failed e) lease_id v = v

module _ (c : Caller) (req : CreateRequest) (env : CreateEnv)
    (session : env.starting.session ≢ some "") where
  entered-Inv : (s : Service) → Inv s → Kept (entered s c req env)
  unfolding entered
  entered-Inv s v =
      if_elim Kept req.no_auto_start _ _ (λ _. v)
        (λ _.
          auto_start-Inv _ env.lease_id
            (start-Inv s v env.starting session c (start_request env.lease_id)))

  on_launch-Inv :
      (p : Placed) (r : Launch)
      → InvWith p.agent_port p.ctrl_port 0 p.service
      → lookup env.lease_id p.service.leases ≡ none
      → Kept (on_launch c req env p r)
  unfolding on_launch
  on_launch-Inv p (down e) v fresh = release_both-Inv p v
  on_launch-Inv p (up agent) v fresh =
      if_elim Kept (leb max_leases_per_owner (count_leases c.name p.service.leases)) _ _
        (λ _. release_both-Inv p v)
        (λ below. entered-Inv _ (enter-Inv p v env c.name req agent fresh (ground (arith, below))))

  on_place-Inv :
      (s : Service) (r : Option Placed)
      → Inv s
      → SetAside s r
      → lookup env.lease_id s.leases ≡ none
      → Kept (on_place s c req env r)
  unfolding on_place
  on_place-Inv s none v w fresh = unplaced-Inv s v c.name req
  on_place-Inv s (some p) v w fresh =
      on_launch-Inv p (launch env p.agent_port p.ctrl_port) w.0
        (subst (λ m. lookup env.lease_id m ≡ none) (sym w.1) fresh)

  -- Creating a lease under a fresh id keeps the accounts and the limit, on every branch.
  pub create-Inv :
      (s : Service)
      → Inv s
      → lookup env.lease_id s.leases ≡ none
      → Inv (create_proxy_lease s c req env).0
  unfolding create_proxy_lease
  create-Inv s v fresh =
      if_elim Kept (leb max_leases_per_owner (count_leases c.name s.leases)) _ _ (λ _. v)
        (λ _. on_place-Inv s (place s c.name req) v (place-Inv s v c.name req) fresh)
