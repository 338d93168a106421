-- ===== src/Lease/Flows.antt =====
-- proxy_lease.go: the calls on a lease keep the accounts, on every branch.
use gta.Base.{
  ℕ, ◌+◌, ◌≡◌, ◌≢◌, refl, ap, String, not, Option, none, some, arith, eqb, string_eq, nat_eq, ◌==◌,
  eq_iff, Option-cases, inl, inr, if_elim,
}
use gta.Base.Dict.{lookup}
use gta.Lease.Ports.{PortRange, allocate}
use gta.Lease.Ports.Search.{allocate_sound}
use gta.Lease.Ledger.{Accounts-take, Accounts-settle, Accounts-rollback, tally-insert_old}
use gta.Lease.{Lease, Service, Caller, get_lease_for_owner}
use gta.Lease.Start.{
  StartRequest, StartEnv, StartResult, begin, take_grpc_port, commit, commit_to, rollback,
  stop_session_quiet, with_session, with_port, on_lease, start_lease_capture,
}
use gta.Lease.Stop.{
  StopOutcome, ended, no_active_capture, stop_error, stop_session, after_stop, stop_on,
  stop_lease_capture, release_capturing, release_on, release_proxy_lease,
}
use gta.Lease.Invariant.{InvWith, Inv, update-Inv}
use gta.Lease.Conservation.{clear-Inv, reclaim-Inv, release-IsPorts, at_own_id}

-- The caller's lease is a lease of the table.
get_lease-lookup :
    (s : Service) (c : Caller) (lease_id : String) (l : Lease)
    → get_lease_for_owner s c lease_id ≡ some l
    → lookup lease_id s.leases ≡ some l
unfolding get_lease_for_owner
get_lease-lookup s c lease_id l h = ground arith

rollback-Inv : (s : Service) (p : ℕ) → InvWith 0 0 p s → Inv (rollback s p)
unfolding rollback
rollback-Inv s p v = record {
  distinct = v.distinct;
  named = v.named;
  idle = v.idle;
  limited = v.limited;
  agents = v.agents;
  ctrls = v.ctrls;
  grpcs = release-IsPorts s.grpc_ports p v.grpcs;
  agent_accounts = v.agent_accounts;
  ctrl_accounts = v.ctrl_accounts;
  grpc_accounts = Accounts-rollback (λ l. l.grpc_port) s.grpc_ports s.leases p v.grpc_accounts;
}

commit-Inv :
    (s : Service) (p : ℕ) (l : Lease) (session_id : String) (now : ℕ)
    → InvWith 0 0 p s
    → lookup l.lease_id s.leases ≡ some l
    → l.session_id ≡ ""
    → session_id ≢ ""
    → Inv (commit s l.lease_id session_id p now)
unfolding commit
commit-Inv s p l session_id now v at idle fresh =
    rw (at, commit_to)
      (update-Inv 0 0 p s v l next
        (record { id_same = refl; owner_same = refl; agent_same = refl; ctrl_same = refl }) at
        s.grpc_ports 0 (λ e. absurd (fresh e)) v.grpcs
        (Accounts-settle (λ x. x.grpc_port) s.grpc_ports s.leases _ p v.grpc_accounts
          λ q pos. ground (
            arith,
            v.idle l.lease_id l at idle,
            tally-insert_old (λ x. eqb x.grpc_port q) l.lease_id l next s.leases at,
          )))
  where
    next : Lease
    next = record l {
      session_id = session_id;
      grpc_port = p;
      capture_count = l.capture_count + 1;
      last_capture_at = now;
    }

stop_session_quiet-Inv :
    (s : Service) (g : ℕ) (env : StartEnv) (session_id : String)
    → InvWith 0 0 g s
    → InvWith 0 0 g (stop_session_quiet s env session_id)
unfolding stop_session_quiet
stop_session_quiet-Inv s g env session_id v =
    if_elim (InvWith 0 0 g) env.quiet_stop_ends _ s (λ _. clear-Inv 0 0 g s v session_id env.now)
      (λ _. v)

abbrev Kept : Service × StartResult → Type 0
Kept r = Inv r.0

with_session-Inv :
    (s : Service) (l : Lease) (env : StartEnv) (p : ℕ) (session : Option String)
    → InvWith 0 0 p s
    → lookup l.lease_id s.leases ≡ some l
    → l.session_id ≡ ""
    → session ≢ some ""
    → Kept (with_session s l env p session)
unfolding with_session
with_session-Inv s l env p none v at idle fresh = rollback-Inv s p v
with_session-Inv s l env p (some session_id) v at idle fresh =
    if_elim Kept (not env.ready) _ _ (λ _. undone)
      (λ _.
        if_elim Kept (not env.agent_started) _ _ (λ _. undone)
          (λ _. commit-Inv s p l session_id env.now v at idle (λ e. fresh (ap some e))))
  where
    undone : Inv (rollback (stop_session_quiet s env session_id) p)
    undone = rollback-Inv _ p (stop_session_quiet-Inv s p env session_id v)

module _ (s : Service) (v : Inv s) (env : StartEnv) (fresh : env.session ≢ some "") where
  module _ (l : Lease) (at : lookup l.lease_id s.leases ≡ some l) where
    took-Inv :
        (p : ℕ) (range : PortRange)
        → allocate s.grpc_ports ≡ some (p, range)
        → InvWith 0 0 p (record s { grpc_ports = range })
    took-Inv p range e =
        let found = allocate_sound s.grpc_ports v.grpcs.0 e in
        record {
          distinct = v.distinct;
          named = v.named;
          idle = v.idle;
          limited = v.limited;
          agents = v.agents;
          ctrls = v.ctrls;
          grpcs = (found.4, omega (arith, found.3, v.grpcs.1));
          agent_accounts = v.agent_accounts;
          ctrl_accounts = v.ctrl_accounts;
          grpc_accounts =
              Accounts-take (λ x. x.grpc_port) s.grpc_ports s.leases p range v.grpc_accounts found.2
                found.3;
        }

    begun-Inv :
        l.session_id ≡ "" → Kept (with_port s l env (take_grpc_port s (allocate s.grpc_ports)))
    unfolding with_port take_grpc_port
    begun-Inv idle = elim (Option-cases (allocate s.grpc_ports)) [
      | inl e ↦ rw (e, take_grpc_port, with_port) v
      | inr ((p, range), e) ↦
          let w = took-Inv p range e in
          rw (e, take_grpc_port, with_port)
            (if_elim Kept (not (env.bindable p)) _ _ (λ _. rollback-Inv _ p w)
              (λ _. with_session-Inv _ l env p env.session w at idle fresh))
    ]

    on_lease-Inv : Kept (on_lease s env (some l))
    unfolding on_lease begin with_port
    on_lease-Inv =
        if_elim (λ b. Kept (with_port s l env b)) (not (l.session_id == "")) _ _ (λ _. v)
          λ idle.
            if_elim (λ b. Kept (with_port s l env b)) (not l.agent.running) _ _ (λ _. v)
              (λ _. begun-Inv (ground (arith, eq_iff l.session_id "", idle)))

  -- Starting a capture keeps the accounts, whether it succeeds or fails at any step.
  pub start-Inv : (c : Caller) (req : StartRequest) → Inv (start_lease_capture s c req env).0
  unfolding start_lease_capture
  start-Inv c req = elim (Option-cases (get_lease_for_owner s c req.lease_id)) [
    | inl e ↦ rw (e, on_lease) v
    | inr (l, e) ↦ rw e (
        on_lease-Inv l (at_own_id 0 0 0 s v req.lease_id l (get_lease-lookup s c req.lease_id l e)))
  ]

abbrev KeptStop : {R : Type 0} → Service × R → Type 0
KeptStop r = Inv r.0

module _ (s : Service) (v : Inv s) (now : ℕ) where
  stop_session-Inv :
      (session_id : String) (outcome : StopOutcome) → Inv (stop_session s session_id outcome now)
  unfolding stop_session
  stop_session-Inv session_id ended = clear-Inv 0 0 0 s v session_id now
  stop_session-Inv session_id no_active_capture = v
  stop_session-Inv session_id stop_error = v

  after_stop-Inv :
      (session_id : String) (outcome : StopOutcome) → Inv (after_stop s session_id outcome now).0
  unfolding after_stop
  after_stop-Inv session_id stop_error = stop_session-Inv session_id stop_error
  after_stop-Inv session_id outcome =
      clear-Inv 0 0 0 _ (stop_session-Inv session_id outcome) session_id now

  -- Stopping a capture keeps the accounts, whatever the session answers.
  pub stop-Inv :
      (c : Caller) (lease_id : String) (outcome : StopOutcome)
      → Inv (stop_lease_capture s c lease_id outcome now).0
  unfolding stop_lease_capture
  stop-Inv c lease_id outcome = elim (Option-cases (get_lease_for_owner s c lease_id)) [
    | inl e ↦ rw (e, stop_on) v
    | inr (l, e) ↦
        rw (e, stop_on)
          (if_elim KeptStop (l.session_id == "") _ _ (λ _. v)
            (λ _. after_stop-Inv l.session_id outcome))
  ]

  release_capturing-Inv :
      (lease_id session_id : String) (outcome : StopOutcome)
      → Inv (release_capturing s lease_id session_id outcome now).0
  unfolding release_capturing
  release_capturing-Inv lease_id session_id stop_error = stop_session-Inv session_id stop_error
  release_capturing-Inv lease_id session_id outcome =
      reclaim-Inv 0 0 0 _ (stop_session-Inv session_id outcome) lease_id

  -- Releasing a lease keeps the accounts.
  pub release-Inv :
      (c : Caller) (lease_id : String) (outcome : StopOutcome)
      → Inv (release_proxy_lease s c lease_id outcome now).0
  unfolding release_proxy_lease
  release-Inv c lease_id outcome = elim (Option-cases (get_lease_for_owner s c lease_id)) [
    | inl e ↦ rw (e, release_on) v
    | inr (l, e) ↦
        rw (e, release_on)
          (if_elim KeptStop (l.session_id == "") _ _ (λ _. reclaim-Inv 0 0 0 s v lease_id)
            (λ _. release_capturing-Inv lease_id l.session_id outcome))
  ]
