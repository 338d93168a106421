-- ===== src/Lease/Races.antt =====
-- proxy_lease.go: what the gap between the two locked parts of `StartLeaseCapture` allows, and what
-- becomes of a lease when no agent port is left.
use gta.Base.{
  ◌∙◌, subst, ap, ℕ, ◌+◌, ◌<◌, ◌≡◌, ◌≢◌, refl, sym, String, true, false, Option, none, some, arith,
  eqb, leb, string_eq, nat_eq, eq_iff,
}
use gta.Base.Dict.{lookup, lookup-insert_self}
use gta.Lease.Ports.{PortRange, allocate, taken}
use gta.Lease.Ports.Search.{allocate_sound}
use gta.Lease.Ledger.{bit, holders, tally-insert_old}
use gta.Lease.{Lease, Service, Caller, count_leases}
use gta.Lease.Start.{port, begin, take_grpc_port, commit, commit_to}
use gta.Lease.Create.{
  CreateRequest, CreateEnv, created, any_agent_port, again_or_any, allocate_agent_port,
  with_ctrl_port, place, launch, launched, on_launch, on_place, enter, new_lease, Placed, up,
  create_proxy_lease,
}
use gta.Lease.Invariant.{Inv}

take_inv :
    (s : Service) (r : Option (ℕ × PortRange)) {s' : Service} {p : ℕ}
    → take_grpc_port s r ≡ port s' p
    → (range : PortRange) × (r ≡ some (p, range)) × (s' ≡ record s { grpc_ports = range })
unfolding take_grpc_port
take_inv s none h = cc
take_inv s (some (q, range)) h = (range, ground arith, ground arith)

begun :
    (s : Service) (l : Lease) (s' : Service) (p : ℕ)
    → begin s l ≡ port s' p
    → (l.session_id ≡ "") × (take_grpc_port s (allocate s.grpc_ports) ≡ port s' p)
unfolding begin
begun s l s' p h = ground (arith, eq_iff l.session_id "")

begin_inv :
    (s : Service) (l : Lease) (s' : Service) (p : ℕ)
    → begin s l ≡ port s' p
    → (range : PortRange) × (allocate s.grpc_ports ≡ some (p, range))
      × (s' ≡ record s { grpc_ports = range })
begin_inv s l s' p h = take_inv s (allocate s.grpc_ports) (begun s l s' p h).1

-- Recording a session on a lease moves one account.
module _ (s : Service) (l : Lease) (at : lookup l.lease_id s.leases ≡ some l) (session_id : String)
    (p now : ℕ) where
  abbrev recorded : Lease
  recorded = record l {
    session_id = session_id;
    grpc_port = p;
    capture_count = l.capture_count + 1;
    last_capture_at = now;
  }

  commit_leases :
      (lookup l.lease_id (commit s l.lease_id session_id p now).leases ≡ some recorded)
      × ((commit s l.lease_id session_id p now).grpc_ports ≡ s.grpc_ports)
      × ((q : ℕ)
          → holders (λ x. x.grpc_port) q (commit s l.lease_id session_id p now).leases
              + bit (eqb l.grpc_port q)
            ≡ bit (eqb p q) + holders (λ x. x.grpc_port) q s.leases)
  unfolding commit
  commit_leases =
      rw (at, commit_to)
        (
          lookup-insert_self l.lease_id recorded s.leases,
          refl,
          λ q. tally-insert_old (λ x. eqb x.grpc_port q) l.lease_id l recorded s.leases at,
        )

-- The lease has that session and that port.
abbrev pub Replaced : String → String → ℕ → Service → Type 0
Replaced lease_id session_id p s =
    (l : Lease) × (lookup lease_id s.leases ≡ some l)
    × (l.session_id ≡ session_id)
    × (l.grpc_port ≡ p)

module _ (s : Service) (v : Inv s) (l : Lease) (at : lookup l.lease_id s.leases ≡ some l) where
  -- The state once both calls have taken their ports and both have recorded their sessions.
  abbrev both : PortRange → ℕ → ℕ → String → String → ℕ → Service
  both range p q first second now =
      commit (commit (record s { grpc_ports = range }) l.lease_id first p now) l.lease_id second q
        now

  both_leaks :
      (range1 range2 : PortRange) (p q : ℕ) (first second : String) (now : ℕ)
      → allocate s.grpc_ports ≡ some (p, range1)
      → allocate range1 ≡ some (q, range2)
      → Replaced l.lease_id second q (both range2 p q first second now)
        × (taken (both range2 p q first second now).grpc_ports p ≡ true)
        × (holders (λ x. x.grpc_port) p (both range2 p q first second now).leases ≡ 0)
  both_leaks range1 range2 p q first second now a1 a2 =
      let f1 = allocate_sound s.grpc_ports v.grpcs.0 a1 in
      let f2 = allocate_sound range1 f1.4 a2 in
      let c1 = commit_leases (record s { grpc_ports = range2 }) l at first p now in
      let c2 =
        commit_leases (commit (record s { grpc_ports = range2 }) l.lease_id first p now)
          (recorded (record s { grpc_ports = range2 }) l at first p now) c1.0 second q now in
      let kept : taken range2 p ≡ true = ground (arith, f1.3.others_same p, f2.3.others_same p) in
      let other : q ≢ p = λ e. ground (arith, f2.2, f1.3.others_same p, e) in
      (
        (_, c2.0, refl, refl),
        ap (λ range. taken range p) (c2.1 ∙ c1.1) ∙ kept,
        ground (arith, c2.2 p, c1.2 p, v.grpc_accounts p, f1.0, v.grpcs.1, f1.2),
      )

  -- When both locked first parts of two starts on one lease give out a port before either records its
  -- session, the lease ends with the second session and the second port, and the port of the first
  -- session stays taken with no lease holding it.
  pub double_start_leaks :
      (s1 s2 : Service) (p q : ℕ) (first second : String) (now : ℕ)
      → begin s l ≡ port s1 p
      → begin s1 l ≡ port s2 q
      → let s4 = commit (commit s2 l.lease_id first p now) l.lease_id second q now in
        Replaced l.lease_id second q s4
        × (taken s4.grpc_ports p ≡ true)
        × (holders (λ x. x.grpc_port) p s4.leases ≡ 0)
  double_start_leaks s1 s2 p q first second now b1 b2 =
      let (range1, a1, e1) = begin_inv s l s1 p b1 in
      let (range2, a2, e2) = begin_inv s1 l s2 q b2 in
      let a2' : allocate range1 ≡ some (q, range2) =
        subst (λ z. allocate z.grpc_ports ≡ some (q, range2)) e1 a2 in
      let e : s2 ≡ record s { grpc_ports = range2 } =
        e2 ∙ ap {A = Service} {B = Service} (λ z. record z { grpc_ports = range2 }) e1 in
      subst
        (λ z.
          let s4 = commit (commit z l.lease_id first p now) l.lease_id second q now in
          Replaced l.lease_id second q s4
          × (taken s4.grpc_ports p ≡ true)
          × (holders (λ x. x.grpc_port) p s4.leases ≡ 0))
        (sym e) (both_leaks range1 range2 p q first second now a1 a2')

module _ (s : Service) (c : Caller) (req : CreateRequest) (env : CreateEnv) (ctrl : ℕ)
    (ctrls : PortRange) (pid : ℕ) where
  abbrev at_zero : Placed
  at_zero = record {
    service = record s { ctrl_ports = ctrls };
    agent_port = 0;
    ctrl_port = ctrl;
    sticky = false;
  }

  place-at_zero :
      allocate s.agent_ports ≡ none
      → req.no_sticky ≡ true
      → allocate s.ctrl_ports ≡ some (ctrl, ctrls)
      → place s c.name req ≡ some at_zero
  unfolding place allocate_agent_port again_or_any any_agent_port with_ctrl_port
  place-at_zero full ns got = rw (ns, full, got)

  launch_up :
      env.bindable 0 ≡ true
      → env.bindable ctrl ≡ true
      → env.spawned ≡ some pid
      → env.running ≡ true
      → env.control_ready ≡ true
      → launch env 0 ctrl ≡ up (record { pid = pid; running = true })
  unfolding launch
  launch_up b0 bc sp run ready = rw (b0, bc, sp) (rw (run, ready, launched))

  -- With no agent port left, and no sticky port wanted, a lease is nevertheless created: it holds
  -- agent port 0, and nothing reports that the range is exhausted.
  pub exhausted_gives_port_zero :
      allocate s.agent_ports ≡ none
      → req.no_sticky ≡ true
      → req.no_auto_start ≡ true
      → allocate s.ctrl_ports ≡ some (ctrl, ctrls)
      → count_leases c.name s.leases < 5
      → env.bindable 0 ≡ true
      → env.bindable ctrl ≡ true
      → env.spawned ≡ some pid
      → env.running ≡ true
      → env.control_ready ≡ true
      → ((create_proxy_lease s c req env).1 ≡ created env.lease_id)
        × ((l : Lease) × (lookup env.lease_id (create_proxy_lease s c req env).0.leases ≡ some l)
            × (l.agent_port ≡ 0))
  unfolding create_proxy_lease enter
  exhausted_gives_port_zero full ns na got few b0 bc sp run ready = rw (place-at_zero full ns got) (
      rw (launch_up b0 bc sp run ready, on_place, on_launch)
        (let within : leb 5 (count_leases c.name s.leases) ≡ false = ground arith in
          rw (within, na)
            (
              refl,
              (
                new_lease env c.name req at_zero (record { pid = pid; running = true }),
                lookup-insert_self env.lease_id _ s.leases,
                refl,
              ),
            )))
