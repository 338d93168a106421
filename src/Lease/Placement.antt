-- ===== src/Lease/Placement.antt =====
-- proxy_lease.go: the ports that `CreateProxyLease` sets aside before there is a lease.
use gta.Base.{
  ℕ, ◌≡◌, refl, String, Bool, false, Option, none, some, arith, string_eq, nat_eq, Option-cases,
  inl, inr, if_elim, ◌⊎◌,
}
use gta.Base.Dict.{Dict}
use gta.Lease.Ports.{PortRange, allocate, reserve, taken}
use gta.Lease.Ports.Search.{Took, allocate_sound, reserve_lem, reserve-IsRange}
use gta.Lease.Ledger.{Accounts, Accounts-take, Accounts-rollback}
use gta.Lease.{Lease, Service}
use gta.Lease.Create.{
  CreateRequest, Placed, any_agent_port, again_or_any, allocate_agent_port, with_ctrl_port, place,
  unplaced,
}
use gta.Lease.Invariant.{IsPorts, InvWith, Inv}
use gta.Lease.Conservation.{release-IsPorts}

-- The agent's port: none, or one that was free and is now taken.
abbrev Got : PortRange → ℕ × Bool × PortRange → Type 0
Got range (a, sticky, range') =
    ((a ≡ 0) × (range' ≡ range)) ⊎ ((taken range a ≡ false) × Took range a range' × IsPorts range')

module _ (range : PortRange) (v : IsPorts range) where
  any_agent_port-Got : Got range (any_agent_port range (allocate range))
  unfolding any_agent_port
  any_agent_port-Got = elim (Option-cases (allocate range)) [
    | inl e ↦ rw (e, any_agent_port) (inl (refl, refl))
    | inr ((p, range'), e) ↦
        let found = allocate_sound range v.0 e in
        rw (e, any_agent_port) (inr (found.2, found.3, (found.4, omega (arith, found.3, v.1))))
  ]

  again_or_any-Got : (last : Option ℕ) → Got range (again_or_any range last)
  unfolding again_or_any
  again_or_any-Got none = any_agent_port-Got
  again_or_any-Got (some p) =
      if_elim (Got range) (reserve range p).0 _ _
        (λ ok. elim (reserve_lem range v.0 p) [
          | inl h ↦ inr (h.3, h.4, (reserve-IsRange range p v.0, omega (arith, h.4, v.1)))
          | inr h ↦ absurd (cc (ok, h.0))
        ])
        (λ _. any_agent_port-Got)

Got-Accounts :
    (f : Lease → ℕ) (range : PortRange) (m : Dict String Lease) (r : ℕ × Bool × PortRange)
    → IsPorts range
    → Accounts f range 0 m
    → Got range r
    → Accounts f r.2 r.0 m × IsPorts r.2
Got-Accounts f range m r ports acc (inl h) = rw (h.0, h.1) (acc, ports)
Got-Accounts f range m r ports acc (inr h) = (Accounts-take f range m r.0 r.2 acc h.0 h.1, h.2)

-- What `place` sets aside for a new lease, where it succeeds.
abbrev pub SetAside : Service → Option Placed → Type 0
SetAside s none = Unit
SetAside s (some p) = InvWith p.agent_port p.ctrl_port 0 p.service × (p.service.leases ≡ s.leases)

module _ (s : Service) (v : Inv s) where
  module _ (owner : String) (req : CreateRequest) where
    abbrev chosen : ℕ × Bool × PortRange
    chosen = allocate_agent_port s owner req.device req.no_sticky

    chosen-Accounts : Accounts (λ l. l.agent_port) chosen.2 chosen.0 s.leases × IsPorts chosen.2
    unfolding allocate_agent_port
    chosen-Accounts =
        Got-Accounts (λ l. l.agent_port) s.agent_ports s.leases chosen v.agents v.agent_accounts
          (again_or_any-Got s.agent_ports v.agents _)

    pub unplaced-Inv : Inv (unplaced s owner req)
    unfolding unplaced
    unplaced-Inv = record {
      distinct = v.distinct;
      named = v.named;
      idle = v.idle;
      limited = v.limited;
      agents = release-IsPorts chosen.2 chosen.0 chosen-Accounts.1;
      ctrls = v.ctrls;
      grpcs = v.grpcs;
      agent_accounts =
          Accounts-rollback (λ l. l.agent_port) chosen.2 s.leases chosen.0 chosen-Accounts.0;
      ctrl_accounts = v.ctrl_accounts;
      grpc_accounts = v.grpc_accounts;
    }

    -- Both ports are set aside, and the table is as it was.
    pub place-Inv : SetAside s (place s owner req)
    unfolding place
    place-Inv = elim (Option-cases (allocate s.ctrl_ports)) [
      | inl e ↦ rw (e, with_ctrl_port) tt
      | inr ((c, range), e) ↦
          let found = allocate_sound s.ctrl_ports v.ctrls.0 e in
          rw (e, with_ctrl_port)
            (
              record {
                distinct = v.distinct;
                named = v.named;
                idle = v.idle;
                limited = v.limited;
                agents = chosen-Accounts.1;
                ctrls = (found.4, omega (arith, found.3, v.ctrls.1));
                grpcs = v.grpcs;
                agent_accounts = chosen-Accounts.0;
                ctrl_accounts =
                    Accounts-take (λ l. l.ctrl_port) s.ctrl_ports s.leases c range v.ctrl_accounts
                      found.2 found.3;
                grpc_accounts = v.grpc_accounts;
              },
              refl,
            )
    ]
