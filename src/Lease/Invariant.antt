-- ===== src/Lease/Invariant.antt =====
-- What holds of the lease service between two steps, and how the changes of one lease keep it.
use gta.Base.{ℕ, ◌≤◌, ◌<◌, ◌≡◌, String, some, arith, eqb, string_eq, nat_eq, eq_iff}
use gta.Base.Dict.{Dict, lookup, insert, lookup-insert}
use gta.Base.Distinct.{Distinct}
use gta.Fifo.{keys, Distinct-insert}
use gta.Lease.Ports.{PortRange}
use gta.Lease.Ports.Search.{IsRange}
use gta.Lease.Ledger.{tally-insert_old, owns, count_leases-tally, holders, Accounts, Accounts-same}
use gta.Lease.{Lease, Service, count_leases, max_leases_per_owner}

-- A range that allocates real ports.
abbrev pub IsPorts : PortRange → Type 0
IsPorts range = IsRange range × (0 < range.base)

-- The ports `a`, `c` and `g` are those that a call under way has taken; 0 stands for none.
pub record InvWith (a c g : ℕ) (s : Service) : Type 0 where
  pub distinct : Distinct (keys s.leases)
  pub named : (k : String) (l : Lease) → lookup k s.leases ≡ some l → l.lease_id ≡ k
  pub idle :
      (k : String) (l : Lease) → lookup k s.leases ≡ some l → l.session_id ≡ "" → l.grpc_port ≡ 0
  pub limited : (owner : String) → count_leases owner s.leases ≤ max_leases_per_owner
  pub agents : IsPorts s.agent_ports
  pub ctrls : IsPorts s.ctrl_ports
  pub grpcs : IsPorts s.grpc_ports
  pub agent_accounts : Accounts (λ l. l.agent_port) s.agent_ports a s.leases
  pub ctrl_accounts : Accounts (λ l. l.ctrl_port) s.ctrl_ports c s.leases
  pub grpc_accounts : Accounts (λ l. l.grpc_port) s.grpc_ports g s.leases

-- Between two calls: every port of every range is free, or one lease holds it.
abbrev pub Inv : Service → Type 0
Inv = InvWith 0 0 0

-- The lease that replaces another: the same identity, owner and lasting ports.
pub record Same (l l' : Lease) : Type 0 where
  pub id_same : l'.lease_id ≡ l.lease_id
  pub owner_same : l'.owner ≡ l.owner
  pub agent_same : l'.agent_port ≡ l.agent_port
  pub ctrl_same : l'.ctrl_port ≡ l.ctrl_port

module _ (a c g : ℕ) (s : Service) (v : InvWith a c g s) (l l' : Lease) (same : Same l l')
    (at : lookup l.lease_id s.leases ≡ some l) where
  abbrev updated : Dict String Lease
  updated = insert l.lease_id l' s.leases

  named_updated : (k : String) (x : Lease) → lookup k updated ≡ some x → x.lease_id ≡ k
  named_updated k x e = ground (
    arith,
    lookup-insert l.lease_id k l' s.leases,
    eq_iff l.lease_id k,
    v.named k x,
    same.id_same,
  )

  idle_updated :
      (l'.session_id ≡ "" → l'.grpc_port ≡ 0)
      → (k : String) (x : Lease) → lookup k updated ≡ some x
      → x.session_id ≡ ""
      → x.grpc_port ≡ 0
  idle_updated h k x e empty =
      ground (arith, lookup-insert l.lease_id k l' s.leases, eq_iff l.lease_id k, v.idle k x)

  holders-updated :
      (f : Lease → ℕ) → f l' ≡ f l → (p : ℕ) → holders f p updated ≡ holders f p s.leases
  holders-updated f e p =
      ground (arith, tally-insert_old (λ x. eqb (f x) p) l.lease_id l l' s.leases at)

  limited_updated : (owner : String) → count_leases owner updated ≤ max_leases_per_owner
  limited_updated owner = ground (
    arith,
    v.limited owner,
    count_leases-tally owner updated,
    count_leases-tally owner s.leases,
    tally-insert_old (owns owner) l.lease_id l l' s.leases at,
    same.owner_same,
  )

  -- A lease is replaced, and the range of capture ports with it, whose accounts are given.
  pub update-Inv :
      (range : PortRange) (g' : ℕ)
      → (l'.session_id ≡ "" → l'.grpc_port ≡ 0)
      → IsPorts range
      → Accounts (λ x. x.grpc_port) range g' updated
      → InvWith a c g' (record s { leases = updated; grpc_ports = range })
  update-Inv range g' empty ports acc = record {
    distinct = Distinct-insert l.lease_id l' s.leases v.distinct;
    named = named_updated;
    idle = idle_updated empty;
    limited = limited_updated;
    agents = v.agents;
    ctrls = v.ctrls;
    grpcs = ports;
    agent_accounts =
        Accounts-same (λ x. x.agent_port) s.agent_ports s.leases updated a v.agent_accounts
          (holders-updated (λ x. x.agent_port) same.agent_same);
    ctrl_accounts =
        Accounts-same (λ x. x.ctrl_port) s.ctrl_ports s.leases updated c v.ctrl_accounts
          (holders-updated (λ x. x.ctrl_port) same.ctrl_same);
    grpc_accounts = acc;
  }
