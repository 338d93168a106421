-- ===== src/Lease/Conservation.antt =====
-- proxy_lease.go: ending a capture, losing an agent and reclaiming a lease keep the accounts.
use gta.Base.{
  eq_self, ℕ, ◌+◌, ◌≡◌, refl, sym, subst, ◌∙◌, String, false, some, [], ◌∷◌, arith, eqb, string_eq,
  nat_eq, ◌==◌, if◌then◌else◌, eq_iff, Bool-cases, Option-cases, inl, inr,
}
use gta.Base.Dict.{Dict, lookup, insert, delete, lookup-delete}
use gta.Base.Distinct.{Distinct, contains}
use gta.Fifo.{delete_head, keys, Distinct-delete, contains-lookup}
use gta.Lease.Ports.{PortRange, release}
use gta.Lease.Ports.Search.{release-IsRange}
use gta.Lease.Ledger.{
  bit, tally-insert_old, tally-delete, owns, count_leases-tally, holders, Accounts, Accounts-give,
  Accounts-same,
}
use gta.Lease.{
  release_all, cleanup_proxy_leases, exited, Lease, Service, find_session, cleared,
  clear_lease_capture, reclaim_lease, reclaimed, agent_exits, release_ports,
}
use gta.Lease.Invariant.{IsPorts, InvWith, Inv, Same, update-Inv}

Named : Dict String Lease → Type 0
Named m = (k : String) (x : Lease) → lookup k m ≡ some x → x.lease_id ≡ k

Named-tail :
    (k : String) (x : Lease) (m : Dict String Lease)
    → contains k (keys m) ≡ false
    → Named ((k, x) ∷ m)
    → Named m
unfolding Named lookup
Named-tail k x m out named j y e = ground (arith, eq_iff k j, contains-lookup k m out, named j y)

find_session-lookup :
    (session_id : String) (m : Dict String Lease) (l : Lease)
    → Named m
    → Distinct (keys m)
    → find_session session_id m ≡ some l
    → (lookup l.lease_id m ≡ some l) × (l.session_id ≡ session_id)
unfolding Named find_session lookup
find_session-lookup session_id [] l named d h = cc
find_session-lookup session_id ((k, x) ∷ m) l named d h =
    elim (Bool-cases (x.session_id == session_id)) [
      | inl hit ↦
          let same : x ≡ l = cc (rw hit at h) in
          let at : lookup x.lease_id ((k, x) ∷ m) ≡ some x =
            ground (arith, named k x, eq_iff k k, eq_iff k x.lease_id) in
          subst (λ y. (lookup y.lease_id ((k, x) ∷ m) ≡ some y) × (y.session_id ≡ session_id)) same
            (at, (eq_iff x.session_id session_id).0 hit)
      | inr miss ↦
          let found : find_session session_id m ≡ some l = rw miss at h in
          let ih : (lookup l.lease_id m ≡ some l) × (l.session_id ≡ session_id) =
            find_session-lookup session_id m l (Named-tail k x m d.0 named) d.1 found in
          (ground (arith, ih, eq_iff k l.lease_id, contains-lookup k m d.0), ih.1)
    ]

pub release-IsPorts : (range : PortRange) (p : ℕ) → IsPorts range → IsPorts (release range p)
unfolding release
release-IsPorts range p v = (release-IsRange range p v.0, v.1)

module _ (a c g : ℕ) (s : Service) (v : InvWith a c g s) where
  -- Clearing a session gives back exactly the port of the lease that ran it.
  pub clear-Inv :
      (session_id : String) (now : ℕ) → InvWith a c g (clear_lease_capture s session_id now)
  unfolding clear_lease_capture
  clear-Inv session_id now = elim (Option-cases (find_session session_id s.leases)) [
    | inl e ↦ rw (e, cleared) v
    | inr (l, e) ↦
        let at : (lookup l.lease_id s.leases ≡ some l) × (l.session_id ≡ session_id) =
          find_session-lookup session_id s.leases l (unfold Named in v.named) v.distinct e in
        rw (e, cleared)
          (update-Inv a c g s v l
            (record l { session_id = ""; grpc_port = 0; last_capture_at = now })
            (record { id_same = refl; owner_same = refl; agent_same = refl; ctrl_same = refl }) at.0
            (release s.grpc_ports l.grpc_port) g (λ _. refl)
            (release-IsPorts s.grpc_ports l.grpc_port v.grpcs)
            (Accounts-give (λ x. x.grpc_port) s.grpc_ports s.leases _ g v.grpc_accounts l.grpc_port
              λ p pos. ground (
                arith,
                tally-insert_old (λ x. eqb x.grpc_port p) l.lease_id l
                    (record l { session_id = ""; grpc_port = 0; last_capture_at = now }) s.leases
                    at.0,
              )))
  ]

  -- A lease changes, and none of its ports does.
  keep-Inv :
      (l l' : Lease)
      → Same l l'
      → lookup l.lease_id s.leases ≡ some l
      → l'.grpc_port ≡ l.grpc_port
      → l'.session_id ≡ l.session_id
      → InvWith a c g (record s { leases = insert l.lease_id l' s.leases })
  keep-Inv l l' same at e f =
      update-Inv a c g s v l l' same at s.grpc_ports g
        (λ empty. e ∙ v.idle l.lease_id l at (sym f ∙ empty)) v.grpcs
        (Accounts-same (λ x. x.grpc_port) s.grpc_ports s.leases _ g v.grpc_accounts
          λ p.
            ground (arith, tally-insert_old (λ x. eqb x.grpc_port p) l.lease_id l l' s.leases at))

  pub at_own_id :
      (k : String) (l : Lease) → lookup k s.leases ≡ some l → lookup l.lease_id s.leases ≡ some l
  at_own_id k l e = subst (λ j. lookup j s.leases ≡ some l) (sym (v.named k l e)) e

  pub agent_exits-Inv : (lease_id : String) → InvWith a c g (agent_exits s lease_id)
  unfolding agent_exits
  agent_exits-Inv lease_id = elim (Option-cases (lookup lease_id s.leases)) [
    | inl e ↦ rw (e, exited) v
    | inr (l, e) ↦
        rw (e, exited)
          (keep-Inv l (record l { agent = record { pid = l.agent.pid; running = false } })
            (record { id_same = refl; owner_same = refl; agent_same = refl; ctrl_same = refl })
            (at_own_id lease_id l e) refl refl)
  ]

  module _ (k : String) (l : Lease) (at : lookup k s.leases ≡ some l) where
    holders_deleted :
        (f : Lease → ℕ) (p : ℕ)
        → holders f p (delete k s.leases) + bit (eqb (f l) p) ≡ holders f p s.leases
    holders_deleted f p = tally-delete (λ x. eqb (f x) p) k l s.leases v.distinct at

    release_grpc : PortRange
    release_grpc = if eqb l.grpc_port 0 then s.grpc_ports else release s.grpc_ports l.grpc_port

    release_grpc-Accounts :
        Accounts (λ x. x.grpc_port) release_grpc g (delete k s.leases) × IsPorts release_grpc
    unfolding release_grpc
    release_grpc-Accounts = elim (Bool-cases (eqb l.grpc_port 0)) [
      | inl zero_port ↦ rw zero_port (
        λ p pos. ground (arith, v.grpc_accounts p pos, holders_deleted (λ x. x.grpc_port) p),
        v.grpcs,
      )
      | inr real ↦ rw real (
        Accounts-give (λ x. x.grpc_port) s.grpc_ports s.leases (delete k s.leases) g v.grpc_accounts
            l.grpc_port (λ p pos. holders_deleted (λ x. x.grpc_port) p),
        release-IsPorts s.grpc_ports l.grpc_port v.grpcs,
      )
    ]

    reclaimed-Inv : InvWith a c g (release_ports (record s { leases = delete k s.leases }) l)
    unfolding release_ports release_grpc
    reclaimed-Inv = record {
      distinct = Distinct-delete k s.leases v.distinct;
      named = λ j x e. v.named j x (ground (arith, lookup-delete k j s.leases));
      idle = λ j x e. v.idle j x (ground (arith, lookup-delete k j s.leases));
      limited = λ owner. ground (
        arith,
        v.limited owner,
        count_leases-tally owner (delete k s.leases),
        count_leases-tally owner s.leases,
        tally-delete (owns owner) k l s.leases v.distinct at,
      );
      agents = release-IsPorts s.agent_ports l.agent_port v.agents;
      ctrls = release-IsPorts s.ctrl_ports l.ctrl_port v.ctrls;
      grpcs = release_grpc-Accounts.1;
      agent_accounts =
          Accounts-give (λ x. x.agent_port) s.agent_ports s.leases _ a v.agent_accounts l.agent_port
            (λ p pos. holders_deleted (λ x. x.agent_port) p);
      ctrl_accounts =
          Accounts-give (λ x. x.ctrl_port) s.ctrl_ports s.leases _ c v.ctrl_accounts l.ctrl_port
            (λ p pos. holders_deleted (λ x. x.ctrl_port) p);
      grpc_accounts = release_grpc-Accounts.0;
    }

  -- A lease that is reclaimed gives back exactly the ports that it held.
  pub reclaim-Inv : (lease_id : String) → InvWith a c g (reclaim_lease s lease_id)
  unfolding reclaim_lease
  reclaim-Inv lease_id = elim (Option-cases (lookup lease_id s.leases)) [
    | inl e ↦ rw (e, reclaimed) v
    | inr (l, e) ↦ rw (e, reclaimed) (reclaimed-Inv lease_id l e)
  ]

release_all-Inv :
    (s : Service) (m : Dict String Lease)
    → Inv (record s { leases = m })
    → Inv (release_all (record s { leases = [] }) m)
unfolding release_all release_ports lookup
release_all-Inv s [] v = v
release_all-Inv s ((k, l) ∷ m) v = release_all-Inv (release_ports s l) m (
    subst (λ n. Inv (record (release_ports s l) { leases = n })) (delete_head k l m v.distinct.0)
      (reclaimed-Inv 0 0 0 (record s { leases = (k, l) ∷ m }) v k l (rw eq_self)))

pub cleanup-Inv : (s : Service) → Inv s → Inv (cleanup_proxy_leases s)
unfolding cleanup_proxy_leases
cleanup-Inv s v = release_all-Inv s s.leases v
