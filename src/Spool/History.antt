-- ===== src/Spool/History.antt =====
-- queue.go: the queue against an abstract one, which is a list and the number of its records that
-- are in flight.
use gta.Base.{
  ℕ, ◌+◌, ◌-◌, ◌<◌, ◌≡◌, refl, ap, subst, ◌∙◌, Bool, false, none, some, List, [], ◌∷◌, min, max,
  if_elim, if◌then◌else◌, arith, length, take, drop, nat_eq, eqb, All,
}
use gta.Base.Dict.{lookup, insert}
use gta.Spool.{Queue, or_empty, AppendEnv, AppendResult, append, ack_n, requeue}
use gta.Spool.Reading.{NextResult, drained, delivered, next, open_failed, read_failed, panicked}
use gta.Spool.Invariant.{Holds}
use gta.Spool.Appending.{kept, append-Holds}
use gta.Spool.InFlight.{append-next_idx}
use gta.Spool.Delivery.{NextOutcome, next-Outcome}
use gta.Spool.Confirming.{ack_n-Holds, requeue-Holds}

pub record Fifo : Type 0 where
  pub waiting : List (List ℕ)
  pub flying : ℕ

pub data Op : Type 0 where
  appends : List ℕ → AppendEnv → Op
  asks : ℕ → Bool → Op
  acks : ℕ → Bool → Op
  requeues : Op

pub data Reply : Type 0 where
  appended : AppendResult → Reply
  answered : NextResult → Reply
  silent : Reply

unfoldable pub step : Queue → Op → Queue × Reply
step q (appends rec env) = let (q', r) = append q rec env in (q', appended r)
step q (asks n opens) = let (q', r) = next q n opens in (q', answered r)
step q (acks n saves) = ((ack_n q n saves).0, silent)
step q requeues = (requeue q, silent)

-- How many records an answer delivers.
abbrev pub count_of : NextResult → ℕ
count_of (delivered out) = length out
count_of _ = 0

-- What a caller who sees only the replies takes the queue to be.
unfoldable pub observe : Fifo → Op → Reply → Fifo
observe s (appends rec env) (appended r) = record s { waiting = kept r rec s.waiting }
observe s (asks n opens) (answered r) = record s { flying = s.flying + count_of r }
observe s (acks n saves) _ = record {
  waiting = drop (min n s.flying) s.waiting;
  flying = s.flying - min n s.flying;
}
observe s requeues _ = record s { flying = 0 }
observe s _ _ = s

-- A failed write has written nothing.
abbrev pub Clean : Op → Type 0
Clean (appends rec env) = env.wrote ≡ false → env.written ≡ 0
Clean _ = Unit

-- A reply that delivers records delivers those that follow the ones in flight.
abbrev pub InOrder : Fifo → Reply → Type 0
InOrder s (answered (delivered out)) = out ≡ take (length out) (drop s.flying s.waiting)
InOrder s (answered drained) = drop s.flying s.waiting ≡ []
InOrder s (answered panicked) = ⊥
InOrder s (answered read_failed) = ⊥
InOrder s _ = Unit

pub record Refines (q : Queue) (s : Fifo) : Type 0 where
  pub holds : Holds q s.waiting
  pub flying : q.next_idx ≡ s.flying

asked-Refines :
    (q : Queue) (s : Fifo) (n at_most : ℕ) (opens : Bool) (w : Queue × NextResult)
    → q.next_idx ≡ s.flying
    → NextOutcome q s.waiting at_most opens w
    → Refines w.0 (observe s (asks n opens) (answered w.1)) × InOrder s (answered w.1)
unfolding observe
asked-Refines q s n at_most opens (q', drained) e o = (
  record { holds = o.1; flying = omega (arith, e, o.2) },
  subst (λ z. drop z s.waiting ≡ []) e o.0,
)
asked-Refines q s n at_most opens (q', open_failed) e o =
    (record { holds = o.1; flying = omega (arith, e, o.2) }, tt)
asked-Refines q s n at_most opens (q', read_failed) e o = absurd o
asked-Refines q s n at_most opens (q', panicked) e o = absurd o
asked-Refines q s n at_most opens (q', delivered out) e o = (
  record { holds = o.0; flying = o.4 ∙ ap (λ z. z + length out) e },
  subst (λ z. out ≡ take (length out) (drop z s.waiting)) e o.3,
)

step-Refines :
    (q : Queue) (s : Fifo) (op : Op)
    → Clean op
    → Refines q s
    → Refines (step q op).0 (observe s op (step q op).1) × InOrder s (step q op).1
unfolding step observe requeue
step-Refines q s (appends rec env) clean v = (
  record {
    holds = append-Holds q s.waiting rec env v.holds clean;
    flying = append-next_idx rec env q ∙ v.flying;
  },
  tt,
)
step-Refines q s (asks n opens) clean v =
    asked-Refines q s n (max n 1) opens (next q n opens) v.flying
      (next-Outcome q s.waiting n opens v.holds)
step-Refines q s (acks n saves) clean v =
    subst
      (λ z.
        Refines (ack_n q n saves).0
          (record { waiting = drop (min n z) s.waiting; flying = z - min n z })
        × Unit)
      v.flying
      (let both = ack_n-Holds q s.waiting n saves v.holds in
        (record { holds = both.0; flying = both.1 }, tt))
step-Refines q s requeues clean v =
    (record { holds = (requeue-Holds q s.waiting v.holds).0; flying = refl }, tt)

-- The queue as `Open` leaves it on an empty directory.
unfoldable pub open_empty : ℕ → ℕ → Bool → Queue
open_empty max_bytes seg_bytes archive = record {
  disk = insert 1 [] [];
  saved = none;
  max_bytes = if eqb max_bytes 0 then 536870912 else max_bytes;
  seg_bytes = if eqb seg_bytes 0 then 67108864 else seg_bytes;
  archive = archive;
  entries = [];
  next_idx = 0;
  bytes = 0;
  wr_cur = record { segment = 1; offset = 0 };
  wr_file = some 1;
  files = insert 1 0 [];
  ack_since = 0;
  dropped = 0;
  closed = false;
}

open_empty-Refines :
    (max_bytes seg_bytes : ℕ) (archive : Bool)
    → max_bytes < 4294967296
    → Refines (open_empty max_bytes seg_bytes archive) (record { waiting = []; flying = 0 })
unfolding open_empty insert lookup
open_empty-Refines max_bytes seg_bytes archive small = record {
  holds = record {
    stored = tt;
    chain = tt;
    in_flight = omega arith;
    counted = refl;
    bounded = omega arith;
    at_end = refl;
    positioned = refl;
    writing = refl;
    fresh =
        λ seg lt. if_elim (λ z. or_empty z ≡ []) (eqb 1 seg) (some []) none (λ e. refl) (λ e. refl);
    is_open = refl;
    small = ground (arith, small);
  };
  flying = refl;
}

-- Both queues side by side, the abstract one fed with the replies.
unfoldable pub run : Queue → Fifo → List Op → Queue × Fifo
unfolding step observe
run q s [] = (q, s)
run q s (op ∷ ops) = run (step q op).0 (observe s op (step q op).1) ops

-- Every reply of the history is in order.
unfoldable pub AllInOrder : Queue → Fifo → List Op → Type 0
AllInOrder q s [] = Unit
AllInOrder q s (op ∷ ops) =
    InOrder s (step q op).1 × AllInOrder (step q op).0 (observe s op (step q op).1) ops

run_from-Refines :
    (q : Queue) (s : Fifo) (ops : List Op)
    → All Clean ops
    → Refines q s
    → Refines (run q s ops).0 (run q s ops).1 × AllInOrder q s ops
unfolding run AllInOrder
run_from-Refines q s [] clean v = (v, tt)
run_from-Refines q s (op ∷ ops) clean v =
    let one = step-Refines q s op clean.0 v in
    let rest = run_from-Refines (step q op).0 (observe s op (step q op).1) ops clean.1 one.0 in
    (rest.0, (one.1, rest.1))

-- Over any history of calls on a new queue whose failed writes write nothing, the queue on disk
-- behaves as a list with a number of records in flight: accepted records go to its end, every
-- delivery continues where the last one stopped, confirmed records leave its front, and a requeue
-- puts those in flight back. Delivery never reads too little or out of range.
pub run-Refines :
    (max_bytes seg_bytes : ℕ) (archive : Bool) (ops : List Op)
    → max_bytes < 4294967296
    → All Clean ops
    → let q = open_empty max_bytes seg_bytes archive in
      let s : Fifo = record { waiting = []; flying = 0 } in
      Refines (run q s ops).0 (run q s ops).1 × AllInOrder q s ops
run-Refines max_bytes seg_bytes archive ops small clean =
    run_from-Refines (open_empty max_bytes seg_bytes archive) (record { waiting = []; flying = 0 })
      ops clean (open_empty-Refines max_bytes seg_bytes archive small)
