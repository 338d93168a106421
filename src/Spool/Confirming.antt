-- ===== src/Spool/Confirming.antt =====
-- queue.go: `AckN`, `Requeue` and the removal of confirmed segments.
use gta.Base.{
  ℕ, zero, suc, ◌-◌, ◌≤◌, ◌<◌, ◌≡◌, ◌≢◌, refl, ap, sym, subst, ◌∙◌, Bool, List, [], ◌∷◌, min, arith,
  length, take, drop, nat_eq, eqb, leb, ltb, if_elim, length-drop,
}
use gta.Base.Dict.{Dict, delete, lookup-delete_ne}
use gta.Spool.Records.{Entry, span, read_at}
use gta.Spool.{
  Cursor, Queue, content, or_empty, spans, read_cur, read_cur_of, drop_segment, drop_before,
  cleanup, persist_cursor, acked, ack_n, requeue, cursor_sync_every,
}
use gta.Spool.Invariant.{Stored, Stored-drop, Linked, Linked-Chain, Chain, Chain-drop, Holds}

Linked-head : (e : Entry) (es : List Entry) (wr : Cursor) → Linked e es wr → e.seg ≤ wr.segment
Linked-head e [] wr l = ground (arith, l)
Linked-head e (f ∷ es) wr l = ground (arith, l.0, Linked-head f es wr l.1)

Chain-head :
    (es : List Entry) (wr : Cursor) → Chain es wr → (read_cur_of wr es).segment ≤ wr.segment
Chain-head [] wr l = omega arith
Chain-head (e ∷ es) wr l = Linked-head e es wr l

Chain-later :
    (e : Entry) (es : List Entry) (wr : Cursor)
    → Linked e es wr
    → e.seg ≤ (read_cur_of wr es).segment
Chain-later e [] wr l = ground (arith, l)
Chain-later e (f ∷ es) wr l = ground (arith, l.0)

-- Only segments before the read cursor change.
Stored-kept :
    (disk disk' : Dict ℕ (List ℕ)) (head : ℕ) (es : List Entry) (recs : List (List ℕ)) (wr : Cursor)
    → ((seg : ℕ) → head ≤ seg → content disk' seg ≡ content disk seg)
    → Chain es wr
    → head ≤ (read_cur_of wr es).segment
    → Stored disk es recs
    → Stored disk' es recs
Stored-kept disk disk' head [] [] wr same l le h = tt
Stored-kept disk disk' head [] (rec ∷ recs) wr same l le h = absurd h
Stored-kept disk disk' head (e ∷ es) [] wr same l le h = h
Stored-kept disk disk' head (e ∷ es) (rec ∷ recs) wr same l le h = (
  h.0,
  ap (λ z. read_at z e.off (span e)) (same e.seg le) ∙ h.1,
  h.2,
  Stored-kept disk disk' head es recs wr same (Linked-Chain e es wr l)
      (omega (arith, le, Chain-later e es wr l)) h.3,
)

content_deleted :
    (disk : Dict ℕ (List ℕ)) (seg at : ℕ)
    → seg ≢ at
    → content (delete seg disk) at ≡ content disk at
content_deleted disk seg at ne = ap or_empty (lookup-delete_ne seg at disk ne)

module _ (head : ℕ) (recs : List (List ℕ)) where
  not_writing :
      (q : Queue) (seg : ℕ)
      → Holds q recs
      → seg < head
      → head ≤ (read_cur q).segment
      → seg ≢ q.wr_cur.segment
  not_writing q seg v lt le = omega (arith, lt, le, Chain-head q.entries q.wr_cur v.chain)

  drop_segment-Holds :
      (q : Queue) (seg : ℕ)
      → Holds q recs
      → seg < head
      → head ≤ (read_cur q).segment
      → Holds (drop_segment q seg) recs
  unfolding drop_segment
  drop_segment-Holds q seg v lt le = record {
    stored =
        Stored-kept q.disk (delete seg q.disk) head q.entries recs q.wr_cur
          (λ at above. content_deleted q.disk seg at (omega (arith, lt, above))) v.chain le
          v.stored;
    chain = v.chain;
    in_flight = v.in_flight;
    counted = v.counted;
    bounded = v.bounded;
    at_end =
        ap (λ xs. length xs)
          (content_deleted q.disk seg q.wr_cur.segment (not_writing q seg v lt le))
        ∙ v.at_end;
    positioned =
        lookup-delete_ne seg q.wr_cur.segment q.files (not_writing q seg v lt le) ∙ v.positioned;
    writing = v.writing;
    fresh = λ at above.
        content_deleted q.disk seg at
          (omega (arith, lt, le, Chain-head q.entries q.wr_cur v.chain, above))
        ∙ v.fresh at above;
    is_open = v.is_open;
    small = v.small;
  }

  drop_before-Holds :
      (files : Dict ℕ ℕ) (q : Queue)
      → Holds q recs
      → head ≤ (read_cur q).segment
      → Holds (drop_before head files q) recs
  unfolding drop_before drop_segment
  drop_before-Holds [] q v le = v
  drop_before-Holds ((seg, at) ∷ rest) q v le =
      if_elim (λ w. Holds (drop_before head rest w) recs) (ltb seg head) _ _
        (λ below.
          drop_before-Holds rest (drop_segment q seg)
            (drop_segment-Holds q seg v (ground (arith, below)) le) le)
        (λ above. drop_before-Holds rest q v le)

cleanup-Holds : (q : Queue) (recs : List (List ℕ)) → Holds q recs → Holds (cleanup q) recs
unfolding cleanup
cleanup-Holds q recs v =
    if_elim (λ w. Holds w recs) q.archive _ _ (λ e. v)
      (λ e. drop_before-Holds (read_cur q).segment recs q.files q v (omega arith))

drop_before-next_idx :
    (head : ℕ) (files : Dict ℕ ℕ) (q : Queue) → (drop_before head files q).next_idx ≡ q.next_idx
unfolding drop_before drop_segment
drop_before-next_idx head [] q = refl
drop_before-next_idx head ((seg, at) ∷ rest) q =
    if_elim (λ w. (drop_before head rest w).next_idx ≡ q.next_idx) (ltb seg head) _ _
      (λ e. drop_before-next_idx head rest (drop_segment q seg))
      (λ e. drop_before-next_idx head rest q)

cleanup-next_idx : (q : Queue) → (cleanup q).next_idx ≡ q.next_idx
unfolding cleanup
cleanup-next_idx q =
    if_elim (λ (w : Queue). w.next_idx ≡ q.next_idx) q.archive _ _ (λ e. refl)
      (λ e. drop_before-next_idx (read_cur q).segment q.files q)

spans-take-drop : (k : ℕ) (es : List Entry) → spans es - spans (take k es) ≡ spans (drop k es)
spans-take-drop zero es = omega arith
spans-take-drop (suc k) [] = omega arith
spans-take-drop (suc k) (e ∷ es) = omega (arith, spans-take-drop k es)

module _ (q : Queue) (recs : List (List ℕ)) (v : Holds q recs) where
  acked-Holds : (k : ℕ) → k ≤ q.next_idx → Holds (acked q k) (drop k recs)
  unfolding acked
  acked-Holds k le = record {
    stored = Stored-drop q.disk k q.entries recs v.stored;
    chain = Chain-drop k q.entries q.wr_cur v.chain;
    in_flight = omega (arith, v.in_flight, length-drop k q.entries);
    counted = ap (λ z. z - spans (take k q.entries)) v.counted ∙ spans-take-drop k q.entries;
    bounded = omega (arith, v.bounded);
    at_end = v.at_end;
    positioned = v.positioned;
    writing = v.writing;
    fresh = v.fresh;
    is_open = v.is_open;
    small = v.small;
  }

  persist-Holds : Holds (persist_cursor q) recs
  unfolding persist_cursor
  persist-Holds = record {
    stored = v.stored;
    chain = v.chain;
    in_flight = v.in_flight;
    counted = v.counted;
    bounded = v.bounded;
    at_end = v.at_end;
    positioned = v.positioned;
    writing = v.writing;
    fresh = v.fresh;
    is_open = v.is_open;
    small = v.small;
  }

  -- Requeueing puts the records in flight back to the front, where `Next` delivers them again.
  pub requeue-Holds : Holds (requeue q) recs × ((requeue q).next_idx ≡ 0)
  unfolding requeue
  requeue-Holds = (
    record {
      stored = v.stored;
      chain = v.chain;
      in_flight = omega arith;
      counted = v.counted;
      bounded = v.bounded;
      at_end = v.at_end;
      positioned = v.positioned;
      writing = v.writing;
      fresh = v.fresh;
      is_open = v.is_open;
      small = v.small;
    },
    refl,
  )

-- `AckN` confirms the oldest records, as many as asked for but only such as are in flight: they
-- leave the queue and its byte count, and all others stay on the disk at their place, also when
-- confirmed segments are removed or the save of the cursor fails.
pub ack_n-Holds :
    (q : Queue) (recs : List (List ℕ)) (n : ℕ) (saves : Bool)
    → Holds q recs
    → Holds (ack_n q n saves).0 (drop (min n q.next_idx) recs)
      × ((ack_n q n saves).0.next_idx ≡ q.next_idx - min n q.next_idx)
unfolding ack_n acked persist_cursor
ack_n-Holds q recs n saves v =
    let k = min n q.next_idx in
    let P = λ (w : Queue × Bool). Holds w.0 (drop k recs) × (w.0.next_idx ≡ q.next_idx - k) in
    let mid = acked-Holds q recs v k (omega arith) in
    if_elim P (eqb k 0) _ _
      (λ none_flying.
        let zero_k : k ≡ 0 = ground (arith, none_flying) in
        (subst (λ z. Holds q (drop z recs)) (sym zero_k) v, omega (arith, zero_k)))
      (λ flying.
        if_elim P (leb cursor_sync_every (acked q k).ack_since) _ _
          (λ due.
            if_elim P saves _ _
              (λ e. (
                cleanup-Holds (persist_cursor (acked q k)) (drop k recs)
                    (persist-Holds (acked q k) (drop k recs) mid),
                cleanup-next_idx (persist_cursor (acked q k)),
              ))
              (λ e. (mid, refl)))
          (λ not_due. (cleanup-Holds (acked q k) (drop k recs) mid, cleanup-next_idx (acked q k))))
