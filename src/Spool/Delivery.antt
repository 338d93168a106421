-- ===== src/Spool/Delivery.antt =====
-- queue.go: `Next` delivers the records that follow those in flight, in order.
use gta.Base.{
  ℕ, suc, ◌+◌, ◌≤◌, ◌<◌, ◌≡◌, refl, ap, sym, subst, ◌∙◌, Bool, true, false, Option, none, some,
  List, [], ◌∷◌, ◌++◌, min, max, arith, length, take, drop, nat_eq, eqb, ltb, if◌then◌else◌,
  if_elim, append_nil, All, length-drop, length-take,
}
use gta.Base.Dict.{lookup, insert, lookup-insert_ne}
use gta.Spool.Records.{Entry}
use gta.Spool.Framing.{Fits}
use gta.Spool.Scan.{frames}
use gta.Spool.{Queue}
use gta.Spool.Reading.{
  same_run, parse, NextResult, drained, open_failed, read_failed, panicked, delivered, deliver,
  file_for, read_run, next_from, next,
}
use gta.Spool.Invariant.{Stored, Stored-drop, Stored-length, Chain, Chain-drop, Holds}
use gta.Spool.Runs.{parse-frames, Begins, Run, same_run-Run, same_run_some, none_left}

-- What `Next` may answer, and the queue it leaves: nothing when every record is in flight, an
-- error when the segment cannot be opened, and otherwise at least one of the records that follow
-- those in flight. It never reads too little and never cuts out of range.
abbrev pub NextOutcome : Queue → List (List ℕ) → ℕ → Bool → Queue × NextResult → Type 0
NextOutcome q recs n opens (q', drained) =
    (drop q.next_idx recs ≡ []) × Holds q' recs × (q'.next_idx ≡ q.next_idx)
NextOutcome q recs n opens (q', open_failed) =
    (opens ≡ false) × Holds q' recs × (q'.next_idx ≡ q.next_idx)
NextOutcome q recs n opens (q', read_failed) = ⊥
NextOutcome q recs n opens (q', panicked) = ⊥
NextOutcome q recs n opens (q', delivered out) =
    Holds q' recs
    × (0 < length out)
    × (length out ≤ n)
    × (out ≡ take (length out) (drop q.next_idx recs))
    × (q'.next_idx ≡ q.next_idx + length out)

module _ (q : Queue) (recs : List (List ℕ)) (v : Holds q recs) where
  opened-Holds :
      (seg : ℕ) → lookup seg q.files ≡ none → Holds (record q { files = insert seg 0 q.files }) recs
  opened-Holds seg absent = record {
    stored = v.stored;
    chain = v.chain;
    in_flight = v.in_flight;
    counted = v.counted;
    bounded = v.bounded;
    at_end = v.at_end;
    positioned =
        lookup-insert_ne seg q.wr_cur.segment 0 q.files
          (λ e. let c = sym (subst (λ z. lookup z q.files ≡ none) e absent) ∙ v.positioned in cc)
        ∙ v.positioned;
    writing = v.writing;
    fresh = v.fresh;
    is_open = v.is_open;
    small = v.small;
  }

  delivered-Holds :
      (k : ℕ)
      → q.next_idx + k ≤ length q.entries
      → Holds (record q { next_idx = q.next_idx + k }) recs
  delivered-Holds k room = record {
    stored = v.stored;
    chain = v.chain;
    in_flight = room;
    counted = v.counted;
    bounded = v.bounded;
    at_end = v.at_end;
    positioned = v.positioned;
    writing = v.writing;
    fresh = v.fresh;
    is_open = v.is_open;
    small = v.small;
  }

-- The records that follow those in flight, read in one piece.
module _ (q : Queue) (recs : List (List ℕ)) (v : Holds q recs) (n : ℕ) (opens : Bool) (head : Entry)
    (es : List Entry) (waiting : drop q.next_idx q.entries ≡ head ∷ es) where
  abbrev run : ℕ × ℕ
  run = same_run head.seg (min n (suc (length es))) (head ∷ es)

  read_whole :
      (buf : List ℕ) (count bytes : ℕ) (out : List (List ℕ))
      → buf ≡ frames out
      → bytes ≡ length (frames out)
      → length out ≡ count
      → All Fits out
      → ◌≡◌ {A = Queue × NextResult}
          (if ltb (length buf) bytes then (q, read_failed) else deliver q count (parse count buf))
          (record q { next_idx = q.next_idx + count }, delivered out)
  unfolding deliver
  read_whole buf count bytes out e size k fits =
      if_elim
        (λ (z : Queue × NextResult).
          z ≡ (record q { next_idx = q.next_idx + count }, delivered out))
        (ltb (length buf) bytes) _ _
        (λ short. absurd (ground (arith, short, size, ap (λ xs. length xs) e)))
        (λ whole. ap (deliver q count) (
          subst (λ z. parse count z ≡ some out) (append_nil (frames out) ∙ sym e)
            (subst (λ z. parse z (frames out ++ []) ≡ some out) k (parse-frames out [] fits))))

  read-run : 0 < n → NextOutcome q recs n opens (read_run (q, true) head run)
  unfolding read_run Begins Run same_run
  read-run pos =
      let there : Stored q.disk (head ∷ es) (drop q.next_idx recs) =
        subst (λ z. Stored q.disk z (drop q.next_idx recs)) waiting
          (Stored-drop q.disk q.next_idx q.entries recs v.stored) in
      let chained : Chain (head ∷ es) q.wr_cur =
        subst (λ z. Chain z q.wr_cur) waiting (Chain-drop q.next_idx q.entries q.wr_cur v.chain) in
      let found =
        same_run-Run q.disk q.wr_cur head.seg (min n (suc (length es))) head.off (head ∷ es)
          (drop q.next_idx recs) there chained (λ same. refl) in
      let out = take run.0 (drop q.next_idx recs) in
      let size : length out ≡ run.0 =
        omega (arith, length-take run.0 (drop q.next_idx recs), found.3) in
      let room : q.next_idx + run.0 ≤ length q.entries = omega (
        arith,
        found.3,
        length-drop q.next_idx recs,
        Stored-length q.disk q.entries recs v.stored,
        v.in_flight,
      ) in
      let some_read : 0 < run.0 =
        same_run_some (min n (suc (length es))) head es (omega (arith, pos)) in
      subst (NextOutcome q recs n opens)
        (sym (read_whole _ run.0 run.1 out found.0 found.1 size found.2))
        (
          delivered-Holds q recs v run.0 room,
          omega (arith, size, some_read),
          omega (arith, size, found.4),
          subst (λ z. out ≡ take z (drop q.next_idx recs)) (sym size) refl,
          omega (arith, size),
        )

module _ (n : ℕ) (pos : 0 < n) where
  opened-run :
      (q : Queue) (recs : List (List ℕ)) (head : Entry) (es : List Entry) (handle : Option ℕ)
      (opens : Bool)
      → Holds q recs
      → drop q.next_idx q.entries ≡ head ∷ es
      → lookup head.seg q.files ≡ handle
      → NextOutcome q recs n opens (
          read_run
            (file_for q head.seg handle opens)
            head
            (same_run head.seg (min n (suc (length es))) (head ∷ es)))
  unfolding file_for read_run
  opened-run q recs head es (some at) opens v waiting handle =
      read-run q recs v n opens head es waiting pos
  opened-run q recs head es none false v waiting handle = (refl, v, refl)
  opened-run q recs head es none true v waiting handle =
      read-run (record q { files = insert head.seg 0 q.files }) recs
        (opened-Holds q recs v head.seg handle) n true head es waiting pos

  from-Outcome :
      (q : Queue) (recs : List (List ℕ)) (es : List Entry) (opens : Bool)
      → Holds q recs
      → drop q.next_idx q.entries ≡ es
      → NextOutcome q recs n opens (next_from q es n opens)
  unfolding next_from
  from-Outcome q recs [] opens v e = (
    none_left q.disk (drop q.next_idx recs) (
        subst (λ z. Stored q.disk z (drop q.next_idx recs)) e
          (Stored-drop q.disk q.next_idx q.entries recs v.stored)),
    v,
    refl,
  )
  from-Outcome q recs (head ∷ es) opens v e =
      opened-run q recs head es (lookup head.seg q.files) opens v e refl

-- `Next` delivers records in the order of arrival and none twice: what it returns is the
-- beginning of what follows the records in flight, not empty and not longer than asked for (0 asks
-- for one), and those are in flight afterwards. It returns nothing only when all records are in
-- flight, and fails only if the segment cannot be opened.
pub next-Outcome :
    (q : Queue) (recs : List (List ℕ)) (n : ℕ) (opens : Bool)
    → Holds q recs
    → NextOutcome q recs (max n 1) opens (next q n opens)
unfolding next
next-Outcome q recs n opens v =
    subst
      (λ z. NextOutcome q recs (max n 1) opens (next_from q (drop q.next_idx q.entries) z opens))
      (let e : max n 1 ≡ (if eqb n 0 then 1 else n) = ground arith in e)
      (from-Outcome (max n 1) (omega arith) q recs (drop q.next_idx q.entries) opens v refl)
