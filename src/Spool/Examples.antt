-- ===== src/Spool/Examples.antt =====
-- The theorems on the queue at a queue of two records, the first of them in flight.
use gta.Base.{
  some, inl, Option, none, ℕ, ◌≡◌, ◌<◌, refl, true, false, List, [], ◌∷◌, ◌++◌, arith, length, take,
  nat_eq,
}
use gta.Base.Dict.{lookup, insert, delete}
use gta.Spool.Records.{frame, be32, scan_segment}
use gta.Spool.Scan.{frames, index, scan_after_crash}
use gta.Spool.{Cursor, Queue, content, AppendEnv, append, ack_n, requeue}
use gta.Spool.Reading.{next}
use gta.Spool.Invariant.{Holds}
use gta.Spool.Appending.{kept, append-Holds}
use gta.Spool.Delivery.{NextOutcome, next-Outcome}
use gta.Spool.Confirming.{ack_n-Holds}
use gta.Spool.History.{
  Fifo, Op, appends, asks, acks, requeues, Refines, AllInOrder, run, step, observe, open_empty,
  run-Refines,
}
use gta.Spool.Recovery.{reopen, load_cursor}
use gta.Spool.Reopen.{reopen-Holds}
use gta.Spool.Faults.{torn_write_shifts}
use gta.Spool.Retention.{Archive, Retention, SegInfo, enforce_retention, load_seg_meta}
use gta.Spool.Retaining.{enforce-keeps_unconfirmed}
use gta.Spool.Removed.{lost_figures_lose_records}

abbrev fine : AppendEnv
fine = record {
  roll_synced = true;
  segment_opened = true;
  wrote = true;
  written = 0;
  sync_due = true;
  synced = true;
}

abbrev broken : AppendEnv
broken = record fine { wrote = false; written = 3 }

abbrev empty : Queue
empty = open_empty 100 10 false

abbrev nothing : Fifo
nothing = record { waiting = []; flying = 0 }

abbrev calls : List Op
calls =
    appends (7 ∷ 8 ∷ []) fine
    ∷ appends (9 ∷ 8 ∷ 7 ∷ []) fine
    ∷ appends (5 ∷ []) fine
    ∷ asks 1 true
    ∷ requeues
    ∷ asks 2 true
    ∷ acks 1 true
    ∷ []

run-Refines_example :
    Refines (run empty nothing calls).0 (run empty nothing calls).1 × AllInOrder empty nothing calls
run-Refines_example =
    run-Refines 100 10 false calls (omega arith)
      ((λ e. refl), ((λ e. refl), ((λ e. refl), (tt, (tt, (tt, (tt, tt)))))))

-- A second segment is begun by the third record.
run_segments :
    (run empty nothing calls).0.entries
    ≡ record { seg = 1; off = 6; n = 3 } ∷ record { seg = 2; off = 0; n = 1 } ∷ []
unfolding run step open_empty append next ack_n requeue observe lookup insert delete
run_segments = refl

abbrev two : List (List ℕ)
two = (7 ∷ 8 ∷ []) ∷ (9 ∷ []) ∷ []

scan_after_crash_example :
    (scan_segment (frames two ++ take 3 (frame (5 ∷ 6 ∷ []))) 1 0
      ≡ (index 1 0 two, record { offset = length (frames two); at_eof = false }))
    × (take
          (scan_segment (frames two ++ take 3 (frame (5 ∷ 6 ∷ []))) 1 0).1.offset
          (frames two ++ take 3 (frame (5 ∷ 6 ∷ [])))
        ≡ frames two)
unfolding frame be32
scan_after_crash_example =
    scan_after_crash 1 two (5 ∷ 6 ∷ []) 3
      ((omega arith, omega arith), ((omega arith, omega arith), tt)) (omega arith) (omega arith)

abbrev begun : List Op
begun = appends (7 ∷ 8 ∷ []) fine ∷ appends (9 ∷ []) fine ∷ asks 1 true ∷ []

filled : Queue
filled = (run empty nothing begun).0

filled-Holds : Holds filled two
unfolding filled run step observe open_empty append lookup insert
filled-Holds =
    (run-Refines 100 10 false begun (omega arith) ((λ e. refl), ((λ e. refl), (tt, tt)))).0.holds

append-Holds_example :
    Holds (append filled (5 ∷ []) fine).0 (kept (append filled (5 ∷ []) fine).1 (5 ∷ []) two)
append-Holds_example = append-Holds filled two (5 ∷ []) fine filled-Holds (λ e. refl)

next-Outcome_example : NextOutcome filled two 3 true (next filled 3 true)
next-Outcome_example = next-Outcome filled two 3 true filled-Holds

ack_n-Holds_example :
    Holds (ack_n filled 5 true).0 ((9 ∷ []) ∷ []) × ((ack_n filled 5 true).0.next_idx ≡ 0)
unfolding filled run step observe open_empty append next lookup insert
ack_n-Holds_example = ack_n-Holds filled two 5 true filled-Holds

torn_write_shifts_example :
    let q' = (append (append empty (7 ∷ 8 ∷ []) broken).0 (9 ∷ []) fine).0 in
    (content q'.disk 1 ≡ 0 ∷ 0 ∷ 0 ∷ 0 ∷ 0 ∷ 0 ∷ 1 ∷ 9 ∷ [])
    × (q'.entries ≡ record { seg = 1; off = 0; n = 1 } ∷ [])
unfolding open_empty lookup insert frame be32 run
torn_write_shifts_example =
    torn_write_shifts empty [] (run-Refines 100 10 false [] (omega arith) tt).0.holds (7 ∷ 8 ∷ [])
      (9 ∷ []) broken fine (omega arith) (omega arith) (omega arith) refl refl

-- A directory of two segments with a torn record at the end, and the cursor behind the first
-- record of the first.
abbrev later_file : List ℕ
later_file = frames two ++ take 3 (frame (5 ∷ 6 ∷ []))

abbrev left_over : List (ℕ × List ℕ)
left_over = (2, later_file) ∷ []

abbrev cursor : Option Cursor
cursor = some (record { segment = 1; offset = 6 })

none_later : (later : ℕ) → 2 < later → lookup later ((1, frames two) ∷ left_over) ≡ none
unfolding lookup
none_later later lt = ground (arith, lt)

reopen-Holds_example :
    (q : Queue) × (reopen ((1, frames two) ∷ left_over) cursor 0 0 false ≡ some q)
    × Holds q ((9 ∷ []) ∷ (7 ∷ 8 ∷ []) ∷ (9 ∷ []) ∷ [])
unfolding load_cursor lookup frame be32
reopen-Holds_example =
    reopen-Holds (1, frames two) left_over cursor 0 0 false (omega arith)
      (((9 ∷ []) ∷ []) ∷ two ∷ []) (0 ∷ 0 ∷ 0 ∷ [])
      (
        ((omega arith, omega arith), tt),
        (((omega arith, omega arith), ((omega arith, omega arith), tt)), tt),
      )
      (inl (omega arith)) ((λ e. cc), refl, refl, ((λ e. cc), refl, refl, none_later)) (omega arith)

-- Two confirmed records and a crash: the first segment is removed, and no cursor has been saved.
abbrev confirmed : List Op
confirmed =
    appends (7 ∷ 8 ∷ []) fine
    ∷ appends (9 ∷ 8 ∷ 7 ∷ []) fine
    ∷ appends (5 ∷ []) fine
    ∷ asks 2 true
    ∷ acks 2 true
    ∷ []

crashed_disk : (run empty nothing confirmed).0.disk ≡ (2, frame (5 ∷ [])) ∷ []
unfolding run step open_empty append next ack_n requeue observe lookup insert delete frame be32
crashed_disk = refl

abbrev daily : Retention
daily = record { max_age = 10; max_bytes = 1 }

abbrev figures : SegInfo
figures = record { first_ms = 1; last_ms = 2; packets = 3; bytes = 15 }

abbrev archived : Archive
archived = record {
  queue = record filled { archive = true };
  retention = some daily;
  seg_meta = (1, figures) ∷ [];
}

enforce-keeps_unconfirmed_example :
    lookup 1 (enforce_retention 100 (1 ∷ []) archived).0.queue.disk ≡ lookup 1 filled.disk
unfolding filled run step observe open_empty append next lookup insert
enforce-keeps_unconfirmed_example =
    enforce-keeps_unconfirmed 100 (1 ∷ []) archived _ _ 1 figures refl (omega arith) refl
      (λ e. omega arith)

abbrev restarted : Archive
restarted = record archived { seg_meta = load_seg_meta [] ((1, 2) ∷ []) (1 ∷ []) [] }

lost_figures_lose_records_example :
    (lookup 1 (enforce_retention 100 (1 ∷ []) restarted).0.queue.disk ≡ none)
    × ((enforce_retention 100 (1 ∷ []) restarted).0.queue.entries ≡ filled.entries)
unfolding filled run step observe open_empty append next lookup insert
lost_figures_lose_records_example =
    lost_figures_lose_records daily 100 2 restarted _ _ refl refl refl refl (omega arith)
      (omega arith) (omega arith)
