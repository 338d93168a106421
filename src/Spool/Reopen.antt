-- ===== src/Spool/Reopen.antt =====
-- queue.go: `Open` on the directory of an earlier run.
use gta.Base.{
  ℕ, zero, suc, ◌≤◌, ◌<◌, ◌≡◌, ◌≢◌, refl, ap, ◌∙◌, Bool, Option, none, some, List, [], ◌∷◌, arith,
  length, All, ltb, nat_eq, if_elim,
}
use gta.Base.Dict.{Dict, lookup, delete, lookup-insert_self, lookup-delete_ne}
use gta.Spool.Records.{Entry}
use gta.Spool.Scan.{Sound, Torn}
use gta.Spool.{Cursor, Queue, or_empty, drop_segment}
use gta.Spool.Invariant.{Stored, Holds}
use gta.Spool.Recovery.{
  last_segment, load_cursor, room_of, drop_confirmed, write_position, recover, on_directory, reopen,
  scan_from, after_scan,
}
use gta.Spool.Layouts.{Layout-same, Layout-length, last_of-present, last_segment-Layout}
use gta.Spool.Scanning.{Layout, joined, last_of, sizes, Scanning}
use gta.Spool.Resume.{Resumes, resume_from}

-- Removing segments before the cursor leaves a scan as it was.
pub record Kept (q : Queue) (head off last room : ℕ) (disk : Dict ℕ (List ℕ)) : Type 0 where
  pub scanning : Scanning q [] head off
  pub seen : (s : ℕ) → head ≤ s → lookup s q.disk ≡ lookup s disk
  pub last_kept : q.wr_cur.segment ≡ last
  pub empty : q.bytes ≡ 0
  pub limit : q.max_bytes ≡ room

Stored-none :
    (disk disk' : Dict ℕ (List ℕ)) (es : List Entry) → Stored disk es [] → Stored disk' es []
Stored-none disk disk' [] h = h
Stored-none disk disk' (e ∷ es) h = absurd h

drop-Kept :
    (head off last room seg : ℕ) (disk : Dict ℕ (List ℕ)) (q : Queue)
    → seg < head
    → head ≤ last
    → Kept q head off last room disk
    → Kept (drop_segment q seg) head off last room disk
unfolding drop_segment
drop-Kept head off last room seg disk q lt le k =
    let v = k.scanning in
    let ne : seg ≢ q.wr_cur.segment = omega (arith, lt, le, k.last_kept) in
    record {
      scanning = record {
        stored = Stored-none q.disk (delete seg q.disk) q.entries v.stored;
        chain = v.chain;
        none_flying = v.none_flying;
        counted = v.counted;
        at_end =
            ap (λ o. length (or_empty o)) (lookup-delete_ne seg q.wr_cur.segment q.disk ne)
            ∙ v.at_end;
        positioned = lookup-delete_ne seg q.wr_cur.segment q.files ne ∙ v.positioned;
        writing = v.writing;
        is_open = v.is_open;
        small = v.small;
      };
      seen = λ s above. lookup-delete_ne seg s q.disk (omega (arith, lt, above)) ∙ k.seen s above;
      last_kept = k.last_kept;
      empty = k.empty;
      limit = k.limit;
    }

drop_confirmed-Kept :
    (head off last room : ℕ) (disk : Dict ℕ (List ℕ)) (m : Dict ℕ (List ℕ)) (q : Queue)
    → head ≤ last
    → Kept q head off last room disk
    → Kept (drop_confirmed head m q) head off last room disk
unfolding drop_confirmed
drop_confirmed-Kept head off last room disk [] q le k = k
drop_confirmed-Kept head off last room disk ((seg, file) ∷ m) q le k =
    if_elim (λ w. Kept (drop_confirmed head m w) head off last room disk) (ltb seg head) _ _
      (λ below.
        drop_confirmed-Kept head off last room disk m (drop_segment q seg) le
          (drop-Kept head off last room seg disk q (ground (arith, below)) le k))
      (λ above. drop_confirmed-Kept head off last room disk m q le k)

Kept-Resumes :
    (runs : List (List (List ℕ))) (q : Queue) (head off last room : ℕ) (disk : Dict ℕ (List ℕ))
    (tail : List ℕ)
    → Kept q head off last room disk
    → All (All Sound) runs
    → Torn tail
    → Layout disk head off runs tail
    → last ≡ last_of head runs
    → sizes runs ≤ room
    → Resumes (joined runs) (scan_from (suc (length q.disk)) q head off)
Kept-Resumes runs q head off last room disk tail k sound torn lay ends fits =
    let lay' = Layout-same disk q.disk head off runs tail k.seen lay in
    resume_from runs (suc (length q.disk)) q [] head off tail k.scanning sound torn lay'
      (k.last_kept ∙ ends) (omega (arith, k.empty, k.limit, fits))
      (omega (arith, Layout-length runs q.disk head off tail lay'))

abbrev at_write_of : ℕ × List ℕ → Dict ℕ (List ℕ) → Option Cursor → ℕ → ℕ → Bool → Queue
at_write_of first others saved max_bytes seg_bytes archive =
    write_position (first ∷ others)
      (on_directory (first ∷ others) saved max_bytes seg_bytes archive)

module _ (first : ℕ × List ℕ) (others : Dict ℕ (List ℕ)) (saved : Option Cursor)
    (max_bytes seg_bytes : ℕ) (archive : Bool) (small : room_of max_bytes < 4294967296) where
  abbrev at_write : Queue
  at_write = at_write_of first others saved max_bytes seg_bytes archive

  at_write-Kept :
      (head off : ℕ)
      → Kept at_write head off (last_segment (first ∷ others)) (room_of max_bytes) (first ∷ others)
  unfolding write_position on_directory
  at_write-Kept head off = record {
    scanning = record {
      stored = tt;
      chain = tt;
      none_flying = refl;
      counted = refl;
      at_end = refl;
      positioned = lookup-insert_self (last_segment (first ∷ others)) _ [];
      writing = refl;
      is_open = refl;
      small = small;
    };
    seen = λ s above. refl;
    last_kept = refl;
    empty = refl;
    limit = refl;
  }

  -- Opened again on a directory with whole records from the saved cursor to the end of the last
  -- segment, and perhaps a torn one behind them, the queue holds exactly those records, in order and
  -- none of them in flight, whatever the mode. The records are not empty, their frames fit the limit
  -- of the queue, the default where the option is 0, and the limit is below 2 ^ 32. The segments before the cursor do not matter.
  pub reopen-Holds :
      (runs : List (List (List ℕ))) (tail : List ℕ)
      → All (All Sound) runs
      → Torn tail
      → Layout (first ∷ others) (load_cursor saved).segment (load_cursor saved).offset runs tail
      → sizes runs ≤ room_of max_bytes
      → (q : Queue) × (reopen (first ∷ others) saved max_bytes seg_bytes archive ≡ some q)
        × Holds q (joined runs)
  unfolding reopen recover write_position on_directory
  reopen-Holds runs tail sound torn lay room =
      let head = (load_cursor saved).segment in
      let off = (load_cursor saved).offset in
      let disk = first ∷ others in
      let last = last_segment disk in
      let ends = last_segment-Layout runs first others head off tail lay in
      let le : head ≤ last = omega (arith, ends, (last_of-present runs disk head off tail lay).2) in
      let k = at_write-Kept head off in
      if_elim (λ w. Resumes (joined runs) (scan_from (suc (length w.disk)) w head off)) archive _ _
        (λ e.
          Kept-Resumes runs at_write head off last (room_of max_bytes) disk tail k sound torn lay
            ends room)
        (λ e.
          Kept-Resumes runs (drop_confirmed head disk at_write) head off last (room_of max_bytes)
            disk tail
            (drop_confirmed-Kept head off last (room_of max_bytes) disk disk at_write le k) sound
            torn lay ends room)

drop_confirmed-lookup :
    (head : ℕ) (m : Dict ℕ (List ℕ)) (q : Queue)
    → lookup head (drop_confirmed head m q).disk ≡ lookup head q.disk
unfolding drop_confirmed drop_segment
drop_confirmed-lookup head [] q = refl
drop_confirmed-lookup head ((seg, file) ∷ m) q =
    if_elim (λ w. lookup head (drop_confirmed head m w).disk ≡ lookup head q.disk) (ltb seg head) _
      _
      (λ below.
        drop_confirmed-lookup head m (drop_segment q seg)
        ∙ lookup-delete_ne seg head q.disk (ground (arith, below)))
      (λ above. drop_confirmed-lookup head m q)

scan_missing :
    (fuel : ℕ) (q : Queue) (seg off : ℕ)
    → lookup seg q.disk ≡ none
    → scan_from fuel q seg off ≡ none
unfolding scan_from after_scan
scan_missing zero q seg off absent = refl
scan_missing (suc fuel) q seg off absent = rw absent refl

-- If the segment of the cursor is not in the directory any more, which still holds others, the
-- queue cannot be opened.
pub reopen_missing :
    (first : ℕ × List ℕ) (others : Dict ℕ (List ℕ)) (saved : Option Cursor)
    (max_bytes seg_bytes : ℕ) (archive : Bool)
    → lookup (load_cursor saved).segment (first ∷ others) ≡ none
    → reopen (first ∷ others) saved max_bytes seg_bytes archive ≡ none
unfolding reopen recover write_position on_directory
reopen_missing first others saved max_bytes seg_bytes archive absent =
    let head = (load_cursor saved).segment in
    let q = at_write_of first others saved max_bytes seg_bytes archive in
    if_elim (λ w. scan_from (suc (length w.disk)) w head (load_cursor saved).offset ≡ none) archive
      _ _ (λ e. scan_missing (suc (length q.disk)) q head (load_cursor saved).offset absent)
      (λ e.
        let w = drop_confirmed head (first ∷ others) q in
        scan_missing (suc (length w.disk)) w head (load_cursor saved).offset
          (drop_confirmed-lookup head (first ∷ others) q ∙ absent))
