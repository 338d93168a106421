-- ===== src/Spool.antt =====
-- pkg/spool/queue.go: the queue on disk between the capture and the uplink. The disk is the files
-- of the segments and the saved cursor. `files` maps an open segment to the position of its
-- handle; `Write` goes on from there, `ReadAt` does not move it. What a call of the operating
-- system answers is an argument. The mutex makes each method one step.
pub mod Records
pub mod Framing
pub mod Scan
pub mod Reading
pub mod Retention
pub mod Retaining
pub mod Removed
pub mod Recovery
pub mod Restart
pub mod Scanning
pub mod Resume
pub mod Layouts
pub mod Reopen
pub mod Invariant
pub mod Writing
pub mod Appending
pub mod Runs
pub mod Delivery
pub mod Confirming
pub mod InFlight
pub mod History
pub mod Faults
mod Examples
use gta.Base.{
  ℕ, zero, suc, ◌+◌, ◌-◌, min, Bool, true, false, not, Option, none, some, List, [], ◌∷◌, ◌++◌,
  length, take, drop, eqb, leb, ltb, nat_eq, if◌then◌else◌,
}
use gta.Base.Dict.{Dict, lookup, insert, delete}
use Records.{Entry, header_size, span, frame, read_be32, read_at}

pub record Cursor : Type 0 where
  pub segment : ℕ
  pub offset : ℕ

pub record Queue : Type 0 where
  pub disk : Dict ℕ (List ℕ)
  pub saved : Option Cursor
  pub max_bytes : ℕ
  pub seg_bytes : ℕ
  pub archive : Bool
  pub entries : List Entry
  pub next_idx : ℕ
  pub bytes : ℕ
  pub wr_cur : Cursor
  pub wr_file : Option ℕ
  pub files : Dict ℕ ℕ
  pub ack_since : ℕ
  pub dropped : ℕ
  pub closed : Bool

-- A missing file reads as empty.
abbrev pub or_empty : Option (List ℕ) → List ℕ
or_empty none = []
or_empty (some file) = file

abbrev pub content : Dict ℕ (List ℕ) → ℕ → List ℕ
content disk seg = or_empty (lookup seg disk)

-- What the operating system answers in the course of `Append`: to the sync and the creation of a
-- new segment, to the write (or how much of it went out before it failed), whether a sync is due
-- afterwards and whether it succeeds.
pub record AppendEnv : Type 0 where
  pub roll_synced : Bool
  pub segment_opened : Bool
  pub wrote : Bool
  pub written : ℕ
  pub sync_due : Bool
  pub synced : Bool

pub data AppendResult : Type 0 where
  accepted queue_full queue_closed write_failed sync_failed : AppendResult

-- `rollSegment`: the next segment is created if it is not there, and written from its start.
unfoldable pub roll_segment : Queue → AppendEnv → Queue × Bool
roll_segment q env =
    if not env.roll_synced then (q, false) else if not env.segment_opened then (q, false) else (
      record q {
        disk = insert next (content q.disk next) q.disk;
        wr_cur = record { segment = next; offset = 0 };
        wr_file = some next;
        files = insert next 0 q.files;
      },
      true,
    )
  where
    open q use {wr_cur}

    next : ℕ
    next = wr_cur.segment + 1

-- `File.Write` at a position that is not beyond the end.
abbrev pub overwrite : List ℕ → ℕ → List ℕ → List ℕ
overwrite file pos buf = take pos file ++ buf ++ drop (pos + length buf) file

unfoldable pub put_at : Queue → ℕ → Option ℕ → List ℕ → Bool → Queue × Bool
put_at q seg none buf ok = (q, false)
put_at q seg (some pos) buf ok = (
  record q {
    disk = insert seg (overwrite (content q.disk seg) pos buf) q.disk;
    files = insert seg (pos + length buf) q.files;
  },
  ok,
)

-- The write goes to the handle `wrFile`, at its position; a closed handle gives an error.
unfoldable pub write : Queue → Option ℕ → List ℕ → Bool → Queue × Bool
unfolding put_at
write q none buf ok = (q, false)
write q (some seg) buf ok = put_at q seg (lookup seg q.files) buf ok

unfoldable pub write_framed : Queue → List ℕ → AppendEnv → Queue × Bool
unfolding write frame
write_framed q rec env =
    if env.wrote
    then write q q.wr_file (frame rec) true
    else write q q.wr_file (take env.written (frame rec)) false

unfoldable pub write_rolled : Queue × Bool → List ℕ → AppendEnv → Queue × Bool
unfolding write_framed
write_rolled (q, false) rec env = (q, false)
write_rolled (q, true) rec env = write_framed q rec env

unfoldable pub write_record : Queue → List ℕ → AppendEnv → Queue × Bool
unfolding write_rolled roll_segment
write_record q rec env =
    if leb q.seg_bytes q.wr_cur.offset
    then write_rolled (roll_segment q env) rec env
    else write_framed q rec env

-- The record written counts in the index, whether or not the sync after it succeeds.
unfoldable pub after_write : Queue × Bool → List ℕ → AppendEnv → Queue × AppendResult
after_write (q, false) rec env = (record q { dropped = suc q.dropped }, write_failed)
after_write (q, true) rec env = (
  record q {
    entries = q.entries ++ entry ∷ [];
    wr_cur = record { segment = q.wr_cur.segment; offset = q.wr_cur.offset + span entry };
    bytes = q.bytes + span entry;
  },
  if not env.sync_due then accepted else if env.synced then accepted else sync_failed,
)
  where
    entry : Entry
    entry = record { seg = q.wr_cur.segment; off = q.wr_cur.offset; n = length rec }

unfoldable pub append : Queue → List ℕ → AppendEnv → Queue × AppendResult
unfolding after_write write_record
append q rec env =
    if ltb q.max_bytes (length rec)
    then (q, queue_full)
    else if q.closed
    then (q, queue_closed)
    else if ltb q.max_bytes (q.bytes + (header_size + length rec))
    then (record q { dropped = suc q.dropped }, queue_full)
    else after_write (write_record q rec env) rec env

abbrev pub read_cur_of : Cursor → List Entry → Cursor
read_cur_of wr [] = wr
read_cur_of wr (e ∷ es) = record { segment = e.seg; offset = e.off }

abbrev pub read_cur : Queue → Cursor
read_cur q = read_cur_of q.wr_cur q.entries

unfoldable pub drop_segment : Queue → ℕ → Queue
drop_segment q seg = record q { files = delete seg q.files; disk = delete seg q.disk }

unfoldable pub drop_before : ℕ → Dict ℕ ℕ → Queue → Queue
unfolding drop_segment
drop_before head [] q = q
drop_before head ((seg, pos) ∷ rest) q =
    drop_before head rest (if ltb seg head then drop_segment q seg else q)

unfoldable pub cleanup : Queue → Queue
unfolding drop_before
cleanup q = if q.archive then q else drop_before (read_cur q).segment q.files q

abbrev pub cursor_sync_every : ℕ
cursor_sync_every = 512

unfoldable pub persist_cursor : Queue → Queue
persist_cursor q = record q { saved = some (read_cur q); ack_since = 0 }

abbrev pub spans : List Entry → ℕ
spans [] = 0
spans (e ∷ es) = span e + spans es

-- The index without its first `n` entries, all of them in flight.
unfoldable pub acked : Queue → ℕ → Queue
acked q n = record q {
  entries = drop n q.entries;
  next_idx = q.next_idx - n;
  bytes = q.bytes - spans (take n q.entries);
  ack_since = q.ack_since + n;
}

-- The answer says whether there was no error. `saves` is what the save of the cursor answers.
unfoldable pub ack_n : Queue → ℕ → Bool → Queue × Bool
unfolding acked cleanup persist_cursor
ack_n q n saves =
    let k = min n q.next_idx in
    let q' = acked q k in
    if eqb k 0
    then (q, true)
    else if leb cursor_sync_every q'.ack_since
    then if saves then (cleanup (persist_cursor q'), true) else (q', false)
    else (cleanup q', true)

unfoldable pub requeue : Queue → Queue
requeue q = record q { next_idx = 0 }

abbrev pub depth : Queue → ℕ × ℕ
depth q = (length q.entries, q.bytes)

-- The handles go; the cursor is saved if the disk lets it.
unfoldable pub close : Queue → Bool → Queue
unfolding persist_cursor
close q saves = if q.closed then q else record (if saves then persist_cursor q else q) {
  closed = true;
  files = [];
  wr_file = none;
}
