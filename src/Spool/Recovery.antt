-- ===== src/Spool/Recovery.antt =====
-- queue.go: `Open` on a directory that holds the segments of an earlier run. `none` is an error.
-- The files can be opened and read; one that is not there gives an error, also in `scanFrom`,
-- since `os.IsNotExist` does not look into the error that `fileFor` wraps.
use gta.Base.{
  ℕ, zero, suc, ◌+◌, max, Bool, false, not, Option, none, some, List, [], ◌∷◌, ◌++◌, length, take,
  eqb, ltb, nat_eq, if◌then◌else◌,
}
use gta.Base.Dict.{Dict, lookup, insert}
use gta.Spool.Records.{Entry, ScanStop, scan_segment}
use gta.Spool.{Cursor, Queue, content, spans, drop_segment}

-- The last of the segments that `listSegments` sorts; 0 if there is none.
unfoldable pub last_segment : Dict ℕ (List ℕ) → ℕ
last_segment [] = 0
last_segment ((seg, file) ∷ m) = max seg (last_segment m)

-- The saved cursor, or else the start of segment 1.
unfoldable pub load_cursor : Option Cursor → Cursor
load_cursor none = record { segment = 1; offset = 0 }
load_cursor (some c) = record {
  segment = if eqb c.segment 0 then 1 else c.segment;
  offset = c.offset;
}

unfoldable pub drop_confirmed : ℕ → Dict ℕ (List ℕ) → Queue → Queue
unfolding drop_segment
drop_confirmed head [] q = q
drop_confirmed head ((seg, file) ∷ m) q =
    drop_confirmed head m (if ltb seg head then drop_segment q seg else q)

unfoldable pub note_open : ℕ → Option ℕ → Dict ℕ ℕ → Dict ℕ ℕ
note_open seg none files = insert seg 0 files
note_open seg (some pos) files = files

-- What the scan of one file adds to the index.
unfoldable pub scanned : Queue → ℕ → List Entry → Queue
unfolding note_open
scanned q seg es = record q {
  entries = q.entries ++ es;
  bytes = q.bytes + spans es;
  files = note_open seg (lookup seg q.files) q.files;
}

-- A torn record is cut off, and writing goes on from there.
unfoldable pub truncated : Queue → ℕ → List ℕ → ℕ → Queue
truncated q seg file offset = record q {
  disk = insert seg (take offset file) q.disk;
  wr_cur = record { segment = seg; offset = offset };
  wr_file = some seg;
  files = insert seg offset q.files;
}

-- A next segment is scanned if there is one.
unfoldable pub or_done : Option (List ℕ) → Queue → Option Queue → Option Queue
or_done none q rest = some q
or_done (some _) q rest = rest

unfoldable pub after_scan :
    Option (List ℕ) → Queue → ℕ → List ℕ → ScanStop → Option Queue → Option Queue
unfolding truncated
after_scan none q seg file stop rest = none
after_scan (some _) q seg file stop rest =
    if not stop.at_eof then some (truncated q seg file stop.offset) else rest

-- The loop over the segments, with `fuel` rounds left.
unfoldable pub scan_from : ℕ → Queue → ℕ → ℕ → Option Queue
unfolding after_scan or_done scanned
scan_from zero q seg off = none
scan_from (suc fuel) q seg off =
    let file = content q.disk seg in
    let found = scan_segment file seg off in
    let q' = scanned q seg found.0 in
    let rest = scan_from fuel q' (seg + 1) 0 in
    after_scan (lookup seg q.disk) q' seg file found.1 (or_done (lookup (seg + 1) q.disk) q' rest)

-- The write position: the end of the last segment, or a first segment in an empty directory.
unfoldable pub write_position : Dict ℕ (List ℕ) → Queue → Queue
unfolding last_segment
write_position [] q = record q {
  disk = insert 1 [] q.disk;
  wr_cur = record { segment = 1; offset = 0 };
  wr_file = some 1;
  files = insert 1 0 q.files;
}
write_position (first ∷ others) q =
    let last = last_segment (first ∷ others) in
    record q {
      wr_cur = record { segment = last; offset = length (content q.disk last) };
      wr_file = some last;
      files = insert last (length (content q.disk last)) q.files;
    }

unfoldable pub recover : Queue → Option Queue
unfolding scan_from load_cursor drop_confirmed write_position
recover q =
    let writing = write_position q.disk q in
    let cur = load_cursor q.saved in
    let kept = if q.archive then writing else drop_confirmed cur.segment q.disk writing in
    scan_from (suc (length kept.disk)) kept cur.segment cur.offset

-- The limit of `Open`: the default where the option is 0.
abbrev pub room_of : ℕ → ℕ
room_of max_bytes = if eqb max_bytes 0 then 536870912 else max_bytes

-- The queue of `Open` before `recover`: its limits, and what the directory holds.
unfoldable pub on_directory : Dict ℕ (List ℕ) → Option Cursor → ℕ → ℕ → Bool → Queue
on_directory disk saved max_bytes seg_bytes archive = record {
  disk = disk;
  saved = saved;
  max_bytes = room_of max_bytes;
  seg_bytes = if eqb seg_bytes 0 then 67108864 else seg_bytes;
  archive = archive;
  entries = [];
  next_idx = 0;
  bytes = 0;
  wr_cur = record { segment = 0; offset = 0 };
  wr_file = none;
  files = [];
  ack_since = 0;
  dropped = 0;
  closed = false;
}

unfoldable pub reopen : Dict ℕ (List ℕ) → Option Cursor → ℕ → ℕ → Bool → Option Queue
unfolding recover on_directory
reopen disk saved max_bytes seg_bytes archive =
    recover (on_directory disk saved max_bytes seg_bytes archive)
