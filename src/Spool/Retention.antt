-- ===== src/Spool/Retention.antt =====
-- retention.go: the archive mode of the queue, in which confirmed segments stay until they are too
-- old or take too much room. Times are milliseconds; the order in which Go goes over the map of
-- segments is an argument.
use gta.Base.{
  ℕ, ◌+◌, ◌-◌, Bool, true, false, Option, none, some, List, [], ◌∷◌, length, ltb, leb, eqb, max,
  ◌&&◌, ◌||◌, if◌then◌else◌, nat_eq,
}
use gta.Base.Dict.{Dict, insert, delete, lookup}
use gta.Spool.{Queue, Cursor, read_cur, drop_segment}

pub record SegInfo : Type 0 where
  pub first_ms : ℕ
  pub last_ms : ℕ
  pub packets : ℕ
  pub bytes : ℕ

pub record Retention : Type 0 where
  pub max_age : ℕ
  pub max_bytes : ℕ

-- The queue with what only the retention reads.
pub record Archive : Type 0 where
  pub queue : Queue
  pub retention : Option Retention
  pub seg_meta : Dict ℕ SegInfo

unfoldable pub enable_retention : Option Retention → Archive → Archive
enable_retention r a = record a { retention = r }

abbrev pub info_or_new : Option SegInfo → SegInfo
info_or_new (some m) = m
info_or_new none = record { first_ms = 0; last_ms = 0; packets = 0; bytes = 0 }

-- `stamp` is the time of the packet, 0 where it has none.
unfoldable pub note_record : ℕ → ℕ → ℕ → SegInfo → SegInfo
note_record now stamp total m =
    let ms = if eqb stamp 0 then now else stamp in
    record {
      first_ms = if eqb m.first_ms 0 || ltb ms m.first_ms then ms else m.first_ms;
      last_ms = max m.last_ms ms;
      packets = m.packets + 1;
      bytes = m.bytes + total;
    }

unfoldable pub note_seg_record : ℕ → ℕ → ℕ → ℕ → Archive → Archive
unfolding note_record insert lookup
note_seg_record now seg stamp total a = record a {
  seg_meta =
      insert seg (note_record now stamp total (info_or_new (lookup seg a.seg_meta))) a.seg_meta;
}

abbrev pub size_or_zero : Option (List ℕ) → ℕ
size_or_zero (some file) = length file
size_or_zero none = 0

-- The end of a segment, by what is known of it.
abbrev pub seg_end : Option SegInfo → Option (List ℕ) → ℕ
seg_end (some m) file = m.bytes
seg_end none file = size_or_zero file

unfoldable pub confirmed_to : Cursor → ℕ → ℕ → Bool
confirmed_to head seg end =
    if ltb seg head.segment
    then true
    else if ltb head.segment seg
    then false
    else leb end head.offset

unfoldable pub seg_fully_confirmed : Archive → ℕ → Bool
unfolding confirmed_to lookup
seg_fully_confirmed a seg =
    confirmed_to (read_cur a.queue) seg (seg_end (lookup seg a.seg_meta) (lookup seg a.queue.disk))

-- The bytes of the segments that `test` holds of.
unfoldable pub bytes_where : (ℕ → Bool) → Dict ℕ SegInfo → ℕ
bytes_where test [] = 0
bytes_where test ((seg, m) ∷ rest) =
    let others = bytes_where test rest in if test seg then m.bytes + others else others

unfoldable pub drop_archived : ℕ → Archive → Archive
unfolding drop_segment delete
drop_archived seg a = record a {
  queue = drop_segment a.queue seg;
  seg_meta = delete seg a.seg_meta;
}

-- Too old, or one of too many bytes. A cutoff of 0 is none.
unfoldable pub due : Retention → ℕ → ℕ → SegInfo → Bool
due r cutoff total m =
    (ltb 0 cutoff && (ltb 0 m.last_ms && ltb m.last_ms cutoff))
    || (ltb 0 r.max_bytes && ltb r.max_bytes total)

-- The archive, the confirmed bytes that are left and the number of segments removed.
abbrev pub Sweep : Type 0
Sweep = Archive × ℕ × ℕ

unfoldable pub sweep_one : Retention → ℕ → ℕ → Option SegInfo → Sweep → Sweep
unfolding seg_fully_confirmed due drop_archived
sweep_one r cutoff seg none (a, total, removed) = (a, total, removed)
sweep_one r cutoff seg (some m) (a, total, removed) =
    if seg_fully_confirmed a seg && due r cutoff total m
    then (drop_archived seg a, total - m.bytes, removed + 1)
    else (a, total, removed)

unfoldable pub sweep : Retention → ℕ → List ℕ → Sweep → Sweep
unfolding sweep_one lookup
sweep r cutoff [] s = s
sweep r cutoff (seg ∷ order) s =
    sweep r cutoff order (sweep_one r cutoff seg (lookup seg s.0.seg_meta) s)

unfoldable pub cutoff_of : Retention → ℕ → ℕ
cutoff_of r now = if ltb 0 r.max_age then now - r.max_age else 0

unfoldable pub enforce_with : Option Retention → ℕ → List ℕ → Archive → Archive × ℕ
unfolding sweep cutoff_of bytes_where seg_fully_confirmed
enforce_with none now order a = (a, 0)
enforce_with (some r) now order a =
    let s =
      sweep r (cutoff_of r now) order (a, bytes_where (seg_fully_confirmed a) a.seg_meta, 0) in
    (s.0, s.2)

unfoldable pub enforce_retention : ℕ → List ℕ → Archive → Archive × ℕ
unfolding enforce_with
enforce_retention now order a =
    if a.queue.closed then (a, 0) else enforce_with a.retention now order a

pub record RetentionStats : Type 0 where
  pub segments : ℕ
  pub total_bytes : ℕ
  pub confirmed : ℕ
  pub pending : ℕ

unfoldable pub retention_stats : Archive → RetentionStats
unfolding bytes_where seg_fully_confirmed
retention_stats a =
    let total = bytes_where (λ seg. true) a.seg_meta in
    let confirmed = bytes_where (seg_fully_confirmed a) a.seg_meta in
    record {
      segments = length a.seg_meta;
      total_bytes = total;
      confirmed = confirmed;
      pending = total - confirmed;
    }

-- What a segment is known by after a restart: its saved figures, or the time of the file.
unfoldable pub loaded : Option SegInfo → Option ℕ → Option SegInfo
loaded (some m) modified = some m
loaded none (some ms) = some (record { first_ms = ms; last_ms = ms; packets = 0; bytes = 0 })
loaded none none = none

unfoldable pub put_loaded : ℕ → Option SegInfo → Dict ℕ SegInfo → Dict ℕ SegInfo
unfolding insert
put_loaded seg none meta = meta
put_loaded seg (some m) meta = insert seg m meta

unfoldable pub load_seg_meta : Dict ℕ SegInfo → Dict ℕ ℕ → List ℕ → Dict ℕ SegInfo → Dict ℕ SegInfo
unfolding loaded put_loaded lookup
load_seg_meta saved modified [] meta = meta
load_seg_meta saved modified (seg ∷ segs) meta =
    load_seg_meta saved modified segs
      (put_loaded seg (loaded (lookup seg saved) (lookup seg modified)) meta)
