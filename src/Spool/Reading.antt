-- ===== src/Spool/Reading.antt =====
-- queue.go: `Next`, which reads the records that follow those in flight.
use gta.Base.{
  ℕ, zero, suc, ◌+◌, min, Bool, true, false, Option, none, some, List, [], ◌∷◌, length, drop, eqb,
  ltb, nat_eq, if◌then◌else◌,
}
use gta.Base.Dict.{lookup, insert}
use gta.Spool.Records.{Entry, header_size, span, read_be32, read_at}
use gta.Spool.{Queue, content}

-- How many of the next `n` entries lie in one segment, and their bytes.
unfoldable pub same_run : ℕ → ℕ → List Entry → ℕ × ℕ
same_run seg zero es = (0, 0)
same_run seg (suc n) [] = (0, 0)
same_run seg (suc n) (e ∷ es) =
    let rest = same_run seg n es in if eqb e.seg seg then (suc rest.0, span e + rest.1) else (0, 0)

-- `none` is a slice out of range, which panics.
unfoldable pub cut : List ℕ → ℕ → Option (List (List ℕ)) → Option (List (List ℕ))
cut buf size none = none
cut buf size (some rest) =
    if ltb (length buf) (header_size + size)
    then none
    else some (read_at buf header_size size ∷ rest)

unfoldable pub parse : ℕ → List ℕ → Option (List (List ℕ))
unfolding cut read_be32
parse zero buf = some []
parse (suc count) buf =
    let size = read_be32 buf in cut buf size (parse count (drop (header_size + size) buf))

pub data NextResult : Type 0 where
  drained open_failed read_failed panicked : NextResult
  delivered : List (List ℕ) → NextResult

unfoldable pub deliver : Queue → ℕ → Option (List (List ℕ)) → Queue × NextResult
deliver q count none = (q, panicked)
deliver q count (some recs) = (record q { next_idx = q.next_idx + count }, delivered recs)

-- `fileFor`: an open handle is reused, else the file is opened, which may fail.
unfoldable pub file_for : Queue → ℕ → Option ℕ → Bool → Queue × Bool
file_for q seg (some pos) opens = (q, true)
file_for q seg none false = (q, false)
file_for q seg none true = (record q { files = insert seg 0 q.files }, true)

unfoldable pub read_run : Queue × Bool → Entry → ℕ × ℕ → Queue × NextResult
unfolding deliver parse
read_run (q, false) head run = (q, open_failed)
read_run (q, true) head (count, bytes) =
    let buf = read_at (content q.disk head.seg) head.off bytes in
    if ltb (length buf) bytes then (q, read_failed) else deliver q count (parse count buf)

unfoldable pub next_from : Queue → List Entry → ℕ → Bool → Queue × NextResult
unfolding read_run file_for same_run
next_from q [] n opens = (q, drained)
next_from q (head ∷ es) n opens =
    read_run (file_for q head.seg (lookup head.seg q.files) opens) head
      (same_run head.seg (min n (suc (length es))) (head ∷ es))

-- The bodies of at most `n` records, which `proto.Unmarshal` then reads.
unfoldable pub next : Queue → ℕ → Bool → Queue × NextResult
unfolding next_from
next q n opens = next_from q (drop q.next_idx q.entries) (if eqb n 0 then 1 else n) opens
