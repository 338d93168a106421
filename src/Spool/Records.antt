-- ===== src/Spool/Records.antt =====
-- pkg/spool/queue.go: the format of a segment file and `scanSegment`. Bytes are numbers; a record
-- is the text that `proto.Marshal` gives. The read of a header cannot fail inside the file.
use gta.Base.{
  ℕ, zero, suc, ◌+◌, ◌*◌, ◌/◌, ◌%◌, Bool, true, false, ◌||◌, List, [], ◌∷◌, ◌++◌, length, take,
  drop, eqb, leb, ltb, if◌then◌else◌,
}

abbrev pub header_size : ℕ
header_size = 4

-- `binary.BigEndian.AppendUint32` of `uint32(n)`.
unfoldable pub be32 : ℕ → List ℕ
be32 n = (n / 16777216) % 256 ∷ (n / 65536) % 256 ∷ (n / 256) % 256 ∷ n % 256 ∷ []

-- `binary.BigEndian.Uint32`.
unfoldable pub read_be32 : List ℕ → ℕ
read_be32 (a ∷ b ∷ c ∷ d ∷ _) = ((a * 256 + b) * 256 + c) * 256 + d
read_be32 _ = 0

-- The bytes that `writeRecord` writes at once.
unfoldable pub frame : List ℕ → List ℕ
unfolding be32
frame rec = be32 (length rec) ++ rec

abbrev pub read_at : List ℕ → ℕ → ℕ → List ℕ
read_at file off n = take n (drop off file)

pub record Entry : Type 0 where
  pub seg : ℕ
  pub off : ℕ
  pub n : ℕ

abbrev pub span : Entry → ℕ
span e = header_size + e.n

pub record ScanStop : Type 0 where
  pub offset : ℕ
  pub at_eof : Bool

-- The loop, with `fuel` rounds left. A round goes past a header and a byte at least.
unfoldable pub scan_records : ℕ → List ℕ → ℕ → ℕ → List Entry × ScanStop
unfolding read_be32
scan_records zero file seg off = ([], record { offset = off; at_eof = false })
scan_records (suc fuel) file seg off =
    let n = read_be32 (read_at file off header_size) in
    let rest = scan_records fuel file seg (off + header_size + n) in
    if leb (off + header_size) (length file)
    then if eqb n 0 || ltb (length file) (off + header_size + n)
      then ([], record { offset = off; at_eof = false })
      else (record { seg = seg; off = off; n = n } ∷ rest.0, rest.1)
    else ([], record { offset = off; at_eof = eqb off (length file) })

unfoldable pub scan_segment : List ℕ → ℕ → ℕ → List Entry × ScanStop
unfolding scan_records
scan_segment file seg off =
    if leb (length file) off
    then ([], record { offset = length file; at_eof = true })
    else scan_records (suc (length file)) file seg off
