-- ===== src/Spool/Scan.antt =====
-- queue.go: what `scanSegment` finds in a file of whole records with a torn one at its end.
use gta.Base.{
  ℕ, zero, suc, ◌+◌, ◌≤◌, ◌<◌, ◌≡◌, refl, ap, sym, subst, ◌∙◌, ◌⊎◌, inl, inr, Bool, true, false,
  List, [], ◌∷◌, ◌++◌, arith, if_elim, min, leb→le, take-append_length, length, take, drop, All,
  length-append, append_assoc, drop-drop, length-take, eqb, leb,
}
use gta.Spool.Records.{
  be32, Entry, ScanStop, read_be32, frame, header_size, scan_records, scan_segment,
}
use gta.Spool.Framing.{Fits, read_be32-frame_header, length-frame, drop-frame}

-- A record that the queue can keep: it fits its header, and it is not empty.
abbrev pub Sound : List ℕ → Type 0
Sound rec = Fits rec × (0 < length rec)

abbrev pub frames : List (List ℕ) → List ℕ
frames [] = []
frames (rec ∷ recs) = frame rec ++ frames recs

-- The entries of records that lie one after the other.
abbrev pub index : ℕ → ℕ → List (List ℕ) → List Entry
index seg off [] = []
index seg off (rec ∷ recs) =
    record { seg = seg; off = off; n = length rec }
    ∷ index seg (off + header_size + length rec) recs

-- Bytes that are not a whole record: what a crash leaves of the last write.
abbrev pub Torn : List ℕ → Type 0
Torn tail =
    (length tail < header_size)
    ⊎ ((header_size ≤ length tail)
        × ((length tail < header_size + read_be32 (take header_size tail))
            ⊎ (read_be32 (take header_size tail) ≡ 0)))

stop_at :
    (es : List Entry) (b : Bool) {x y : ℕ}
    → x ≡ y
    → ◌≡◌ {A = List Entry × ScanStop}
        (es, record { offset = x; at_eof = b })
        (es, record { offset = y; at_eof = b })
stop_at es b e = ap (λ z. (es, record { offset = z; at_eof = b })) e

module _ (file : List ℕ) (seg : ℕ) where
  scan-Torn :
      (fuel off : ℕ) (tail : List ℕ)
      → 0 < fuel
      → drop off file ≡ tail
      → length file ≡ off + length tail
      → Torn tail
      → scan_records fuel file seg off ≡ ([], record { offset = off; at_eof = eqb (length tail) 0 })
  unfolding scan_records
  scan-Torn zero off tail pos at size torn = absurd (omega (arith, pos))
  scan-Torn (suc fuel) off tail pos at size torn = rw at (ground arith)

  scan_frame :
      (fuel off : ℕ) (rec rest : List ℕ)
      → Sound rec
      → drop off file ≡ frame rec ++ rest
      → length file ≡ off + length (frame rec ++ rest)
      → scan_records (suc fuel) file seg off ≡ (
        record { seg = seg; off = off; n = length rec }
            ∷ (scan_records fuel file seg (off + header_size + length rec)).0,
        (scan_records fuel file seg (off + header_size + length rec)).1,
      )
  unfolding scan_records
  scan_frame fuel off rec rest sound at size =
      rw (at, read_be32-frame_header rec rest sound.0)
        (ground (arith, sound.1, length-append (frame rec) rest, length-frame rec))

  pub past_frame :
      (off : ℕ) (rec rest : List ℕ)
      → drop off file ≡ frame rec ++ rest
      → length file ≡ off + length (frame rec ++ rest)
      → (drop (off + header_size + length rec) file ≡ rest)
        × (length file ≡ (off + header_size + length rec) + length rest)
  past_frame off rec rest at size = (
    subst (λ z. drop z file ≡ rest)
        (let e : off + (header_size + length rec) ≡ off + header_size + length rec = omega arith in
          e)
        (sym (drop-drop off (header_size + length rec) file) ∙ (rw at (drop-frame rec rest))),
    omega (arith, size, length-append (frame rec) rest, length-frame rec),
  )

  -- Whole records, then what may be left of one more: every whole record is found at its place,
  -- and the scan stops behind the last of them, at the end of the file only if nothing is left.
  pub scan_frames :
      (recs : List (List ℕ)) (fuel off : ℕ) (tail : List ℕ)
      → All Sound recs
      → Torn tail
      → length recs < fuel
      → drop off file ≡ frames recs ++ tail
      → length file ≡ off + length (frames recs ++ tail)
      → scan_records fuel file seg off ≡ (
        index seg off recs,
        record { offset = off + length (frames recs); at_eof = eqb (length tail) 0 },
      )
  scan_frames [] fuel off tail sound torn enough at size =
      scan-Torn fuel off tail enough at size torn ∙ stop_at [] (eqb (length tail) 0) (omega arith)
  scan_frames (rec ∷ recs) zero off tail sound torn enough at size = absurd (omega (arith, enough))
  scan_frames (rec ∷ recs) (suc fuel) off tail sound torn enough at size =
      let split = append_assoc (frame rec) (frames recs) tail in
      let at' = at ∙ split in
      let size' = size ∙ ap (λ xs. off + length xs) split in
      let (at2, size2) = past_frame off rec (frames recs ++ tail) at' size' in
      scan_frame fuel off rec (frames recs ++ tail) sound.0 at' size'
      ∙ (rw
          (scan_frames recs fuel (off + header_size + length rec) tail sound.1 torn
            (omega (arith, enough)) at2 size2)
          (stop_at (index seg off (rec ∷ recs)) (eqb (length tail) 0)
            (omega (arith, length-append (frame rec) (frames recs), length-frame rec))))

length-frames : (recs : List (List ℕ)) → length recs ≤ length (frames recs)
length-frames [] = omega arith
length-frames (rec ∷ recs) =
    omega (arith, length-frames recs, length-append (frame rec) (frames recs), length-frame rec)

-- At the end of the file there is nothing left to index.
nothing_left :
    (seg off size : ℕ) (recs : List (List ℕ)) (tail : List ℕ)
    → size ≡ off + length (frames recs ++ tail)
    → size ≤ off
    → ◌≡◌ {A = List Entry × ScanStop}
        ([], record { offset = size; at_eof = true })
        (
          index seg off recs,
          record { offset = off + length (frames recs); at_eof = eqb (length tail) 0 },
        )
unfolding frame be32
nothing_left seg off size [] tail e le =
    ground (arith, stop_at [] true (let e' : size ≡ off + 0 = omega (arith, e, le) in e'))
nothing_left seg off size (rec ∷ recs) tail e le = absurd (omega (arith, e, le))

pub scan_segment_lem :
    (file : List ℕ) (seg off : ℕ) (recs : List (List ℕ)) (tail : List ℕ)
    → All Sound recs
    → Torn tail
    → drop off file ≡ frames recs ++ tail
    → length file ≡ off + length (frames recs ++ tail)
    → scan_segment file seg off ≡ (
      index seg off recs,
      record { offset = off + length (frames recs); at_eof = eqb (length tail) 0 },
    )
unfolding scan_segment
scan_segment_lem file seg off recs tail sound torn at size =
    if_elim
      (λ r. r ≡ (
        index seg off recs,
        record { offset = off + length (frames recs); at_eof = eqb (length tail) 0 },
      ))
      (leb (length file) off) _ _
      (λ end. nothing_left seg off (length file) recs tail size (leb→le (length file) off end))
      (λ more.
        scan_frames file seg recs (suc (length file)) off tail sound torn
          (omega (arith, length-frames recs, size, length-append (frames recs) tail)) at size)

Torn-prefix : (rec : List ℕ) (k : ℕ) → Fits rec → k < length (frame rec) → Torn (take k (frame rec))
unfolding frame be32 read_be32
Torn-prefix rec zero fits lt = inl (omega arith)
Torn-prefix rec (suc zero) fits lt = inl (omega arith)
Torn-prefix rec (suc (suc zero)) fits lt = inl (omega arith)
Torn-prefix rec (suc (suc (suc zero))) fits lt = inl (omega arith)
Torn-prefix rec (suc (suc (suc (suc k)))) fits lt = inr (
  omega arith,
  inl (rw (length-take k rec, read_be32-frame_header rec [] fits) (omega (arith, lt))),
)

-- A crash in the middle of a write leaves whole records and the first bytes of one more. If none of
-- the whole records is empty and each is shorter than 2 ^ 32 bytes, and so is the one more, the scan
-- of the segment finds exactly the whole ones, each at its place, and what it keeps of the file
-- is those records and nothing else; it reports a torn end unless the write had not begun.
pub scan_after_crash :
    (seg : ℕ) (recs : List (List ℕ)) (rec : List ℕ) (k : ℕ)
    → All Sound recs
    → Fits rec
    → k < length (frame rec)
    → let file = frames recs ++ take k (frame rec) in
      (scan_segment file seg 0
        ≡ (index seg 0 recs, record { offset = length (frames recs); at_eof = eqb k 0 }))
      × (take (scan_segment file seg 0).1.offset file ≡ frames recs)
scan_after_crash seg recs rec k sound fits lt =
    let tail = take k (frame rec) in
    let found =
      scan_segment_lem (frames recs ++ tail) seg 0 recs tail sound (Torn-prefix rec k fits lt) refl
        (omega arith) in
    rw found (
      rw (length-take k (frame rec)) (
          let e : eqb (min k (length (frame rec))) 0 ≡ eqb k 0 = ground (arith, lt) in
          rw e (stop_at (index seg 0 recs) (eqb k 0) (omega arith))),
      subst (λ z. take z (frames recs ++ tail) ≡ frames recs)
          (let e : length (frames recs) ≡ 0 + length (frames recs) = omega arith in e)
          (take-append_length (frames recs) tail),
    )

-- A record without bytes, which `Append` takes like any other, reads as torn: the scan stops at
-- it, and the records after it are cut off although they are whole.
pub scan_empty_record :
    (seg : ℕ) (recs later : List (List ℕ))
    → All Sound recs
    → scan_segment (frames recs ++ (frame [] ++ frames later)) seg 0
      ≡ (index seg 0 recs, record { offset = length (frames recs); at_eof = false })
unfolding frame be32 read_be32
scan_empty_record seg recs later sound =
    scan_segment_lem (frames recs ++ (frame [] ++ frames later)) seg 0 recs
      (frame [] ++ frames later) sound (inr (omega arith, inr refl)) refl (omega arith)
    ∙ (let e : eqb (length (frame [] ++ frames later)) 0 ≡ false = ground arith in
        rw e (stop_at (index seg 0 recs) false (omega arith)))
