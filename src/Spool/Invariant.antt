-- ===== src/Spool/Invariant.antt =====
-- queue.go: the queue's index, its counters and the disk agree. The ghost list is the records that
-- are not confirmed, oldest first.
use gta.Base.{
  ℕ, zero, suc, ◌+◌, ◌≤◌, ◌<◌, ◌≡◌, refl, ap, subst, ◌∙◌, false, some, List, [], ◌∷◌, ◌++◌, arith,
  length, drop, length-take, length-drop, take-drop-append, nat_eq, ◌⊎◌, inl, inr,
}
use gta.Base.Dict.{Dict, lookup}
use gta.Spool.Records.{Entry, span, frame, read_at, header_size}
use gta.Spool.Framing.{length-frame, Fits}
use gta.Spool.{Cursor, Queue, content, spans}

-- Each entry is where the record's frame stands.
abbrev pub Stored : Dict ℕ (List ℕ) → List Entry → List (List ℕ) → Type 0
Stored disk [] [] = Unit
Stored disk [] (rec ∷ recs) = ⊥
Stored disk (e ∷ es) [] = ⊥
Stored disk (e ∷ es) (rec ∷ recs) =
    (e.n ≡ length rec)
    × (read_at (content disk e.seg) e.off (span e) ≡ frame rec)
    × Fits rec
    × Stored disk es recs

-- Entries of one segment follow each other without a gap, up to the write position.
abbrev pub Linked : Entry → List Entry → Cursor → Type 0
Linked e [] wr = ((e.seg < wr.segment) ⊎ ((e.seg ≡ wr.segment) × (e.off + span e ≡ wr.offset)))
Linked e (f ∷ es) wr =
    ((e.seg < f.seg) ⊎ ((e.seg ≡ f.seg) × (e.off + span e ≡ f.off))) × Linked f es wr

abbrev pub Chain : List Entry → Cursor → Type 0
Chain [] wr = Unit
Chain (e ∷ es) wr = Linked e es wr

pub record Holds (q : Queue) (recs : List (List ℕ)) : Type 0 where
  pub stored : Stored q.disk q.entries recs
  pub chain : Chain q.entries q.wr_cur
  pub in_flight : q.next_idx ≤ length q.entries
  pub counted : q.bytes ≡ spans q.entries
  pub bounded : q.bytes ≤ q.max_bytes
  pub at_end : length (content q.disk q.wr_cur.segment) ≡ q.wr_cur.offset
  pub positioned : lookup q.wr_cur.segment q.files ≡ some q.wr_cur.offset
  pub writing : q.wr_file ≡ some q.wr_cur.segment
  -- No file lies beyond the segment that is written.
  pub fresh : (seg : ℕ) → q.wr_cur.segment < seg → content q.disk seg ≡ []
  pub is_open : q.closed ≡ false
  pub small : q.max_bytes < 4294967296

-- A disk on which files have only grown.
abbrev pub Grown : Dict ℕ (List ℕ) → Dict ℕ (List ℕ) → Type 0
Grown disk disk' = (seg : ℕ) → (more : List ℕ) × (content disk' seg ≡ content disk seg ++ more)

read_within :
    (file : List ℕ) (off : ℕ) (rec : List ℕ)
    → read_at file off (header_size + length rec) ≡ frame rec
    → off + (header_size + length rec) ≤ length file
read_within file off rec h =
    let m = length-take (header_size + length rec) (drop off file) in
    let n : length (read_at file off (header_size + length rec)) ≡ header_size + length rec =
      ap (λ xs. length xs) h ∙ length-frame rec in
    omega (arith, m, n, length-drop off file)

pub Stored-within :
    (disk : Dict ℕ (List ℕ)) (e : Entry) (es : List Entry) (rec : List ℕ) (recs : List (List ℕ))
    → Stored disk (e ∷ es) (rec ∷ recs)
    → e.off + span e ≤ length (content disk e.seg)
Stored-within disk e es rec recs h =
    let same : read_at (content disk e.seg) e.off (header_size + length rec) ≡ frame rec =
      subst (λ z. read_at (content disk e.seg) e.off (header_size + z) ≡ frame rec) h.0 h.1 in
    omega (arith, h.0, read_within (content disk e.seg) e.off rec same)

pub Stored-Grown :
    (disk disk' : Dict ℕ (List ℕ)) (es : List Entry) (recs : List (List ℕ))
    → Grown disk disk'
    → Stored disk es recs
    → Stored disk' es recs
Stored-Grown disk disk' [] [] g h = tt
Stored-Grown disk disk' [] (rec ∷ recs) g h = h
Stored-Grown disk disk' (e ∷ es) [] g h = h
Stored-Grown disk disk' (e ∷ es) (rec ∷ recs) g h =
    let (more, grew) = g e.seg in
    (
      h.0,
      (rw grew (
          take-drop-append e.off (span e) (content disk e.seg) more
            (Stored-within disk e es rec recs h)
          ∙ h.1)),
      h.2,
      Stored-Grown disk disk' es recs g h.3,
    )

pub Stored-snoc :
    (disk : Dict ℕ (List ℕ)) (es : List Entry) (recs : List (List ℕ)) (e : Entry) (rec : List ℕ)
    → Stored disk es recs
    → e.n ≡ length rec
    → read_at (content disk e.seg) e.off (span e) ≡ frame rec
    → Fits rec
    → Stored disk (es ++ e ∷ []) (recs ++ rec ∷ [])
Stored-snoc disk [] [] e rec h n r f = (n, r, f, tt)
Stored-snoc disk [] (rec' ∷ recs) e rec h n r f = absurd h
Stored-snoc disk (e' ∷ es) [] e rec h n r f = absurd h
Stored-snoc disk (e' ∷ es) (rec' ∷ recs) e rec h n r f =
    (h.0, h.1, h.2, Stored-snoc disk es recs e rec h.3 n r f)

pub Stored-length :
    (disk : Dict ℕ (List ℕ)) (es : List Entry) (recs : List (List ℕ))
    → Stored disk es recs
    → length es ≡ length recs
Stored-length disk [] [] h = refl
Stored-length disk [] (rec ∷ recs) h = absurd h
Stored-length disk (e ∷ es) [] h = absurd h
Stored-length disk (e ∷ es) (rec ∷ recs) h = omega (arith, Stored-length disk es recs h.3)

pub Stored-drop :
    (disk : Dict ℕ (List ℕ)) (k : ℕ) (es : List Entry) (recs : List (List ℕ))
    → Stored disk es recs
    → Stored disk (drop k es) (drop k recs)
Stored-drop disk zero es recs h = h
Stored-drop disk (suc k) [] [] h = tt
Stored-drop disk (suc k) [] (rec ∷ recs) h = absurd h
Stored-drop disk (suc k) (e ∷ es) [] h = absurd h
Stored-drop disk (suc k) (e ∷ es) (rec ∷ recs) h = Stored-drop disk k es recs h.3

pub Linked-Chain : (e : Entry) (es : List Entry) (wr : Cursor) → Linked e es wr → Chain es wr
Linked-Chain e [] wr l = tt
Linked-Chain e (f ∷ es) wr l = l.1

pub Chain-drop : (k : ℕ) (es : List Entry) (wr : Cursor) → Chain es wr → Chain (drop k es) wr
Chain-drop zero es wr l = l
Chain-drop (suc k) [] wr l = tt
Chain-drop (suc k) (e ∷ es) wr l = Chain-drop k es wr (Linked-Chain e es wr l)

-- The next record goes to the write position.
pub Linked-snoc :
    (e : Entry) (es : List Entry) (wr : Cursor) (n : ℕ)
    → Linked e es wr
    → let f : Entry = record { seg = wr.segment; off = wr.offset; n = n } in
      Linked e (es ++ f ∷ []) (record { segment = wr.segment; offset = wr.offset + span f })
Linked-snoc e [] wr n l = (l, inr (refl, refl))
Linked-snoc e (f ∷ es) wr n l = (l.0, Linked-snoc f es wr n l.1)

pub Chain-snoc :
    (es : List Entry) (wr : Cursor) (n : ℕ)
    → Chain es wr
    → let f : Entry = record { seg = wr.segment; off = wr.offset; n = n } in
      Chain (es ++ f ∷ []) (record { segment = wr.segment; offset = wr.offset + span f })
Chain-snoc [] wr n l = inr (refl, refl)
Chain-snoc (e ∷ es) wr n l = Linked-snoc e es wr n l

pub Linked-roll :
    (e : Entry) (es : List Entry) (wr : Cursor)
    → Linked e es wr
    → Linked e es (record { segment = wr.segment + 1; offset = 0 })
Linked-roll e [] wr l = inl (ground (arith, l))
Linked-roll e (f ∷ es) wr l = (l.0, Linked-roll f es wr l.1)

pub Chain-roll :
    (es : List Entry) (wr : Cursor)
    → Chain es wr
    → Chain es (record { segment = wr.segment + 1; offset = 0 })
Chain-roll [] wr l = tt
Chain-roll (e ∷ es) wr l = Linked-roll e es wr l
