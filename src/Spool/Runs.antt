-- ===== src/Spool/Runs.antt =====
-- queue.go: the bytes of the entries that `Next` reads at once.
use gta.Base.{
  ℕ, zero, suc, ◌+◌, ◌≤◌, ◌<◌, ◌≡◌, refl, ap, subst, ◌∙◌, some, List, [], ◌∷◌, ◌++◌, arith, length,
  take, drop, nat_eq, eqb, ltb, if_elim, length-append, drop-drop, append_assoc, take-split, All,
}
use gta.Base.Dict.{Dict}
use gta.Spool.Records.{Entry, span, frame, read_at, header_size}
use gta.Spool.Framing.{Fits, length-frame, drop-frame, body-frame, read_be32-frame}
use gta.Spool.Scan.{frames}
use gta.Spool.{Cursor, content}
use gta.Spool.Reading.{same_run, cut, parse}
use gta.Spool.Invariant.{Stored, Linked, Linked-Chain, Chain}

pub parse-frames :
    (recs : List (List ℕ)) (rest : List ℕ)
    → All Fits recs
    → parse (length recs) (frames recs ++ rest) ≡ some recs
unfolding parse cut
parse-frames [] rest fits = refl
parse-frames (rec ∷ recs) rest fits =
    rw
      (
        append_assoc (frame rec) (frames recs) rest,
        read_be32-frame rec (frames recs ++ rest) fits.0,
        drop-frame rec (frames recs ++ rest),
        parse-frames recs rest fits.1,
      )
      (if_elim (λ z. z ≡ some (rec ∷ recs))
        (ltb (length (frame rec ++ (frames recs ++ rest))) (header_size + length rec)) _ _
        (λ e.
          absurd
            (ground (arith, e, length-append (frame rec) (frames recs ++ rest), length-frame rec)))
        (λ e. ap (λ z. some (z ∷ recs)) (body-frame rec (frames recs ++ rest))))

-- The first entry of the segment, if there is one, is at this place.
unfoldable pub Begins : ℕ → ℕ → List Entry → Type 0
Begins seg off [] = Unit
Begins seg off (e ∷ es) = (e.seg ≡ seg) → e.off ≡ off

-- What a run of entries says of the file.
unfoldable pub Run : Dict ℕ (List ℕ) → ℕ → ℕ → ℕ → List (List ℕ) → ℕ × ℕ → Type 0
Run disk seg off m recs (count, bytes) =
    (read_at (content disk seg) off bytes ≡ frames (take count recs))
    × (bytes ≡ length (frames (take count recs)))
    × All Fits (take count recs)
    × (count ≤ length recs)
    × (count ≤ m)

next_Begins :
    (seg off : ℕ) (e : Entry) (es : List Entry) (wr : Cursor)
    → Linked e es wr
    → e.seg ≡ seg
    → e.off ≡ off
    → Begins seg (off + span e) es
unfolding Begins
next_Begins seg off e [] wr l s o = tt
next_Begins seg off e (f ∷ es) wr l s o = λ same. ground (arith, l.0, s, o, same)

pub same_run-Run :
    (disk : Dict ℕ (List ℕ)) (wr : Cursor) (seg m off : ℕ) (es : List Entry) (recs : List (List ℕ))
    → Stored disk es recs
    → Chain es wr
    → Begins seg off es
    → Run disk seg off m recs (same_run seg m es)
unfolding same_run Begins Run
same_run-Run disk wr seg zero off es recs h l b = (refl, refl, tt, omega arith, omega arith)
same_run-Run disk wr seg (suc m) off [] recs h l b = (refl, refl, tt, omega arith, omega arith)
same_run-Run disk wr seg (suc m) off (e ∷ es) [] h l b = absurd h
same_run-Run disk wr seg (suc m) off (e ∷ es) (rec ∷ recs) h l b =
    if_elim (Run disk seg off (suc m) (rec ∷ recs)) (eqb e.seg seg) _ _
      (λ hit.
        let here : e.seg ≡ seg = ground (arith, hit) in
        let rest =
          same_run-Run disk wr seg m (off + span e) es recs h.3 (Linked-Chain e es wr l)
            (next_Begins seg off e es wr l here (b here)) in
        let bytes = (same_run seg m es).1 in
        let file = content disk seg in
        let first : read_at file off (span e) ≡ frame rec =
          subst (λ z. read_at (content disk z) off (span e) ≡ frame rec) here
            (subst (λ z. read_at (content disk e.seg) z (span e) ≡ frame rec) (b here) h.1) in
        (
          take-split (span e) bytes (drop off file)
              ∙ (rw (first, drop-drop off (span e) file) (ap (λ z. frame rec ++ z) rest.0)),
          omega (
            arith,
            h.0,
            length-frame rec,
            rest.1,
            length-append (frame rec) (frames (take (same_run seg m es).0 recs)),
          ),
          (h.2, rest.2),
          omega (arith, rest.3),
          omega (arith, rest.4),
        ))
      (λ miss. (refl, refl, tt, omega arith, omega arith))

pub same_run_some :
    (m : ℕ) (e : Entry) (es : List Entry) → 0 < m → 0 < (same_run e.seg m (e ∷ es)).0
unfolding same_run
same_run_some zero e es pos = absurd (omega (arith, pos))
same_run_some (suc m) e es pos = ground arith

pub none_left : (disk : Dict ℕ (List ℕ)) (recs : List (List ℕ)) → Stored disk [] recs → recs ≡ []
none_left disk [] h = refl
none_left disk (rec ∷ recs) h = absurd h
