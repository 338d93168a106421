-- ===== src/Spool/Resume.antt =====
-- queue.go: a queue that is opened again resumes with the records from the cursor on.
use gta.Base.{
  ℕ, zero, suc, ◌+◌, ◌≤◌, ◌≡◌, ◌≢◌, refl, ap, sym, subst, ◌∙◌, inl, false, not, Option, none, some,
  List, [], ◌∷◌, ◌++◌, arith, length, drop, All, append_nil, append_assoc, eqb, nat_eq,
  if◌then◌else◌, if_elim,
}
use gta.Base.Dict.{Dict, lookup}
use gta.Spool.Records.{Entry, ScanStop}
use gta.Spool.Scan.{Sound, Torn, frames, index, scan_segment_lem}
use gta.Spool.{Queue, content}
use gta.Spool.Invariant.{Holds}
use gta.Spool.Recovery.{scanned, truncated, or_done, after_scan, scan_from}
use gta.Spool.Restart.{spans-index}
use gta.Spool.Scanning.{
  joined, sizes, last_of, Scanning, Layout, scanned-Scanning, truncated-Holds, finished-Holds,
  next_segment-Scanning, present_some,
}

first_present :
    (disk : Dict ℕ (List ℕ)) (seg off : ℕ) (rs : List (List ℕ)) (runs : List (List (List ℕ)))
    (tail : List ℕ)
    → Layout disk seg off (rs ∷ runs) tail
    → lookup seg disk ≢ none
first_present disk seg off rs [] tail lay = lay.0
first_present disk seg off rs (rs' ∷ more) tail lay = lay.0

-- One round, with what the scan of the file gives.
scan_round :
    (fuel : ℕ) (q : Queue) (seg off : ℕ) (rs : List (List ℕ)) (tail : List ℕ)
    → All Sound rs
    → Torn tail
    → lookup seg q.disk ≢ none
    → drop off (content q.disk seg) ≡ frames rs ++ tail
    → length (content q.disk seg) ≡ off + length (frames rs ++ tail)
    → let q' = scanned q seg (index seg off rs) in
      scan_from (suc fuel) q seg off ≡ (
        if not (eqb (length tail) 0)
        then some (truncated q' seg (content q.disk seg) (off + length (frames rs)))
        else or_done (lookup (seg + 1) q.disk) q' (scan_from fuel q' (seg + 1) 0))
unfolding scan_from after_scan
scan_round fuel q seg off rs tail sound torn there at size =
    let (file, e) = present_some (lookup seg q.disk) there in
    let found = scan_segment_lem (content q.disk seg) seg off rs tail sound torn at size in
    ap {A = List Entry × ScanStop}
      (λ w. after_scan (lookup seg q.disk) (scanned q seg w.0) seg (content q.disk seg) w.1 (
        or_done (lookup (seg + 1) q.disk) (scanned q seg w.0)
          (scan_from fuel (scanned q seg w.0) (seg + 1) 0)))
      found
    ∙ ap
        (λ o.
          after_scan o (scanned q seg (index seg off rs)) seg (content q.disk seg)
            (record { offset = off + length (frames rs); at_eof = eqb (length tail) 0 })
            (or_done (lookup (seg + 1) q.disk) (scanned q seg (index seg off rs))
              (scan_from fuel (scanned q seg (index seg off rs)) (seg + 1) 0)))
        e

abbrev pub Resumes : List (List ℕ) → Option Queue → Type 0
Resumes recs r = (q' : Queue) × (r ≡ some q') × Holds q' recs

no_tail : (tail : List ℕ) → not (eqb (length tail) 0) ≡ false → tail ≡ []
no_tail [] e = refl
no_tail (x ∷ tail) e = absurd (ground (arith, e))

pub resume_from :
    (runs : List (List (List ℕ))) (fuel : ℕ) (q : Queue) (recs : List (List ℕ)) (seg off : ℕ)
    (tail : List ℕ)
    → Scanning q recs seg off
    → All (All Sound) runs
    → Torn tail
    → Layout q.disk seg off runs tail
    → q.wr_cur.segment ≡ last_of seg runs
    → q.bytes + sizes runs ≤ q.max_bytes
    → length runs ≤ fuel
    → Resumes (recs ++ joined runs) (scan_from fuel q seg off)
unfolding or_done scanned
resume_from [] fuel q recs seg off tail v sound torn lay here room enough = absurd lay
resume_from (rs ∷ []) zero q recs seg off tail v sound torn lay here room enough =
    absurd (omega (arith, enough))
resume_from (rs ∷ rs' ∷ more) zero q recs seg off tail v sound torn lay here room enough =
    absurd (omega (arith, enough))
resume_from (rs ∷ []) (suc fuel) q recs seg off tail v sound torn lay here room enough =
    let q' = scanned q seg (index seg off rs) in
    let fits : q.bytes + length (frames rs) ≤ q.max_bytes = omega (arith, room) in
    subst (λ z. Resumes (recs ++ z) (scan_from (suc fuel) q seg off)) (sym (append_nil rs))
      (subst (Resumes (recs ++ rs))
        (sym (scan_round fuel q seg off rs tail sound.0 torn lay.0 lay.1 lay.2))
        (if_elim (Resumes (recs ++ rs)) (not (eqb (length tail) 0)) _ _
          (λ cut. (
            truncated q' seg (content q.disk seg) (off + length (frames rs)),
            refl,
            truncated-Holds q recs seg off v rs tail sound.0 lay.1 lay.2 fits lay.3,
          ))
          (λ whole.
            subst (λ o. Resumes (recs ++ rs) (or_done o q' (scan_from fuel q' (seg + 1) 0)))
              (sym (lay.3 (seg + 1) (omega arith)))
              (
                q',
                refl,
                finished-Holds q recs seg off v rs tail sound.0 lay.1 lay.2 fits lay.3 here
                    (no_tail tail whole),
              ))))
resume_from (rs ∷ rs' ∷ more) (suc fuel) q recs seg off tail v sound torn lay here room enough =
    let q' = scanned q seg (index seg off rs) in
    let (file, there) =
      present_some (lookup (seg + 1) q.disk)
        (first_present q.disk (seg + 1) 0 rs' more tail lay.3) in
    let w = scanned-Scanning q recs seg off v rs [] sound.0 lay.1 lay.2 in
    let goal = recs ++ joined (rs ∷ rs' ∷ more) in
    subst (Resumes goal)
      (sym (scan_round fuel q seg off rs [] sound.0 (inl (omega arith)) lay.0 lay.1 lay.2))
      (subst (λ o. Resumes goal (or_done o q' (scan_from fuel q' (seg + 1) 0))) (sym there)
        (subst (λ z. Resumes z (scan_from fuel q' (seg + 1) 0))
          (append_assoc recs rs (joined (rs' ∷ more)))
          (resume_from (rs' ∷ more) fuel q' (recs ++ rs) (seg + 1) 0 tail
            (next_segment-Scanning q' (recs ++ rs) seg (off + length (frames rs)) w) sound.1 torn
            lay.3 here (omega (arith, room, spans-index seg off rs)) (omega (arith, enough)))))
