-- ===== src/Spool/Appending.antt =====
-- queue.go: `Append` on every branch.
use gta.Base.{
  ◌↔◌, ℕ, suc, ◌+◌, ◌≤◌, ◌<◌, ◌≡◌, ◌≢◌, refl, ap, sym, subst, ◌∙◌, Bool, true, false, not, some,
  List, [], ◌∷◌, ◌++◌, arith, length, take, nat_eq, leb, ltb, if◌then◌else◌, if_elim, append_nil,
}
use gta.Base.Dict.{lookup-insert_self}
use gta.Spool.Records.{frame, header_size}
use gta.Spool.Framing.{Fits}
use gta.Spool.{
  Queue, content, AppendEnv, AppendResult, accepted, queue_full, sync_failed, roll_segment, write,
  write_framed, write_rolled, write_record, after_write, append,
}
use gta.Spool.Writing.{
  wrote_to, eqb_other, content_put, write-end, here, grown, enlisted, enlisted-Holds, rolled,
  rolled-Holds,
}
use gta.Spool.Invariant.{Stored-Grown, Holds}

-- What a call of `Append` with this answer leaves in the queue.
abbrev pub kept : AppendResult → List ℕ → List (List ℕ) → List (List ℕ)
kept accepted rec recs = recs ++ rec ∷ []
kept sync_failed rec recs = recs ++ rec ∷ []
kept _ rec recs = recs

-- Writing no byte changes nothing that matters.
module _ (q : Queue) (recs : List (List ℕ)) (v : Holds q recs) where
  unwritten-Holds : Holds (record (wrote_to q []) { dropped = suc q.dropped }) recs
  unwritten-Holds = record {
    stored = Stored-Grown q.disk (wrote_to q []).disk q.entries recs (grown q recs v []) v.stored;
    chain = v.chain;
    in_flight = v.in_flight;
    counted = v.counted;
    bounded = v.bounded;
    at_end =
        ap (λ xs. length xs) (here q recs v [])
        ∙ ap (λ xs. length xs) (append_nil (content q.disk q.wr_cur.segment))
        ∙ v.at_end;
    positioned =
        lookup-insert_self q.wr_cur.segment (q.wr_cur.offset + 0) q.files ∙ ap some (omega arith);
    writing = v.writing;
    fresh = λ seg lt.
        content_put q.disk q.wr_cur.segment seg _
        ∙ (rw (eqb_other q.wr_cur.segment seg (omega (arith, lt))) (v.fresh seg lt));
    is_open = v.is_open;
    small = v.small;
  }

  dropped-Holds : Holds (record q { dropped = suc q.dropped }) recs
  dropped-Holds = record {
    stored = v.stored;
    chain = v.chain;
    in_flight = v.in_flight;
    counted = v.counted;
    bounded = v.bounded;
    at_end = v.at_end;
    positioned = v.positioned;
    writing = v.writing;
    fresh = v.fresh;
    is_open = v.is_open;
    small = v.small;
  }

module _ (rec : List ℕ) (env : AppendEnv) (clean : env.wrote ≡ false → env.written ≡ 0) where
  -- The record is enlisted, or nothing but the count of what was dropped has changed.
  abbrev Outcome : Queue × AppendResult → List (List ℕ) → Type 0
  Outcome (q, r) recs = Holds q (kept r rec recs)

  kept_synced :
      (recs : List (List ℕ)) (q : Queue)
      → Holds q (recs ++ rec ∷ [])
      → Holds q (
          kept
            (if not env.sync_due then accepted else if env.synced then accepted else sync_failed)
            rec
            recs)
  kept_synced recs q v =
      if_elim (λ r. Holds q (kept r rec recs)) (not env.sync_due) _ _ (λ e. v)
        (λ e. if_elim (λ r. Holds q (kept r rec recs)) env.synced _ _ (λ e'. v) (λ e'. v))

  framed-Outcome :
      (q : Queue) (recs : List (List ℕ))
      → Holds q recs
      → Fits rec
      → q.bytes + (header_size + length rec) ≤ q.max_bytes
      → Outcome (after_write (write_framed q rec env) rec env) recs
  unfolding write_framed after_write
  framed-Outcome q recs v fits room =
      if_elim (λ w. Outcome (after_write w rec env) recs) env.wrote _ _
        (λ ok.
          subst (λ w. Outcome (after_write w rec env) recs)
            (sym (write-end q recs v (frame rec) true))
            (kept_synced recs (enlisted q recs v rec) (enlisted-Holds q recs v rec fits room)))
        (λ bad.
          subst (λ w. Outcome (after_write w rec env) recs)
            (sym (write-end q recs v [] false)
              ∙ ap (λ n. write q q.wr_file (take n (frame rec)) false) (sym (clean bad)))
            (unwritten-Holds q recs v))

  record-Outcome :
      (q : Queue) (recs : List (List ℕ))
      → Holds q recs
      → Fits rec
      → q.bytes + (header_size + length rec) ≤ q.max_bytes
      → Outcome (after_write (write_record q rec env) rec env) recs
  unfolding write_record write_rolled roll_segment after_write
  record-Outcome q recs v fits room =
      if_elim (λ w. Outcome (after_write w rec env) recs) (leb q.seg_bytes q.wr_cur.offset) _ _
        (λ full.
          if_elim (λ w. Outcome (after_write (write_rolled w rec env) rec env) recs)
            (not env.roll_synced) _ _ (λ e. dropped-Holds q recs v)
            (λ e.
              if_elim (λ w. Outcome (after_write (write_rolled w rec env) rec env) recs)
                (not env.segment_opened) _ _ (λ e'. dropped-Holds q recs v)
                (λ e'. framed-Outcome (rolled q) recs (rolled-Holds q recs v) fits room)))
        (λ more. framed-Outcome q recs v fits room)

-- `Append` puts the record behind those that are not confirmed if it answers nil or that only the
-- sync failed, and otherwise leaves them as they are, as long as a failed write writes nothing.
-- The index, the byte count and the disk agree again in either case, and the count stays within
-- the limit.
pub append-Holds :
    (q : Queue) (recs : List (List ℕ)) (rec : List ℕ) (env : AppendEnv)
    → Holds q recs
    → (env.wrote ≡ false → env.written ≡ 0)
    → Holds (append q rec env).0 (kept (append q rec env).1 rec recs)
unfolding append
append-Holds q recs rec env v clean =
    if_elim (λ w. Outcome rec env clean w recs) (ltb q.max_bytes (length rec)) _ _ (λ e. v)
      (λ e.
        if_elim (λ w. Outcome rec env clean w recs) q.closed _ _ (λ e'. v)
          (λ e'.
            if_elim (λ w. Outcome rec env clean w recs)
              (ltb q.max_bytes (q.bytes + (header_size + length rec))) _ _
              (λ full. dropped-Holds q recs v)
              (λ fits.
                record-Outcome rec env clean q recs v (ground (arith, e, v.small))
                  (ground (arith, fits)))))

module _ (rec : List ℕ) (env : AppendEnv) (synced : env.roll_synced ≡ true)
    (opened : env.segment_opened ≡ true) (wrote : env.wrote ≡ true)
    (flushed : env.synced ≡ true) where
  framed_accepts :
      (q : Queue) (recs : List (List ℕ))
      → Holds q recs
      → (after_write (write_framed q rec env) rec env).1 ≡ accepted
  unfolding write_framed after_write
  framed_accepts q recs v =
      if_elim (λ w. (after_write w rec env).1 ≡ accepted) env.wrote _ _
        (λ ok.
          subst (λ w. (after_write w rec env).1 ≡ accepted)
            (sym (write-end q recs v (frame rec) true)) (ground (arith, flushed)))
        (λ bad. absurd (ground (arith, bad, wrote)))

  record_accepts :
      (q : Queue) (recs : List (List ℕ))
      → Holds q recs
      → (after_write (write_record q rec env) rec env).1 ≡ accepted
  unfolding write_record write_rolled roll_segment
  record_accepts q recs v =
      if_elim (λ w. (after_write w rec env).1 ≡ accepted) (leb q.seg_bytes q.wr_cur.offset) _ _
        (λ full.
          if_elim (λ w. (after_write (write_rolled w rec env) rec env).1 ≡ accepted)
            (not env.roll_synced) _ _ (λ e. absurd (ground (arith, e, synced)))
            (λ e.
              if_elim (λ w. (after_write (write_rolled w rec env) rec env).1 ≡ accepted)
                (not env.segment_opened) _ _ (λ e'. absurd (ground (arith, e', opened)))
                (λ e'. framed_accepts (rolled q) recs (rolled-Holds q recs v))))
        (λ more. framed_accepts q recs v)

  -- On an open queue that the record leaves within its limit, with a disk that answers well, the
  -- record is accepted.
  pub append_accepts :
      (q : Queue) (recs : List (List ℕ))
      → Holds q recs
      → q.bytes + (header_size + length rec) ≤ q.max_bytes
      → (append q rec env).1 ≡ accepted
  unfolding append
  append_accepts q recs v room =
      if_elim (λ (w : Queue × AppendResult). w.1 ≡ accepted) (ltb q.max_bytes (length rec)) _ _
        (λ e. absurd (ground (arith, e, room)))
        (λ e.
          if_elim (λ (w : Queue × AppendResult). w.1 ≡ accepted) q.closed _ _
            (λ e'. absurd (ground (arith, e', v.is_open)))
            (λ e'.
              if_elim (λ (w : Queue × AppendResult). w.1 ≡ accepted)
                (ltb q.max_bytes (q.bytes + (header_size + length rec))) _ _
                (λ e''. absurd (ground (arith, e'', room))) (λ e''. record_accepts q recs v)))

after_write-result :
    (w : Queue × Bool) (rec : List ℕ) (env : AppendEnv) → (after_write w rec env).1 ≢ queue_full
unfolding after_write
after_write-result (q, false) rec env h = cc
after_write-result (q, true) rec env h = ground (arith, h)

-- An open queue answers that it is full exactly when the record would take it over its limit.
pub append_full :
    (q : Queue) (recs : List (List ℕ)) (rec : List ℕ) (env : AppendEnv)
    → Holds q recs
    → ((append q rec env).1 ≡ queue_full) ↔ (q.max_bytes < q.bytes + (header_size + length rec))
unfolding append
append_full q recs rec env v =
    let P = λ (w : Queue × AppendResult).
      (w.1 ≡ queue_full) ↔ (q.max_bytes < q.bytes + (header_size + length rec)) in
    if_elim P (ltb q.max_bytes (length rec)) _ _ (λ e. (λ h. ground (arith, e), λ h. refl))
      (λ e.
        if_elim P q.closed _ _ (λ e'. absurd (ground (arith, e', v.is_open)))
          (λ e'.
            if_elim P (ltb q.max_bytes (q.bytes + (header_size + length rec))) _ _
              (λ e''. (λ h. ground (arith, e''), λ h. refl))
              (λ e''. (
                λ h. absurd (after_write-result (write_record q rec env) rec env h),
                λ h. absurd (ground (arith, e'', h)),
              ))))
