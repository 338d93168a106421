-- ===== src/Spool/Faults.antt =====
-- queue.go: what `writeRecord` leaves behind when a write fails part of the way.
use gta.Base.{
  ℕ, ◌+◌, ◌≤◌, ◌<◌, ◌≡◌, refl, ap, sym, ◌∙◌, true, false, List, [], ◌∷◌, ◌++◌, arith, length, take,
  nat_eq, if_elim, leb, ltb, length-append, suc,
}
use gta.Base.Dict.{insert, lookup-insert_self}
use gta.Spool.Records.{frame, header_size}
use gta.Spool.{
  Queue, content, AppendEnv, AppendResult, write, write_framed, write_record, after_write, append,
}
use gta.Spool.Writing.{wrote_to, content_put, write-end, write-at_end, eqb_self}
use gta.Spool.Invariant.{Holds}

-- On a queue within its limits that does not roll over, `Append` writes and then counts.
append-framed :
    (q : Queue) (rec : List ℕ) (env : AppendEnv)
    → q.closed ≡ false
    → q.bytes + (header_size + length rec) ≤ q.max_bytes
    → q.wr_cur.offset < q.seg_bytes
    → append q rec env ≡ after_write (write_framed q rec env) rec env
unfolding append write_record
append-framed q rec env up room more =
    let P = λ (w : Queue × AppendResult). w ≡ after_write (write_framed q rec env) rec env in
    if_elim P (ltb q.max_bytes (length rec)) _ _ (λ e. absurd (ground (arith, e, room)))
      (λ e.
        if_elim P q.closed _ _ (λ e'. absurd (ground (arith, e', up)))
          (λ e'.
            if_elim P (ltb q.max_bytes (q.bytes + (header_size + length rec))) _ _
              (λ e''. absurd (ground (arith, e'', room)))
              (λ e''.
                if_elim (λ w. after_write w rec env ≡ after_write (write_framed q rec env) rec env)
                  (leb q.seg_bytes q.wr_cur.offset) _ _
                  (λ full. absurd (ground (arith, full, more))) (λ not_full. refl))))

module _ (q : Queue) (recs : List (List ℕ)) (v : Holds q recs) (rec later : List ℕ)
    (bad good : AppendEnv) where
  abbrev pub part : List ℕ
  part = take bad.written (frame rec)

  abbrev torn : Queue
  torn = record (wrote_to q part) { dropped = suc q.dropped }

  torn-append :
      q.bytes + (header_size + length rec) ≤ q.max_bytes
      → q.wr_cur.offset < q.seg_bytes
      → bad.wrote ≡ false
      → (append q rec bad).0 ≡ torn
  unfolding write_framed after_write
  torn-append room more failed =
      ap (λ (w : Queue × AppendResult). w.0) (append-framed q rec bad v.is_open room more)
      ∙ if_elim (λ w. (after_write w rec bad).0 ≡ torn) bad.wrote _ _
          (λ ok. absurd (ground (arith, ok, failed)))
          (λ e. ap (λ w. (after_write w rec bad).0) (write-end q recs v part false))

  content-torn : content torn.disk q.wr_cur.segment ≡ content q.disk q.wr_cur.segment ++ part
  content-torn =
      content_put q.disk q.wr_cur.segment q.wr_cur.segment _
      ∙ (rw (eqb_self q.wr_cur.segment q.wr_cur.segment refl) refl)

  torn_file : List ℕ
  torn_file = content torn.disk q.wr_cur.segment

  torn-write : write torn torn.wr_file (frame later) true ≡ (
    record torn {
      disk = insert q.wr_cur.segment (content torn.disk q.wr_cur.segment ++ frame later) torn.disk;
      files =
          insert q.wr_cur.segment (q.wr_cur.offset + length part + length (frame later)) torn.files;
    },
    true,
  )
  torn-write =
      write-at_end torn q.wr_cur.segment (q.wr_cur.offset + length part) v.writing
        (lookup-insert_self q.wr_cur.segment (q.wr_cur.offset + length part) q.files)
        (ap (λ xs. length xs) content-torn
          ∙ omega (arith, length-append (content q.disk q.wr_cur.segment) part, v.at_end))
        (frame later) true

  -- A write that fails after its first bytes leaves those in the segment, while the write position
  -- of the index stays. The next record that is accepted therefore stands behind them, and its
  -- entry points at them.
  pub torn_write_shifts :
      q.bytes + (header_size + length rec) ≤ q.max_bytes
      → q.bytes + (header_size + length later) ≤ q.max_bytes
      → q.wr_cur.offset < q.seg_bytes
      → bad.wrote ≡ false
      → good.wrote ≡ true
      → let q' = (append (append q rec bad).0 later good).0 in
        (content q'.disk q.wr_cur.segment ≡ content q.disk q.wr_cur.segment ++ part ++ frame later)
        × (q'.entries
            ≡ q.entries
              ++ record {
                seg = q.wr_cur.segment;
                off = length (content q.disk q.wr_cur.segment);
                n = length later;
              }
                ∷ [])
  unfolding after_write write_framed
  torn_write_shifts room room2 more failed worked =
      let first = torn-append room more failed in
      let second : append torn later good ≡ after_write (write_framed torn later good) later good =
        append-framed torn later good v.is_open room2 more in
      let third : write_framed torn later good ≡ write torn torn.wr_file (frame later) true =
        if_elim (λ w. w ≡ write torn torn.wr_file (frame later) true) good.wrote _ _ (λ e. refl)
          (λ e. absurd (ground (arith, e, worked))) in
      let all : (append (append q rec bad).0 later good).0
          ≡ (after_write (write torn torn.wr_file (frame later) true) later good).0 =
        ap (λ z. (append z later good).0) first
        ∙ ap (λ (w : Queue × AppendResult). w.0) second
        ∙ ap (λ w. (after_write w later good).0) third in
      let final = all ∙ ap (λ w. (after_write w later good).0) torn-write in
      (
        ap (λ (z : Queue). content z.disk q.wr_cur.segment) final
            ∙ (content_put torn.disk q.wr_cur.segment q.wr_cur.segment _
                ∙ (rw (eqb_self q.wr_cur.segment q.wr_cur.segment refl)
                    (ap (λ z. z ++ frame later) content-torn))),
        ap (λ (z : Queue). z.entries) final
            ∙ ap
                (λ z.
                  q.entries ++ record { seg = q.wr_cur.segment; off = z; n = length later } ∷ [])
                (sym v.at_end),
      )
