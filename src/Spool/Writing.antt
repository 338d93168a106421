-- ===== src/Spool/Writing.antt =====
-- queue.go: what a write at the end of a segment and a new segment do to the index and the disk.
use gta.Base.{
  ℕ_discrete, ℕ, ◌+◌, ◌≤◌, ◌≡◌, ◌≢◌, refl, ap, sym, subst, ◌∙◌, Bool, true, false, some, List, [],
  ◌∷◌, ◌++◌, arith, length, take, nat_eq, eqb, if◌then◌else◌, if_elim, append_nil, take-length,
  drop_past, length-append, drop-append_length,
}
use gta.Base.Dict.{Dict, lookup, insert, lookup-insert, lookup-insert_self}
use gta.Spool.Records.{Entry, span, frame, read_at, header_size}
use gta.Spool.Framing.{Fits, length-frame, take-frame}
use gta.Spool.{Queue, content, or_empty, overwrite, spans, AppendEnv, put_at, write, after_write}
use gta.Spool.Invariant.{Stored-Grown, Stored-snoc, Chain-snoc, Chain-roll, Holds, Grown}

pub content_put :
    (disk : Dict ℕ (List ℕ)) (seg at : ℕ) (file : List ℕ)
    → content (insert seg file disk) at ≡ (if eqb seg at then file else content disk at)
content_put disk seg at file = rw (lookup-insert seg at file disk) (
    if_elim (λ z. or_empty z ≡ (if eqb seg at then file else content disk at)) (eqb seg at)
      (some file) (lookup at disk) (λ e. ground arith) (λ e. ground arith))

pub eqb_self : (a b : ℕ) → a ≡ b → eqb a b ≡ true
eqb_self a b e = ground arith

pub eqb_other : (a b : ℕ) → a ≢ b → eqb a b ≡ false
eqb_other a b h = ground arith

overwrite_end : (file buf : List ℕ) → overwrite file (length file) buf ≡ file ++ buf
overwrite_end file buf =
    rw (take-length file, drop_past (length file + length buf) file (omega arith))
      (append_nil (file ++ buf))

spans-snoc : (es : List Entry) (e : Entry) → spans (es ++ e ∷ []) ≡ spans es + span e
spans-snoc [] e = omega arith
spans-snoc (f ∷ es) e = omega (arith, spans-snoc es e)

abbrev pub wrote_to : Queue → List ℕ → Queue
wrote_to q buf = record q {
  disk = insert q.wr_cur.segment (content q.disk q.wr_cur.segment ++ buf) q.disk;
  files = insert q.wr_cur.segment (q.wr_cur.offset + length buf) q.files;
}

-- A write through a handle at the end of its segment.
module _ (q : Queue) (seg off : ℕ) (writing : q.wr_file ≡ some seg)
    (positioned : lookup seg q.files ≡ some off) (at_end : length (content q.disk seg) ≡ off) where
  pub write-at_end :
      (buf : List ℕ) (ok : Bool)
      → write q q.wr_file buf ok ≡ (
        record q {
          disk = insert seg (content q.disk seg ++ buf) q.disk;
          files = insert seg (off + length buf) q.files;
        },
        ok,
      )
  unfolding write put_at
  write-at_end buf ok =
      ap (λ handle. write q handle buf ok) writing
      ∙ ap (λ pos. put_at q seg pos buf ok) positioned
      ∙ ap
          (λ file. (
            record q {
              disk = insert seg file q.disk;
              files = insert seg (off + length buf) q.files;
            },
            ok,
          ))
          (subst (λ z. overwrite (content q.disk seg) z buf ≡ content q.disk seg ++ buf) at_end
            (overwrite_end (content q.disk seg) buf))

module _ (q : Queue) (recs : List (List ℕ)) (v : Holds q recs) (buf : List ℕ) where
  pub write-end : (ok : Bool) → write q q.wr_file buf ok ≡ (wrote_to q buf, ok)
  write-end = write-at_end q q.wr_cur.segment q.wr_cur.offset v.writing v.positioned v.at_end buf

  pub grown : Grown q.disk (wrote_to q buf).disk
  grown seg = elim (ℕ_discrete q.wr_cur.segment seg) [
    | yes here ↦ (
      buf,
      content_put q.disk q.wr_cur.segment seg _
          ∙ (rw (eqb_self q.wr_cur.segment seg here) (ap (λ z. content q.disk z ++ buf) here)),
    )
    | no other ↦ (
      [],
      content_put q.disk q.wr_cur.segment seg _
          ∙ (rw (eqb_other q.wr_cur.segment seg other) (sym (append_nil (content q.disk seg)))),
    )
  ]

  pub here : content (wrote_to q buf).disk q.wr_cur.segment ≡ content q.disk q.wr_cur.segment ++ buf
  here =
      content_put q.disk q.wr_cur.segment q.wr_cur.segment _
      ∙ (rw (eqb_self q.wr_cur.segment q.wr_cur.segment refl) refl)

-- A whole record at the end of the segment enters the index.
module _ (q : Queue) (recs : List (List ℕ)) (v : Holds q recs) (rec : List ℕ) where
  abbrev pub enlisted : Queue
  enlisted = (after_write (wrote_to q (frame rec), true) rec plain).0
    where
      plain : AppendEnv
      plain = record {
        roll_synced = true;
        segment_opened = true;
        wrote = true;
        written = 0;
        sync_due = false;
        synced = true;
      }

  at_end_reads :
      (file : List ℕ) (off : ℕ)
      → length file ≡ off
      → read_at (file ++ frame rec) off (header_size + length rec) ≡ frame rec
  at_end_reads file off e =
      subst (λ z. read_at (file ++ frame rec) z (header_size + length rec) ≡ frame rec) e
        (rw (drop-append_length file (frame rec)) (
          subst (λ z. take (header_size + length rec) z ≡ frame rec) (append_nil (frame rec))
            (take-frame rec [])))

  pub enlisted-Holds :
      Fits rec
      → q.bytes + (header_size + length rec) ≤ q.max_bytes
      → Holds enlisted (recs ++ rec ∷ [])
  unfolding after_write
  enlisted-Holds fits room = record {
    stored =
        Stored-snoc _ q.entries recs _ rec
          (Stored-Grown q.disk _ q.entries recs (grown q recs v (frame rec)) v.stored) refl
          (ap (λ z. read_at z q.wr_cur.offset (header_size + length rec))
              (here q recs v (frame rec))
            ∙ at_end_reads (content q.disk q.wr_cur.segment) q.wr_cur.offset v.at_end)
          fits;
    chain = Chain-snoc q.entries q.wr_cur (length rec) v.chain;
    in_flight = omega (arith, v.in_flight, length-append q.entries (_ ∷ []));
    counted = omega (
      arith,
      v.counted,
      spans-snoc q.entries
          (record { seg = q.wr_cur.segment; off = q.wr_cur.offset; n = length rec }),
    );
    bounded = omega (arith, room);
    at_end =
        ap (λ z. length z) (here q recs v (frame rec))
        ∙ omega (
          arith,
          length-append (content q.disk q.wr_cur.segment) (frame rec),
          length-frame rec,
          v.at_end,
        );
    positioned =
        lookup-insert_self q.wr_cur.segment (q.wr_cur.offset + length (frame rec)) q.files
        ∙ ap some (ap (λ z. q.wr_cur.offset + z) (length-frame rec));
    writing = v.writing;
    fresh = λ seg lt.
        content_put q.disk q.wr_cur.segment seg _
        ∙ (rw (eqb_other q.wr_cur.segment seg (omega (arith, lt))) (v.fresh seg lt));
    is_open = v.is_open;
    small = v.small;
  }

abbrev pub next_segment : Queue → ℕ
next_segment q = q.wr_cur.segment + 1

abbrev pub rolled : Queue → Queue
rolled q = record q {
  disk = insert (next_segment q) (content q.disk (next_segment q)) q.disk;
  wr_cur = record { segment = next_segment q; offset = 0 };
  wr_file = some (next_segment q);
  files = insert (next_segment q) 0 q.files;
}

-- A new segment: nothing that is stored moves.
module _ (q : Queue) (recs : List (List ℕ)) (v : Holds q recs) where
  content-rolled : (seg : ℕ) → content (rolled q).disk seg ≡ content q.disk seg
  content-rolled seg =
      content_put q.disk (next_segment q) seg (content q.disk (next_segment q))
      ∙ if_elim (λ z. z ≡ content q.disk seg) (eqb (next_segment q) seg) _ _
          (λ e. ap (content q.disk) (ground (arith, e))) (λ e. refl)

  pub rolled-Holds : Holds (rolled q) recs
  rolled-Holds = record {
    stored =
        Stored-Grown q.disk (rolled q).disk q.entries recs
          (λ seg. ([], content-rolled seg ∙ sym (append_nil (content q.disk seg)))) v.stored;
    chain = Chain-roll q.entries q.wr_cur v.chain;
    in_flight = v.in_flight;
    counted = v.counted;
    bounded = v.bounded;
    at_end =
        ap (λ xs. length xs)
          (content-rolled (next_segment q) ∙ v.fresh (next_segment q) (omega arith));
    positioned = lookup-insert_self (next_segment q) 0 q.files;
    writing = refl;
    fresh = λ seg lt. content-rolled seg ∙ v.fresh seg (omega (arith, lt));
    is_open = v.is_open;
    small = v.small;
  }
