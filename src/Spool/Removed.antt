-- ===== src/Spool/Removed.antt =====
-- retention.go: what a sweep removes.
use gta.Base.{
  ℕ, ◌+◌, ◌≤◌, ◌<◌, ◌≡◌, ◌∙◌, refl, sym, ap, subst, Bool, true, false, Option, none, some, List, [],
  ◌∷◌, ◌&&◌, if◌then◌else◌, if_elim, arith, nat_eq, eq_self,
}
use gta.Base.Dict.{insert, lookup, lookup-delete_self, lookup-insert_self}
use gta.Spool.{read_cur_of, Queue, Cursor, read_cur, drop_segment}
use gta.Spool.Records.{Entry}
use gta.Spool.Retention.{
  SegInfo, Retention, Archive, seg_fully_confirmed, confirmed_to, seg_end, drop_archived, due,
  Sweep, sweep_one, sweep, cutoff_of, enforce_with, enforce_retention, bytes_where, load_seg_meta,
  loaded, put_loaded,
}

-- What a sweep that looks at one segment does with it if it is confirmed and too old.
swept :
    (r : Retention) (now seg : ℕ) (a : Archive) (m : SegInfo)
    → a.queue.closed ≡ false
    → a.retention ≡ some r
    → lookup seg a.seg_meta ≡ some m
    → seg_fully_confirmed a seg ≡ true
    → 0 < m.last_ms
    → 0 < r.max_age
    → m.last_ms + r.max_age < now
    → (enforce_retention now (seg ∷ []) a).0 ≡ drop_archived seg a
unfolding enforce_retention enforce_with sweep sweep_one cutoff_of due
swept r now seg a m running policy known confirmed dated aged old =
    if_elim (λ (s : Archive × ℕ). s.0 ≡ drop_archived seg a) a.queue.closed _ _
      (λ e. absurd (ground (arith, e, running)))
      (λ e.
        subst (λ (p : Option Retention). (enforce_with p now (seg ∷ []) a).0 ≡ drop_archived seg a)
          (sym policy)
          (subst
            (λ (i : Option SegInfo).
              (sweep_one r (cutoff_of r now) seg i
                (a, bytes_where (seg_fully_confirmed a) a.seg_meta, 0)).0
              ≡ drop_archived seg a)
            (sym known)
            (if_elim (λ (s : Sweep). s.0 ≡ drop_archived seg a)
              (seg_fully_confirmed a seg
                && due r (cutoff_of r now) (bytes_where (seg_fully_confirmed a) a.seg_meta) m)
              _ _ (λ e'. refl) (λ e'. absurd (ground (arith, e', confirmed, dated, aged, old))))))

head_of :
    (head : Entry) (tail : List Entry) (q : Queue)
    → q.entries ≡ head ∷ tail
    → read_cur q ≡ record { segment = head.seg; offset = head.off }
head_of head tail q e = ap (read_cur_of q.wr_cur) e

self_confirmed : (seg off : ℕ) → confirmed_to (record { segment = seg; offset = off }) seg 0 ≡ true
unfolding confirmed_to
self_confirmed seg off = ground arith

only_figures :
    (seg ms : ℕ)
    → lookup seg (load_seg_meta [] ((seg, ms) ∷ []) (seg ∷ []) [])
      ≡ some (record { first_ms = ms; last_ms = ms; packets = 0; bytes = 0 })
unfolding load_seg_meta loaded put_loaded lookup insert
only_figures seg ms =
    let m : SegInfo = record { first_ms = ms; last_ms = ms; packets = 0; bytes = 0 } in
    subst
      (λ (b : Bool).
        lookup seg (put_loaded seg (loaded none (if b then some ms else none)) []) ≡ some m)
      (sym (eq_self seg)) (lookup-insert_self seg m [])

dropped_file : (seg : ℕ) (a : Archive) → lookup seg (drop_archived seg a).queue.disk ≡ none
unfolding drop_archived drop_segment
dropped_file seg a = lookup-delete_self seg a.queue.disk

dropped_entries : (seg : ℕ) (a : Archive) → (drop_archived seg a).queue.entries ≡ a.queue.entries
unfolding drop_archived drop_segment
dropped_entries seg a = refl

-- After a restart that finds no saved figures of the segment, the retention takes the segment for
-- confirmed although its records wait: once its file is old enough a sweep removes it, and the queue
-- goes on to list the records.
pub lost_figures_lose_records :
    (r : Retention) (now ms : ℕ) (a : Archive) (head : Entry) (tail : List Entry)
    → a.queue.closed ≡ false
    → a.retention ≡ some r
    → a.queue.entries ≡ head ∷ tail
    → a.seg_meta ≡ load_seg_meta [] ((head.seg, ms) ∷ []) (head.seg ∷ []) []
    → 0 < ms
    → 0 < r.max_age
    → ms + r.max_age < now
    → (lookup head.seg (enforce_retention now (head.seg ∷ []) a).0.queue.disk ≡ none)
      × ((enforce_retention now (head.seg ∷ []) a).0.queue.entries ≡ head ∷ tail)
unfolding seg_fully_confirmed
lost_figures_lose_records r now ms a head tail running policy waiting meta dated aged old =
    let known = ap (lookup head.seg) meta ∙ only_figures head.seg ms in
    let gone =
      swept r now head.seg a _ running policy known
        (ap
            (λ i.
              confirmed_to (read_cur a.queue) head.seg (seg_end i (lookup head.seg a.queue.disk)))
            known
          ∙ ap (λ c. confirmed_to c head.seg 0) (head_of head tail a.queue waiting)
          ∙ self_confirmed head.seg head.off)
        dated aged old in
    (
      ap (λ (b : Archive). lookup head.seg b.queue.disk) gone ∙ dropped_file head.seg a,
      ap (λ (b : Archive). b.queue.entries) gone ∙ dropped_entries head.seg a ∙ waiting,
    )

behind : (c : Cursor) (n : ℕ) → n ≤ c.offset → confirmed_to c c.segment n ≡ true
unfolding confirmed_to
behind c n h = ground (arith, h)

-- When every record is confirmed and the segment that is written to has grown old, a sweep removes
-- its file, and the queue keeps writing to the handle of it.
pub write_segment_is_removed :
    (r : Retention) (now : ℕ) (a : Archive) (m : SegInfo)
    → a.queue.closed ≡ false
    → a.retention ≡ some r
    → a.queue.entries ≡ []
    → lookup a.queue.wr_cur.segment a.seg_meta ≡ some m
    → m.bytes ≤ a.queue.wr_cur.offset
    → 0 < m.last_ms
    → 0 < r.max_age
    → m.last_ms + r.max_age < now
    → let q = (enforce_retention now (a.queue.wr_cur.segment ∷ []) a).0.queue in
      (lookup q.wr_cur.segment q.disk ≡ none)
      × (q.wr_file ≡ a.queue.wr_file)
      × (q.wr_cur ≡ a.queue.wr_cur)
unfolding seg_fully_confirmed drop_archived drop_segment
write_segment_is_removed r now a m running policy drained known counted dated aged old =
    let seg = a.queue.wr_cur.segment in
    let gone =
      swept r now seg a m running policy known
        (ap (λ i. confirmed_to (read_cur a.queue) seg (seg_end i (lookup seg a.queue.disk))) known
          ∙ ap (λ es. confirmed_to (read_cur_of a.queue.wr_cur es) seg m.bytes) drained
          ∙ behind a.queue.wr_cur m.bytes counted)
        dated aged old in
    subst
      (λ (b : Archive).
        (lookup b.queue.wr_cur.segment b.queue.disk ≡ none)
        × (b.queue.wr_file ≡ a.queue.wr_file)
        × (b.queue.wr_cur ≡ a.queue.wr_cur))
      (sym gone) (dropped_file seg a, refl, refl)
