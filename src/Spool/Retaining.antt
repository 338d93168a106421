-- ===== src/Spool/Retaining.antt =====
-- retention.go: what a sweep keeps.
use gta.Base.{
  ℕ, ◌≤◌, ◌<◌, ◌≡◌, ◌≢◌, ◌∙◌, refl, sym, ap, subst, false, Option, none, some, List, [], ◌∷◌, ◌&&◌,
  if_elim, arith, nat_eq,
}
use gta.Base.Dict.{lookup, lookup-delete_ne}
use gta.Spool.{read_cur_of, Queue, Cursor, read_cur, drop_segment}
use gta.Spool.Records.{Entry}
use gta.Spool.Retention.{
  SegInfo, Retention, Archive, seg_fully_confirmed, confirmed_to, seg_end, drop_archived, due,
  Sweep, sweep_one, sweep, cutoff_of, enforce_with, enforce_retention,
}

-- What is known of the archive while a sweep goes on: the cursor, the figures of one segment and
-- its file.
pub record Knows (cur : Cursor) (seg : ℕ) (m : SegInfo) (file : Option (List ℕ)) (a : Archive)
    : Type 0 where
  pub at : read_cur a.queue ≡ cur
  pub figures : lookup seg a.seg_meta ≡ some m
  pub bytes : lookup seg a.queue.disk ≡ file

module _ (cur : Cursor) (seg : ℕ) (m : SegInfo) (file : Option (List ℕ))
    (waits : confirmed_to cur seg m.bytes ≡ false) where
  unconfirmed : (a : Archive) → Knows cur seg m file a → seg_fully_confirmed a seg ≡ false
  unfolding seg_fully_confirmed
  unconfirmed a k =
      ap (λ c. confirmed_to c seg (seg_end (lookup seg a.seg_meta) (lookup seg a.queue.disk))) k.at
      ∙ ap (λ i. confirmed_to cur seg (seg_end i (lookup seg a.queue.disk))) k.figures
      ∙ waits

  drop_other :
      (a : Archive) (other : ℕ)
      → Knows cur seg m file a
      → other ≢ seg
      → Knows cur seg m file (drop_archived other a)
  unfolding drop_archived drop_segment
  drop_other a other k ne = record {
    at = k.at;
    figures = lookup-delete_ne other seg a.seg_meta ne ∙ k.figures;
    bytes = lookup-delete_ne other seg a.queue.disk ne ∙ k.bytes;
  }

  sweep_one-Knows :
      (r : Retention) (cutoff other total removed : ℕ) (a : Archive) (info : Option SegInfo)
      → Knows cur seg m file a
      → Knows cur seg m file (sweep_one r cutoff other info (a, total, removed)).0
  unfolding sweep_one
  sweep_one-Knows r cutoff other total removed a none k = k
  sweep_one-Knows r cutoff other total removed a (some i) k =
      if_elim (λ (s : Sweep). Knows cur seg m file s.0)
        (seg_fully_confirmed a other && due r cutoff total i) _ _
        (λ e. drop_other a other k (λ same.
          let no = subst (λ z. seg_fully_confirmed a z ≡ false) (sym same) (unconfirmed a k) in
          ground (arith, e, no)))
        (λ e. k)

  sweep-Knows :
      (r : Retention) (cutoff : ℕ) (order : List ℕ) (s : Sweep)
      → Knows cur seg m file s.0
      → Knows cur seg m file (sweep r cutoff order s).0
  unfolding sweep
  sweep-Knows r cutoff [] s k = k
  sweep-Knows r cutoff (other ∷ order) s k =
      sweep-Knows r cutoff order _
        (sweep_one-Knows r cutoff other s.1 s.2 s.0 (lookup other s.0.seg_meta) k)

  enforce_with-Knows :
      (policy : Option Retention) (now : ℕ) (order : List ℕ) (a : Archive)
      → Knows cur seg m file a
      → Knows cur seg m file (enforce_with policy now order a).0
  unfolding enforce_with
  enforce_with-Knows none now order a k = k
  enforce_with-Knows (some r) now order a k = sweep-Knows r (cutoff_of r now) order _ k

  enforce-Knows :
      (now : ℕ) (order : List ℕ) (a : Archive)
      → Knows cur seg m file a
      → Knows cur seg m file (enforce_retention now order a).0
  unfolding enforce_retention
  enforce-Knows now order a k =
      if_elim (λ (s : Archive × ℕ). Knows cur seg m file s.0) a.queue.closed _ _ (λ e. k)
        (λ e. enforce_with-Knows a.retention now order a k)

entry_waits :
    (head : Entry) (tail : List Entry) (q : Queue) (seg : ℕ) (m : SegInfo)
    → q.entries ≡ head ∷ tail
    → head.seg ≤ seg
    → (head.seg ≡ seg → head.off < m.bytes)
    → confirmed_to (read_cur q) seg m.bytes ≡ false
entry_waits head tail q seg m e le within =
    subst (λ es. confirmed_to (read_cur_of q.wr_cur es) seg m.bytes ≡ false) (sym e)
      (unfold confirmed_to in ground (arith, le, within))

-- A sweep of the retention keeps the file of every segment from the oldest unconfirmed record on,
-- whatever the policy, the time and the order of the map are, provided the figures of the segment of
-- that record count its bytes.
pub enforce-keeps_unconfirmed :
    (now : ℕ) (order : List ℕ) (a : Archive) (head : Entry) (tail : List Entry) (seg : ℕ)
    (m : SegInfo)
    → a.queue.entries ≡ head ∷ tail
    → head.seg ≤ seg
    → lookup seg a.seg_meta ≡ some m
    → (head.seg ≡ seg → head.off < m.bytes)
    → lookup seg (enforce_retention now order a).0.queue.disk ≡ lookup seg a.queue.disk
enforce-keeps_unconfirmed now order a head tail seg m e le known within =
    (enforce-Knows (read_cur a.queue) seg m (lookup seg a.queue.disk)
      (entry_waits head tail a.queue seg m e le within) now order a
      (record { at = refl; figures = known; bytes = refl })).bytes
