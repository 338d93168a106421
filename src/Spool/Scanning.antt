-- ===== src/Spool/Scanning.antt =====
-- queue.go: what the scan of one segment adds to the queue, and the layout of a directory.
use gta.Base.{
  ℕ, ◌+◌, ◌≤◌, ◌<◌, ◌≡◌, ◌≢◌, refl, ap, sym, subst, ◌∙◌, false, Option, none, some, List, [], ◌∷◌,
  ◌++◌, arith, length, drop, All, length-append, nat_eq, length-take,
}
use gta.Base.Dict.{Dict, lookup, lookup-insert_self, lookup-insert_ne}
use gta.Spool.Records.{Entry}
use gta.Spool.Scan.{Sound, frames, index}
use gta.Spool.{Cursor, Queue, content, or_empty, spans}
use gta.Spool.Invariant.{Stored, Chain, Chain-roll, Holds}
use gta.Spool.Recovery.{note_open, scanned, truncated}
use gta.Spool.Restart.{
  moved_end, spans-append, spans-index, index-Stored, shorter-here, shorter-Stored,
}

-- Whole records from a place of a segment to the end of the last one, segment by segment, where a
-- torn record may follow.
abbrev pub Layout : Dict ℕ (List ℕ) → ℕ → ℕ → List (List (List ℕ)) → List ℕ → Type 0
Layout disk seg off [] tail = ⊥
Layout disk seg off (rs ∷ []) tail =
    (lookup seg disk ≢ none)
    × (drop off (content disk seg) ≡ frames rs ++ tail)
    × (length (content disk seg) ≡ off + length (frames rs ++ tail))
    × ((later : ℕ) → seg < later → lookup later disk ≡ none)
Layout disk seg off (rs ∷ rs' ∷ more) tail =
    (lookup seg disk ≢ none)
    × (drop off (content disk seg) ≡ frames rs ++ [])
    × (length (content disk seg) ≡ off + length (frames rs ++ []))
    × Layout disk (seg + 1) 0 (rs' ∷ more) tail

abbrev pub joined : List (List (List ℕ)) → List (List ℕ)
joined [] = []
joined (rs ∷ runs) = rs ++ joined runs

abbrev pub last_of : ℕ → List (List (List ℕ)) → ℕ
last_of seg [] = seg
last_of seg (rs ∷ []) = seg
last_of seg (rs ∷ rs' ∷ more) = last_of (seg + 1) (rs' ∷ more)

abbrev pub sizes : List (List (List ℕ)) → ℕ
sizes [] = 0
sizes (rs ∷ runs) = length (frames rs) + sizes runs

-- Before the scan of a segment.
pub record Scanning (q : Queue) (recs : List (List ℕ)) (seg off : ℕ) : Type 0 where
  pub stored : Stored q.disk q.entries recs
  pub chain : Chain q.entries (record { segment = seg; offset = off })
  pub none_flying : q.next_idx ≡ 0
  pub counted : q.bytes ≡ spans q.entries
  pub at_end : length (content q.disk q.wr_cur.segment) ≡ q.wr_cur.offset
  pub positioned : lookup q.wr_cur.segment q.files ≡ some q.wr_cur.offset
  pub writing : q.wr_file ≡ some q.wr_cur.segment
  pub is_open : q.closed ≡ false
  pub small : q.max_bytes < 4294967296

moved-Chain :
    (es : List Entry) (seg : ℕ) (wr : Cursor) {stop : ℕ}
    → wr.segment ≡ seg
    → stop ≡ wr.offset
    → Chain es (record { segment = seg; offset = stop })
    → Chain es wr
moved-Chain es seg wr here end l =
    subst (λ z. Chain es (record { segment = z; offset = wr.offset })) (sym here)
      (moved_end seg es end l)

noted :
    (seg at : ℕ) (files : Dict ℕ ℕ) (pos : ℕ) (known : Option ℕ)
    → lookup seg files ≡ known
    → lookup at files ≡ some pos
    → lookup at (note_open seg known files) ≡ some pos
unfolding note_open
noted seg at files pos (some p) k h = h
noted seg at files pos none k h =
    lookup-insert_ne seg at 0 files
      (λ e. let c = sym (subst (λ z. lookup z files ≡ none) e k) ∙ h in cc)
    ∙ h

module _ (q : Queue) (recs : List (List ℕ)) (seg off : ℕ) (v : Scanning q recs seg off)
    (rs : List (List ℕ)) (tail : List ℕ) (sound : All Sound rs)
    (at : drop off (content q.disk seg) ≡ frames rs ++ tail)
    (size : length (content q.disk seg) ≡ off + length (frames rs ++ tail)) where
  abbrev grown_queue : Queue
  grown_queue = scanned q seg (index seg off rs)

  stop : ℕ
  stop = off + length (frames rs)

  pub scanned-Scanning : Scanning grown_queue (recs ++ rs) seg (off + length (frames rs))
  unfolding scanned
  scanned-Scanning =
      let more =
        index-Stored q.disk seg rs off tail q.entries recs sound at size v.stored v.chain in
      record {
        stored = more.0;
        chain = more.1;
        none_flying = v.none_flying;
        counted = omega (arith, v.counted, spans-append q.entries (index seg off rs));
        at_end = v.at_end;
        positioned =
            noted seg q.wr_cur.segment q.files q.wr_cur.offset (lookup seg q.files) refl
              v.positioned;
        writing = v.writing;
        is_open = v.is_open;
        small = v.small;
      }

  module _ (bounded : q.bytes + length (frames rs) ≤ q.max_bytes)
      (last : (later : ℕ) → seg < later → lookup later q.disk ≡ none) where
    bytes_bounded : grown_queue.bytes ≤ grown_queue.max_bytes
    unfolding scanned
    bytes_bounded = omega (arith, bounded, spans-index seg off rs)

    pub truncated-Holds :
        Holds
          (truncated grown_queue seg (content q.disk seg) (off + length (frames rs)))
          (recs ++ rs)
    unfolding truncated scanned
    truncated-Holds =
        let w = scanned-Scanning in
        let le : off + length (frames rs) ≤ length (content q.disk seg) =
          omega (arith, size, length-append (frames rs) tail) in
        record {
          stored =
              shorter-Stored q.disk seg (off + length (frames rs)) le grown_queue.entries
                (recs ++ rs) w.chain w.stored;
          chain = w.chain;
          in_flight = omega (arith, w.none_flying);
          counted = w.counted;
          bounded = bytes_bounded;
          at_end =
              ap (λ xs. length xs) (shorter-here q.disk seg (off + length (frames rs)) le)
              ∙ omega (arith, le, length-take (off + length (frames rs)) (content q.disk seg));
          positioned = lookup-insert_self seg (off + length (frames rs)) grown_queue.files;
          writing = refl;
          fresh = λ later lt.
              ap or_empty (lookup-insert_ne seg later _ q.disk (omega (arith, lt)) ∙ last later lt);
          is_open = w.is_open;
          small = w.small;
        }

    pub finished-Holds : q.wr_cur.segment ≡ seg → tail ≡ [] → Holds grown_queue (recs ++ rs)
    unfolding scanned
    finished-Holds here empty =
        let w = scanned-Scanning in
        let end : off + length (frames rs) ≡ q.wr_cur.offset =
          sym (
            subst (λ xs. length (content q.disk seg) ≡ off + length (frames rs ++ xs)) empty size
            ∙ omega (arith, length-append (frames rs) []))
          ∙ subst (λ z. length (content q.disk z) ≡ q.wr_cur.offset) here v.at_end in
        record {
          stored = w.stored;
          chain = moved-Chain grown_queue.entries seg q.wr_cur here end w.chain;
          in_flight = omega (arith, w.none_flying);
          counted = w.counted;
          bounded = bytes_bounded;
          at_end = w.at_end;
          positioned = w.positioned;
          writing = w.writing;
          fresh = λ later lt. ap or_empty (last later (omega (arith, lt, here)));
          is_open = w.is_open;
          small = w.small;
        }

pub next_segment-Scanning :
    (q : Queue) (recs : List (List ℕ)) (seg off : ℕ)
    → Scanning q recs seg off
    → Scanning q recs (seg + 1) 0
next_segment-Scanning q recs seg off v = record {
  stored = v.stored;
  chain = Chain-roll q.entries (record { segment = seg; offset = off }) v.chain;
  none_flying = v.none_flying;
  counted = v.counted;
  at_end = v.at_end;
  positioned = v.positioned;
  writing = v.writing;
  is_open = v.is_open;
  small = v.small;
}

pub present_some : (o : Option (List ℕ)) → o ≢ none → (file : List ℕ) × (o ≡ some file)
present_some none ne = absurd (ne refl)
present_some (some file) ne = (file, refl)
