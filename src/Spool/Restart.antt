-- ===== src/Spool/Restart.antt =====
-- queue.go: what `scanFrom` finds in a directory with whole records from the cursor on.
use gta.Base.{
  ℕ, ◌+◌, ◌≤◌, ◌<◌, ◌≡◌, refl, ap, sym, subst, ◌∙◌, ◌⊎◌, inl, inr, List, [], ◌∷◌, ◌++◌, arith,
  length, take, drop, All, append_nil, append_assoc, length-append, nat_eq, take-append-drop,
  take-drop-append, length-take,
}
use gta.Base.Dict.{Dict, insert, lookup-insert_self, lookup-insert_ne}
use gta.Spool.Records.{Entry, span, frame, read_at, header_size}
use gta.Spool.Framing.{take-frame, length-frame}
use gta.Spool.Scan.{Sound, frames, index, past_frame}
use gta.Spool.{Cursor, content, or_empty, spans}
use gta.Spool.Invariant.{Stored, Stored-snoc, Linked, Chain, Chain-snoc}

pub spans-append : (es fs : List Entry) → spans (es ++ fs) ≡ spans es + spans fs
spans-append [] fs = omega arith
spans-append (e ∷ es) fs = omega (arith, spans-append es fs)

pub spans-index :
    (seg off : ℕ) (recs : List (List ℕ)) → spans (index seg off recs) ≡ length (frames recs)
spans-index seg off [] = refl
spans-index seg off (rec ∷ recs) = omega (
  arith,
  spans-index seg (off + header_size + length rec) recs,
  length-append (frame rec) (frames recs),
  length-frame rec,
)

pub moved_end :
    (seg : ℕ) (es : List Entry) {a b : ℕ}
    → a ≡ b
    → Chain es (record { segment = seg; offset = a })
    → Chain es (record { segment = seg; offset = b })
moved_end seg es e l = subst (λ z. Chain es (record { segment = seg; offset = z })) e l

-- The records of one segment join the index.
module _ (disk : Dict ℕ (List ℕ)) (seg : ℕ) where
  pub index-Stored :
      (rs : List (List ℕ)) (off : ℕ) (tail : List ℕ) (es : List Entry) (recs : List (List ℕ))
      → All Sound rs
      → drop off (content disk seg) ≡ frames rs ++ tail
      → length (content disk seg) ≡ off + length (frames rs ++ tail)
      → Stored disk es recs
      → Chain es (record { segment = seg; offset = off })
      → Stored disk (es ++ index seg off rs) (recs ++ rs)
        × Chain
            (es ++ index seg off rs)
            (record { segment = seg; offset = off + length (frames rs) })
  index-Stored [] off tail es recs sound at size h l = (
    subst (λ z. Stored disk z (recs ++ [])) (sym (append_nil es))
        (subst (λ z. Stored disk es z) (sym (append_nil recs)) h),
    subst (λ z. Chain z (record { segment = seg; offset = off + 0 })) (sym (append_nil es))
        (moved_end seg es (omega arith) l),
  )
  index-Stored (rec ∷ rs) off tail es recs sound at size h l =
      let e : Entry = record { seg = seg; off = off; n = length rec } in
      let split = append_assoc (frame rec) (frames rs) tail in
      let at' = at ∙ split in
      let size' = size ∙ ap (λ xs. off + length xs) split in
      let (at2, size2) = past_frame (content disk seg) seg off rec (frames rs ++ tail) at' size' in
      let here : read_at (content disk seg) off (header_size + length rec) ≡ frame rec =
        ap (take (header_size + length rec)) at' ∙ take-frame rec (frames rs ++ tail) in
      let rest =
        index-Stored rs (off + header_size + length rec) tail (es ++ e ∷ []) (recs ++ rec ∷ [])
          sound.1 at2 size2 (Stored-snoc disk es recs e rec h refl here sound.0.0)
          (moved_end seg (es ++ e ∷ []) (omega arith)
            (Chain-snoc es (record { segment = seg; offset = off }) (length rec) l)) in
      (
        subst (λ z. Stored disk z (recs ++ rec ∷ rs))
            (append_assoc es (e ∷ []) (index seg (off + header_size + length rec) rs))
            (subst
              (λ z. Stored disk ((es ++ e ∷ []) ++ index seg (off + header_size + length rec) rs) z)
              (append_assoc recs (rec ∷ []) rs) rest.0),
        subst (λ z. Chain z (record { segment = seg; offset = off + length (frames (rec ∷ rs)) }))
            (append_assoc es (e ∷ []) (index seg (off + header_size + length rec) rs))
            (moved_end seg ((es ++ e ∷ []) ++ index seg (off + header_size + length rec) rs)
              (omega (arith, length-append (frame rec) (frames rs), length-frame rec)) rest.1),
      )

-- A file that is cut behind an entry still holds it.
Linked-before :
    (e : Entry) (es : List Entry) (seg stop : ℕ)
    → Linked e es (record { segment = seg; offset = stop })
    → (e.seg < seg) ⊎ ((e.seg ≡ seg) × (e.off + span e ≤ stop))
Linked-before e [] seg stop (inl lt) = inl lt
Linked-before e [] seg stop (inr same) = inr (same.0, omega (arith, same.1))
Linked-before e (f ∷ es) seg stop l = ground (arith, l.0, Linked-before f es seg stop l.1)

Linked-Chain_tail : (e : Entry) (es : List Entry) (wr : Cursor) → Linked e es wr → Chain es wr
Linked-Chain_tail e [] wr l = tt
Linked-Chain_tail e (f ∷ es) wr l = l.1

module _ (disk : Dict ℕ (List ℕ)) (seg stop : ℕ) (fits : stop ≤ length (content disk seg)) where
  abbrev shorter : Dict ℕ (List ℕ)
  shorter = insert seg (take stop (content disk seg)) disk

  pub shorter-here : content shorter seg ≡ take stop (content disk seg)
  shorter-here = ap or_empty (lookup-insert_self seg (take stop (content disk seg)) disk)

  shorter-reads :
      (at off n : ℕ)
      → (at < seg) ⊎ ((at ≡ seg) × (off + n ≤ stop))
      → read_at (content shorter at) off n ≡ read_at (content disk at) off n
  shorter-reads at off n (inl lt) =
      ap (λ z. read_at (or_empty z) off n)
        (lookup-insert_ne seg at (take stop (content disk seg)) disk (omega (arith, lt)))
  shorter-reads at off n (inr (same, le)) =
      let file = content disk seg in
      subst (λ z. read_at (content shorter z) off n ≡ read_at (content disk z) off n) (sym same)
        (ap (λ z. read_at z off n) shorter-here
          ∙ sym (
              take-drop-append off n (take stop file) (drop stop file)
                (omega (arith, le, fits, length-take stop file)))
          ∙ ap (λ z. read_at z off n) (take-append-drop stop file))

  pub shorter-Stored :
      (es : List Entry) (recs : List (List ℕ))
      → Chain es (record { segment = seg; offset = stop })
      → Stored disk es recs
      → Stored shorter es recs
  shorter-Stored [] [] l h = tt
  shorter-Stored [] (rec ∷ recs) l h = absurd h
  shorter-Stored (e ∷ es) [] l h = h
  shorter-Stored (e ∷ es) (rec ∷ recs) l h = (
    h.0,
    shorter-reads e.seg e.off (span e) (Linked-before e es seg stop l) ∙ h.1,
    h.2,
    shorter-Stored es recs (Linked-Chain_tail e es (record { segment = seg; offset = stop }) l) h.3,
  )
