-- ===== src/Spool/Layouts.antt =====
-- queue.go: which segments a directory with whole records has.
use gta.Base.{
  ℕ, ◌+◌, ◌≤◌, ◌<◌, ◌≡◌, ◌≢◌, refl, sym, subst, ◌∙◌, inl, inr, Bool, true, false, Option, none,
  some, List, [], ◌∷◌, ◌++◌, arith, length, drop, eqb, dec_lt, nat_eq, if◌then◌else◌, max,
  Bool-cases,
}
use gta.Base.Dict.{Dict, lookup, delete, lookup-delete_ne}
use gta.Spool.Scan.{frames}
use gta.Spool.{or_empty}
use gta.Spool.Recovery.{last_segment}
use gta.Spool.Scanning.{Layout, last_of}

-- A layout looks only at the segments from its first one on.
pub Layout-same :
    (disk disk' : Dict ℕ (List ℕ)) (seg off : ℕ) (runs : List (List (List ℕ))) (tail : List ℕ)
    → ((s : ℕ) → seg ≤ s → lookup s disk' ≡ lookup s disk)
    → Layout disk seg off runs tail
    → Layout disk' seg off runs tail
Layout-same disk disk' seg off [] tail same lay = lay
Layout-same disk disk' seg off (rs ∷ []) tail same lay =
    let e = same seg (omega arith) in
    (
      subst (λ o. o ≢ none) (sym e) lay.0,
      subst (λ o. drop off (or_empty o) ≡ frames rs ++ tail) (sym e) lay.1,
      subst (λ o. length (or_empty o) ≡ off + length (frames rs ++ tail)) (sym e) lay.2,
      λ later lt. same later (omega (arith, lt)) ∙ lay.3 later lt,
    )
Layout-same disk disk' seg off (rs ∷ rs' ∷ more) tail same lay =
    let e = same seg (omega arith) in
    (
      subst (λ o. o ≢ none) (sym e) lay.0,
      subst (λ o. drop off (or_empty o) ≡ frames rs ++ []) (sym e) lay.1,
      subst (λ o. length (or_empty o) ≡ off + length (frames rs ++ [])) (sym e) lay.2,
      Layout-same disk disk' (seg + 1) 0 (rs' ∷ more) tail (λ s le. same s (omega (arith, le)))
          lay.3,
    )

length-delete : (seg : ℕ) (disk : Dict ℕ (List ℕ)) → length (delete seg disk) ≤ length disk
unfolding delete
length-delete seg [] = omega arith
length-delete seg (entry ∷ disk) = ground (arith, length-delete seg disk)

length-delete_present :
    (seg : ℕ) (disk : Dict ℕ (List ℕ))
    → lookup seg disk ≢ none
    → length (delete seg disk) < length disk
unfolding lookup delete
length-delete_present seg [] there = absurd (there refl)
length-delete_present seg (entry ∷ disk) there = elim (Bool-cases (eqb entry.0 seg)) [
  | inl hit ↦ ground (arith, hit, length-delete seg disk)
  | inr miss ↦ ground (arith, miss, length-delete_present seg disk (λ h. there (rw miss h)))
]

-- Each run has a segment of its own.
pub Layout-length :
    (runs : List (List (List ℕ))) (disk : Dict ℕ (List ℕ)) (seg off : ℕ) (tail : List ℕ)
    → Layout disk seg off runs tail
    → length runs ≤ length disk
Layout-length [] disk seg off tail lay = omega arith
Layout-length (rs ∷ []) disk seg off tail lay = omega (arith, length-delete_present seg disk lay.0)
Layout-length (rs ∷ rs' ∷ more) disk seg off tail lay =
    let rest = Layout-length (rs' ∷ more) (delete seg disk) (seg + 1) 0 tail (
      Layout-same disk (delete seg disk) (seg + 1) 0 (rs' ∷ more) tail
        (λ s le. lookup-delete_ne seg s disk (omega (arith, le))) lay.3) in
    omega (arith, rest, length-delete_present seg disk lay.0)

if_none :
    (b : Bool) (file : List ℕ) (o : Option (List ℕ))
    → (if b then some file else o) ≡ none
    → (b ≡ false) × (o ≡ none)
if_none true file o h = cc
if_none false file o h = (refl, h)

-- The last segment of the layout is the last of the directory.
last_segment-present :
    (first : ℕ × List ℕ) (disk : Dict ℕ (List ℕ))
    → lookup (last_segment (first ∷ disk)) (first ∷ disk) ≢ none
unfolding last_segment lookup
last_segment-present (seg, file) [] e = ground (arith, e)
last_segment-present (seg, file) (second ∷ disk) e =
    let last = last_segment (second ∷ disk) in
    let parts = if_none (eqb seg (max seg last)) file (lookup (max seg last) (second ∷ disk)) e in
    let same : max seg last ≡ last = ground (arith, parts.0) in
    last_segment-present second disk (subst (λ z. lookup z (second ∷ disk) ≡ none) same parts.1)

last_segment-above : (s : ℕ) (disk : Dict ℕ (List ℕ)) → lookup s disk ≢ none → s ≤ last_segment disk
unfolding last_segment lookup
last_segment-above s [] there = absurd (there refl)
last_segment-above s ((seg, file) ∷ disk) there = elim (Bool-cases (eqb seg s)) [
  | inl hit ↦ ground (arith, hit)
  | inr miss ↦ omega (arith, last_segment-above s disk (λ h. there (rw miss h)))
]

pub last_of-present :
    (runs : List (List (List ℕ))) (disk : Dict ℕ (List ℕ)) (seg off : ℕ) (tail : List ℕ)
    → Layout disk seg off runs tail
    → (lookup (last_of seg runs) disk ≢ none)
      × ((later : ℕ) → last_of seg runs < later → lookup later disk ≡ none)
      × (seg ≤ last_of seg runs)
last_of-present [] disk seg off tail lay = absurd lay
last_of-present (rs ∷ []) disk seg off tail lay = (lay.0, lay.3, omega arith)
last_of-present (rs ∷ rs' ∷ more) disk seg off tail lay =
    let rest = last_of-present (rs' ∷ more) disk (seg + 1) 0 tail lay.3 in
    (rest.0, rest.1, omega (arith, rest.2))

pub last_segment-Layout :
    (runs : List (List (List ℕ))) (first : ℕ × List ℕ) (others : Dict ℕ (List ℕ)) (seg off : ℕ)
    (tail : List ℕ)
    → Layout (first ∷ others) seg off runs tail
    → last_segment (first ∷ others) ≡ last_of seg runs
last_segment-Layout runs first others seg off tail lay =
    let (there, none_later, le) = last_of-present runs (first ∷ others) seg off tail lay in
    let above = last_segment-above (last_of seg runs) (first ∷ others) there in
    elim (dec_lt (last_of seg runs) (last_segment (first ∷ others))) [
      | yes lt ↦
          absurd (last_segment-present first others (none_later (last_segment (first ∷ others)) lt))
      | no ge ↦ omega (arith, above, ge)
    ]
