-- ===== src/Godot/Texts.antt =====
-- decode.go and ws.go: the tests on texts, which are lists of bytes.
use gta.Base.{
  ℕ, suc, ◌+◌, ◌/◌, ◌%◌, Bool, true, false, Option, none, some, List, [], ◌∷◌, ◌++◌, length, take,
  drop, ltb, eqb, ◌&&◌, ◌||◌, if◌then◌else◌, ascii,
}

-- strings.HasPrefix.
unfoldable pub has_prefix : List ℕ → List ℕ → Bool
has_prefix text [] = true
has_prefix [] (c ∷ prefix) = false
has_prefix (b ∷ text) (c ∷ prefix) = eqb b c && has_prefix text prefix

abbrev pub next_index : Option ℕ → Option ℕ
next_index none = none
next_index (some i) = some (suc i)

-- `indexBytes`, and strings.Index: where the needle stands first.
unfoldable pub index_bytes : List ℕ → List ℕ → Option ℕ
unfolding has_prefix
index_bytes [] needle = if has_prefix [] needle then some 0 else none
index_bytes (b ∷ bs) needle =
    let behind = next_index (index_bytes bs needle) in
    if has_prefix (b ∷ bs) needle then some 0 else behind

abbrev pub is_some {ℓ} : {A : Type ℓ} → Option A → Bool
is_some none = false
is_some (some x) = true

-- `strings.LastIndex(node, "/")` and what follows it.
unfoldable pub after_last_slash : List ℕ → Option (List ℕ)
after_last_slash [] = none
after_last_slash (b ∷ bs) = elim (after_last_slash bs) [
  | some rest ↦ some rest
  | none ↦ if eqb b 47 then some bs else none
]

abbrev pub index_or : Option ℕ → ℕ → Option ℕ → Option ℕ
index_or (some i) n other = some (i + n)
index_or none n other = other

-- The end of a block of HTTP headers.
unfoldable pub index_http_header : List ℕ → Option ℕ
unfolding index_bytes
index_http_header raw =
    index_or (index_bytes raw (13 ∷ 10 ∷ 13 ∷ 10 ∷ [])) 4
      (index_or (index_bytes raw (10 ∷ 10 ∷ [])) 2 none)

unfoldable pub looks_like_http : List ℕ → Bool
unfolding has_prefix ascii
looks_like_http raw =
    if ltb (length raw) 4
    then false
    else has_prefix (take 16 raw) (ascii "GET ")
      || (has_prefix (take 16 raw) (ascii "POST ")
          || (has_prefix (take 16 raw) (ascii "PUT ")
              || (has_prefix (take 16 raw) (ascii "OPTIONS ")
                  || has_prefix (take 16 raw) (ascii "HTTP/"))))

-- Go's `string(b)` of one byte.
abbrev pub utf8 : ℕ → List ℕ
utf8 b = if ltb b 128 then b ∷ [] else (192 + b / 64) ∷ ((128 + b % 64) ∷ [])

-- The text of a header up to the end of its first line.
unfoldable pub first_line : List ℕ → List ℕ
first_line [] = []
first_line (b ∷ bs) =
    let rest = first_line bs in if eqb b 13 || eqb b 10 then [] else utf8 b ++ rest

abbrev pub hex_digit : ℕ → ℕ
hex_digit n = if ltb n 10 then 48 + n else 87 + n

-- hex.EncodeToString.
unfoldable pub hex : List ℕ → List ℕ
hex [] = []
hex (b ∷ bs) = hex_digit (b / 16) ∷ hex_digit (b % 16) ∷ hex bs

unfoldable pub capped_hex : List ℕ → List ℕ
unfolding hex
capped_hex b = hex (take 8192 b)

-- The first two bytes look like the header of a binary frame with a short payload.
unfoldable pub plausible : List ℕ → Bool
plausible [] = false
plausible (a ∷ []) = false
plausible (a ∷ b ∷ rest) = eqb (a % 16) 2 && ltb (b % 128) 126

-- The loop from offset `i` on; `bytes` is what stands there.
unfoldable pub first_plausible : ℕ → List ℕ → ℕ
unfolding plausible
first_plausible i [] = 0
first_plausible i (b ∷ bs) =
    let on = first_plausible (suc i) bs in if plausible (b ∷ bs) then i else on

unfoldable pub ws_resync : List ℕ → ℕ
unfolding plausible first_plausible
ws_resync raw = if plausible raw then 0 else first_plausible 1 (drop 1 raw)
