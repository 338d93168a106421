-- ===== src/WebSocket/Chunks.antt =====
-- ws.go: frames do not depend on how the bytes of the stream are cut into reads.
use gta.Base.{
  ◌%◌, true, Bool-cases, inl, inr, ℕ, zero, suc, ◌+◌, ◌≤◌, ◌<◌, ◌≡◌, refl, ap, sym, subst, ◌∙◌,
  Option, none, some, List, [], ◌∷◌, ◌++◌, arith, length, take, drop, take-append_length,
  length-append, length-drop, drop-drop,
}
use gta.WebSocket.{
  high, WsFrame, length_bytes, payload_length, Step, partial, panics, frame, frame_at, frame_body,
  headed, big_endian, next_frame, add_frame, on_step, parse_from, parse_ws_frames,
}
use gta.WebSocket.Headers.{next_frame-append, drop-append}

on_step-same :
    (xs : List ℕ) (s : Step) (go go' : ℕ → Option (List WsFrame × ℕ))
    → next_frame xs ≡ s
    → ((n : ℕ) → 0 < n → n ≤ length xs → go n ≡ go' n)
    → on_step s go ≡ on_step s go'
unfolding on_step
on_step-same xs partial go go' e same = refl
on_step-same xs panics go go' e same = refl
on_step-same xs (frame f n) go go' e same =
    let r = next_frame-append xs [] f n e in ap (add_frame f n) (same n r.1 r.2)

-- Fuel beyond the number of bytes makes no difference.
parse_from-fuel :
    (fuel fuel' : ℕ) (xs : List ℕ)
    → length xs < fuel
    → length xs < fuel'
    → parse_from fuel xs ≡ parse_from fuel' xs
unfolding parse_from
parse_from-fuel zero fuel' xs a b = absurd (omega (arith, a))
parse_from-fuel (suc fuel) zero xs a b = absurd (omega (arith, b))
parse_from-fuel (suc fuel) (suc fuel') xs a b =
    on_step-same xs (next_frame xs) (λ n. parse_from fuel (drop n xs))
      (λ n. parse_from fuel' (drop n xs)) refl
      (λ n pos le.
        parse_from-fuel fuel fuel' (drop n xs) (omega (arith, a, pos, le, length-drop n xs))
          (omega (arith, b, pos, le, length-drop n xs)))

-- What more reads add to the frames found so far.
unfoldable pub join : List WsFrame → ℕ → Option (List WsFrame × ℕ) → Option (List WsFrame × ℕ)
join fs c none = none
join fs c (some (gs, d)) = some (fs ++ gs, c + d)

join-nil : (r : Option (List WsFrame × ℕ)) → join [] 0 r ≡ r
unfolding join
join-nil none = refl
join-nil (some (gs, d)) = ap (λ z. some (gs, z)) (omega arith)

add_frame-join :
    (f : WsFrame) (n d : ℕ) (gs : List WsFrame) (r : Option (List WsFrame × ℕ))
    → add_frame f n (join gs d r) ≡ join (f ∷ gs) (n + d) r
unfolding join add_frame
add_frame-join f n d gs none = refl
add_frame-join f n d gs (some (hs, e)) = ap (λ z. some (f ∷ (gs ++ hs), z)) (omega arith)

-- A first frame, and the rest of the bytes.
parse-frame :
    (xs : List ℕ) (f : WsFrame) (n : ℕ)
    → next_frame xs ≡ frame f n
    → parse_ws_frames xs ≡ add_frame f n (parse_ws_frames (drop n xs))
unfolding parse_ws_frames parse_from on_step
parse-frame xs f n e =
    let r = next_frame-append xs [] f n e in
    rw e (
      ap (add_frame f n) (
        parse_from-fuel (length xs) (suc (length (drop n xs))) (drop n xs)
          (omega (arith, r.1, r.2, length-drop n xs)) (omega arith)))

add_frame-inv :
    (f : WsFrame) (n : ℕ) (r : Option (List WsFrame × ℕ)) (fs : List WsFrame) (c : ℕ)
    → add_frame f n r ≡ some (fs, c)
    → (gs : List WsFrame) × (d : ℕ) × (r ≡ some (gs, d)) × (fs ≡ f ∷ gs) × (c ≡ n + d)
unfolding add_frame
add_frame-inv f n none fs c h = cc
add_frame-inv f n (some (gs, d)) fs c h = (gs, d, refl, cc, cc)

-- The bytes that follow, whichever frame comes next.
Splits : List ℕ → List ℕ → List WsFrame → ℕ → Type 0
Splits xs ys fs c = parse_ws_frames (xs ++ ys) ≡ join fs c (parse_ws_frames (drop c xs ++ ys))

step-Splits :
    (xs ys : List ℕ) (go : ℕ → Option (List WsFrame × ℕ)) (s : Step) (fs : List WsFrame) (c : ℕ)
    → next_frame xs ≡ s
    → on_step s go ≡ some (fs, c)
    → ((n d : ℕ) (gs : List WsFrame)
        → 0 < n
        → n ≤ length xs
        → go n ≡ some (gs, d)
        → Splits (drop n xs) ys gs d)
    → Splits xs ys fs c
unfolding on_step Splits
step-Splits xs ys go partial fs c e h rest =
    let nothing : fs ≡ [] = cc in
    let zero_c : c ≡ 0 = cc in
    subst (λ z. Splits xs ys z c) (sym nothing)
      (subst (Splits xs ys []) (sym zero_c) (sym (join-nil (parse_ws_frames (xs ++ ys)))))
step-Splits xs ys go panics fs c e h rest = cc
step-Splits xs ys go (frame f n) fs c e h rest =
    let (gs, d, got, fs_eq, c_eq) = add_frame-inv f n (go n) fs c h in
    let r = next_frame-append xs ys f n e in
    let tail =
      ap parse_ws_frames (drop-append n xs ys r.2)
      ∙ rest n d gs r.1 r.2 got
      ∙ ap (λ z. join gs d (parse_ws_frames (z ++ ys))) (drop-drop n d xs) in
    subst (λ z. Splits xs ys z c) (sym fs_eq)
      (subst (Splits xs ys (f ∷ gs)) (sym c_eq) (
        parse-frame (xs ++ ys) f n r.0
        ∙ ap (add_frame f n) tail
        ∙ add_frame-join f n d gs (parse_ws_frames (drop (n + d) xs ++ ys))))

parse_from-Splits :
    (fuel : ℕ) (xs ys : List ℕ) (fs : List WsFrame) (c : ℕ)
    → length xs < fuel
    → parse_from fuel xs ≡ some (fs, c)
    → Splits xs ys fs c
unfolding parse_from
parse_from-Splits zero xs ys fs c lt h = absurd (omega (arith, lt))
parse_from-Splits (suc fuel) xs ys fs c lt h =
    step-Splits xs ys (λ n. parse_from fuel (drop n xs)) (next_frame xs) fs c refl h
      (λ n d gs pos le got.
        parse_from-Splits fuel (drop n xs) ys gs d (omega (arith, lt, pos, le, length-drop n xs))
          got)

-- The frames of a stream do not depend on where its reads are cut: parsing what has arrived,
-- keeping the bytes that were not consumed and parsing them with the bytes that follow gives the
-- frames and the count of bytes that parsing everything at once gives.
pub parse-append :
    (xs ys : List ℕ) (fs : List WsFrame) (c : ℕ)
    → parse_ws_frames xs ≡ some (fs, c)
    → parse_ws_frames (xs ++ ys) ≡ join fs c (parse_ws_frames (drop c xs ++ ys))
unfolding parse_ws_frames Splits
parse-append xs ys fs c h = parse_from-Splits (suc (length xs)) xs ys fs c (omega arith) h

-- A frame whose 64-bit length has its top bit set panics as soon as its header is complete, with the
-- mask if there is one, however few bytes of its payload have arrived.
pub negative_length_panics :
    (first second : ℕ) (size rest : List ℕ)
    → second % 128 ≡ 127
    → (high second ≡ true → 4 ≤ length rest)
    → length size ≡ 8
    → 9223372036854775808 ≤ big_endian 0 size
    → parse_ws_frames (first ∷ second ∷ (size ++ rest)) ≡ none
unfolding parse_ws_frames parse_from on_step next_frame headed frame_at frame_body payload_length
    length_bytes
negative_length_panics first second size rest long mask eight big =
    let e : take 8 (size ++ rest) ≡ size =
      subst (λ z. take z (size ++ rest) ≡ size) eight (take-append_length size rest) in
    let value : big_endian 0 (take 8 (size ++ rest)) ≡ big_endian 0 size = ap (big_endian 0) e in
    let all = first ∷ second ∷ (size ++ rest) in
    let p : next_frame all ≡ panics = elim (Bool-cases (high second)) [
      | inl m ↦ ground (arith, m, mask m, long, value, big, length-append size rest, eight)
      | inr m ↦ ground (arith, m, long, value, big, length-append size rest, eight)
    ] in
    ap (λ s. on_step s (λ n. parse_from (length all) (drop n all))) p
