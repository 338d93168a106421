-- ===== src/WebSocket/Headers.antt =====
-- ws.go: the header and the payload of a frame do not change when more bytes follow.
use gta.Base.{
  ℕ, zero, suc, ◌+◌, ◌%◌, ◌≤◌, ◌<◌, ◌≡◌, refl, ap, sym, subst, Bool, true, false, List, [], ◌∷◌,
  ◌++◌, arith, length, take, drop, take-drop-append, length-append, eqb, ltb, if◌then◌else◌,
  if_elim, Bool-cases, inl, inr,
}
use gta.WebSocket.{
  WsFrame, high, nth, length_bytes, payload_length, frame, frame_at, frame_body, headed, big_endian,
  next_frame,
}

nth-append : (xs ys : List ℕ) (i : ℕ) → i < length xs → nth (xs ++ ys) i ≡ nth xs i
nth-append [] ys i h = absurd (omega (arith, h))
nth-append (x ∷ xs) ys zero h = refl
nth-append (x ∷ xs) ys (suc i) h = nth-append xs ys i (omega (arith, h))

pub drop-append : (n : ℕ) (xs ys : List ℕ) → n ≤ length xs → drop n (xs ++ ys) ≡ drop n xs ++ ys
drop-append zero xs ys h = refl
drop-append (suc n) [] ys h = absurd (omega (arith, h))
drop-append (suc n) (x ∷ xs) ys h = drop-append n xs ys (omega (arith, h))

frame_body-longer :
    (len len' first : ℕ) (masked : Bool) (start plen : ℕ) (mask mask' payload payload' : List ℕ)
    (f : WsFrame) (n : ℕ)
    → len ≤ len'
    → (masked ≡ true → mask' ≡ mask)
    → (start + plen ≤ len → payload' ≡ payload)
    → frame_body len first masked start plen mask payload ≡ frame f n
    → (frame_body len' first masked start plen mask' payload' ≡ frame f n) × (start ≤ n) × (n ≤ len)
unfolding frame_body
frame_body-longer len len' first true start plen mask mask' payload payload' f n le same_mask same
      h =
    let m = same_mask refl in ground (arith, m, same, h)
frame_body-longer len len' first false start plen mask mask' payload payload' f n le same_mask same
      h =
    ground (arith, same, h)

frame_at-append :
    (xs ys : List ℕ) (masked : Bool) (hdr plen : ℕ) (f : WsFrame) (n : ℕ)
    → 2 ≤ length xs
    → (if masked then hdr + 4 else hdr) ≤ length xs
    → frame_at xs masked hdr plen ≡ frame f n
    → (frame_at (xs ++ ys) masked hdr plen ≡ frame f n) × (hdr ≤ n) × (n ≤ length xs)
unfolding frame_at
frame_at-append xs ys masked hdr plen f n two starts h =
    let start = if masked then hdr + 4 else hdr in
    let r =
      frame_body-longer (length xs) (length (xs ++ ys)) (nth xs 0) masked start plen
        (take 4 (drop hdr xs)) (take 4 (drop hdr (xs ++ ys))) (take plen (drop start xs))
        (take plen (drop start (xs ++ ys))) f n (omega (arith, length-append xs ys))
        (λ e. take-drop-append hdr 4 xs ys (ground (arith, e, starts)))
        (λ fits. take-drop-append start plen xs ys fits) h in
    (
      subst
          (λ b.
            frame_body (length (xs ++ ys)) b masked start plen (take 4 (drop hdr (xs ++ ys)))
              (take plen (drop start (xs ++ ys)))
            ≡ frame f n)
          (sym (nth-append xs ys 0 (omega (arith, two)))) r.0,
      ground (arith, r.1),
      r.2,
    )

payload_length-append :
    (short : ℕ) (xs ys : List ℕ)
    → length_bytes short ≤ length xs
    → payload_length short (xs ++ ys) ≡ payload_length short xs
unfolding payload_length length_bytes
payload_length-append short xs ys h = elim (Bool-cases (eqb short 126)) [
  | inl e ↦ rw e (ap (big_endian 0) (take-drop-append 2 2 xs ys (ground (arith, e, h))))
  | inr e ↦ elim (Bool-cases (eqb short 127)) [
    | inl e' ↦
        rw (e, e') (ap (big_endian 0) (take-drop-append 2 8 xs ys (ground (arith, e, e', h))))
    | inr e' ↦ rw (e, e') refl
  ]
]

length_bytes-pos : (short : ℕ) → 2 ≤ length_bytes short
unfolding length_bytes
length_bytes-pos short = ground arith

headed-append :
    (xs ys : List ℕ) (second : ℕ) (f : WsFrame) (n : ℕ)
    → headed xs second ≡ frame f n
    → (headed (xs ++ ys) second ≡ frame f n) × (0 < n) × (n ≤ length xs)
unfolding headed
headed-append xs ys second f n h =
    let hdr = length_bytes (second % 128) in
    let start = if high second then hdr + 4 else hdr in
    let grown = length-append xs ys in
    let Q = (headed (xs ++ ys) second ≡ frame f n) × (0 < n) × (n ≤ length xs) in
    if_elim (λ s. s ≡ frame f n → Q) (ltb (length xs) 2) _ _ (λ e bad. cc)
      (λ two.
        if_elim (λ s. s ≡ frame f n → Q) (ltb (length xs) hdr) _ _ (λ e bad. cc)
          (λ enough.
            if_elim (λ s. s ≡ frame f n → Q) (ltb (length xs) start) _ _ (λ e bad. cc)
              (λ starts good.
                let r =
                  frame_at-append xs ys (high second) hdr (payload_length (second % 128) xs) f n
                    (ground (arith, two)) (ground (arith, starts)) good in
                let here =
                  subst (λ z. frame_at (xs ++ ys) (high second) hdr z ≡ frame f n)
                    (sym (payload_length-append (second % 128) xs ys (ground (arith, enough))))
                    r.0 in
                (
                  if_elim (λ s. s ≡ frame f n) (ltb (length (xs ++ ys)) 2) _ _
                      (λ e. absurd (ground (arith, e, two, grown)))
                      (λ e.
                        if_elim (λ s. s ≡ frame f n) (ltb (length (xs ++ ys)) hdr) _ _
                          (λ e'. absurd (ground (arith, e', enough, grown)))
                          (λ e'.
                            if_elim (λ s. s ≡ frame f n) (ltb (length (xs ++ ys)) start) _ _
                              (λ e''. absurd (ground (arith, e'', starts, grown))) (λ e''. here))),
                  omega (arith, r.1, length_bytes-pos (second % 128)),
                  r.2,
                ))))
      h

pub next_frame-append :
    (xs ys : List ℕ) (f : WsFrame) (n : ℕ)
    → next_frame xs ≡ frame f n
    → (next_frame (xs ++ ys) ≡ frame f n) × (0 < n) × (n ≤ length xs)
unfolding next_frame headed
next_frame-append xs ys f n h =
    let two : 2 ≤ length xs =
      if_elim (λ s. s ≡ frame f n → 2 ≤ length xs) (ltb (length xs) 2) _ _ (λ e bad. cc)
        (λ e good. ground (arith, e)) h in
    let r = headed-append xs ys (nth xs 1) f n h in
    (
      subst (λ b. headed (xs ++ ys) b ≡ frame f n) (sym (nth-append xs ys 1 (omega (arith, two))))
          r.0,
      r.1,
      r.2,
    )
