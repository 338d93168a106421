-- ===== src/WebSocket.antt =====
-- plugins/godot-world/ws.go: the frames of a WebSocket. A byte is a number below 256. A 64-bit
-- length that Go's int reads as negative, or whose end does not fit an int, is sliced with bounds
-- out of order and panics.
pub mod Headers
pub mod Chunks
mod Examples
use gta.Base.{
  ℕ, zero, suc, ◌+◌, ◌*◌, ◌/◌, ◌%◌, Bool, true, false, Option, none, some, List, [], ◌∷◌, ◌++◌,
  length, take, drop, eqb, leb, ltb, if◌then◌else◌,
}
use Prim.Native.Nat.{bit_xor}

pub record WsFrame : Type 0 where
  pub opcode : ℕ
  pub fin : Bool
  pub payload : List ℕ

-- The top bit of a byte.
abbrev pub high : ℕ → Bool
high b = eqb ((b / 128) % 2) 1

abbrev pub nth : List ℕ → ℕ → ℕ
nth [] i = 0
nth (b ∷ bs) zero = b
nth (b ∷ bs) (suc i) = nth bs i

-- `binary.BigEndian` over the bytes given.
unfoldable pub big_endian : ℕ → List ℕ → ℕ
big_endian n [] = n
big_endian n (b ∷ bs) = big_endian (n * 256 + b) bs

-- How many bytes the two and the length after them take, and the length of the payload.
unfoldable pub length_bytes : ℕ → ℕ
length_bytes short = if eqb short 126 then 4 else if eqb short 127 then 10 else 2

unfoldable pub payload_length : ℕ → List ℕ → ℕ
unfolding big_endian
payload_length short bytes =
    if eqb short 126
    then big_endian 0 (take 2 (drop 2 bytes))
    else if eqb short 127
    then big_endian 0 (take 8 (drop 2 bytes))
    else short

unfoldable pub unmask : List ℕ → ℕ → List ℕ → List ℕ
unmask mask i [] = []
unmask mask i (b ∷ bs) = bit_xor b (nth mask (i % 4)) ∷ unmask mask (suc i) bs

pub data Step : Type 0 where
  partial panics : Step
  frame : WsFrame → ℕ → Step

-- `n` is the number of bytes there are.
unfoldable pub frame_body : ℕ → ℕ → Bool → ℕ → ℕ → List ℕ → List ℕ → Step
unfolding unmask
frame_body n first masked start plen mask payload =
    if leb 9223372036854775808 (start + plen)
    then panics
    else if ltb n (start + plen)
    then partial
    else frame
        (record {
          opcode = first % 16;
          fin = high first;
          payload = if masked then unmask mask 0 payload else payload;
        })
        (start + plen)

unfoldable pub frame_at : List ℕ → Bool → ℕ → ℕ → Step
unfolding frame_body
frame_at bytes masked hdr plen =
    let start = if masked then hdr + 4 else hdr in
    frame_body (length bytes) (nth bytes 0) masked start plen (take 4 (drop hdr bytes))
      (take plen (drop start bytes))

-- One round of the loop, by its early returns; `second` is the second byte.
unfoldable pub headed : List ℕ → ℕ → Step
unfolding frame_at length_bytes payload_length
headed bytes second =
    let hdr = length_bytes (second % 128) in
    if ltb (length bytes) 2
    then partial
    else if ltb (length bytes) hdr
    then partial
    else if ltb (length bytes) (if high second then hdr + 4 else hdr)
    then partial
    else frame_at bytes (high second) hdr (payload_length (second % 128) bytes)

unfoldable pub next_frame : List ℕ → Step
unfolding headed
next_frame bytes = headed bytes (nth bytes 1)

-- `none` is a panic.
unfoldable pub add_frame : WsFrame → ℕ → Option (List WsFrame × ℕ) → Option (List WsFrame × ℕ)
add_frame f n none = none
add_frame f n (some (fs, consumed)) = some (f ∷ fs, n + consumed)

unfoldable pub on_step : Step → (ℕ → Option (List WsFrame × ℕ)) → Option (List WsFrame × ℕ)
unfolding add_frame
on_step partial rest = some ([], 0)
on_step panics rest = none
on_step (frame f n) rest = add_frame f n (rest n)

-- The loop with `fuel` rounds left; each takes two bytes at least.
unfoldable pub parse_from : ℕ → List ℕ → Option (List WsFrame × ℕ)
unfolding on_step next_frame
parse_from zero bytes = some ([], 0)
parse_from (suc fuel) bytes = on_step (next_frame bytes) (λ n. parse_from fuel (drop n bytes))

unfoldable pub parse_ws_frames : List ℕ → Option (List WsFrame × ℕ)
unfolding parse_from
parse_ws_frames bytes = parse_from (suc (length bytes)) bytes
