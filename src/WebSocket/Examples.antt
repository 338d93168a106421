-- ===== src/WebSocket/Examples.antt =====
-- The theorems on frames at two frames of which the second is cut.
use gta.Base.{ℕ, ◌≡◌, refl, true, some, List, [], ◌∷◌, ◌++◌, drop}
use gta.WebSocket.{
  WsFrame, parse_ws_frames, parse_from, on_step, add_frame, next_frame, headed, frame_at,
  frame_body, payload_length, length_bytes, unmask,
}
use gta.WebSocket.Chunks.{join, parse-append}

abbrev arrived : List ℕ
arrived = 130 ∷ 2 ∷ 7 ∷ 8 ∷ 130 ∷ 129 ∷ 1 ∷ []

abbrev following : List ℕ
following = 2 ∷ 3 ∷ 4 ∷ 5 ∷ []

abbrev first_frame : WsFrame
first_frame = record { opcode = 2; fin = true; payload = 7 ∷ 8 ∷ [] }

first_parsed : parse_ws_frames arrived ≡ some (first_frame ∷ [], 4)
unfolding parse_ws_frames parse_from on_step add_frame next_frame headed frame_at frame_body
    payload_length length_bytes unmask
first_parsed = refl

-- The masked byte 5 under the mask 1 2 3 4.
second_parsed :
    parse_ws_frames (drop 4 arrived ++ following)
    ≡ some (record { opcode = 2; fin = true; payload = 4 ∷ [] } ∷ [], 7)
unfolding parse_ws_frames parse_from on_step add_frame next_frame headed frame_at frame_body
    payload_length length_bytes unmask
second_parsed = refl

parse-append_example :
    parse_ws_frames (arrived ++ following)
    ≡ join (first_frame ∷ []) 4 (parse_ws_frames (drop 4 arrived ++ following))
parse-append_example = parse-append arrived following (first_frame ∷ []) 4 first_parsed
