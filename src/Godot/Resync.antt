-- ===== src/Godot/Resync.antt =====
-- decode.go: what Decode does with a buffer that begins with a frame it cannot read.
use gta.Base.{
  ℕ, suc, ◌%◌, ◌≤◌, ◌<◌, ◌≡◌, ◌∙◌, refl, ap, Bool, true, false, not, Option, none, some, List, [],
  ◌∷◌, ◌++◌, length, drop, eqb, ltb, ◌&&◌, if◌then◌else◌, if_elim, arith, string_eq,
}
use gta.Base.Dict.{lookup, lookup-insert_self}
use gta.WebSocket.{high, partial, parse_ws_frames, parse_from, on_step, next_frame, big_endian}
use gta.WebSocket.Chunks.{negative_length_panics}
use gta.Godot.Values.{Sprintf}
use gta.Godot.Wire.{PathRegistry}
use gta.Godot.Texts.{looks_like_http, ws_resync, plausible, first_plausible}
use gta.Godot.Events.{Event, FlowState}
use gta.Godot.Stream.{
  panicked, on_parse, round, decode_loop, Segment, Plugin, decode, decode_flow, reset_flow,
  close_call, store, flow_or_new, reg_or_new, Answer,
}

module _ (fmt : Sprintf) (fs : FlowState) (reg : PathRegistry) (events : List Event) (b : ℕ)
    (bs : List ℕ) (done : fs.handshake_done ≡ true) where
  -- Past the handshake a round goes to the frames.
  to_frames :
      (fuel : ℕ)
      → decode_loop fmt (suc fuel) fs reg events (b ∷ bs)
        ≡ on_parse fmt
            (decode_loop fmt fuel)
            (record fs { handshake_done = true })
            reg
            events
            (b ∷ bs)
            (parse_ws_frames (b ∷ bs))
  unfolding decode_loop round
  to_frames fuel =
      if_elim
        (λ e.
          e
          ≡ on_parse fmt (decode_loop fmt fuel) (record fs { handshake_done = true }) reg events
              (b ∷ bs) (parse_ws_frames (b ∷ bs)))
        (not fs.handshake_done && looks_like_http (b ∷ bs)) _ _
        (λ e. absurd (ground (arith, e, done))) (λ e. refl)

  loop_panics :
      (fuel : ℕ)
      → parse_ws_frames (b ∷ bs) ≡ none
      → decode_loop fmt (suc fuel) fs reg events (b ∷ bs)
        ≡ panicked (record fs { handshake_done = true }) reg events (b ∷ bs)
  unfolding on_parse
  loop_panics fuel e =
      to_frames fuel
      ∙ ap
          (on_parse fmt (decode_loop fmt fuel) (record fs { handshake_done = true }) reg events
            (b ∷ bs))
          e

  loop_skips :
      (fuel : ℕ)
      → parse_ws_frames (b ∷ bs) ≡ some ([], 0)
      → 0 < ws_resync (b ∷ bs)
      → decode_loop fmt (suc fuel) fs reg events (b ∷ bs)
        ≡ decode_loop fmt fuel
            (record fs { handshake_done = true })
            reg
            events
            (drop (ws_resync (b ∷ bs)) (b ∷ bs))
  unfolding on_parse
  loop_skips fuel e skips =
      to_frames fuel
      ∙ ap
          (on_parse fmt (decode_loop fmt fuel) (record fs { handshake_done = true }) reg events
            (b ∷ bs))
          e
      ∙ if_elim
          (λ z.
            z
            ≡ decode_loop fmt fuel (record fs { handshake_done = true }) reg events
                (drop (ws_resync (b ∷ bs)) (b ∷ bs)))
          (ltb 0 (ws_resync (b ∷ bs))) _ _ (λ e'. refl) (λ e'. absurd (ground (arith, e', skips)))

partial_waits : (raw : List ℕ) → next_frame raw ≡ partial → parse_ws_frames raw ≡ some ([], 0)
unfolding parse_ws_frames parse_from on_step
partial_waits raw e = ap (λ s. on_step s (λ n. parse_from (length raw) (drop n raw))) e

resync_long :
    (first second : ℕ) (rest : List ℕ) (i : ℕ)
    → 126 ≤ second % 128
    → first_plausible 1 (second ∷ rest) ≡ suc i
    → ws_resync (first ∷ (second ∷ rest)) ≡ suc i
unfolding ws_resync plausible
resync_long first second rest i long found =
    if_elim (λ z. z ≡ suc i) (eqb (first % 16) 2 && ltb (second % 128) 126) _ _
      (λ e. absurd (ground (arith, e, long))) (λ e. found)

-- A call on a segment of a flow that is known goes to the loop.
entered :
    (fmt : Sprintf) (seg : Segment) (s : Plugin) (fs : FlowState) (raw : List ℕ)
    → seg.has_payload ≡ true
    → seg.is_tcp ≡ true
    → seg.syn ≡ false
    → lookup seg.flow s.flows ≡ some fs
    → decode fmt (some seg) raw s
      ≡ close_call seg s raw
          (decode_loop fmt (suc (length raw)) fs (reg_or_new (lookup seg.canonical s.regs)) [] raw)
unfolding decode decode_flow
entered fmt seg s fs raw payload tcp quiet known =
    if_elim (λ a. a ≡ goal) (not (seg.has_payload && seg.is_tcp)) _ _
      (λ e. absurd (ground (arith, e, payload, tcp)))
      (λ e.
        ap (λ (b : Bool). decode_flow fmt seg raw (if b then reset_flow seg.flow s else s)) quiet
        ∙ ap
            (λ (o : Option FlowState). close_call seg s raw (
              decode_loop fmt (suc (length raw)) (flow_or_new (eqb seg.src_port 8087) o)
                (reg_or_new (lookup seg.canonical s.regs)) [] raw))
            known)
  where
    goal : Answer
    goal =
        close_call seg s raw
          (decode_loop fmt (suc (length raw)) fs (reg_or_new (lookup seg.canonical s.regs)) [] raw)

-- A binary frame whose length stands in the two or the eight bytes behind its header, and of which
-- only a part has arrived: the plugin does not wait for the rest if anything behind the header looks
-- like the header of a short binary frame. It drops what is in front of that and goes on to read
-- frames there.
pub long_frame_is_cut :
    (fmt : Sprintf) (fuel i : ℕ) (fs : FlowState) (reg : PathRegistry) (events : List Event)
    (first second : ℕ) (rest : List ℕ)
    → fs.handshake_done ≡ true
    → first % 16 ≡ 2
    → 126 ≤ second % 128
    → next_frame (first ∷ (second ∷ rest)) ≡ partial
    → first_plausible 1 (second ∷ rest) ≡ suc i
    → decode_loop fmt (suc fuel) fs reg events (first ∷ (second ∷ rest))
      ≡ decode_loop fmt fuel
          (record fs { handshake_done = true })
          reg
          events
          (drop i (second ∷ rest))
long_frame_is_cut fmt fuel i fs reg events first second rest done binary long partly found =
    let skips = resync_long first second rest i long found in
    loop_skips fmt fs reg events first (second ∷ rest) done fuel
      (partial_waits (first ∷ (second ∷ rest)) partly) (omega (arith, skips))
    ∙ ap
        (λ n.
          decode_loop fmt fuel (record fs { handshake_done = true }) reg events
            (drop n (first ∷ (second ∷ rest))))
        skips

-- A frame whose 64-bit length has its top bit set ends what the plugin reads of a flow that is past
-- the handshake, once it stands in front of the bytes of the flow with its whole header, which
-- includes the mask of a masked one. The call on a TCP segment with a payload and without SYN returns
-- no events, leaves the bytes in the buffer and the flow as it was, whatever bytes follow the header;
-- so a later call on such a segment with these and more bytes does the same.
pub poisoned_flow :
    (fmt : Sprintf) (seg : Segment) (s : Plugin) (fs : FlowState) (first second : ℕ)
    (size rest : List ℕ)
    → seg.has_payload ≡ true
    → seg.is_tcp ≡ true
    → seg.syn ≡ false
    → lookup seg.flow s.flows ≡ some fs
    → fs.handshake_done ≡ true
    → second % 128 ≡ 127
    → (high second ≡ true → 4 ≤ length rest)
    → length size ≡ 8
    → 9223372036854775808 ≤ big_endian 0 size
    → ((decode fmt (some seg) (first ∷ (second ∷ (size ++ rest))) s).1 ≡ [])
      × ((decode fmt (some seg) (first ∷ (second ∷ (size ++ rest))) s).2
          ≡ first ∷ (second ∷ (size ++ rest)))
      × (lookup seg.flow (decode fmt (some seg) (first ∷ (second ∷ (size ++ rest))) s).0.flows
          ≡ some (record fs { handshake_done = true }))
unfolding close_call store
poisoned_flow fmt seg s fs first second size rest payload tcp quiet known done long mask eight big =
    let raw = first ∷ (second ∷ (size ++ rest)) in
    let reg = reg_or_new (lookup seg.canonical s.regs) in
    let stops =
      loop_panics fmt fs reg [] first (second ∷ (size ++ rest)) done (length raw)
        (negative_length_panics first second size rest long mask eight big) in
    let e = entered fmt seg s fs raw payload tcp quiet known ∙ ap (close_call seg s raw) stops in
    (
      ap (λ (a : Answer). a.1) e,
      ap (λ (a : Answer). a.2) e,
      ap (λ (a : Answer). lookup seg.flow a.0.flows) e
          ∙ lookup-insert_self seg.flow (record fs { handshake_done = true }) s.flows,
    )
