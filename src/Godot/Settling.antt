-- ===== src/Godot/Settling.antt =====
-- decode.go: a call of Decode comes to its end.
use gta.Base.{
  ℕ, zero, suc, ◌+◌, ◌<◌, ◌≡◌, refl, sym, subst, Bool, true, false, not, Option, none, some, List,
  [], ◌∷◌, ◌++◌, length, drop, length-drop, drop-drop, eqb, ltb, ◌&&◌, if◌then◌else◌, arith,
}
use gta.WebSocket.{WsFrame, parse_ws_frames}
use gta.Godot.Values.{Sprintf}
use gta.Godot.Wire.{PathRegistry}
use gta.Godot.Texts.{looks_like_http, index_http_header, ws_resync, index_or}
use gta.Godot.Events.{Event, FlowState}
use gta.Godot.Session.{Turn}
use gta.Godot.Totality.{Here, here, on_frames-Here}
use gta.Godot.Stream.{
  Ending, ended, panicked, Again, after_frames, on_parse, on_handshake, round, decode_loop,
}

-- The loop over the buffer `raw` came to an end: with a buffer that is the end of `raw`, or at one
-- whose first frames the parser of frames panics on.
pub data Settles (raw : List ℕ) : Ending → Type 0 where
  waits :
      {fs : FlowState} {reg : PathRegistry} {events : List Event} (n : ℕ)
      → Settles raw (ended fs reg events (drop n raw))
  stops :
      {fs : FlowState} {reg : PathRegistry} {events : List Event} (n : ℕ)
      → parse_ws_frames (drop n raw) ≡ none
      → Settles raw (panicked fs reg events (drop n raw))

later : (m : ℕ) (raw : List ℕ) {e : Ending} → Settles (drop m raw) e → Settles raw e
later m raw (waits {fs} {reg} {events} n) =
    subst (λ z. Settles raw (ended fs reg events z)) (sym (drop-drop m n raw)) (waits (m + n))
later m raw (stops {fs} {reg} {events} n h) =
    subst (λ z. Settles raw (panicked fs reg events z)) (sym (drop-drop m n raw))
      (stops (m + n) (subst (λ z. parse_ws_frames z ≡ none) (drop-drop m n raw) h))

Settles-if :
    {raw : List ℕ} (b : Bool) {x y : Ending}
    → (b ≡ true → Settles raw x)
    → (b ≡ false → Settles raw y)
    → Settles raw (if b then x else y)
Settles-if true p q = p refl
Settles-if false p q = q refl

module _ (fmt : Sprintf) (again : Again fmt) (b : ℕ) (bs : List ℕ)
    (ends : (m : ℕ) (fs : FlowState) (reg : PathRegistry) (events : List Event)
      → 0 < m
      → Settles (drop m (b ∷ bs)) (again fs reg events (drop m (b ∷ bs)))) where
  after_frames-Settles :
      (m : ℕ) (fs : FlowState) (reg : PathRegistry) (events : List Event) {t : Option Turn}
      → 0 < m
      → Here t
      → Settles (b ∷ bs) (after_frames fmt again fs reg events (drop m (b ∷ bs)) t)
  unfolding after_frames
  after_frames-Settles m fs reg events pos (here {a = t}) =
      later m (b ∷ bs) (ends m t.flow t.reg (events ++ t.events) pos)

  on_parse-Settles :
      (fs : FlowState) (reg : PathRegistry) (events : List Event) (r : Option (List WsFrame × ℕ))
      → parse_ws_frames (b ∷ bs) ≡ r
      → Settles (b ∷ bs) (on_parse fmt again fs reg events (b ∷ bs) r)
  unfolding on_parse
  on_parse-Settles fs reg events none e = stops 0 e
  on_parse-Settles fs reg events (some (frames, consumed)) e =
      Settles-if (eqb consumed 0)
        (λ z.
          Settles-if (ltb 0 (ws_resync (b ∷ bs)))
            (λ p.
              later (ws_resync (b ∷ bs)) (b ∷ bs)
                (ends (ws_resync (b ∷ bs)) fs reg events (ground (arith, p))))
            (λ p. waits 0))
        (λ z.
          after_frames-Settles consumed fs reg events (ground (arith, z))
            (on_frames-Here fmt frames fs reg))

  index_or-pos : (i j : Option ℕ) (n : ℕ) → index_or i 4 (index_or j 2 none) ≡ some n → 0 < n
  index_or-pos (some i) j n e = ground (arith, e)
  index_or-pos none (some j) n e = ground (arith, e)
  index_or-pos none none n e = cc

  on_handshake-Settles :
      (fs : FlowState) (reg : PathRegistry) (events : List Event) (r : Option ℕ)
      → index_http_header (b ∷ bs) ≡ r
      → Settles (b ∷ bs) (on_handshake fmt again fs reg events (b ∷ bs) r)
  unfolding on_handshake index_http_header
  on_handshake-Settles fs reg events none e = waits 0
  on_handshake-Settles fs reg events (some n) e =
      later n (b ∷ bs) (ends n _ reg _ (index_or-pos _ _ n e))

  round-Settles :
      (fs : FlowState) (reg : PathRegistry) (events : List Event)
      → Settles (b ∷ bs) (round fmt again fs reg events (b ∷ bs))
  unfolding round
  round-Settles fs reg events =
      Settles-if (not fs.handshake_done && looks_like_http (b ∷ bs))
        (λ e. on_handshake-Settles fs reg events _ refl) (λ e. on_parse-Settles _ reg events _ refl)

-- With fuel for the bytes of the buffer the loop of Decode comes to its end: each round takes a byte
-- at least. It waits with the end of the buffer, or it panics where the parser of frames does, and
-- no packet makes it panic.
pub decode_loop-Settles :
    (fmt : Sprintf) (fuel : ℕ) (fs : FlowState) (reg : PathRegistry) (events : List Event)
    (raw : List ℕ)
    → length raw < fuel
    → Settles raw (decode_loop fmt fuel fs reg events raw)
unfolding decode_loop
decode_loop-Settles fmt zero fs reg events raw h = absurd (omega (arith, h))
decode_loop-Settles fmt (suc fuel) fs reg events [] h = waits 0
decode_loop-Settles fmt (suc fuel) fs reg events (b ∷ bs) h =
    round-Settles fmt (decode_loop fmt fuel) b bs
      (λ m flow r es pos.
        decode_loop-Settles fmt fuel flow r es (drop m (b ∷ bs))
          (omega (arith, h, length-drop m (b ∷ bs), pos)))
      fs reg events
