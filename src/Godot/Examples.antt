-- ===== src/Godot/Examples.antt =====
-- The theorems on the Godot plugin at concrete bytes.
use gta.Base.{
  ◌*◌, ◌%◌, ◌/◌, ℕ, ◌+◌, ◌≡◌, refl, true, false, some, [], ◌∷◌, ◌++◌, List, length, arith,
  string_eq, nat_eq, eqb, if◌then◌else◌,
}
use gta.Base.Dict.{lookup}
use gta.WebSocket.{
  payload_length, length_bytes, frame_body, frame_at, headed, partial, next_frame, big_endian,
}
use gta.Godot.Buffer.{limit, Vbuf, got, pos}
use gta.Godot.Values.{int, arr, empty, cons, Sprintf}
use gta.Godot.Variant.{decode_variant_full}
use gta.Godot.HalfValues.{half_to_single_lem, sign_bit, single_units, half_units}
use gta.Godot.Half.{half_to_single}
use gta.Godot.Bounds.{Sound}
use gta.Godot.Blocks.{whole, decode_bootstrap, decode_delta, decode_container_block}
use gta.Godot.Payloads.{payloads-Sound}
use gta.Godot.Layout.{
  zeros, Tree, int32_tree, string_tree, bool_tree, array_tree, tree_then, no_trees, dictionary_tree,
  pair_then, no_pairs, encode, le_bytes, meaning, IsFit,
}
use gta.Godot.Reading.{At}
use gta.Godot.RoundTrip.{decode_variant_full-encode}
use gta.Godot.Oversized.{oversized_is_empty}
use gta.Godot.Packets.{SmPacket, fresh}
use gta.Godot.Events.{FlowState}
use gta.Godot.Session.{on_frames, process_packet}
use gta.Godot.Stream.{decode_loop, decode, Segment, Plugin}
use gta.Godot.Settling.{Settles, decode_loop-Settles}
use gta.Godot.Conduct.{frame_of, fragments_are_mixed}
use gta.Godot.Texts.{first_plausible, plausible}
use gta.Godot.Resync.{long_frame_is_cut, poisoned_flow}

-- Texts that do not tell values apart.
abbrev pub terse : Sprintf
terse = record {
  shown = λ x. 120 ∷ [];
  bytes_of = λ n. 60 ∷ [];
  type_of = λ n. 60 ∷ [];
  wire_type_of = λ n. 60 ∷ [];
  pid_of = λ n. 60 ∷ [];
  psc_of = λ n. 60 ∷ [];
  name_of = λ n. 60 ∷ [];
}

abbrev tree : Tree
tree = array_tree (
    tree_then (bool_tree true) (
      tree_then (string_tree (104 ∷ (105 ∷ []))) (
        tree_then (dictionary_tree (pair_then (string_tree []) (int32_tree 7) no_pairs)) no_trees)))

abbrev buffer : Vbuf
unfolding encode le_bytes zeros
buffer = whole (encode tree)

tree_stands : At buffer 0 (encode tree)
unfolding encode le_bytes zeros limit
tree_stands = record { front = []; rest = []; bytes = refl; offset = refl; fits = omega arith }

decode_variant_full-encode_example :
    decode_variant_full terse buffer 100 0
    ≡ got (meaning terse.shown tree) (0 + length (encode tree))
unfolding encode le_bytes zeros IsFit
decode_variant_full-encode_example =
    decode_variant_full-encode terse buffer tree 100 0 (omega arith) (omega arith) tree_stands

payloads-Sound_example :
    Sound 4 6 (decode_bootstrap terse [] (1 ∷ (0 ∷ (9 ∷ [])))).1
    × Sound 2 6 (decode_delta terse [] (1 ∷ (0 ∷ (9 ∷ []))))
    × Sound 12 6 (decode_container_block terse [] (1 ∷ (0 ∷ (9 ∷ []))))
payloads-Sound_example = payloads-Sound terse [] (1 ∷ (0 ∷ (9 ∷ [])))

-- The subnormal 2 ^ -15.
half_to_single_lem_example :
    (sign_bit 2147483648 (half_to_single 512) ≡ sign_bit 32768 512)
    × ((if eqb ((512 / 1024) % 32) 0
          then 2 * single_units (half_to_single 512)
          else single_units (half_to_single 512))
        ≡ half_units 512)
half_to_single_lem_example = half_to_single_lem 512 (omega arith) (omega arith)

abbrev huge : List ℕ
unfolding le_bytes
huge = le_bytes 4 28 ++ le_bytes 4 100000

huge_stands : At (whole huge) 0 huge
unfolding le_bytes limit
huge_stands = record { front = []; rest = []; bytes = refl; offset = refl; fits = omega arith }

oversized_is_empty_example : decode_variant_full terse (whole huge) 1 0 ≡ got (arr empty) 8
unfolding le_bytes huge
oversized_is_empty_example =
    oversized_is_empty terse (whole huge) false 100000 0 0 (omega arith) (omega arith) huge_stands

abbrev open_flow : FlowState
open_flow = record {
  is_server = true;
  handshake_done = true;
  first_packet = false;
  peer_id = 7;
  psc = [];
  pending = [];
}

decode_loop-Settles_example :
    Settles (130 ∷ (1 ∷ (3 ∷ []))) (decode_loop terse 4 open_flow [] [] (130 ∷ (1 ∷ (3 ∷ []))))
decode_loop-Settles_example =
    decode_loop-Settles terse 4 open_flow [] [] (130 ∷ (1 ∷ (3 ∷ []))) (omega arith)

fragments_are_mixed_example :
    on_frames terse
      (frame_of 2 false (2 ∷ []) ∷ (frame_of 0 true (0 ∷ []) ∷ (frame_of 2 true (7 ∷ []) ∷ [])))
      open_flow
      []
    ≡ process_packet terse open_flow [] (2 ∷ (7 ∷ []))
fragments_are_mixed_example = fragments_are_mixed terse (2 ∷ []) (0 ∷ []) (7 ∷ []) open_flow []

abbrev binding : SmPacket
unfolding fresh
binding = record (fresh []) { cmd = 1; psc_id = 3; path = 46 ∷ [] }

abbrev call : SmPacket
unfolding fresh
call = record (fresh []) { node_psc = 3; args = cons (int (pos 4)) empty }

-- 200 bytes are announced, and six are there.
abbrev cut_off : List ℕ
cut_off = 200 ∷ (1 ∷ (2 ∷ (3 ∷ (9 ∷ (9 ∷ [])))))

cut_off_waits : next_frame (130 ∷ (126 ∷ (0 ∷ cut_off))) ≡ partial
unfolding next_frame headed frame_at frame_body length_bytes payload_length big_endian
cut_off_waits = refl

long_frame_is_cut_example :
    decode_loop terse 3 open_flow [] [] (130 ∷ (126 ∷ (0 ∷ cut_off)))
    ≡ decode_loop terse 2 open_flow [] [] (2 ∷ (3 ∷ (9 ∷ (9 ∷ []))))
unfolding first_plausible plausible
long_frame_is_cut_example =
    long_frame_is_cut terse 2 4 open_flow [] [] 130 126 (0 ∷ cut_off) refl refl (omega arith)
      cut_off_waits refl

abbrev segment : Segment
segment = record {
  is_tcp = true;
  syn = false;
  has_payload = true;
  flow = "a";
  canonical = "ab";
  src_port = 8087;
}

abbrev plugin : Plugin
plugin = record { flows = ("a", open_flow) ∷ []; regs = [] }

abbrev size : List ℕ
size = 255 ∷ (0 ∷ (0 ∷ (0 ∷ (0 ∷ (0 ∷ (0 ∷ (0 ∷ [])))))))

poisoned_flow_example :
    ((decode terse (some segment) (130 ∷ (255 ∷ (size ++ (5 ∷ (6 ∷ (7 ∷ (8 ∷ []))))))) plugin).1
      ≡ [])
    × ((decode terse (some segment) (130 ∷ (255 ∷ (size ++ (5 ∷ (6 ∷ (7 ∷ (8 ∷ []))))))) plugin).2
        ≡ 130 ∷ (255 ∷ (size ++ (5 ∷ (6 ∷ (7 ∷ (8 ∷ [])))))))
    × (lookup "a"
          (decode terse
            (some segment)
            (130 ∷ (255 ∷ (size ++ (5 ∷ (6 ∷ (7 ∷ (8 ∷ [])))))))
            plugin).0.flows
        ≡ some open_flow)
unfolding lookup big_endian
poisoned_flow_example =
    poisoned_flow terse segment plugin open_flow 130 255 size (5 ∷ (6 ∷ (7 ∷ (8 ∷ [])))) refl refl
      refl refl refl refl (λ m. omega arith) refl (omega arith)
