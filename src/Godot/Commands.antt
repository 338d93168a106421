-- ===== src/Godot/Commands.antt =====
-- sm.go: the parser and the layout that the comment at the top of the file gives to CONFIRM_PATH.
use gta.Base.{ℕ, ◌≡◌, refl, ◌∷◌}
use gta.Godot.Buffer.{little_endian, slice, take_bytes, got}
use gta.Godot.Values.{Sprintf}
use gta.Godot.Layout.{le_bytes}
use gta.Godot.Packets.{
  node_width, cmd_names, bytes_at, number_at, parse_confirm_path, parse_command, parse_node, fresh,
  parse_sm,
}

-- A CONFIRM_PATH packet as the comment lays it out, the meta byte 2 and the id in four bytes, is
-- parsed without its id: the parser skips a byte for a node id first, and three bytes are too few.
pub confirm_without_id :
    (fmt : Sprintf) (id : ℕ)
    → parse_sm (2 ∷ le_bytes 4 id) fmt
      ≡ got
          (record (fresh (2 ∷ le_bytes 4 id)) {
            meta = 2;
            cmd = 2;
            cmd_name = "CONFIRM_PATH";
            psc_id = 0;
          })
          2
unfolding parse_sm parse_node parse_command parse_confirm_path number_at bytes_at take_bytes slice
    little_endian le_bytes cmd_names node_width fresh
confirm_without_id fmt id = refl
