-- ===== src/Godot/Packets.antt =====
-- sm.go: the parser of a packet of Godot's SceneMultiplayer. An index or a slice out of range
-- panics.
use gta.Base.{
  ℕ, zero, suc, ◌+◌, ◌-◌, ◌/◌, ◌%◌, Bool, true, false, Option, none, some, List, [], ◌∷◌, length,
  drop, leb, ltb, eqb, ◌&&◌, if◌then◌else◌, String, nat_eq,
}
use gta.Base.Dict.{Dict, lookup}
use gta.Godot.Buffer.{Read, got, fails, panics, stuck, ◌>>=◌, map_read, take_bytes, little_endian}
use gta.Godot.Values.{Value, Values, empty, cons, Sprintf}
use gta.Godot.Variant.{decode_variant_arg}

pub record SmPacket : Type 0 where
  pub meta : ℕ
  pub cmd : ℕ
  pub cmd_name : String
  pub sys_cmd : ℕ
  pub auth_payload : List ℕ
  pub psc_id : ℕ
  pub path : List ℕ
  pub hash : List ℕ
  pub node_is_path : Bool
  pub node_path : List ℕ
  pub node_psc : ℕ
  pub name_id : ℕ
  -- `none` is the nil slice.
  pub byte_only : Option (List ℕ)
  pub args : Values
  pub argc : ℕ
  pub raw_body : List ℕ

-- `smPacket{rawBody: pkt}`.
unfoldable pub fresh : List ℕ → SmPacket
fresh pkt = record {
  meta = 0;
  cmd = 0;
  cmd_name = "";
  sys_cmd = 0;
  auth_payload = [];
  psc_id = 0;
  path = [];
  hash = [];
  node_is_path = false;
  node_path = [];
  node_psc = 0;
  name_id = 0;
  byte_only = none;
  args = empty;
  argc = 0;
  raw_body = pkt;
}

unfoldable pub cmd_names : ℕ → String
cmd_names zero = "REMOTE_CALL"
cmd_names (suc zero) = "SIMPLIFY_PATH"
cmd_names (suc (suc zero)) = "CONFIRM_PATH"
cmd_names (suc (suc (suc zero))) = "RAW"
cmd_names (suc (suc (suc (suc zero)))) = "SPAWN"
cmd_names (suc (suc (suc (suc (suc zero))))) = "DESPAWN"
cmd_names (suc (suc (suc (suc (suc (suc zero)))))) = "SYNC"
cmd_names (suc (suc (suc (suc (suc (suc (suc n))))))) = "SYS"

-- nodeWidth.
unfoldable pub node_width : ℕ → ℕ
node_width comp = if eqb comp 0 then 1 else if eqb comp 1 then 2 else 4

-- The bytes up to the first 0, or all of them.
unfoldable pub until_zero : List ℕ → List ℕ
until_zero [] = []
until_zero (b ∷ bs) = if eqb b 0 then [] else b ∷ until_zero bs

-- The first argument that cannot be read ends the list.
unfoldable pub and_more : Read Value → (ℕ → Read Values) → ℕ → Read Values
and_more (got x o') rest o = map_read (cons x) (rest o')
and_more fails rest o = got empty o
and_more panics rest o = panics
and_more stuck rest o = stuck

unfoldable pub read_args : (ℕ → Read Value) → ℕ → ℕ → Read Values
unfolding and_more
read_args item zero o = got empty o
read_args item (suc n) o = and_more (item o) (read_args item n) o

module _ (pkt : List ℕ) where
  -- The `n` bytes from the offset on.
  unfoldable pub bytes_at : ℕ → ℕ → Read (List ℕ)
  unfolding take_bytes
  bytes_at n o = take_bytes (record { b = pkt; end = 0 }) n o

  -- The same as a number.
  unfoldable pub number_at : ℕ → ℕ → Read ℕ
  unfolding bytes_at little_endian
  number_at n o = map_read little_endian (bytes_at n o)

  unfoldable pub parse_sys : SmPacket → ℕ → Read SmPacket
  unfolding number_at
  parse_sys p o =
      if leb (length pkt) o
      then got p o
      else number_at 1 o >>= λ sys o'.
          got
            (record p {
              sys_cmd = sys;
              auth_payload = if eqb sys 0 then drop o' pkt else p.auth_payload;
            })
            o'

  -- Past the optional separator.
  unfoldable pub past_separator : ℕ → Read ℕ
  unfolding number_at
  past_separator o =
      if ltb o (length pkt)
      then (number_at 1 o >>= λ b _. got b (if eqb b 0 then o + 1 else o))
      else got 1 o

  unfoldable pub parse_simplify_path : SmPacket → ℕ → Read SmPacket
  unfolding bytes_at number_at past_separator until_zero
  parse_simplify_path p o =
      if ltb (length pkt) (o + 32)
      then got p o
      else bytes_at 32 o >>= λ hash o'. past_separator o' >>= λ _ q.
          if ltb (length pkt) (q + 4)
          then got (record p { hash = hash }) q
          else number_at 4 q >>= λ id q'.
              got (record p { hash = hash; psc_id = id; path = until_zero (drop q' pkt) }) q'

  unfoldable pub parse_confirm_path : SmPacket → ℕ → Read SmPacket
  unfolding number_at
  parse_confirm_path p o =
      if leb (o + 4) (length pkt)
      then (number_at 4 o >>= λ id o'. got (record p { psc_id = id }) o')
      else got p o

  -- Where the arguments end: at the path, if the id is the offset of one in the packet.
  unfoldable pub args_end : ℕ → ℕ
  args_end target =
      if leb 2147483648 target && ltb (target % 2147483648) (length pkt)
      then target % 2147483648
      else length pkt

  unfoldable pub with_node : SmPacket → ℕ → SmPacket
  unfolding until_zero
  with_node p target =
      if leb 2147483648 target
      then record p {
        node_is_path = true;
        node_path =
            if ltb (target % 2147483648) (length pkt)
            then until_zero (drop (target % 2147483648) pkt)
            else p.node_path;
      }
      else record p { node_psc = target }

  -- `i < argc && argc < 64`.
  abbrev pub arg_rounds : ℕ → ℕ
  arg_rounds argc = if ltb argc 64 then argc else 0

  unfoldable pub parse_args : Sprintf → SmPacket → ℕ → ℕ → Read SmPacket
  unfolding number_at read_args decode_variant_arg
  parse_args fmt p end o =
      if leb end o
      then got p o
      else number_at 1 o >>= λ argc o'.
          map_read (λ args. record p { argc = argc; args = args })
            (read_args (decode_variant_arg fmt (record { b = pkt; end = end }) (suc (length pkt)))
              (arg_rounds argc) o')

  unfoldable pub parse_call : Sprintf → Bool → SmPacket → ℕ → ℕ → Read SmPacket
  unfolding number_at bytes_at parse_args
  parse_call fmt only_bytes p end o =
      if leb end o
      then got p o
      else number_at 1 o >>= λ name o'.
          if only_bytes
          then map_read (λ bytes. record p { name_id = name; byte_only = some bytes })
              (bytes_at (end - o') o')
          else parse_args fmt (record p { name_id = name }) end o'

  -- By the command, behind the id of the node.
  unfoldable pub parse_command : Sprintf → SmPacket → ℕ → ℕ → Read SmPacket
  unfolding parse_simplify_path parse_confirm_path parse_call args_end with_node
  parse_command fmt p target o =
      if eqb p.cmd 1
      then parse_simplify_path p o
      else if eqb p.cmd 2
      then parse_confirm_path p o
      else if eqb p.cmd 0
      then parse_call fmt (leb 128 p.meta) (with_node p target) (args_end target) o
      else got (record p { raw_body = drop o pkt }) o

  unfoldable pub parse_node : Sprintf → SmPacket → ℕ → ℕ → Read SmPacket
  unfolding number_at parse_command
  parse_node fmt p width o =
      if ltb (length pkt) (o + width) then got p o else number_at width o >>= parse_command fmt p

  unfoldable pub parse_sm : Sprintf → Read SmPacket
  unfolding fresh cmd_names number_at parse_sys parse_node node_width
  parse_sm fmt =
      if eqb (length pkt) 0
      then got (fresh pkt) 0
      else number_at 1 0 >>= λ meta o.
          let p = record (fresh pkt) {
            meta = meta;
            cmd = meta % 8;
            cmd_name = cmd_names (meta % 8);
          } in
          if eqb (meta % 8) 7
          then parse_sys p o
          else parse_node fmt p (node_width ((meta / 16) % 4)) o

unfoldable pub resolved_or : Sprintf → ℕ → Option (List ℕ) → List ℕ
resolved_or fmt id (some path) = path
resolved_or fmt id none = fmt.psc_of id

unfoldable pub resolved_node : Sprintf → SmPacket → Dict ℕ (List ℕ) → List ℕ
unfolding lookup resolved_or
resolved_node fmt p psc =
    if p.node_is_path
    then p.node_path
    else if eqb p.node_psc 0
    then []
    else resolved_or fmt p.node_psc (lookup p.node_psc psc)
