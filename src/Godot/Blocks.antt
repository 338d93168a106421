-- ===== src/Godot/Blocks.antt =====
-- wire.go: the payloads of the state synchronisation. Go's maps with fixed keys are records. The
-- fuel of a reader bounds the nesting of the variants in it.
use gta.Base.{ℕ, zero, suc, ◌%◌, List, [], ◌∷◌, length, min}
use gta.Godot.Buffer.{
  Vbuf, Read, got, fails, panics, stuck, ◌>>=◌, map_read, u8, u16, u32, string_no_pad,
}
use gta.Godot.Values.{Value, Values, Sprintf}
use gta.Godot.Variant.{read_many}
use gta.Godot.Wire.{PathRegistry, set_path, field, decode_put_var, decode_wire_value}

module _ {ℓ} {A : Type ℓ} where
  unfoldable pub repeat : (ℕ → Read A) → ℕ → ℕ → Read (List A)
  repeat item zero o = got [] o
  repeat item (suc n) o = item o >>= λ x o'. map_read (◌∷◌ x) (repeat item n o')

-- A loop with its count in two bytes in front, `i < int(n) && i < 100000`.
unfoldable pub counted_list {ℓ} : {A : Type ℓ} → Vbuf → (ℕ → Read A) → ℕ → Read (List A)
unfolding u16 repeat
counted_list v item o = u16 v o >>= λ n o'. repeat item (min n 100000) o'

pub record Pair : Type 0 where
  pub fid : ℕ
  pub path : List ℕ
  pub value : Value

pub record EntityBlock : Type 0 where
  pub eid : ℕ
  pub pairs : List Pair

pub record MapUpdate : Type 0 where
  pub pid : ℕ
  pub path : List ℕ
  pub wt : ℕ

pub record Bootstrap : Type 0 where
  pub map_updates : List MapUpdate
  pub objects : List EntityBlock

pub record Spawn : Type 0 where
  pub child_id : ℕ
  pub scene_id : ℕ
  pub init : Value

pub record ContainerPair : Type 0 where
  pub cpid : ℕ
  pub pair : Pair

pub record NamedOp : Type 0 where
  pub child_id : ℕ
  pub method : List ℕ
  pub args : Values

pub record Container : Type 0 where
  pub cid : ℕ
  pub spawns : List Spawn
  pub pairs : List ContainerPair
  pub despawns : List ℕ
  pub ops_named : List NamedOp

unfoldable pub apply_map_updates : PathRegistry → List MapUpdate → PathRegistry
unfolding set_path
apply_map_updates r [] = r
apply_map_updates r (u ∷ us) = apply_map_updates (set_path u.pid u.path u.wt r) us

module _ (fmt : Sprintf) (v : Vbuf) where
  unfoldable pub read_pair : PathRegistry → ℕ → ℕ → ℕ → Read Pair
  unfolding field decode_wire_value
  read_pair r fuel fid o =
      let f = field fmt r fid in
      map_read (λ val. record { fid = fid; path = f.path; value = val })
        (decode_wire_value fmt v fuel f.wt o)

  unfoldable pub decode_entity_block : PathRegistry → ℕ → ℕ → Read EntityBlock
  unfolding u16 u32 read_pair counted_list
  decode_entity_block r fuel o = u32 v o >>= λ eid o'.
      map_read (λ pairs. record { eid = eid; pairs = pairs })
        (counted_list v (λ i. u16 v i >>= read_pair r fuel) o')

  unfoldable pub read_update : ℕ → Read MapUpdate
  unfolding u8 u16 string_no_pad
  read_update o = u16 v o >>= λ pid o'. string_no_pad v o' >>= λ path o''.
      map_read (λ wt. record { pid = pid; path = path; wt = wt }) (u8 v o'')

  unfoldable pub read_objects : PathRegistry → ℕ → ℕ → Read (List EntityBlock)
  unfolding counted_list decode_entity_block
  read_objects r fuel o = counted_list v (decode_entity_block r fuel) o

  -- The registry takes the updates before the objects are read, and keeps them if they fail.
  unfoldable pub after_updates :
      PathRegistry → ℕ → Read (List MapUpdate) → PathRegistry × Read Bootstrap
  unfolding apply_map_updates read_objects
  after_updates r fuel (got us o) =
      let r' = apply_map_updates r us in
      (r', map_read (λ bs. record { map_updates = us; objects = bs }) (read_objects r' fuel o))
  after_updates r fuel fails = (r, fails)
  after_updates r fuel panics = (r, panics)
  after_updates r fuel stuck = (r, stuck)

  unfoldable pub read_spawn : ℕ → ℕ → Read Spawn
  unfolding u16 decode_put_var
  read_spawn fuel o = u16 v o >>= λ child o'. u16 v o' >>= λ scene o''.
      map_read (λ init. record { child_id = child; scene_id = scene; init = init })
        (decode_put_var fmt v fuel o'')

  unfoldable pub read_container_pair : PathRegistry → ℕ → ℕ → Read ContainerPair
  unfolding u32 read_pair
  read_container_pair r fuel o = u32 v o >>= λ cpid o'.
      map_read (λ p. record { cpid = cpid; pair = p }) (read_pair r fuel (cpid % 65536) o')

  unfoldable pub read_op : ℕ → ℕ → Read NamedOp
  unfolding u8 u16 string_no_pad read_many decode_put_var
  read_op fuel o = u16 v o >>= λ child o'. string_no_pad v o' >>= λ method o''.
      u8 v o'' >>= λ argc p.
      map_read (λ args. record { child_id = child; method = method; args = args })
        (read_many (decode_put_var fmt v fuel) (min argc 64) p)

  unfoldable pub read_container : PathRegistry → ℕ → ℕ → Read Container
  unfolding u16 u32 counted_list read_spawn read_container_pair read_op
  read_container r fuel o = u32 v o >>= λ cid o₁.
      counted_list v (read_spawn fuel) o₁ >>= λ spawns o₂.
      counted_list v (read_container_pair r fuel) o₂ >>= λ pairs o₃.
      counted_list v (u16 v) o₃ >>= λ despawns o₄.
      map_read
        (λ ops. record {
          cid = cid;
          spawns = spawns;
          pairs = pairs;
          despawns = despawns;
          ops_named = ops;
        })
        (counted_list v (read_op fuel) o₄)

abbrev pub whole : List ℕ → Vbuf
whole b = record { b = b; end = 0 }

module _ (fmt : Sprintf) (r : PathRegistry) (b : List ℕ) where
  unfoldable pub decode_bootstrap : PathRegistry × Read Bootstrap
  unfolding counted_list read_update after_updates
  decode_bootstrap =
      after_updates fmt (whole b) r (suc (length b))
        (counted_list (whole b) (read_update fmt (whole b)) 0)

  unfoldable pub decode_delta : Read (List EntityBlock)
  unfolding read_objects
  decode_delta = read_objects fmt (whole b) r (suc (length b)) 0

  unfoldable pub decode_container_block : Read Container
  unfolding read_container
  decode_container_block = read_container fmt (whole b) r (suc (length b)) 0
