-- ===== src/Dispatch/Index.antt =====
-- dispatcher.go: the index of the main event of each input, and the direction of a packet.
use gta.Base.{
  ℕ, ◌%◌, String, not, ◌&&◌, Option, none, some, List, [], ◌∷◌, ◌++◌, eqb, leb, ltb, string_eq,
  if◌then◌else◌,
}
use gta.Base.Dict.{Dict, lookup, insert}
use gta.Fifo.{evict}

pub record CausationIndex : Type 0 where
  pub entries : Dict String String
  pub order : List String
  pub limit : ℕ

unfoldable pub new_causation_index : ℕ → CausationIndex
new_causation_index limit = record { entries = []; order = []; limit = limit }

unfoldable pub put_new : CausationIndex → Option String → String → String → CausationIndex
put_new c (some _) input_id id = c
put_new c none input_id id =
    let (order, entries) =
      evict c.limit (c.order ++ input_id ∷ []) (insert input_id id c.entries) in
    record c { entries = entries; order = order }

unfoldable pub put : CausationIndex → String → String → CausationIndex
unfolding put_new
put c input_id id = put_new c (lookup input_id c.entries) input_id id

abbrev pub get : CausationIndex → String → Option String
get c input_id = lookup input_id c.entries

unfoldable pub infer_direction : ℕ → ℕ → ℕ → String
infer_direction src_port dst_port server_port =
    let sp = server_port % 65536 in
    if ltb 0 server_port && eqb dst_port sp && not (eqb src_port sp)
    then "client_to_server"
    else if ltb 0 server_port && eqb src_port sp && not (eqb dst_port sp)
    then "server_to_client"
    else if ltb dst_port 1024 && leb 1024 src_port
    then "client_to_server"
    else if ltb src_port 1024 && leb 1024 dst_port
    then "server_to_client"
    else "unknown"
