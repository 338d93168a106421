-- ===== src/Correlation.antt =====
-- pkg/protocol/correlation/correlation.go: the requests that wait for their response. The clock
-- reading of `Remember` is an argument; the mutex makes each call one step. `limit <= 0` in `New`
-- is the argument 0 here.
pub mod Bounds
mod Examples
use gta.Base.{
  ℕ, String, Bool, Option, none, some, List, [], ◌∷◌, ◌++◌, eqb, length, string_eq, if◌then◌else◌,
}
use gta.Base.Dict.{Dict, lookup, insert, delete}
use gta.Base.Distinct.{remove_first}
use gta.Fifo.{evict}

pub record Pending : Type 0 where
  pub causation_id : String
  pub timestamp : ℕ

pub record Store : Type 0 where
  pub pending : Dict String Pending
  pub order : List String
  pub limit : ℕ

unfoldable pub new : ℕ → Store
new limit = record { pending = []; order = []; limit = if eqb limit 0 then 1024 else limit }

-- The key goes to the end of the order unless the map has it.
abbrev pub enlist : Option Pending → String → List String → List String
enlist (some _) key order = order
enlist none key order = order ++ key ∷ []

unfoldable pub remember : Store → String → String → ℕ → Store
remember s key causation_id now =
    let order = enlist (lookup key s.pending) key s.order in
    let pending = insert key entry s.pending in
    let (order', pending') = evict s.limit order pending in
    record s { pending = pending'; order = order' }
  where
    entry : Pending
    entry = record { causation_id = causation_id; timestamp = now }

unfoldable pub look_up : Store → String → Option Pending
look_up s key = lookup key s.pending

forget_found : Option Pending → Store → String → Store
forget_found none s key = s
forget_found (some _) s key = record s {
  pending = delete key s.pending;
  order = remove_first key s.order;
}

unfoldable pub forget : Store → String → Store
unfolding forget_found
forget s key = forget_found (lookup key s.pending) s key

unfoldable pub len : Store → ℕ
len s = length s.pending

pub data Op : Type 0 where
  remembers : String → String → ℕ → Op
  forgets : String → Op

unfoldable pub step : Store → Op → Store
unfolding remember forget
step s (remembers key causation_id now) = remember s key causation_id now
step s (forgets key) = forget s key

unfoldable pub run : Store → List Op → Store
unfolding step
run s [] = s
run s (op ∷ ops) = run (step s op) ops
