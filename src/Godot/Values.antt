-- ===== src/Godot/Values.antt =====
-- variant.go and wire.go: what the readers answer as Go's `any`. A float is the pattern it was read
-- as, and a text a list of bytes.
use gta.Base.{string_eq, ℕ, Bool, List, ◌==◌, list_eq, nat_eq, if◌then◌else◌}
use gta.Godot.Buffer.{ℤ}

mutual
  pub data Value : Type 0 where
    nil : Value
    bool : Bool → Value
    int : ℤ → Value
    uint : ℕ → Value
    -- A `float32` made a `float64`, and the same rounded to two decimals.
    single rounded : ℕ → Value
    double : ℕ → Value
    str : List ℕ → Value
    dict : Entries → Value
    arr : Values → Value

  pub data Values : Type 0 where
    empty : Values
    cons : Value → Values → Values

  pub data Entries : Type 0 where
    no_entries : Entries
    entry : List ℕ → Value → Entries → Entries

-- `d[key] = val`.
unfoldable pub set_entry : List ℕ → Value → Entries → Entries
set_entry key val no_entries = entry key val no_entries
set_entry key val (entry k v rest) =
    let behind = set_entry key val rest in if k == key then entry key val rest else entry k v behind

-- The texts that `fmt.Sprintf` makes: `%v` of a value, and the placeholders for what is not read.
pub record Sprintf : Type 0 where
  pub shown : Value → List ℕ
  pub bytes_of : ℕ → List ℕ
  pub type_of : ℕ → List ℕ
  pub wire_type_of : ℕ → List ℕ
  pub pid_of : ℕ → List ℕ
  pub psc_of : ℕ → List ℕ
  pub name_of : ℕ → List ℕ
