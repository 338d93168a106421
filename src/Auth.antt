-- ===== src/Auth.antt =====
-- pkg/auth/token.go: the static tokens of owners, as GT_AUTH_TOKENS gives them. A text is its bytes;
-- white space is that of ASCII. An error is a constructor, without its text.
pub mod Owners
pub mod First
mod Examples
use gta.Base.{
  ℕ, ◌+◌, Bool, true, false, not, Option, none, some, List, [], ◌∷◌, leb, eqb, ◌&&◌, ◌||◌,
  if◌then◌else◌, String, ascii, ◌==◌, list_eq, nat_eq, map,
}
use gta.Base.Dict.{Dict, insert, lookup}

abbrev pub Text : Type 0
Text = List ℕ

pub record Principal : Type 0 where
  pub owner : Text
  pub is_admin : Bool
  pub tenant : Text
  pub probe_id : Text

-- A principal of the static table, which knows neither tenants nor probes.
abbrev pub static : Text → Bool → Principal
static owner is_admin = record { owner = owner; is_admin = is_admin; tenant = []; probe_id = [] }

pub record StaticResolver : Type 0 where
  pub by_token : Dict Text Principal

pub data ParseError : Type 0 where
  no_equals no_owner unknown_suffix no_token owner_twice token_twice : ParseError

abbrev pub is_empty : Text → Bool
is_empty [] = true
is_empty (c ∷ cs) = false

abbrev pub is_space : ℕ → Bool
is_space c = (leb 9 c && leb c 13) || eqb c 32

unfoldable pub trim_left : Text → Text
trim_left [] = []
trim_left (c ∷ cs) = if is_space c then trim_left cs else c ∷ cs

unfoldable pub trim_right : Text → Text
trim_right [] = []
trim_right (c ∷ cs) =
    let rest = trim_right cs in if is_space c && is_empty rest then [] else c ∷ rest

-- strings.TrimSpace.
unfoldable pub trim_space : Text → Text
unfolding trim_left trim_right
trim_space s = trim_right (trim_left s)

abbrev pub cons_first : ℕ → List Text → List Text
cons_first c [] = (c ∷ []) ∷ []
cons_first c (s ∷ ss) = (c ∷ s) ∷ ss

-- strings.Split at one byte.
unfoldable pub split_at : ℕ → Text → List Text
split_at sep [] = [] ∷ []
split_at sep (c ∷ cs) =
    let rest = split_at sep cs in if eqb c sep then [] ∷ rest else cons_first c rest

abbrev pub behind : ℕ → Option (Text × Text) → Option (Text × Text)
behind c none = none
behind c (some (a, b)) = some (c ∷ a, b)

-- The text in front of the first such byte and behind it.
unfoldable pub cut_first : ℕ → Text → Option (Text × Text)
cut_first sep [] = none
cut_first sep (c ∷ cs) =
    let rest = cut_first sep cs in if eqb c sep then some ([], cs) else behind c rest

abbrev pub last_of : ℕ → ℕ → Text → Option (Text × Text) → Option (Text × Text)
last_of sep c cs (some (a, b)) = some (c ∷ a, b)
last_of sep c cs none = if eqb c sep then some ([], cs) else none

-- The same for the last such byte.
unfoldable pub cut_last : ℕ → Text → Option (Text × Text)
cut_last sep [] = none
cut_last sep (c ∷ cs) = last_of sep c cs (cut_last sep cs)

abbrev pub lower : ℕ → ℕ
lower c = if leb 65 c && leb c 90 then c + 32 else c

-- strings.EqualFold against a text in lower case, of letters that fold within ASCII.
unfoldable pub equal_fold : Text → Text → Bool
equal_fold s t = map lower s == t

-- What a segment says: nothing, an error, or the token of an owner.
pub data Segment : Type 0 where
  blank : Segment
  bad : ParseError → Segment
  pair : Text → Text → Bool → Segment

abbrev pub pair_of : Text → Text → Bool → Segment
pair_of owner token is_admin = if is_empty token then bad no_token else pair owner token is_admin

abbrev pub by_suffix : Text → Text → Option (Text × Text) → Segment
by_suffix owner token none = pair_of owner token false
by_suffix owner token (some (front, suffix)) =
    if equal_fold suffix (ascii "admin") then pair_of owner front true else bad unknown_suffix

abbrev pub by_equals : Option (Text × Text) → Segment
by_equals none = bad no_equals
by_equals (some (front, rest)) =
    if is_empty (trim_space front)
    then bad no_owner
    else by_suffix (trim_space front) (trim_space rest) (cut_last 58 (trim_space rest))

unfoldable pub parse_segment : Text → Segment
unfolding trim_space cut_first cut_last equal_fold ascii
parse_segment seg =
    if is_empty (trim_space seg) then blank else by_equals (cut_first 61 (trim_space seg))

-- The owners and the tokens so far.
pub record Table : Type 0 where
  pub owners : Dict Text Text
  pub by_token : Dict Text Principal

pub data Parsed : Type 0 where
  failed : ParseError → Parsed
  parsed : StaticResolver → Parsed

abbrev pub is_known {ℓ} : {A : Type ℓ} → Option A → Bool
is_known none = false
is_known (some x) = true

abbrev pub with_pair : Text → Text → Text → Bool → Table → Table
with_pair seg owner token is_admin t = record {
  owners = insert owner seg t.owners;
  by_token = insert token (static owner is_admin) t.by_token;
}

unfoldable pub parse_segments : List Text → Table → Parsed
unfolding parse_segment insert lookup
parse_segments [] t = parsed (record { by_token = t.by_token })
parse_segments (seg ∷ segs) t = elim (parse_segment seg) [
  | blank ↦ parse_segments segs t
  | bad e ↦ failed e
  | pair owner token is_admin ↦
      if is_known (lookup owner t.owners)
      then failed owner_twice
      else if is_known (lookup token t.by_token)
      then failed token_twice
      else parse_segments segs (with_pair (trim_space seg) owner token is_admin t)
]

abbrev pub no_tokens : Table
no_tokens = record { owners = []; by_token = [] }

unfoldable pub parse_tokens : Text → Parsed
unfolding parse_segments split_at trim_space
parse_tokens spec =
    if is_empty (trim_space spec)
    then parsed (record { by_token = [] })
    else parse_segments (split_at 44 spec) no_tokens

unfoldable pub required : StaticResolver → Bool
required r = not (is_empty_table r.by_token)
  where
    is_empty_table : Dict Text Principal → Bool
    is_empty_table [] = true
    is_empty_table (x ∷ xs) = false

unfoldable pub has_owner : Text → Dict Text Principal → Bool
has_owner name [] = false
has_owner name ((token, p) ∷ rest) = (p.owner == name) || has_owner name rest

unfoldable pub resolve : StaticResolver → Text → Option Principal
unfolding required lookup ascii
resolve r token =
    if required r then lookup token r.by_token else some (static (ascii "local") false)

-- The result of parseBearer, with `none` for false.
abbrev pub by_scheme : Text → Option (Text × Text) → Option Text
by_scheme value none = some value
by_scheme value (some (scheme, rest)) =
    if not (equal_fold scheme (ascii "bearer")) || is_empty (trim_space rest)
    then none
    else some (trim_space rest)

unfoldable pub parse_bearer : Text → Option Text
unfolding trim_space cut_first equal_fold ascii
parse_bearer value =
    if is_empty (trim_space value)
    then none
    else by_scheme (trim_space value) (cut_first 32 (trim_space value))
