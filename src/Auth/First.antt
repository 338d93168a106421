-- ===== src/Auth/First.antt =====
-- pkg/auth/dbresolver.go: the static table in front of the table of users and of further resolvers.
-- The table of users is its rows; a query that fails is not modelled. A further resolver is given by
-- what it answers and by whether it asks for tokens.
use gta.Base.{
  ◌≡◌, ◌∙◌, refl, ap, Bool, true, false, Option, none, some, List, [], ◌∷◌, ◌||◌, if◌then◌else◌,
  if_elim, All, ascii, arith, ◌==◌, list_eq, nat_eq,
}
use gta.Auth.{
  Text, static, Principal, StaticResolver, Segment, blank, Table, Parsed, parsed, is_empty,
  trim_space, split_at, parse_segment, parse_segments, no_tokens, parse_tokens, required, resolve,
}
use gta.Auth.Owners.{go_on}

-- A row of `users`, as far as it is asked for.
pub record UserRow : Type 0 where
  pub owner : Text
  pub token : Text
  pub is_admin : Bool
  pub tenant : Text

unfoldable pub has_users : List UserRow → Bool
has_users [] = false
has_users (u ∷ users) = true

unfoldable pub user_of : List UserRow → Text → Option Principal
user_of [] token = none
user_of (u ∷ users) token =
    if u.token == token
    then some (record { owner = u.owner; is_admin = u.is_admin; tenant = u.tenant; probe_id = [] })
    else user_of users token

-- DBResolver.Resolve.
unfoldable pub db_resolve : List UserRow → Text → Option Principal
unfolding user_of
db_resolve users token = if is_empty token then none else user_of users token

pub record Resolver : Type 0 where
  pub resolves : Text → Option Principal
  pub asks : Bool

abbrev pub or_else : Option Principal → Option Principal → Option Principal
or_else (some p) q = some p
or_else none q = q

unfoldable pub any_asks : List Resolver → Bool
any_asks [] = false
any_asks (x ∷ xs) = x.asks || any_asks xs

unfoldable pub try_extra : List Resolver → Text → Option Principal
try_extra [] token = none
try_extra (x ∷ xs) token = or_else (x.resolves token) (try_extra xs token)

-- FirstResolver.Required.
unfoldable pub first_required : StaticResolver → List UserRow → List Resolver → Bool
unfolding has_users any_asks required
first_required primary users extra = required primary || (has_users users || any_asks extra)

-- FirstResolver.Resolve.
unfoldable pub first_resolve :
    StaticResolver → List UserRow → List Resolver → Text → Option Principal
unfolding first_required db_resolve try_extra resolve required
first_resolve primary users extra token =
    or_else (if required primary then resolve primary token else none) (
      or_else (db_resolve users token) (
        or_else (try_extra extra token) (
          if first_required primary users extra
          then none
          else some (static (ascii "local") false))))

blank_segment : (seg : Text) → is_empty (trim_space seg) ≡ true → parse_segment seg ≡ blank
unfolding parse_segment
blank_segment seg e =
    if_elim (λ (z : Segment). z ≡ blank) (is_empty (trim_space seg)) _ _ (λ t. refl)
      (λ f. absurd (ground (arith, e, f)))

blank_segments :
    (segs : List Text) (t : Table)
    → All (λ seg. is_empty (trim_space seg) ≡ true) segs
    → parse_segments segs t ≡ parsed (record { by_token = t.by_token })
unfolding parse_segments
blank_segments [] t h = refl
blank_segments (seg ∷ segs) t (e, h) =
    ap (go_on seg segs t) (blank_segment seg e) ∙ blank_segments segs t h

abbrev empty_table : StaticResolver
empty_table = record { by_token = [] }

-- A specification that is not blank, but of which each part between commas is, is read without an
-- error as the table without tokens. A token that no row of the users and no further resolver knows is
-- then let in as the local owner if there are no users and no further resolver asks for tokens, and it
-- is refused once there is a user.
pub blank_parts_admit_anyone :
    (spec : Text) (u : UserRow) (users : List UserRow) (extra : List Resolver) (token : Text)
    → is_empty (trim_space spec) ≡ false
    → All (λ seg. is_empty (trim_space seg) ≡ true) (split_at 44 spec)
    → any_asks extra ≡ false
    → try_extra extra token ≡ none
    → db_resolve (u ∷ users) token ≡ none
    → (parse_tokens spec ≡ parsed empty_table)
      × (first_resolve empty_table [] extra token ≡ some (static (ascii "local") false))
      × (first_resolve empty_table (u ∷ users) extra token ≡ none)
unfolding parse_tokens first_resolve first_required has_users db_resolve user_of required
blank_parts_admit_anyone spec u users extra token e h silent unknown no_user = (
  if_elim (λ (z : Parsed). z ≡ parsed empty_table) (is_empty (trim_space spec)) _ _ (λ t. refl)
      (λ f. blank_segments (split_at 44 spec) no_tokens h),
  if_elim
      (λ z.
        or_else z (
          or_else (try_extra extra token)
            (if any_asks extra then none else some (static (ascii "local") false)))
        ≡ some (static (ascii "local") false))
      (is_empty token) none none (λ t. let_in) (λ f. let_in),
  ap (λ z. or_else z (or_else (try_extra extra token) none)) no_user
      ∙ ap (λ z. or_else z none) unknown,
)
  where
    let_in :
        or_else
          (try_extra extra token)
          (if any_asks extra then none else some (static (ascii "local") false))
        ≡ some (static (ascii "local") false)
    let_in =
        ap (λ z. or_else z (if any_asks extra then none else some (static (ascii "local") false)))
          unknown
        ∙ ap (λ (b : Bool). if b then none else some (static (ascii "local") false)) silent
