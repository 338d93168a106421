-- ===== src/Access.antt =====
-- cmd/gt-mcp/access_code.go and user_store.go: the codes that a machine claims its configuration
-- with, and the users that invitations create. The two tables are maps by their primary keys. Times
-- are seconds; random bytes, the database of projects and the pipeline are arguments, and what a
-- request says is given as it is after trimming. Failures of the database other than a conflict of
-- keys are not modelled.
pub mod Claims
pub mod Later
pub mod Codes
pub mod Invitations
mod Examples
use gta.Base.{
  ℕ, zero, suc, ◌+◌, ◌*◌, ◌%◌, Bool, true, false, not, Option, none, some, List, [], ◌∷◌, ◌++◌,
  length, ltb, leb, eqb, ◌&&◌, ◌||◌, if◌then◌else◌, String, ◌==◌, string_eq, ascii,
}
use gta.Base.Dict.{Dict, insert, delete, lookup}
use gta.Authz.{Principal, access_code_create, access_code_action_allowed}

pub record AccessCode : Type 0 where
  pub code : String
  pub owner : String
  pub project_id : String
  pub new_owner : String
  pub plugin : String
  pub port : ℕ
  pub server : String
  pub platform : String
  pub created_at : ℕ
  pub expires_at : ℕ
  pub claimed : Bool
  pub session_id : String

-- A row of `users`; the tenant is the default one, and nobody is an admin.
pub record User : Type 0 where
  pub token : String
  pub created_by : String
  pub created_at : ℕ

pub record Tables : Type 0 where
  pub codes : Dict String AccessCode
  pub users : Dict String User

-- 24 letters and 8 digits, without those that look alike.
unfoldable pub charset : List ℕ
unfolding ascii
charset = ascii "ABCDEFGHJKLMNPQRSTUVWXYZ23456789"

abbrev pub nth_of : List ℕ → ℕ → ℕ
nth_of [] i = 0
nth_of (x ∷ xs) zero = x
nth_of (x ∷ xs) (suc i) = nth_of xs i

-- The four letters of a part, from the byte `from` on.
unfoldable pub code_part : List ℕ → ℕ → List ℕ
unfolding charset
code_part b from =
    nth_of charset (nth_of b from % 32)
    ∷ nth_of charset (nth_of b (from + 1) % 32)
    ∷ nth_of charset (nth_of b (from + 2) % 32)
    ∷ nth_of charset (nth_of b (from + 3) % 32)
    ∷ []

-- `none` is a failure of the random generator.
unfoldable pub new_access_code : Option (List ℕ) → List ℕ
unfolding code_part ascii
new_access_code none = ascii "GT-DEAD-BEEF"
new_access_code (some b) = ascii "GT-" ++ (code_part b 0 ++ (ascii "-" ++ code_part b 2))

abbrev pub in_range : ℕ → ℕ → ℕ → Bool
in_range lo hi c = leb lo c && leb c hi

abbrev pub is_alnum : ℕ → Bool
is_alnum c = in_range 97 122 c || (in_range 65 90 c || in_range 48 57 c)

unfoldable pub all_name_chars : List ℕ → Bool
all_name_chars [] = true
all_name_chars (c ∷ cs) = (is_alnum c || (eqb c 46 || (eqb c 95 || eqb c 45))) && all_name_chars cs

abbrev pub starts_name : List ℕ → Bool
starts_name [] = false
starts_name (c ∷ cs) = is_alnum c

-- userOwnerPattern.
unfoldable pub valid_owner_name : String → Bool
unfolding all_name_chars ascii
valid_owner_name name =
    starts_name (ascii name) && (all_name_chars (ascii name) && leb (length (ascii name)) 64)

abbrev pub is_there {ℓ} : {A : Type ℓ} → Option A → Bool
is_there none = false
is_there (some x) = true

unfoldable pub token_taken : String → Dict String User → Bool
token_taken token [] = false
token_taken token ((owner, u) ∷ rest) = (u.token == token) || token_taken token rest

-- userStore.CreateUser; `token` is the new one, `none` if none could be made. `none` is an error.
unfoldable pub create_user :
    ℕ → Option String → String → String → Dict String User → Option (Dict String User × String)
unfolding valid_owner_name token_taken insert lookup
create_user now none owner created_by users = none
create_user now (some token) owner created_by users =
    if not (valid_owner_name owner) || (is_there (lookup owner users) || token_taken token users)
    then none
    else some (
      insert owner (record { token = token; created_by = created_by; created_at = now }) users,
      token,
    )

-- What a caller asks a code for; an empty text is an argument that is not there.
pub record CodeRequest : Type 0 where
  pub new_owner : String
  pub project_id : String
  pub plugin : String
  pub port : ℕ
  pub server : String
  pub platform : String

pub data Refusal : Type 0 where
  for_others anonymous_invitation invalid_name user_exists project_not_found code_exists : Refusal

pub data Creation : Type 0 where
  made : AccessCode → Creation
  refused : Refusal → Creation

unfoldable pub invitation_refused : Principal → String → Dict String User → Option Refusal
unfolding valid_owner_name lookup
invitation_refused p new_owner users =
    if new_owner == ""
    then none
    else if p.user == ""
    then some anonymous_invitation
    else if not (valid_owner_name new_owner)
    then some invalid_name
    else if is_there (lookup new_owner users)
    then some user_exists
    else none

-- `readable` tells whether there is the project and the caller may read it.
unfoldable pub store_code : AccessCode → Tables → Tables × Creation
unfolding insert lookup
store_code c s =
    if is_there (lookup c.code s.codes)
    then (s, refused code_exists)
    else (record s { codes = insert c.code c s.codes }, made c)

abbrev pub day : ℕ
day = 86400

unfoldable pub checked : Option Refusal → Bool → AccessCode → Tables → Tables × Creation
unfolding store_code
checked (some why) readable c s = (s, refused why)
checked none readable c s =
    if not (c.project_id == "") && not readable
    then (s, refused project_not_found)
    else store_code c s

-- handleCreateAccessCode; `code` is what newAccessCode gives.
unfoldable pub create_access_code :
    Principal → String → CodeRequest → Bool → ℕ → Tables → Tables × Creation
unfolding checked invitation_refused access_code_action_allowed
create_access_code p code req readable now s =
    if not (access_code_action_allowed p access_code_create p.user)
    then (s, refused for_others)
    else checked (invitation_refused p req.new_owner s.users) readable
        (record {
          code = code;
          owner = p.user;
          project_id = req.project_id;
          new_owner = req.new_owner;
          plugin = req.plugin;
          port = req.port;
          server = req.server;
          platform = req.platform;
          created_at = now;
          expires_at = now + day;
          claimed = false;
          session_id = "";
        })
        s

unfoldable pub list_for_owner : String → Bool → Dict String AccessCode → List AccessCode
list_for_owner owner all [] = []
list_for_owner owner all ((key, c) ∷ rest) =
    let others = list_for_owner owner all rest in
    if all || (c.owner == owner) then c ∷ others else others

pub data Revocation : Type 0 where
  revoked forbidden no_owner yourself unknown : Revocation

-- handleRevokeUser; `manages` is the answer of the policy.
unfoldable pub revoke_user : Principal → Bool → String → Tables → Tables × Revocation
unfolding delete lookup
revoke_user p manages owner s =
    if not manages
    then (s, forbidden)
    else if owner == ""
    then (s, no_owner)
    else if owner == p.user
    then (s, yourself)
    else if is_there (lookup owner s.users)
    then (record s { users = delete owner s.users }, revoked)
    else (s, unknown)
