-- ===== src/Access/Claims.antt =====
-- access_code.go: handleAccessClaim, which anyone may call who has a code.
use gta.Base.{ℕ, Bool, true, not, Option, none, some, ltb, if◌then◌else◌, String, ◌==◌, string_eq}
use gta.Base.Dict.{Dict, insert, lookup}
use gta.Access.{AccessCode, User, Tables, create_user}

-- What the outside answers in the course of a claim: whether there is a pipeline, the session it
-- opens, the new token, and the static tokens of the owners.
pub record ClaimEnv : Type 0 where
  pub now : ℕ
  pub has_pipeline : Bool
  pub has_users : Bool
  pub session : Option String
  pub token : Option String
  pub owner_secret : String → String
  pub registry : String

pub record Config : Type 0 where
  pub server : String
  pub token : String
  pub session : String
  pub port : ℕ
  pub plugin : String

-- The answers by their status codes.
pub data Claim : Type 0 where
  granted : Config → Claim
  no_code invalid_code expired unavailable conflict no_session : Claim

unfoldable pub mark_claimed : String → String → Option AccessCode → Tables → Tables
unfolding insert
mark_claimed code session (some c) s = record s {
  codes = insert code (record c { claimed = true; session_id = session }) s.codes;
}
mark_claimed code session none s = s

unfoldable pub config_of : ClaimEnv → AccessCode → String → String → Config
config_of env c token session = record {
  server = if c.server == "" then env.registry else c.server;
  token = token;
  session = session;
  port = c.port;
  plugin = c.plugin;
}

-- With the identity settled the session is opened.
unfoldable pub open_session :
    ClaimEnv → String → AccessCode → String → Option String → Tables → Tables × Claim
unfolding mark_claimed config_of lookup
open_session env code c token none s = (s, no_session)
open_session env code c token (some session) s =
    (mark_claimed code session (lookup code s.codes) s, granted (config_of env c token session))

unfoldable pub with_user :
    ClaimEnv → String → AccessCode → Option (Dict String User × String) → Tables → Tables × Claim
unfolding open_session
with_user env code c none s = (s, conflict)
with_user env code c (some (users, token)) s =
    open_session env code c token env.session (record s { users = users })

-- A code lends the token of its owner, or it makes the user it is an invitation for.
unfoldable pub claim_as : ClaimEnv → String → AccessCode → Tables → Tables × Claim
unfolding open_session with_user create_user
claim_as env code c s =
    if c.new_owner == ""
    then open_session env code c (env.owner_secret c.owner) env.session s
    else if not env.has_users
    then (s, unavailable)
    else with_user env code c (create_user env.now env.token c.new_owner c.owner s.users) s

unfoldable pub claim_code : ClaimEnv → String → AccessCode → Tables → Tables × Claim
unfolding claim_as
claim_code env code c s =
    if ltb c.expires_at env.now
    then (s, expired)
    else if not env.has_pipeline
    then (s, unavailable)
    else claim_as env code c s

unfoldable pub claim_found : ClaimEnv → String → Option AccessCode → Tables → Tables × Claim
unfolding claim_code
claim_found env code none s = (s, invalid_code)
claim_found env code (some c) s = claim_code env code c s

-- `code` is in upper case.
unfoldable pub access_claim : ClaimEnv → String → Tables → Tables × Claim
unfolding claim_found lookup
access_claim env code s =
    if code == "" then (s, no_code) else claim_found env code (lookup code s.codes) s
