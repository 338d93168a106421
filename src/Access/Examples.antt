-- ===== src/Access/Examples.antt =====
-- The theorems on access codes at a code that is lent and at an invitation.
use gta.Base.{◌≡◌, refl, true, false, some, none, List, [], ◌∷◌, String, arith, string_eq, eq_iff}
use gta.Base.Dict.{Dict, lookup}
use gta.Access.{AccessCode, User, Tables, create_user}
use gta.Access.Claims.{ClaimEnv, granted, conflict, no_session, config_of, access_claim}
use gta.Access.Later.{Later, claims, run_later}
use gta.Access.Invitations.{
  HasToken, Passes, failed_claim_spends_invitation, lent_code_claims_again, invitation_claims_once,
}

abbrev lent : AccessCode
lent = record {
  code = "GT-AAAA-AABB";
  owner = "alice";
  project_id = "";
  new_owner = "";
  plugin = "http";
  port = 8080;
  server = "";
  platform = "";
  created_at = 1;
  expires_at = 100;
  claimed = false;
  session_id = "";
}

abbrev invitation : AccessCode
invitation = record lent { code = "GT-BBBB-BBCC"; new_owner = "bob" }

abbrev tables : Tables
tables = record { codes = ("GT-AAAA-AABB", lent) ∷ (("GT-BBBB-BBCC", invitation) ∷ []); users = [] }

abbrev reachable : ClaimEnv
reachable = record {
  now = 50;
  has_pipeline = true;
  has_users = true;
  session = some "s1";
  token = some "gt_1";
  owner_secret = λ o. "gt_0";
  registry = "r";
}

abbrev unreachable : ClaimEnv
unreachable = record reachable { session = none }

lent-Passes : Passes reachable "GT-AAAA-AABB" lent tables
unfolding lookup
lent-Passes = record {
  given = ground (arith, eq_iff "GT-AAAA-AABB" "");
  known = refl;
  lasts = omega arith;
  reached = refl;
}

invitation-Passes : Passes reachable "GT-BBBB-BBCC" invitation tables
unfolding lookup
invitation-Passes = record {
  given = ground (arith, eq_iff "GT-BBBB-BBCC" "");
  known = refl;
  lasts = omega arith;
  reached = refl;
}

invitation-Passes_down : Passes unreachable "GT-BBBB-BBCC" invitation tables
unfolding lookup
invitation-Passes_down = record {
  given = ground (arith, eq_iff "GT-BBBB-BBCC" "");
  known = refl;
  lasts = omega arith;
  reached = refl;
}

abbrev bob : Dict String User
bob = ("bob", record { token = "gt_1"; created_by = "alice"; created_at = 50 }) ∷ []

bob_is_made : create_user 50 (some "gt_1") "bob" "alice" [] ≡ some (bob, "gt_1")
unfolding create_user
bob_is_made = refl

abbrev later : List Later
later = claims reachable "GT-AAAA-AABB" ∷ (claims reachable "GT-BBBB-BBCC" ∷ [])

failed_claim_spends_invitation_example :
    let failed = access_claim unreachable "GT-BBBB-BBCC" tables in
    (failed.1 ≡ no_session)
    × HasToken "bob" "gt_1" failed.0.users
    × ((access_claim reachable "GT-BBBB-BBCC" (run_later later failed.0)).1 ≡ conflict)
failed_claim_spends_invitation_example =
    failed_claim_spends_invitation unreachable reachable "GT-BBBB-BBCC" invitation tables bob "gt_1"
      later invitation-Passes_down (ground (arith, eq_iff "bob" "")) refl bob_is_made refl
      (omega arith) refl refl

lent_code_claims_again_example :
    ((access_claim reachable "GT-AAAA-AABB" tables).1
      ≡ granted (config_of reachable lent "gt_0" "s1"))
    × ((access_claim reachable "GT-AAAA-AABB" (access_claim reachable "GT-AAAA-AABB" tables).0).1
        ≡ granted (config_of reachable lent "gt_0" "s1"))
lent_code_claims_again_example =
    lent_code_claims_again reachable reachable "GT-AAAA-AABB" lent tables "s1" "s1" lent-Passes refl
      refl refl (omega arith) refl

invitation_claims_once_example :
    let claim = access_claim reachable "GT-BBBB-BBCC" tables in
    (claim.1 ≡ granted (config_of reachable invitation "gt_1" "s1"))
    × HasToken "bob" "gt_1" claim.0.users
    × ((access_claim reachable "GT-BBBB-BBCC" (run_later later claim.0)).1 ≡ conflict)
invitation_claims_once_example =
    invitation_claims_once reachable reachable "GT-BBBB-BBCC" invitation tables bob "gt_1" "s1"
      later invitation-Passes (ground (arith, eq_iff "bob" "")) refl bob_is_made refl (omega arith)
      refl refl
