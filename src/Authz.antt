-- ===== src/Authz.antt =====
-- pkg/authz/authz.go: the authorisation policy. An error that wraps `ErrForbidden` is `forbidden`
-- with the reason that its text names; `nil` is `allowed`. An action or kind that no constant
-- names is `other_action`, `other_kind`.
pub mod Matrix
pub mod Outsiders
mod Examples
use gta.Base.{
  ℕ, String, Bool, true, false, ◌&&◌, ◌||◌, not, Option, none, some, leb, ◌==◌, string_eq,
  if◌then◌else◌,
}

pub data Action : Type 0 where
  project_read project_update project_delete project_manage_members : Action
  project_manage_plugins project_manage_rules project_transfer_owner : Action
  session_read session_use session_delete session_move_project : Action
  plugin_read plugin_use plugin_manage : Action
  lease_use lease_release : Action
  access_code_create access_code_claim : Action
  probe_read probe_use probe_control probe_manage : Action
  user_manage : Action
  other_action : String → Action

pub data Kind : Type 0 where
  project session plugin lease access_code probe user : Kind
  other_kind : String → Kind

pub data Role : Type 0 where
  none_role member admin owner : Role

pub record Resource : Type 0 where
  pub kind : Kind
  pub id : String
  pub tenant_id : String
  pub project_id : String
  pub creator_id : String

pub record Principal : Type 0 where
  pub user : String
  pub tenant : String
  pub is_admin : Bool

pub data Reason : Type 0 where
  tenant_mismatch role_required global_admin_required : Reason
  unsupported_action unsupported_kind not_accessible : Reason

pub data Verdict : Type 0 where
  allowed : Verdict
  forbidden : Reason → Verdict

abbrev pub default_tenant : String
default_tenant = "default"

abbrev pub is_empty : String → Bool
is_empty s = s == ""

unfoldable pub resource_tenant : Resource → String
resource_tenant r = if is_empty r.tenant_id then default_tenant else r.tenant_id

unfoldable pub in_project : Resource → Bool
in_project r = not (is_empty r.project_id)

unfoldable pub principal_tenant : Principal → String
principal_tenant p = if is_empty p.tenant then default_tenant else p.tenant

unfoldable pub role_level : Role → ℕ
role_level owner = 3
role_level admin = 2
role_level member = 1
role_level none_role = 0

unfoldable pub role_at_least : Role → Role → Bool
unfolding role_level
role_at_least got want = leb (role_level want) (role_level got)

-- The map `projectActionRole`.
unfoldable pub project_action_role : Action → Option Role
project_action_role project_read = some member
project_action_role project_update = some owner
project_action_role project_delete = some owner
project_action_role project_manage_members = some admin
project_action_role project_manage_plugins = some admin
project_action_role project_manage_rules = some admin
project_action_role project_transfer_owner = some owner
project_action_role _ = none

-- The map `sessionProjectActionRole`.
unfoldable pub session_project_action_role : Action → Option Role
session_project_action_role session_read = some member
session_project_action_role session_use = some member
session_project_action_role session_delete = some admin
session_project_action_role session_move_project = some admin
session_project_action_role _ = none

unfoldable pub member_creator_allowed : Action → Bool
member_creator_allowed session_delete = true
member_creator_allowed session_move_project = true
member_creator_allowed _ = false

-- The four actions that the branch for personal sessions names.
personal_session_action : Action → Bool
personal_session_action session_read = true
personal_session_action session_use = true
personal_session_action session_delete = true
personal_session_action session_move_project = true
personal_session_action _ = false

abbrev allow_if : Bool → Reason → Verdict
allow_if ok why = if ok then allowed else forbidden why

decide_project_session : Principal → Action → Resource → Role → Option Role → Verdict
unfolding role_at_least member_creator_allowed
decide_project_session p a r role none = forbidden unsupported_action
decide_project_session p a r role (some min_role) =
    if role_at_least role min_role
    then allowed
    else allow_if (member_creator_allowed a && (r.creator_id == p.user) && not (is_empty p.user))
        role_required

unfoldable pub decide_session : Principal → Action → Resource → Role → Verdict
unfolding in_project session_project_action_role decide_project_session personal_session_action
decide_session p a r role =
    if in_project r
    then decide_project_session p a r role (session_project_action_role a)
    else allow_if (personal_session_action a && (r.creator_id == p.user)) not_accessible

probe_creator : Principal → Resource → Verdict
probe_creator p r =
    allow_if (not (is_empty r.creator_id) && (r.creator_id == p.user)) not_accessible

unfoldable pub decide_probe : Principal → Action → Resource → Verdict
unfolding probe_creator
decide_probe p probe_read r = probe_creator p r
decide_probe p probe_use r = probe_creator p r
decide_probe p probe_control r = probe_creator p r
decide_probe p probe_manage r = probe_creator p r
decide_probe p _ r = forbidden unsupported_action

-- Members from `min_role` up inside a project, the creator outside.
scoped : Principal → Resource → Role → Role → Verdict
unfolding in_project role_at_least
scoped p r role min_role =
    if in_project r
    then allow_if (role_at_least role min_role) role_required
    else allow_if (r.creator_id == p.user) not_accessible

unfoldable pub decide_project_scoped : Principal → Action → Resource → Role → Verdict
unfolding scoped
decide_project_scoped p plugin_read r role = allowed
decide_project_scoped p plugin_use r role = scoped p r role member
decide_project_scoped p lease_use r role = scoped p r role member
decide_project_scoped p lease_release r role = scoped p r role member
decide_project_scoped p plugin_manage r role = scoped p r role admin
decide_project_scoped p _ r role = forbidden unsupported_action

by_kind : Kind → Principal → Action → Resource → Role → Verdict
unfolding decide_session decide_project_scoped decide_probe
by_kind session p a r role = decide_session p a r role
by_kind plugin p a r role = decide_project_scoped p a r role
by_kind lease p a r role = decide_project_scoped p a r role
by_kind probe p a r role = decide_probe p a r
by_kind user p a r role = forbidden global_admin_required
by_kind project p a r role = forbidden unsupported_action
by_kind access_code p a r role = forbidden unsupported_kind
by_kind (other_kind _) p a r role = forbidden unsupported_kind

by_project_role : Option Role → Principal → Action → Resource → Role → Verdict
unfolding by_kind role_at_least
by_project_role (some min_role) p a r role = allow_if (role_at_least role min_role) role_required
by_project_role none p a r role = by_kind r.kind p a r role

unfoldable pub decide : Principal → Action → Resource → Role → Verdict
unfolding principal_tenant resource_tenant project_action_role by_project_role
decide p a r role =
    if principal_tenant p == resource_tenant r
    then if p.is_admin then allowed else by_project_role (project_action_role a) p a r role
    else forbidden tenant_mismatch

unfoldable pub access_code_action_allowed : Principal → Action → String → Bool
access_code_action_allowed p access_code_create creator_id =
    p.is_admin || is_empty creator_id || (creator_id == p.user)
access_code_action_allowed p access_code_claim creator_id = true
access_code_action_allowed p _ creator_id = p.is_admin
