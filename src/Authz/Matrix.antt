-- ===== src/Authz/Matrix.antt =====
-- pkg/authz/authz.go: the permission matrix, one row for each action, and the procedure against it.
-- The rows of projects and sessions are those of docs/superpowers/plans/2026-09-05-tenant-project-authz.md,
-- section 3.2. The plan has one row for plugins and leases, which the comments and the tests of the
-- code make finer, and none for probes.
use gta.Base.{◌≡◌, ◌≢◌, ◌↔◌, ◌⊎◌, true, arith, eq_iff}
use gta.Authz.{
  Action, project_read, project_update, project_delete, project_manage_members,
  project_manage_plugins, project_manage_rules, project_transfer_owner, session_read, session_use,
  session_delete, session_move_project, plugin_read, plugin_use, plugin_manage, lease_use,
  lease_release, probe_read, probe_use, probe_control, probe_manage, Kind, Role, none_role, member,
  admin, owner, Resource, Principal, allowed, resource_tenant, principal_tenant, decide,
}

-- The order of the roles: owner over admin over member over none.
abbrev pub Reaches : Role → Role → Type 0
Reaches _ none_role = Unit
Reaches none_role _ = ⊥
Reaches _ member = Unit
Reaches member _ = ⊥
Reaches _ admin = Unit
Reaches admin _ = ⊥
Reaches owner owner = Unit

-- In a project by role, outside by authorship.
abbrev pub ByRoleOrCreator : Principal → Resource → Role → Role → Type 0
ByRoleOrCreator p r role least =
    ((r.project_id ≢ "") × Reaches role least) ⊎ ((r.project_id ≡ "") × (r.creator_id ≡ p.user))

-- The exception of the plan: a member of the project for a session of their own. An anonymous caller
-- does not have it.
abbrev pub OwnAsMember : Principal → Resource → Role → Type 0
OwnAsMember p r role =
    (r.project_id ≢ "") × (r.creator_id ≡ p.user) × (p.user ≢ "") × Reaches role member

-- What the plan does not have: the creator of the session who has no role in its project.
abbrev pub OwnWithoutRole : Principal → Resource → Role → Type 0
OwnWithoutRole p r role =
    (r.project_id ≢ "") × (r.creator_id ≡ p.user) × (p.user ≢ "") × (role ≡ none_role)

abbrev pub OnSession : Resource → Type 0
OnSession r = r.kind ≡ Kind.session

abbrev pub OnPluginOrLease : Resource → Type 0
OnPluginOrLease r = (r.kind ≡ Kind.plugin) ⊎ (r.kind ≡ Kind.lease)

abbrev pub OnOwnProbe : Principal → Resource → Type 0
OnOwnProbe p r = (r.kind ≡ Kind.probe) × (r.creator_id ≢ "") × (r.creator_id ≡ p.user)

-- What a caller who is no global admin may do.
abbrev pub Row : Action → Principal → Resource → Role → Type 0
Row project_read p r role = Reaches role member
Row project_update p r role = Reaches role owner
Row project_delete p r role = Reaches role owner
Row project_manage_members p r role = Reaches role admin
Row project_manage_plugins p r role = Reaches role admin
Row project_manage_rules p r role = Reaches role admin
Row project_transfer_owner p r role = Reaches role owner
Row session_read p r role = OnSession r × ByRoleOrCreator p r role member
Row session_use p r role = OnSession r × ByRoleOrCreator p r role member
Row session_delete p r role = OnSession r × (ByRoleOrCreator p r role admin ⊎ OwnAsMember p r role)
Row session_move_project p r role =
    OnSession r × (ByRoleOrCreator p r role admin ⊎ OwnAsMember p r role)
Row plugin_read p r role = OnPluginOrLease r
Row plugin_use p r role = OnPluginOrLease r × ByRoleOrCreator p r role member
Row plugin_manage p r role = OnPluginOrLease r × ByRoleOrCreator p r role admin
Row lease_use p r role = OnPluginOrLease r × ByRoleOrCreator p r role member
Row lease_release p r role = OnPluginOrLease r × ByRoleOrCreator p r role member
Row probe_read p r role = OnOwnProbe p r
Row probe_use p r role = OnOwnProbe p r
Row probe_control p r role = OnOwnProbe p r
Row probe_manage p r role = OnOwnProbe p r
Row _ p r role = ⊥

-- What the code allows beyond the rows.
abbrev pub Beyond : Action → Principal → Resource → Role → Type 0
Beyond session_delete p r role = OnSession r × OwnWithoutRole p r role
Beyond session_move_project p r role = OnSession r × OwnWithoutRole p r role
Beyond _ p r role = ⊥

abbrev pub Permitted : Principal → Action → Resource → Role → Type 0
Permitted p a r role =
    (principal_tenant p ≡ resource_tenant r)
    × ((p.is_admin ≡ true) ⊎ (Row a p r role ⊎ Beyond a p r role))

-- Each text that the policy compares.
module _ (p : Principal) (r : Resource) where
  decide_sound : (a : Action) (role : Role) → decide p a r role ≡ allowed → Permitted p a r role
  unfolding decide
  decide_sound project_read role h = ground (arith, eq_iff (principal_tenant p) (resource_tenant r))
  decide_sound _ role h = ground (
    arith,
    eq_iff (principal_tenant p) (resource_tenant r),
    eq_iff r.project_id "",
    eq_iff r.creator_id p.user,
    eq_iff p.user "",
    eq_iff r.creator_id "",
  )

  decide_complete : (a : Action) (role : Role) → Permitted p a r role → decide p a r role ≡ allowed
  unfolding decide
  decide_complete project_read role h =
      ground (arith, eq_iff (principal_tenant p) (resource_tenant r))
  decide_complete _ role h = ground (
    arith,
    eq_iff (principal_tenant p) (resource_tenant r),
    eq_iff r.project_id "",
    eq_iff r.creator_id p.user,
    eq_iff p.user "",
    eq_iff r.creator_id "",
  )

  -- The policy allows an action exactly if the tenants agree and the caller is a global admin, or
  -- meets the row of the action, or goes beyond the rows in the one way that the plan does not have:
  -- the named creator of a project's session, without a role in the project, deletes it or moves it.
  pub decide_matrix :
      (a : Action) (role : Role) → (decide p a r role ≡ allowed) ↔ Permitted p a r role
  decide_matrix a role = (decide_sound a role, decide_complete a role)
