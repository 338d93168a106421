-- ===== src/Authz/Outsiders.antt =====
-- pkg/authz/authz.go: what the role changes, and what is left to a caller outside the project.
use gta.Base.{◌≡◌, ◌≢◌, ◌⊎◌, false, arith, eq_iff, ◌≤◌}
use gta.Authz.{
  Action, project_read, session_read, session_use, session_delete, session_move_project,
  plugin_read, Kind, Role, none_role, Resource, Principal, allowed, forbidden, role_required,
  resource_tenant, principal_tenant, role_level, decide,
}

module _ (p : Principal) (r : Resource) (low high : Role) where
  -- A higher role never loses what a lower role is allowed.
  pub decide_mono :
      (a : Action)
      → role_level low ≤ role_level high
      → decide p a r low ≡ allowed
      → decide p a r high ≡ allowed
  unfolding decide role_level
  decide_mono project_read le h = ground arith
  decide_mono _ le h = ground arith

-- The actions that an outsider can be allowed on a resource of a project.
abbrev pub LeftToOutsider : Principal → Action → Resource → Type 0
LeftToOutsider p a r =
    (a ≡ plugin_read)
    ⊎ (((a ≡ session_delete) ⊎ (a ≡ session_move_project))
        × (r.creator_id ≡ p.user)
        × (p.user ≢ ""))
    ⊎ ((r.kind ≡ Kind.probe) × (r.creator_id ≡ p.user) × (p.user ≢ ""))

module _ (p : Principal) (r : Resource) (inside : r.project_id ≢ "") where
  -- A caller with no role in the project who is no global admin is allowed at most to read the
  -- plugin catalogue, to delete or move a session of their own, and to use a probe of their own.
  pub outsider_bounds :
      (a : Action) → p.is_admin ≡ false → decide p a r none_role ≡ allowed → LeftToOutsider p a r
  unfolding decide
  outsider_bounds project_read na h = ground (arith, eq_iff r.project_id "")
  outsider_bounds _ na h = ground (
    arith,
    eq_iff r.project_id "",
    eq_iff r.creator_id p.user,
    eq_iff p.user "",
    eq_iff r.creator_id "",
  )

  -- The creator of a session in a project, once without a role there, may neither read nor use it
  -- and may still delete it and move it to another project.
  pub former_member :
      r.kind ≡ Kind.session
      → p.is_admin ≡ false
      → principal_tenant p ≡ resource_tenant r
      → r.creator_id ≡ p.user
      → p.user ≢ ""
      → (decide p session_read r none_role ≡ forbidden role_required)
        × (decide p session_use r none_role ≡ forbidden role_required)
        × (decide p session_delete r none_role ≡ allowed)
        × (decide p session_move_project r none_role ≡ allowed)
  unfolding decide
  former_member k na t c u = ground (
    arith,
    eq_iff (principal_tenant p) (resource_tenant r),
    eq_iff r.project_id "",
    eq_iff r.creator_id p.user,
    eq_iff p.user "",
  )
