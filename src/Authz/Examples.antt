-- ===== src/Authz/Examples.antt =====
-- The theorems on the authorisation policy at concrete callers and resources.
use gta.Base.{refl, false}
use gta.Authz.{plugin_use, Kind, member, Resource, Principal, decide}
use gta.Authz.Matrix.{Permitted, decide_matrix}

abbrev alice : Principal
alice = record { user = "alice"; tenant = ""; is_admin = false }

abbrev bob_plugin : Resource
bob_plugin = record {
  kind = Kind.plugin;
  id = "x";
  tenant_id = "";
  project_id = "p1";
  creator_id = "bob";
}

decide_matrix_example : Permitted alice plugin_use bob_plugin member
unfolding decide
decide_matrix_example = (decide_matrix alice bob_plugin plugin_use member).0 refl
