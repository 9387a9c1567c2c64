-- ===== src/Jobs/Iam/Objects.antt =====
-- The objects of the job: what pkg/jobs/iam/types.go reads and writes of the types of v3/api and
-- v4/api. `Raw` is what the conversions copy and never look into: policy rules, aggregation
-- templates, selectors and times.
use ks_upgrade.Base.{String, Bool, List, Option}
use ks_upgrade.Base.Dict.{Dict}

-- A nil map of labels or annotations is `none`.
pub record ObjectMeta : Type 0 where
  pub name : String
  pub namespace : String
  pub labels : Option (Dict String)
  pub annotations : Option (Dict String)
  pub finalizers : List String
  pub resource_version : String

pub record Subject : Type 0 where
  pub kind : String
  pub api_group : String
  pub name : String
  pub namespace : String

pub record RoleRef : Type 0 where
  pub api_group : String
  pub kind : String
  pub name : String

-- Every kind of binding, in either version.
pub record Binding : Type 0 where
  pub meta : ObjectMeta
  pub subjects : List Subject
  pub role_ref : RoleRef

pub record UserSpec : Type 0 where
  pub email : String
  pub lang : String
  pub description : String
  pub display_name : String
  pub groups : List String
  pub encrypted_password : String

pub record LoginRecordSpec : Type 0 where
  pub login_type : String
  pub provider : String
  pub source_ip : String
  pub user_agent : String
  pub success : Bool
  pub reason : String

pub record LoginRecord : Type 0 where
  pub meta : ObjectMeta
  pub spec : LoginRecordSpec

pub record Workspace : Type 0 where
  pub meta : ObjectMeta
  pub manager : String

module _ (Raw : Type 0) where
  pub record UserStatus : Type 0 where
    pub state : String
    pub reason : String
    pub last_transition_time : Option Raw
    pub last_login_time : Option Raw

  pub record User : Type 0 where
    pub meta : ObjectMeta
    pub spec : UserSpec
    pub status : UserStatus

  -- A role of version 3, and one of version 4.
  pub record OldRole : Type 0 where
    pub meta : ObjectMeta
    pub rules : List Raw

  pub record NewRole : Type 0 where
    pub meta : ObjectMeta
    pub aggregation_role_templates : Option Raw
    pub rules : List Raw

  pub record WorkspaceTemplate : Type 0 where
    pub meta : ObjectMeta
    pub template_labels : Option (Dict String)
    pub template_annotations : Option (Dict String)
    pub manager : String
    pub clusters : List String
    pub cluster_selector : Option Raw

  pub data OldObject : Type 0 where
    user : User → OldObject
    global_role workspace_role role cluster_role : OldRole → OldObject
    global_role_binding workspace_role_binding role_binding cluster_role_binding :
        Binding → OldObject
    login_record : LoginRecord → OldObject
    workspace : Workspace → OldObject
    workspace_template : WorkspaceTemplate → OldObject
    -- role bases, groups and group bindings, which are stored and not converted
    other : ObjectMeta → OldObject

  pub data NewObject : Type 0 where
    new_user : User → NewObject
    new_global_role new_workspace_role new_role new_cluster_role : NewRole → NewObject
    new_global_role_binding new_workspace_role_binding new_role_binding new_cluster_role_binding :
        Binding → NewObject
    new_login_record : LoginRecord → NewObject
    new_workspace : Workspace → NewObject
    new_workspace_template : WorkspaceTemplate → NewObject

-- The resources.
abbrev pub resource_user : String
resource_user = "users.iam.kubesphere.io"

abbrev pub resource_role_base : String
resource_role_base = "rolebases.iam.kubesphere.io"

abbrev pub resource_global_role : String
resource_global_role = "globalroles.iam.kubesphere.io"

abbrev pub resource_global_role_binding : String
resource_global_role_binding = "globalrolebindings.iam.kubesphere.io"

abbrev pub resource_workspace_role : String
resource_workspace_role = "workspaceroles.iam.kubesphere.io"

abbrev pub resource_workspace_role_binding : String
resource_workspace_role_binding = "workspacerolebindings.iam.kubesphere.io"

abbrev pub resource_role : String
resource_role = "roles.rbac.authorization.kubernetes.io"

abbrev pub resource_role_binding : String
resource_role_binding = "rolebindings.rbac.authorization.kubernetes.io"

abbrev pub resource_cluster_role : String
resource_cluster_role = "clusterroles.rbac.authorization.kubernetes.io"

abbrev pub resource_cluster_role_binding : String
resource_cluster_role_binding = "clusterrolebindings.rbac.authorization.kubernetes.io"

abbrev pub resource_login_record : String
resource_login_record = "loginrecords.iam.kubesphere.io"

abbrev pub resource_group : String
resource_group = "groups.iam.kubesphere.io"

abbrev pub resource_group_binding : String
resource_group_binding = "groupbindings.iam.kubesphere.io"

abbrev pub resource_workspace : String
resource_workspace = "workspaces.tenant.kubesphere.io"

abbrev pub resource_workspace_template : String
resource_workspace_template = "workspacetemplates.tenant.kubesphere.io"
