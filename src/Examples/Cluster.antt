-- ===== src/Examples/Cluster.antt =====
-- A cluster that holds users by their names, for the runs of pkg/jobs/iam.
use ks_upgrade.Base.{
  ℕ, String, [], ◌∷◌, Option, none, some, Error, status, not_found, conflict, ok, err,
}
use ks_upgrade.Base.Action.{Action}
use ks_upgrade.Base.Dict
use ks_upgrade.Base.Dict.{Dict}
use ks_upgrade.Jobs.Iam.Cluster.{Client, Crd, CrdClient}
use ks_upgrade.Jobs.Iam.Objects.{ObjectMeta, OldObject, NewObject, user, new_user}

abbrev pub named : String → ObjectMeta
named name = record {
  name = name;
  namespace = "";
  labels = none;
  annotations = none;
  finalizers = [];
  resource_version = "7";
}

abbrev pub admin : OldObject ℕ
admin = user (record {
  meta = named "admin";
  spec = record {
    email = "admin@kubesphere.io";
    lang = "";
    description = "";
    display_name = "";
    groups = [];
    encrypted_password = "";
  };
  status = record {
    state = "Active";
    reason = "";
    last_transition_time = none;
    last_login_time = none;
  };
})

abbrev pub new_admin : NewObject ℕ
new_admin = new_user (record {
  meta = named "admin";
  spec = record {
    email = "admin@kubesphere.io";
    lang = "";
    description = "";
    display_name = "";
    groups = [];
    encrypted_password = "";
  };
  status = record {
    state = "Active";
    reason = "";
    last_transition_time = none;
    last_login_time = none;
  };
})

-- The names of the objects that are there.
abbrev pub Names : Type 0
Names = Dict (Unit {0})

abbrev pub missing : Error
missing = status not_found none

abbrev pub name_of : NewObject ℕ → String
name_of (new_user u) = u.meta.name
name_of o = ""

abbrev pub answer : {A : Type 0} → A → Option (Unit {0}) → Action Names A
answer a none w = (err missing, w)
answer a (some t) w = (ok a, w)

abbrev pub cluster : Client Names (NewObject ℕ)
cluster = record {
  get = λ o w. answer o (Dict.lookup (name_of o) w) w;
  create = λ o w. (ok tt, Dict.insert (name_of o) tt w);
  update = λ o w. answer tt (Dict.lookup (name_of o) w) w;
  delete = λ o w. (ok tt, Dict.erase (name_of o) w);
  without_finalizers = λ o. o;
}

abbrev pub crd : Crd
crd = record {
  name = "rolebases.iam.kubesphere.io";
  group = "iam.kubesphere.io";
  kind = "RoleBase";
  list_kind = "RoleBaseList";
  versions = [];
  stored_versions = [];
}

-- A definition that cannot be deleted.
abbrev pub crds : CrdClient Names
crds = record {
  get_crd = λ name w. (ok crd, w);
  update_crd = λ c w. (ok tt, w);
  update_status = λ c w. (ok tt, w);
  delete_crd = λ c w. (err (status conflict none), w);
}

abbrev pub there : Names
there = ("admin", tt) ∷ []
