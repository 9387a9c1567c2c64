-- ===== src/Jobs/Iam/Providers.antt =====
-- `MigrateIdentityProviders` of pkg/jobs/iam/iam.go: each identity provider of the configuration of
-- KubeSphere becomes a secret.
use ks_upgrade.Base.{String, ◌<>◌, List, [], ◌∷◌, none, some, Result, ok, err, panic}
use ks_upgrade.Base.Action.{Action, pure, lift, ◌>>=◌}
use ks_upgrade.Base.Dict
use ks_upgrade.Base.Dict.{Dict}
use ks_upgrade.Base.Loops.{each}

-- `Raw` is the part of a provider that is of any shape.
pub record IdentityProvider (Raw : Type 0) : Type 0 where
  pub name : String
  pub mapping_method : String
  pub provider_type : String
  pub provider : Raw

pub record Secret : Type 0 where
  pub name : String
  pub namespace : String
  pub labels : Dict String
  pub string_data : Dict String
  pub secret_type : String

abbrev pub kube_sphere_namespace : String
kube_sphere_namespace = "kubesphere-system"

abbrev pub kube_sphere_config_name : String
kube_sphere_config_name = "kubesphere-config"

-- `to_lower` is that of the package strings, and `marshal` prints a provider.
module _ {Raw : Type 0} (to_lower : String → String)
    (marshal : IdentityProvider Raw → Result String) where
  abbrev pub secret_of : IdentityProvider Raw → String → Secret
  secret_of p text = record {
    name = "kubesphere-identityprovider." <> to_lower p.name;
    namespace = kube_sphere_namespace;
    labels = ("config.kubesphere.io/type", "identityprovider") ∷ [];
    string_data = ("configuration.yaml", text) ∷ [];
    secret_type = "config.kubesphere.io/identityprovider";
  }

  unfoldable pub identity_provider_secret : IdentityProvider Raw → Result Secret
  identity_provider_secret p = elim (marshal p) [
    | ok text ↦ ok (secret_of p text)
    | err e ↦ err e
    | panic ↦ panic
  ]

-- What the change of `CreateOrUpdate` makes of the secret that is there, or is new.
abbrev pub overwritten : Secret → Secret → Secret
overwritten secret there = record {
  name = there.name;
  namespace = there.namespace;
  labels = secret.labels;
  string_data = secret.string_data;
  secret_type = secret.secret_type;
}

-- `get_data` reads the data of a config map, `unmarshal` the identity providers of a
-- configuration, and `create_or_update` is that of controllerutil.
module _ {W Raw : Type 0} (to_lower : String → String)
    (marshal : IdentityProvider Raw → Result String)
    (get_data : String → String → Action W (Dict String))
    (unmarshal : String → Result (List (IdentityProvider Raw)))
    (create_or_update : Secret → (Secret → Secret) → Action W (Unit {0})) where
  unfoldable pub migrate_provider : IdentityProvider Raw → Action W (Unit {0})
  unfolding identity_provider_secret
  migrate_provider p = lift (identity_provider_secret to_lower marshal p) >>= λ secret.
      create_or_update secret (overwritten secret)

  unfoldable pub migrate_identity_providers : Action W (Unit {0})
  unfolding migrate_provider
  migrate_identity_providers = get_data kube_sphere_namespace kube_sphere_config_name >>= λ entries.
      elim (Dict.lookup "kubesphere.yaml" entries) [
        | none ↦ pure tt
        | some text ↦ lift (unmarshal text) >>= each migrate_provider
      ]
