-- ===== src/Examples/Preparing.antt =====
-- The core job: an installer that is deleted and comes back.
use ks_upgrade.Jobs.Objects.{OwnerReference, Object, Api}
use ks_upgrade.Base.{
  ℕ, zero, suc, String, ℤ, pos, ◌≡◌, refl, ap, subst, ◌⊎◌, inl, inr, true, false, Bool-cases,
  if◌then◌else◌, ◌&&◌, contains, All, Option, none, some, List, [], ◌∷◌, Error, message, status,
  not_found, backup_key_not_found, Result, ok, err, ok-injective, ◌==◌, eq_iff, eq_refl, arith,
}
use ks_upgrade.Base.Action.{Action}
use ks_upgrade.Base.Dict
use ks_upgrade.Base.Dict.{Dict}
use ks_upgrade.Base.Loops.{each}
use ks_upgrade.Storage.{Bytes, Storage, Keeps}
use ks_upgrade.Store.{Codec, load, save}
use ks_upgrade.Jobs.Core.Objects.{Deployment}
use ks_upgrade.Jobs.Core.Backup.{
  system_resource_backup_key, back_up, with_backup, delete_object, recover_object, delete_installer,
  delete_kube_sphere_resource, recover_kube_sphere_resource,
}
use ks_upgrade.Jobs.Core.Backup.Laws.{Presence, SeparateFrom}
use ks_upgrade.Jobs.Core.Backup.Recovery.{recover_kube_sphere_resource_restores}
use ks_upgrade.Examples.Memory.{memory, memory-Keeps}

-- A storage, and the names of the deployments that are there.
abbrev Cluster : Type 0
Cluster = Dict Bytes × List String

-- A call of a storage, beside the deployments.
abbrev beside : {A : Type 0} → Action (Dict Bytes) A → Action Cluster A
beside m (d, names) = let (r, d') = m d in (r, (d', names))

abbrev disk : Storage Cluster
disk = record {
  put = λ k object. beside (memory.put k object);
  get = λ k. beside (memory.get k);
  delete = λ k. beside (memory.delete k);
}

disk-Keeps : Keeps disk
disk-Keeps k object (d, names) (d', names') h =
    let put = ap (λ (p : Result (Unit {0}) × Cluster). (p.0, p.1.0)) h in
    let same = ap (λ (p : Result (Unit {0}) × Cluster). p.1.1) h in
    let got = memory-Keeps k object d d' put in
    ap (λ (p : Result Bytes × Dict Bytes). (p.0, (p.1, names'))) got

abbrev installer : Object Deployment
installer = record {
  meta = record {
    name = "ks-installer";
    namespace = "kubesphere-system";
    labels = none;
    annotations = none;
    finalizers = [];
    owner_references = [];
    deletion_timestamp = none;
    resource_version = "";
  };
  spec = record { replicas = none; available_replicas = 0 };
}

-- A codec of the list of the installer alone.
abbrev encode :
    String
    → String
    → Option (Dict String)
    → Option (Dict String)
    → List String
    → List OwnerReference
    → Option ℤ
    → String
    → Option ℕ
    → ℕ
    → Result Bytes
encode name space none none [] [] none version none zero =
    if (name == "ks-installer") && ((space == "kubesphere-system") && (version == ""))
    then ok (1 ∷ [])
    else err (message "other")
encode name space _ _ _ _ _ version _ _ = err (message "other")

abbrev encode_object : Object Deployment → Result Bytes
encode_object o =
    encode o.meta.name o.meta.namespace o.meta.labels o.meta.annotations o.meta.finalizers
      o.meta.owner_references o.meta.deletion_timestamp o.meta.resource_version o.spec.replicas
      o.spec.available_replicas

abbrev encode_list : List (Object Deployment) → Result Bytes
encode_list [] = ok []
encode_list (o ∷ []) = encode_object o
encode_list (o ∷ o' ∷ items) = err (message "other")

abbrev decode_list : Bytes → Result (List (Object Deployment))
decode_list [] = ok []
decode_list (n ∷ b) = ok (installer ∷ [])

abbrev installers : Codec (List (Object Deployment))
installers = record { marshal = encode_list; decode = decode_list }

decode-encode :
    (name space : String) (labels annotations : Option (Dict String)) (finalizers : List String)
    (owners : List OwnerReference) (time : Option ℤ) (version : String) (replicas : Option ℕ)
    (available : ℕ) (raw : Bytes)
    → encode name space labels annotations finalizers owners time version replicas available
      ≡ ok raw
    → decode_list raw
      ≡ ok (
          (record {
            meta = record {
              name = name;
              namespace = space;
              labels = labels;
              annotations = annotations;
              finalizers = finalizers;
              owner_references = owners;
              deletion_timestamp = time;
              resource_version = version;
            };
            spec = record { replicas = replicas; available_replicas = available };
          })
          ∷ [])
decode-encode name space none none [] [] none version none zero raw h =
    ground (arith, eq_iff name "ks-installer", eq_iff space "kubesphere-system", eq_iff version "")
decode-encode name space (some d) a f o t v r n raw h = cc
decode-encode name space none (some d) f o t v r n raw h = cc
decode-encode name space none none (x ∷ f) o t v r n raw h = cc
decode-encode name space none none [] (x ∷ o) t v r n raw h = cc
decode-encode name space none none [] [] (some x) v r n raw h = cc
decode-encode name space none none [] [] none v (some x) n raw h = cc
decode-encode name space none none [] [] none v none (suc n) raw h = cc

installers-reads :
    (items : List (Object Deployment)) (raw : Bytes)
    → encode_list items ≡ ok raw
    → decode_list raw ≡ ok items
installers-reads [] raw h = subst (λ (b : Bytes). decode_list b ≡ ok []) (ok-injective h) refl
installers-reads (o ∷ []) raw h =
    decode-encode o.meta.name o.meta.namespace o.meta.labels o.meta.annotations o.meta.finalizers
      o.meta.owner_references o.meta.deletion_timestamp o.meta.resource_version o.spec.replicas
      o.spec.available_replicas raw h
installers-reads (o ∷ o' ∷ items) raw h = cc

abbrev missing : Error
missing = status not_found none

abbrev without : String → List String → List String
without name [] = []
without name (n ∷ names) = if n == name then names else n ∷ without name names

abbrev deployments : Api Cluster Deployment
deployments = record {
  list = λ w. (ok (installer ∷ []), w);
  get = λ space name w. (if contains w.1 name then ok installer else err missing, w);
  create = λ o w. (ok tt, (w.0, o.meta.name ∷ w.1));
  update = λ o w. (ok tt, w);
  patch = λ n o w. (ok tt, w);
  delete = λ o w. (ok tt, (w.0, without o.meta.name w.1));
  create_or_update = λ o f w. (ok tt, w);
}

abbrev Present : String → String → Cluster → Type 0
Present space name w = contains w.1 name ≡ true

head_there : (n : String) (names : List String) → contains (n ∷ names) n ≡ true
unfolding contains
head_there n names = rw (eq_refl n) refl

tail_there :
    (m n : String) (names : List String) → contains names n ≡ true → contains (m ∷ names) n ≡ true
unfolding contains
tail_there m n names h = ground arith

got :
    (name : String) (o : Object Deployment) (u w : Cluster)
    → (contains u.1 name ≡ true) ⊎ (contains u.1 name ≡ false)
    → ◌≡◌ {A = Result (Object Deployment) × Cluster}
        (if contains u.1 name then ok installer else err missing, u)
        (ok o, w)
    → contains w.1 name ≡ true
got name o u w (inl there) h =
    subst (λ (x : Cluster). contains x.1 name ≡ true)
      (ap (λ (p : Result (Object Deployment) × Cluster). p.1) h) there
got name o u w (inr absent) h = let k = rw (absent) at h in cc

deployments-Presence : Presence deployments Present
deployments-Presence = record {
  got = λ space name o u w h. got name o u w (Bool-cases (contains u.1 name)) h;
  created = λ o u w h.
      subst (λ (x : Cluster). contains x.1 o.meta.name ≡ true)
        (ap (λ (p : Result (Unit {0}) × Cluster). p.1) h) (head_there o.meta.name u.1);
  get_keeps = λ space name r u w h space' name' p.
      subst (λ (x : Cluster). contains x.1 name' ≡ true)
        (ap (λ (p : Result (Object Deployment) × Cluster). p.1) h) p;
  create_keeps = λ o r u w h space name p.
      subst (λ (x : Cluster). contains x.1 name ≡ true)
        (ap (λ (p : Result (Unit {0}) × Cluster). p.1) h) (tail_there o.meta.name name u.1 p);
}

deployments-SeparateFrom : SeparateFrom deployments disk
deployments-SeparateFrom key raw o n r u w (inl h) k =
    subst (λ (x : Cluster). disk.get key x ≡ (ok raw, x))
      (ap (λ (p : Result (Unit {0}) × Cluster). p.1) h) k
deployments-SeparateFrom key raw o n r u w (inr h) k =
    subst (λ (x : Cluster). disk.get key x ≡ (ok raw, x))
      (ap (λ (p : Result (Unit {0}) × Cluster). p.1) h)
      (ap (λ (p : Result Bytes × Cluster). (p.0, (p.1.0, without o.meta.name u.1))) k)

abbrev before : Cluster
before = ([], "ks-installer" ∷ [])

abbrev backed : Dict Bytes
backed = (system_resource_backup_key, 1 ∷ []) ∷ []

recover_kube_sphere_resource_restores_example :
    (items : List (Object Deployment)) × (v' : Cluster) × (deployments.list before ≡ (ok items, v'))
    × All (λ o. Present o.meta.namespace o.meta.name (backed, "ks-installer" ∷ [])) items
unfolding load save back_up with_backup delete_object recover_object delete_installer
    delete_kube_sphere_resource recover_kube_sphere_resource each contains Dict.lookup Dict.insert
recover_kube_sphere_resource_restores_example =
    recover_kube_sphere_resource_restores disk installers deployments deployments-SeparateFrom
      disk-Keeps installers-reads Present deployments-Presence (λ w. pos 0) before before
      (backed, []) (backed, "ks-installer" ∷ []) backup_key_not_found refl refl refl
