-- ===== src/Jobs/Objects.antt =====
-- The objects of the API server, as far as the jobs below pkg/jobs look into them, and the calls of
-- a client for the objects of one type.
use ks_upgrade.Base.{
  String, ℤ, Bool, true, false, ◌||◌, Option, none, some, List, [], ◌∷◌, Error, is_not_found,
  is_no_match,
}
use ks_upgrade.Base.Action.{Action}
use ks_upgrade.Base.Dict
use ks_upgrade.Base.Dict.{Dict}

pub record OwnerReference : Type 0 where
  pub kind : String
  pub name : String

pub record ObjectMeta : Type 0 where
  pub name : String
  pub namespace : String
  pub labels : Option (Dict String)
  pub annotations : Option (Dict String)
  pub finalizers : List String
  pub owner_references : List OwnerReference
  pub deletion_timestamp : Option ℤ
  pub resource_version : String

-- An object whose other fields are an `S`.
pub record Object (S : Type 0) : Type 0 where
  pub meta : ObjectMeta
  pub spec : S

-- `get` takes a namespace and a name, and `patch` the new object and the old one.
-- `create_or_update` reads the object again, changes it and writes it.
pub record Api (W S : Type 0) : Type 0 where
  pub list : Action W (List (Object S))
  pub get : String → String → Action W (Object S)
  pub create : Object S → Action W (Unit {0})
  pub update : Object S → Action W (Unit {0})
  pub patch : Object S → Object S → Action W (Unit {0})
  pub delete : Object S → Action W (Unit {0})
  pub create_or_update : Object S → (Object S → Object S) → Action W (Unit {0})

abbrev pub is_empty : {A : Type 0} → List A → Bool
is_empty [] = true
is_empty (x ∷ xs) = false

abbrev pub is_set : {A : Type 0} → Option A → Bool
is_set none = false
is_set (some a) = true

-- A nil map reads as an empty one, and is made before it is written.
abbrev pub entries : Option (Dict String) → Dict String
entries none = []
entries (some d) = d

-- A missing label reads as the empty text.
abbrev pub text_of : Option String → String
text_of none = ""
text_of (some v) = v

-- What a step may find instead of an object that is not there.
abbrev pub is_absent : Error → Bool
is_absent e = is_not_found e || is_no_match e

abbrev pub is_host_cluster_object : {S : Type 0} → Object S → Bool
is_host_cluster_object o = Dict.has "cluster-role.kubesphere.io/host" (entries o.meta.labels)
