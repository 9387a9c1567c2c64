-- ===== src/Examples/Observing.antt =====
-- The monitoring job: the values of an extension set twice, and a backup of two resources.
use ks_upgrade.Base.{
  String, ◌≡◌, refl, sym, Bool, true, false, Bool-cases, if◌then◌else◌, Option, none, some, List,
  [], ◌∷◌, message, status, not_found, no_match, Result, ok, err, ◌==◌, subst, ok-injective, inl,
  inr,
}
use ks_upgrade.Base.Action.{Action}
use ks_upgrade.Base.Dict
use ks_upgrade.Base.Dict.{Dict}
use ks_upgrade.Base.Loops.{each, Through}
use ks_upgrade.Config.Merge.{Value, null, flag, num, str, array, object}
use ks_upgrade.Storage.{Bytes}
use ks_upgrade.Store.{load, save}
use ks_upgrade.Jobs.Objects.{is_set}
use ks_upgrade.Jobs.Monitoring.Objects.{Resource, alertmanagersv1, prometheusesv1}
use ks_upgrade.Jobs.Monitoring.Values.{
  TransPath, JsonPaths, fill_all, set_extension_values, value_converter_with_default,
}
use ks_upgrade.Jobs.Monitoring.Values.Laws.{PathLaws, set_extension_values_again}
use ks_upgrade.Jobs.Monitoring.Stack.{backup_stack, backup_resource, backup_stack_object}
use ks_upgrade.Jobs.Monitoring.Stack.Laws.{KeptAll, backup_stack-ok}
use ks_upgrade.Examples.Memory.{memory, memory-Keeps, plain}

-- A document has the path "whizard.enabled", which holds a Boolean, or it is empty.
abbrev set_enabled : Option Value → Result (Option Bool)
set_enabled (some (flag b)) = ok (some b)
set_enabled _ = err (message "not a Boolean")

abbrev held : Option Bool → Option (Option Value)
held none = none
held (some b) = some (some (flag b))

abbrev printed : Option Bool → String
printed none = ""
printed (some true) = "true"
printed (some false) = "false"

abbrev one_path : JsonPaths (Option Bool)
one_path = record {
  get_path = λ j p. if p == "whizard.enabled" then held j else none;
  set_path = λ j p v. if p == "whizard.enabled" then set_enabled v else err (message "no path");
  from_yaml = λ text.
      if text == "true"
      then ok (some true)
      else (if text == "false" then ok (some false) else ok none);
  to_yaml = λ j. ok (printed j);
  deep_equal = λ a b. false;
}

set_enabled-held :
    (v : Option Value) (j : Option Bool) → set_enabled v ≡ ok j → is_set (held j) ≡ true
set_enabled-held (some (flag b)) j h = subst (λ x. is_set (held x) ≡ true) (ok-injective h) refl
set_enabled-held none j h = cc
set_enabled-held (some null) j h = cc
set_enabled-held (some (num n)) j h = cc
set_enabled-held (some (str s)) j h = cc
set_enabled-held (some (array i)) j h = cc
set_enabled-held (some (object f)) j h = cc

is_enabled :
    {A : Type 0} (b : Bool) (x : Option A) → is_set (if b then x else none) ≡ true → b ≡ true
is_enabled true x h = refl
is_enabled false x h = cc

set_path-held :
    (j j' : Option Bool) (p : String) (v : Option Value)
    → one_path.set_path j p v ≡ ok j'
    → is_set (held j') ≡ true
set_path-held j j' p v h = elim (Bool-cases (p == "whizard.enabled")) [
  | inl there ↦ set_enabled-held v j' (rw (there) at h)
  | inr absent ↦ let k = rw (absent) at h in cc
]

one_path-PathLaws : PathLaws one_path (λ p. Unit)
one_path-PathLaws = record {
  set_there = λ j j' p v plain h. elim (Bool-cases (p == "whizard.enabled")) [
    | inl there ↦ rw (there) (set_path-held j j' p (some v) h)
    | inr absent ↦ let k = rw (absent) at h in cc
  ];
  set_keeps = λ j j' p q v plain plain_q gone h t.
      rw (is_enabled (q == "whizard.enabled") (held j) t) (set_path-held j j' p (some v) h);
  reread = λ j text h. (
    j,
    subst (λ x. one_path.from_yaml x ≡ ok j) (ok-injective h) (reread_printed j),
    h,
    λ p plain t. t,
  );
}
  where
    reread_printed : (j : Option Bool) → one_path.from_yaml (printed j) ≡ ok j
    reread_printed none = refl
    reread_printed (some true) = refl
    reread_printed (some false) = refl

abbrev enabled_paths : List TransPath
enabled_paths =
    record {
      to_path = "whizard.enabled";
      from_path = "spec.monitoring.whizard.enabled";
      value_converter = some (value_converter_with_default (flag true));
    }
    ∷ []

abbrev unconfigured : String → Result (Option Value)
unconfigured path = ok none

set_extension_values_again_example :
    set_extension_values one_path unconfigured "true" enabled_paths ≡ ok "true"
unfolding set_extension_values fill_all
set_extension_values_again_example =
    set_extension_values_again one_path unconfigured (λ p. Unit) one_path-PathLaws "" "true"
      enabled_paths (tt, tt) refl

-- Of two resources, one has an object and a kind, the other has neither.
abbrev kind_of : Resource → Action (Dict Bytes) String
kind_of r w = (if r.resource == "prometheuses" then ok "Prometheus" else err no_match, w)

abbrev fetched : Resource → String × String → Action (Dict Bytes) Bytes
fetched r name w =
    (if r.resource == "prometheuses" then ok (7 ∷ []) else err (status not_found none), w)

abbrev marked : Option String → Bytes → Bytes
marked none o = 0 ∷ o
marked (some kind) o = 1 ∷ o

abbrev observed : Dict Bytes
observed =
    (
      "whizard-monitoring-monitoring.coreos.com.v1.prometheuses-kubesphere-monitoring-system.k8s",
      1 ∷ 7 ∷ [],
    )
    ∷ []

plain_decodes : (o raw : Bytes) → plain.marshal o ≡ ok raw → plain.decode raw ≡ ok o
plain_decodes o raw h = sym h

backup_stack-ok_example :
    Through
      (KeptAll memory memory-Keeps plain plain_decodes kind_of marked fetched)
      (alertmanagersv1 ∷ prometheusesv1 ∷ [])
      []
      observed
unfolding backup_stack backup_resource backup_stack_object each load save Dict.lookup Dict.insert
backup_stack-ok_example =
    backup_stack-ok memory memory-Keeps plain plain_decodes kind_of marked fetched
      (alertmanagersv1 ∷ prometheusesv1 ∷ []) [] observed refl
