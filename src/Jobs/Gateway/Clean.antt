-- ===== src/Jobs/Gateway/Clean.antt =====
-- pkg/jobs/gateway/gateway.go: what is removed of version 3, and the definitions of version 4.
pub mod Laws
use ks_upgrade.Base.{
  String, Bool, true, false, if◌then◌else◌, not, ◌&&◌, Option, none, some, List, [], ◌∷◌, Error,
  described, Result, ok, err, panic, is_backup_key_not_found, is_not_found, ◌==◌,
}
use ks_upgrade.Base.Action.{Action, pure, raise, ◌>>=◌, ◌>>◌, attempt}
use ks_upgrade.Base.Loops.{each}
use ks_upgrade.Storage.{Storage}
use ks_upgrade.Store.{Codec, load, save}
use ks_upgrade.Jobs.Objects.{ObjectMeta, Object, Api}

-- A call whose answer that nothing was found is no error.
abbrev pub ignoring_not_found : {W : Type 0} → Action W (Unit {0}) → Action W (Unit {0})
ignoring_not_found m = attempt m pure (λ e. if is_not_found e then pure tt else raise e)

abbrev pub without_finalizers : {S : Type 0} → Object S → Object S
without_finalizers o = record o { meta = record o.meta { finalizers = [] } }

-- `no_kind` tells by the text of an error that there is no such kind.
unfoldable pub clear_with_finalizers :
    {W S : Type 0} → Api W S → (Error → Bool) → Object S → Action W (Unit {0})
clear_with_finalizers api no_kind o =
    attempt (api.get o.meta.namespace o.meta.name)
      (λ found.
        ignoring_not_found (api.update (without_finalizers found))
        >> ignoring_not_found (api.delete (without_finalizers found)))
      (λ e. if is_not_found e then pure tt else (if no_kind e then pure tt else raise e))

-- The condition that is polled: the definition is gone.
unfoldable pub crd_gone : {W Crd : Type 0} → Action W Crd → Action W Bool
crd_gone get_crd =
    attempt get_crd (λ _. pure false) (λ e. if is_not_found e then pure true else raise e)

-- `load` gives the gateways that were backed up; the definition is read, deleted, and then polled.
unfoldable pub clean_gateways :
    {W S Crd : Type 0}
    → Api W S
    → (Error → Bool)
    → Action W (List (Object S))
    → Action W Crd
    → Action W (Unit {0})
    → (Action W Bool → Action W (Unit {0}))
    → Action W (Unit {0})
unfolding clear_with_finalizers crd_gone
clean_gateways api no_kind load get_crd delete_crd poll_immediate = load >>= λ items.
    each (clear_with_finalizers api no_kind) items
    >> ignoring_not_found delete_crd
    >> attempt (poll_immediate (crd_gone get_crd)) pure
        (λ e. raise (described "failed to wait for gateway v1 crd deleted" e))

-- An error other than that nothing was found is passed over.
unfoldable pub apply_gateway_crd :
    {W Crd : Type 0} → Action W Crd → Action W (Unit {0}) → Action W (Unit {0})
apply_gateway_crd get_crd apply =
    attempt get_crd (λ _. pure tt) (λ e. if is_not_found e then apply else pure tt)

-- `delete` deletes the rule of the ingresses, by its name.
unfoldable pub clean_prometheus_rule :
    {W Rule : Type 0}
    → Storage W
    → Codec Rule
    → Action W Rule
    → Action W (Unit {0})
    → Action W (Unit {0})
unfolding load save
clean_prometheus_rule s codec get delete =
    attempt (load s codec "gateway-prometheus-ingress-rules") (λ _. ignoring_not_found delete)
      (λ e.
        if is_backup_key_not_found e
        then attempt get
            (λ rule.
              save s codec "gateway-prometheus-ingress-rules" rule >> ignoring_not_found delete)
            (λ f. if is_not_found f then pure tt else raise f)
        else ignoring_not_found delete)

-- The condition that is polled: the gateways of version 4 can be listed; an error is only logged.
unfoldable pub crd_ready : {W A : Type 0} → Action W A → Action W Bool
crd_ready list = attempt list (λ _. pure true) (λ e. pure false)

-- A release of helm, as far as the wait for it reads it.
pub record Release : Type 0 where
  pub app_version : String
  pub status : String

abbrev pub is_release_ready : Release → Bool
is_release_ready r = not (not (r.app_version == "1.12.1") && not (r.status == "deployed"))

-- The condition that is polled; an error is only logged.
unfoldable pub release_ready : {W : Type 0} → Action W Release → Action W Bool
release_ready status = attempt status (λ r. pure (is_release_ready r)) (λ e. pure false)
