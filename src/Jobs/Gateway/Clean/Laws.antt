-- ===== src/Jobs/Gateway/Clean/Laws.antt =====
-- What is gone behind the removal of the gateways of version 3.
use ks_upgrade.Base.{
  ◌≡◌, ap, ◌∙◌, Bool, true, Bool-cases, inl, inr, List, Error, described, Result, ok, err,
  is_not_found,
}
use ks_upgrade.Base.Action.{Action, pure, raise, ◌>>◌, attempt, bind-eq-ok, attempt-eq-ok}
use ks_upgrade.Base.Loops.{each, Ran, each-ok}
use ks_upgrade.Jobs.Objects.{Object, Api}
use ks_upgrade.Jobs.Gateway.Clean.{
  ignoring_not_found, clear_with_finalizers, crd_gone, clean_gateways,
}

crd_gone-true :
    {W Crd : Type 0} (get_crd : Action W Crd) (u w : W)
    → crd_gone get_crd u ≡ (ok true, w)
    → (e : Error) × (get_crd u ≡ (err e, w)) × (is_not_found e ≡ true)
unfolding crd_gone
crd_gone-true {W} get_crd u w h = elim (attempt-eq-ok get_crd _ _ h) [
  | inl (c, v, got, k) ↦ cc
  | inr (e, v, failed, k) ↦ elim (Bool-cases (is_not_found e)) [
    | inr other ↦ let k' = rw (other) at k in cc
    | inl missing ↦
        let k' = rw (missing) at k in
        (e, failed ∙ ap (λ (p : Result Bool × W). (err e, p.1)) k', missing)
  ]
]

module _ {W S Crd : Type 0} (api : Api W S) (no_kind : Error → Bool)
    (load : Action W (List (Object S))) (get_crd : Action W Crd) (delete_crd : Action W (Unit {0}))
    (poll_immediate : Action W Bool → Action W (Unit {0}))
    (polls : (condition : Action W Bool) (u w : W)
      → poll_immediate condition u ≡ (ok tt, w)
      → (v : W) × (condition v ≡ (ok true, w))) where
  -- If a poll returns without an error only when its condition held last, then a removal that
  -- succeeds loaded the gateways, cleared each of them without an error, in the order of the
  -- list, and read last that their definition is not found.
  pub clean_gateways-ok :
      (u w : W)
      → clean_gateways api no_kind load get_crd delete_crd poll_immediate u ≡ (ok tt, w)
      → (items : List (Object S)) × (v v1 v2 : W) × (e : Error) × (load u ≡ (ok items, v))
        × Ran (clear_with_finalizers api no_kind) items v v1
        × (get_crd v2 ≡ (err e, w))
        × (is_not_found e ≡ true)
  unfolding clean_gateways
  clean_gateways-ok u w h =
      let (items, v, loaded, h1) = bind-eq-ok load _ h in
      let clear = each (clear_with_finalizers api no_kind) items in
      let (x, v3, h2, waited) =
        bind-eq-ok (clear >> ignoring_not_found delete_crd) (λ _. wait) h1 in
      let (y, v1, cleared, deleted) = bind-eq-ok clear (λ _. ignoring_not_found delete_crd) h2 in
      let (v2, e, missing, not_found) = gone v3 waited in
      (
        items,
        v,
        v1,
        v2,
        e,
        loaded,
        each-ok (clear_with_finalizers api no_kind) items v v1 cleared,
        missing,
        not_found,
      )
    where
      wait : Action W (Unit {0})
      wait =
          attempt (poll_immediate (crd_gone get_crd)) pure
            (λ e. raise (described "failed to wait for gateway v1 crd deleted" e))

      gone :
          (v : W)
          → wait v ≡ (ok tt, w)
          → (v' : W) × (e : Error) × (get_crd v' ≡ (err e, w)) × (is_not_found e ≡ true)
      gone v k = elim (attempt-eq-ok (poll_immediate (crd_gone get_crd)) _ _ k) [
        | inr (e, x, failed, k') ↦ cc
        | inl (y, x, polled, k') ↦
            let (v', held) = polls (crd_gone get_crd) v x polled in
            let (e, failed, missing) = crd_gone-true get_crd v' x held in
            (v', e, failed ∙ ap (λ (p : Result (Unit {0}) × W). (err e, p.1)) k', missing)
      ]
