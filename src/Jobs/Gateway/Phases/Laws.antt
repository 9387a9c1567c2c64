-- ===== src/Jobs/Gateway/Phases/Laws.antt =====
-- A job that is done is left alone, and what a dynamic upgrade has gone through.
use ks_upgrade.Base.{
  ◌≢◌, All, [], ◌∷◌, ◌++◌, sym, refl, eq_iff, String, ◌<>◌, ◌≡◌, ap, ◌∙◌, ◌⊎◌, inl, inr, Bool, true,
  false, Bool-cases, if◌then◌else◌, ◌||◌, List, Error, described, Result, ok, err,
  is_release_not_found, ok-injective, ◌==◌, arith,
}
use ks_upgrade.Base.Action.{
  Action, pure, raise, ◌>>◌, attempt, bind-eq-ok, attempt-eq-ok, guard-eq-ok,
}
use ks_upgrade.Storage.{Bytes, Storage, Keeps, Rereads}
use ks_upgrade.Jobs.Objects.{Object, is_empty}
use ks_upgrade.Jobs.Done.Laws.{unless_done_again}
use ks_upgrade.Jobs.Gateway.Objects.{GatewayOptions, GatewaySpec}
use ks_upgrade.Jobs.Gateway.Convert.{find_named}
use ks_upgrade.Jobs.Gateway.Convert.Laws.{NewName, new_name-NewName}
use ks_upgrade.Jobs.Gateway.Clean.{Release, is_release_ready, release_ready}
use ks_upgrade.Jobs.Gateway.Phases.{
  Steps, gateway_pre_upgrade, gateway_post_upgrade, release_of, upgrade_found_gateway,
  gateway_dynamic_upgrade,
}

module _ {W : Type 0} (s : Storage W) (keeps : Keeps s) (rereads : Rereads s) (now : W → Bytes)
    (timed : (x : W) → is_empty (now x) ≡ false) where
  -- If the storage keeps what was put and reads again what it read, and a time is never printed as
  -- the empty text, then behind a post-upgrade of the gateway job that succeeded, its pre-upgrade
  -- and its post-upgrade, if they are not asked to run again, succeed and change nothing, whatever
  -- their steps would do.
  pub gateway_phases_again :
      (options options' : GatewayOptions) (steps steps' : Steps W) (u w : W)
      → options'.rerun ≡ false
      → gateway_post_upgrade s now options steps u ≡ (ok tt, w)
      → (gateway_pre_upgrade s now options' steps' w ≡ (ok tt, w))
        × (gateway_post_upgrade s now options' steps' w ≡ (ok tt, w))
  unfolding gateway_pre_upgrade gateway_post_upgrade
  gateway_phases_again options options' steps steps' u w once h = (
    rw (once) (unless_done_again s keeps rereads now "gateway-done" options.rerun _ _ u w timed h),
    rw (once) (unless_done_again s keeps rereads now "gateway-done" options.rerun _ _ u w timed h),
  )

-- The gateway of a name, the first of a list, and where its release is.
abbrev pub Target : {S : Type 0} → String → List (Object S) → String → String → Type 0
Target {S} name items space release =
    (All (λ o. o.meta.name ≢ name) items × (space ≡ "") × (release ≡ ""))
    ⊎ ((before after : List (Object S)) × (o : Object S) × (items ≡ before ++ o ∷ after)
        × All (λ o. o.meta.name ≢ name) before
        × (o.meta.name ≡ name)
        × (space ≡ o.meta.namespace)
        × NewName o release)

other_name : {n m : String} → (n == m) ≡ false → m ≢ n
other_name {n} {m} h e = let k = (eq_iff n m).1 (sym e) in cc

find_named-Target :
    {S : Type 0} (name : String) (items : List (Object S))
    → Target name items
        (release_of (find_named name items)).0
        (release_of (find_named name items)).1
unfolding find_named
find_named-Target name [] = inl (tt, refl, refl)
find_named-Target name (o ∷ items) = elim (Bool-cases (name == o.meta.name)) [
  | inl found ↦ rw (found) (
      inr
        ([], items, o, refl, tt, sym ((eq_iff name o.meta.name).0 found), refl, new_name-NewName o))
  | inr other ↦ rw (other) (behind o items (other_name other) (find_named-Target name items))
]
  where
    behind :
        {S : Type 0} {name space release : String} (o : Object S) (items : List (Object S))
        → o.meta.name ≢ name
        → Target name items space release
        → Target name (o ∷ items) space release
    behind o items other (inl (none_named, s, r)) = inl ((other, none_named), s, r)
    behind o items other (inr (before, after, x, split, apart, n, s, r)) =
        inr (o ∷ before, after, x, ap (λ l. o ∷ l) split, (other, apart), n, s, r)

release_ready-true :
    {W : Type 0} (status : Action W Release) (u w : W)
    → release_ready status u ≡ (ok true, w)
    → (r : Release) × (status u ≡ (ok r, w)) × (is_release_ready r ≡ true)
unfolding release_ready
release_ready-true {W} status u w h = elim (attempt-eq-ok status _ _ h) [
  | inl (r, v, got, k) ↦ (
    r,
    got ∙ ap (λ (p : Result Bool × W). (ok r, p.1)) k,
    ok-injective (ap (λ (p : Result Bool × W). p.0) k),
  )
  | inr (e, v, failed, k) ↦ cc
]

module _ {W Raw : Type 0} (load : Action W (List (Object (GatewaySpec Raw))))
    (uninstall : String → String → Action W (Unit {0}))
    (get_release : String → String → Action W Release)
    (poll_immediate : Action W Bool → Action W (Unit {0}))
    (upgrade_gateway upgrade_ingress : String → Action W (Unit {0}))
    (polls : (condition : Action W Bool) (u w : W)
      → poll_immediate condition u ≡ (ok tt, w)
      → (v : W) × (condition v ≡ (ok true, w))) where
  -- The old release was uninstalled or not found, the gateway was upgraded, a release of either
  -- the new version or the status of a deployed one was read, and the ingresses were upgraded.
  abbrev pub Upgraded : String → String × String → W → W → Type 0
  Upgraded name (space, release) u w =
      (v v1 v2 v3 : W) × (r : Release) × ((uninstall space (name <> "-ingress") u ≡ (ok tt, v))
        ⊎ ((e : Error) × (uninstall space (name <> "-ingress") u ≡ (err e, v))
            × (is_release_not_found e ≡ true)))
      × (upgrade_gateway name v ≡ (ok tt, v1))
      × (get_release space release v2 ≡ (ok r, v3))
      × (((r.app_version == "1.12.1") || (r.status == "deployed")) ≡ true)
      × (upgrade_ingress name v3 ≡ (ok tt, w))

  upgrade_found_gateway-ok :
      (name : String) (target : String × String) (u w : W)
      → upgrade_found_gateway load uninstall get_release poll_immediate upgrade_gateway
          upgrade_ingress name target u
        ≡ (ok tt, w)
      → Upgraded name target u w
  unfolding upgrade_found_gateway
  upgrade_found_gateway-ok name (space, release) u w h =
      let (x3, v3, h3, ingressed) =
        bind-eq-ok (clear >> upgrade_gateway name >> wait) (λ _. upgrade_ingress name) h in
      let (x2, v2, h2, waited) = bind-eq-ok (clear >> upgrade_gateway name) (λ _. wait) h3 in
      let (x1, v1, cleared, upgraded) = bind-eq-ok clear (λ _. upgrade_gateway name) h2 in
      let (v', r, got, ready) = ready_release v2 v3 waited in
      (v1, v2, v', v3, r, uninstalled v1 cleared, upgraded, got, ready, ingressed)
    where
      clear : Action W (Unit {0})
      clear =
          attempt (uninstall space (name <> "-ingress")) pure
            (λ e. if is_release_not_found e then pure tt else raise e)

      wait : Action W (Unit {0})
      wait =
          attempt (poll_immediate (release_ready (get_release space release))) pure
            (λ e. raise (described "Error waiting for ingress-nginx helm release upgrade done" e))

      uninstalled :
          (v : W)
          → clear u ≡ (ok tt, v)
          → (uninstall space (name <> "-ingress") u ≡ (ok tt, v))
            ⊎ ((e : Error) × (uninstall space (name <> "-ingress") u ≡ (err e, v))
                × (is_release_not_found e ≡ true))
      uninstalled v k = elim (attempt-eq-ok (uninstall space (name <> "-ingress")) _ _ k) [
        | inl (y, v', gone, k') ↦ inl (gone ∙ ap (λ (p : Result (Unit {0}) × W). (ok tt, p.1)) k')
        | inr (e, v', failed, k') ↦
            let (missing, same) = guard-eq-ok (is_release_not_found e) e k' in
            inr (e, failed ∙ ap (λ (x : W). (err e, x)) same, missing)
      ]

      ready_release :
          (v w : W)
          → wait v ≡ (ok tt, w)
          → (v' : W) × (r : Release) × (get_release space release v' ≡ (ok r, w))
            × (((r.app_version == "1.12.1") || (r.status == "deployed")) ≡ true)
      ready_release v w k =
          elim (attempt-eq-ok (poll_immediate (release_ready (get_release space release))) _ _ k) [
            | inr (e, x, failed, k') ↦ cc
            | inl (y, x, polled, k') ↦
                let (v', held) = polls (release_ready (get_release space release)) v x polled in
                let (r, got, ready) = release_ready-true (get_release space release) v' x held in
                (v', r, got ∙ ap (λ (p : Result (Unit {0}) × W). (ok r, p.1)) k', ground arith)
          ]

  -- If a poll returns without an error only when its condition held last, then a dynamic upgrade
  -- that succeeds has a name of a gateway and loaded the gateways; the release that it looks for is
  -- that of the first gateway with the name, in its namespace and under its new name, and has no
  -- name and no namespace if there is none; in that namespace it uninstalled the old release or did
  -- not find it, upgraded the gateway, read the release, which has the new version or the status of
  -- a deployed one, and upgraded the ingresses.
  pub gateway_dynamic_upgrade-ok :
      (options : GatewayOptions) (u w : W)
      → gateway_dynamic_upgrade load uninstall get_release poll_immediate upgrade_gateway
          upgrade_ingress options u
        ≡ (ok tt, w)
      → ((options.gateway_name == "") ≡ false)
        × ((items : List (Object (GatewaySpec Raw))) × (v : W) × (load u ≡ (ok items, v))
            × ((space release : String) × Target options.gateway_name items space release
                × Upgraded options.gateway_name (space, release) v w))
  unfolding gateway_dynamic_upgrade
  gateway_dynamic_upgrade-ok options u w h = elim (Bool-cases (options.gateway_name == "")) [
    | inl nameless ↦ let k = rw (nameless) at h in cc
    | inr named ↦
        let k = rw (named) at h in
        let (items, v, loaded, k') = bind-eq-ok load _ k in
        (
          named,
          (
            items,
            v,
            loaded,
            (
              (release_of (find_named options.gateway_name items)).0,
              (release_of (find_named options.gateway_name items)).1,
              find_named-Target options.gateway_name items,
              upgrade_found_gateway-ok options.gateway_name
                  (release_of (find_named options.gateway_name items)) v w k',
            ),
          ),
        )
  ]
