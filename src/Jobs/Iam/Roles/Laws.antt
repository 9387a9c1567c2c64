-- ===== src/Jobs/Iam/Roles/Laws.antt =====
-- Which roles lose their rules.
use ks_upgrade.Base.{
  String, ◌≡◌, ap, sym, subst, ◌∙◌, ◌⊎◌, inl, inr, true, false, Bool-cases, List, [], ◌∷◌, Error,
  Result, ok, described, ◌<>◌,
}
use ks_upgrade.Base.Action.{Action, ◌>>=◌, bind-eq-ok}
use ks_upgrade.Base.Loops.{gather, Ran, gather-ok}
use ks_upgrade.Base.Loops.{aggregated}
use ks_upgrade.Jobs.Iam.Objects.{NewRole}
use ks_upgrade.Jobs.Iam.Roles.{DefaultCustomRoleOption, without_rules, default_role, default_roles}

module _ {W Raw : Type 0} (list : String → Action W (List (NewRole Raw)))
    (update : String → NewRole Raw → Action W (Unit {0})) where
  -- The roles of a list, one behind the other: a custom role was updated without its rules, and
  -- for another one the world did not change.
  pub data Defaulted (o : DefaultCustomRoleOption) : List (NewRole Raw) → W → W → Type 0 where
    done : {w : W} → Defaulted o [] w w
    kept :
        {r : NewRole Raw} {roles : List (NewRole Raw)} {u w : W}
        → o.filter_func r.meta ≡ false
        → Defaulted o roles u w
        → Defaulted o (r ∷ roles) u w
    emptied :
        {r : NewRole Raw} {roles : List (NewRole Raw)} {u v w : W}
        → o.filter_func r.meta ≡ true
        → update o.resource (without_rules r) u ≡ (ok tt, v)
        → Defaulted o roles v w
        → Defaulted o (r ∷ roles) u w

  default_role-ok :
      (o : DefaultCustomRoleOption) (r : NewRole Raw) (u v : W)
      → default_role list update o r u ≡ (ok tt, v)
      → ((o.filter_func r.meta ≡ false) × (u ≡ v))
        ⊎ ((o.filter_func r.meta ≡ true) × (update o.resource (without_rules r) u ≡ (ok tt, v)))
  unfolding default_role
  default_role-ok o r u v h = elim (Bool-cases (o.filter_func r.meta)) [
    | inl custom ↦ inr (custom, rw (custom) at h)
    | inr builtin ↦
        let k = rw (builtin) at h in inl (builtin, ap (λ (p : Result (Unit {0}) × W). p.1) k)
  ]

  Ran→Defaulted :
      (o : DefaultCustomRoleOption) {roles : List (NewRole Raw)} {u w : W}
      → Ran (default_role list update o) roles u w
      → Defaulted o roles u w
  Ran→Defaulted o Ran.done = done
  Ran→Defaulted o (Ran.ran {a} {xs} {u} {v} {w} first rest) = elim (default_role-ok o a u v first) [
    | inl (builtin, same) ↦
        kept builtin (subst (λ x. Defaulted o xs x w) (sym same) (Ran→Defaulted o rest))
    | inr (custom, updated) ↦ emptied custom updated (Ran→Defaulted o rest)
  ]

  -- If the rules of the custom roles of a kind were reset without an error, every custom role
  -- that was listed was updated without its rules, and no other role was touched.
  pub default_roles-ok :
      (o : DefaultCustomRoleOption) (u w : W)
      → default_roles list update o u ≡ (ok tt, w)
      → (roles : List (NewRole Raw)) × (v : W) × (list o.resource u ≡ (ok roles, v))
        × Defaulted o roles v w
  unfolding default_roles
  default_roles-ok o u w h =
      let (roles, v, listed, rest) =
        bind-eq-ok (list o.resource)
          (λ roles.
            gather (λ r e. described ("failed to update resource " <> o.resource) e)
              (default_role list update o) roles
            >>= λ errors. aggregated errors)
          h in
      let (errors, v', gathered, none_left) =
        bind-eq-ok
          (gather (λ r e. described ("failed to update resource " <> o.resource) e)
            (default_role list update o) roles)
          (λ errors. aggregated errors) rest in
      (roles, v, listed, go roles errors v v' gathered none_left)
    where
      go :
          (roles : List (NewRole Raw)) (errors : List Error) (v v' : W)
          → gather
              (λ r e. described ("failed to update resource " <> o.resource) e)
              (default_role list update o)
              roles
              v
            ≡ (ok errors, v')
          → ◌≡◌ {A = Result (Unit {0}) × W} (aggregated errors v') (ok tt, w)
          → Defaulted o roles v w
      go roles [] v v' gathered h = Ran→Defaulted o (
          gather-ok (λ r e. described ("failed to update resource " <> o.resource) e)
            (default_role list update o) roles v w
            (gathered ∙ ap (λ (p : Result (Unit {0}) × W). (ok [], p.1)) h))
      go roles (e ∷ errors) v v' gathered h = cc
