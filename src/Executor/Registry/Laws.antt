-- ===== src/Executor/Registry/Laws.antt =====
-- Registering keeps the names apart, and the jobs that are built from the factories do not depend
-- on the order in which Go ranges over the map.
use mathlib.Core.List.{Permᴰ, filter_map, append_assoc, append-nil}
use mathlib.Core.List.Permᴰ
use ks_upgrade.Base.{
  String, Bool, true, false, if◌then◌else◌, List, [], ◌∷◌, ◌++◌, Option, none, some, ◌&&◌, ap₂, ◌≡◌,
  refl, ◌∙◌, sym, ap, inl, inr, Bool-cases, has_key, DistinctBy, arith, ◌==◌, Result, ok,
  Result-view, is_ok, is_err, is_panic,
}
use ks_upgrade.Base.Dict
use ks_upgrade.Base.Dict.{Dict, NodupKeys}
use ks_upgrade.Executor.Job.{UpgradeJob, NamedUpgradeJob, JobOptions, JobFactory}
use ks_upgrade.Executor.Order.{sort_jobs}
use ks_upgrade.Executor.Order.Laws.{IsSorted, sort_jobs-IsSorted, sort_jobs-perm, sort_jobs-perm_eq}
use ks_upgrade.Executor.Registry.{register, visit_factory, collect_jobs, new_jobs}

and_true : {a b : Bool} → (a && b) ≡ true → (a ≡ true) × (b ≡ true)
and_true {a} {b} h = ground arith

module _ {W Options : Type 0} where
  named : String → JobOptions Options → Result (UpgradeJob W) → Option (NamedUpgradeJob W)
  named name o (ok job) = some (record { name = name; priority = o.priority; upgrade_job = job })
  named name o _ = none

module _ {W : Type 0} where
  creates : Result (UpgradeJob W) → Bool
  creates (ok job) = true
  creates _ = false

module _ {W Options : Type 0} (options : Dict (JobOptions Options)) where
  -- The job that an entry of the map contributes, if any.
  unfoldable pub job_of : String × JobFactory W Options → Option (NamedUpgradeJob W)
  unfolding named
  job_of (name, factory) = elim (Dict.lookup name options) [
    | none ↦ none
    | some o ↦ if o.enabled then named name o (factory.create o.options) else none
  ]

  entry_works : String × JobFactory W Options → Bool
  unfolding creates
  entry_works (name, factory) = elim (Dict.lookup name options) [
    | none ↦ true
    | some o ↦ if o.enabled then creates (factory.create o.options) else true
  ]

  all_work : Dict (JobFactory W Options) → Bool
  all_work [] = true
  all_work (e ∷ es) = entry_works e && all_work es

  abbrev pub built : Dict (JobFactory W Options) → List (NamedUpgradeJob W)
  built = filter_map job_of

  contributed : String × JobFactory W Options → List (NamedUpgradeJob W)
  unfolding job_of
  contributed e = elim (job_of e) [ none ↦ [] | some job ↦ job ∷ [] ]

  filter_map-eq-contributed :
      (e : String × JobFactory W Options) (fs : Dict (JobFactory W Options))
      → built (e ∷ fs) ≡ contributed e ++ built fs
  unfolding filter_map contributed
  filter_map-eq-contributed (name, factory) fs = ground arith

  visit_factory_works :
      (e : String × JobFactory W Options) (jobs : List (NamedUpgradeJob W))
      → entry_works e ≡ true
      → visit_factory options e jobs ≡ ok (jobs ++ contributed e)
  unfolding visit_factory entry_works contributed
  visit_factory_works (name, factory) jobs h = ground (arith, append-nil jobs)

  visit_factory→works :
      (e : String × JobFactory W Options) (jobs js : List (NamedUpgradeJob W))
      → visit_factory options e jobs ≡ ok js
      → entry_works e ≡ true
  unfolding visit_factory entry_works
  visit_factory→works (name, factory) jobs js h = ground arith

  collect_jobs-eq-built :
      (fs : Dict (JobFactory W Options)) (jobs : List (NamedUpgradeJob W))
      → all_work fs ≡ true
      → collect_jobs options fs jobs ≡ ok (jobs ++ built fs)
  unfolding collect_jobs all_work
  collect_jobs-eq-built [] jobs h = unfold filter_map in rw append-nil
  collect_jobs-eq-built (e ∷ fs) jobs h =
      let (works, rest) = and_true h in
      rw (visit_factory_works e jobs works, collect_jobs)
        (rw (collect_jobs-eq-built fs _ rest, filter_map-eq-contributed, append_assoc))

  collect_jobs→all_work :
      (fs : Dict (JobFactory W Options)) (jobs js : List (NamedUpgradeJob W))
      → collect_jobs options fs jobs ≡ ok js
      → all_work fs ≡ true
  unfolding collect_jobs all_work
  collect_jobs→all_work [] jobs js h = refl
  collect_jobs→all_work (e ∷ fs) jobs js h = elim (Result-view (visit_factory options e jobs)) [
    | is_ok jobs' v ↦
        rw (visit_factory→works e jobs jobs' v)
          (collect_jobs→all_work fs jobs' js (rw (v, collect_jobs) at h))
    | is_err x v ↦ let k = rw (v, collect_jobs) at h in cc
    | is_panic v ↦ let k = rw (v, collect_jobs) at h in cc
  ]

  all_work-perm : {fs gs : Dict (JobFactory W Options)} → Permᴰ fs gs → all_work fs ≡ all_work gs
  unfolding all_work
  all_work-perm Permᴰ.nil = refl
  all_work-perm (Permᴰ.cons e p) = ap₂ (λ a b. entry_works a && b) e (all_work-perm p)
  all_work-perm (Permᴰ.swap {a} {b} {l = l} e f) = rw (← e, ← f) (ground arith)
  all_work-perm (Permᴰ.trans p q) = all_work-perm p ∙ all_work-perm q

  has_key-built :
      (k : String) (fs : Dict (JobFactory W Options))
      → Dict.has k fs ≡ false
      → has_key (λ j. j.name) (built fs) k ≡ false
  unfolding has_key job_of filter_map
  has_key-built k [] h = refl
  has_key-built k ((name, factory) ∷ fs) h = ground (arith, has_key-built k fs)

  DistinctBy-built :
      (fs : Dict (JobFactory W Options)) → NodupKeys fs → DistinctBy (λ j. j.name) (built fs)
  unfolding job_of filter_map has_key
  DistinctBy-built [] u = tt
  DistinctBy-built ((name, factory) ∷ fs) u =
      ground (arith, DistinctBy-built fs u.1, has_key-built name fs u.0)

  collect_jobs-perm :
      {fs gs : Dict (JobFactory W Options)} {js : List (NamedUpgradeJob W)}
      → Permᴰ fs gs
      → collect_jobs options fs [] ≡ ok js
      → (js ≡ built fs) × (collect_jobs options gs [] ≡ ok (built gs))
  collect_jobs-perm {fs} {gs} {js} p h =
      let works = collect_jobs→all_work fs [] js h in
      (
        cc (collect_jobs-eq-built fs [] works),
        collect_jobs-eq-built gs [] (rw (← all_work-perm p) works),
      )

  -- Go ranges over the map of factories in any order. If the jobs are built in one order, then
  -- the same jobs are built, in the same final order, in every other.
  pub new_jobs-perm :
      {fs gs : Dict (JobFactory W Options)} {js : List (NamedUpgradeJob W)}
      → Permᴰ fs gs
      → NodupKeys fs
      → new_jobs options fs ≡ ok js
      → new_jobs options gs ≡ ok js
  unfolding new_jobs
  new_jobs-perm {fs} {gs} {js} p u h = elim (Result-view (collect_jobs options fs [])) [
    | is_ok xs v ↦
        let (e, w) = collect_jobs-perm p v in
        rw (w, new_jobs)
          (ap ok (sym (sort_jobs-perm_eq (Permᴰ.filter_map job_of p) (DistinctBy-built fs u)))
            ∙ rw (v, e, new_jobs) at h)
    | is_err x v ↦ let k = rw (v, new_jobs) at h in cc
    | is_panic v ↦ let k = rw (v, new_jobs) at h in cc
  ]

  -- The jobs of an executor are those of the enabled entries, each once, and each runs before the
  -- jobs behind it: by falling priority, and by name among equal priorities.
  pub new_jobs-IsSorted :
      (fs : Dict (JobFactory W Options)) (js : List (NamedUpgradeJob W))
      → new_jobs options fs ≡ ok js
      → IsSorted js × Permᴰ js (built fs)
  unfolding new_jobs
  new_jobs-IsSorted fs js h = elim (Result-view (collect_jobs options fs [])) [
    | is_ok xs v ↦
        let e : sort_jobs xs ≡ js = cc (rw (v, new_jobs) at h) in
        (
          rw (← e) (sort_jobs-IsSorted xs),
          rw (← e, (collect_jobs-perm (Permᴰ.refl fs) v).0) (sort_jobs-perm (built fs)),
        )
    | is_err x v ↦ let k = rw (v, new_jobs) at h in cc
    | is_panic v ↦ let k = rw (v, new_jobs) at h in cc
  ]

-- A factory is registered only under a name that is new. The names stay apart, the factory is
-- found under its name, and all other names keep their factories.
pub register_lem :
    {W Options : Type 0} (f : JobFactory W Options) (fs gs : Dict (JobFactory W Options))
    → NodupKeys fs
    → register f fs ≡ ok gs
    → NodupKeys gs
      × (Dict.lookup f.name fs ≡ none)
      × ((k : String) → Dict.lookup k gs ≡ (if f.name == k then some f else Dict.lookup k fs))
unfolding register
register_lem f fs gs u h = elim (Bool-cases (Dict.has f.name fs)) [
  | inl old ↦ let k = rw old at h in cc
  | inr new ↦
      let e : Dict.insert f.name f fs ≡ gs = cc (rw new at h) in
      rw (← e) (
        Dict.insert-NodupKeys f.name f fs u,
        Dict.lookup_of_not-has f.name fs new,
        λ k. Dict.lookup-insert f.name k f fs,
      )
]
