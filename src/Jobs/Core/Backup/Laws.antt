-- ===== src/Jobs/Core/Backup/Laws.antt =====
-- What a deletion has backed up, what a rollback brings back, and the webhooks that are never
-- backed up.
use ks_upgrade.Jobs.Objects.{Object, Api, is_empty}
use ks_upgrade.Base.{
  String, ℤ, ◌≡◌, refl, ap, sym, ◌∙◌, ◌⊎◌, inl, inr, Bool, true, false, Bool-cases, if◌then◌else◌,
  All, List, [], Error, Result, ok, err, panic, is_backup_key_not_found, is_not_found, ok-injective,
}
use ks_upgrade.Base.Action.{Action, pure, raise, lift, ◌>>=◌, ◌>>◌, continue, on_result, bind-eq-ok}
use ks_upgrade.Base.Loops.{each, each-ok, Ran-All}
use ks_upgrade.Storage.{Bytes, Storage, Keeps}
use ks_upgrade.Store.{Codec, load, save}
use ks_upgrade.Jobs.Core.Backup.{
  finalized, unversioned, delete_object, recover_object, back_up, with_backup,
}

-- What is relied on of the API server: an object that was read or created is there, and reading
-- and creating others leaves it there.
pub record Presence {W S : Type 0} (api : Api W S) (Present : String → String → W → Type 0)
    : Type 0 where
  pub got :
      (space name : String) (o : Object S) (u w : W)
      → api.get space name u ≡ (ok o, w)
      → Present space name w
  pub created :
      (o : Object S) (u w : W)
      → api.create o u ≡ (ok tt, w)
      → Present o.meta.namespace o.meta.name w
  pub get_keeps :
      (space name : String) (r : Result (Object S)) (u w : W)
      → api.get space name u ≡ (r, w)
      → (space' name' : String) → Present space' name' u
      → Present space' name' w
  pub create_keeps :
      (o : Object S) (r : Result (Unit {0})) (u w : W)
      → api.create o u ≡ (r, w)
      → (space name : String) → Present space name u
      → Present space name w

module _ {W S : Type 0} (api : Api W S) (Present : String → String → W → Type 0)
    (laws : Presence api Present) where
  -- The object of a recovery was there, or was created where none was found.
  abbrev Recovered : Object S → W → W → Type 0
  Recovered o u w =
      ((o' : Object S) × (api.get o.meta.namespace o.meta.name u ≡ (ok o', w)))
      ⊎ ((e : Error) × (v : W) × (api.get o.meta.namespace o.meta.name u ≡ (err e, v))
          × (is_not_found e ≡ true)
          × (api.create (unversioned o) v ≡ (ok tt, w)))

  recover_object-ok :
      (o : Object S) (u w : W) → recover_object api o u ≡ (ok tt, w) → Recovered o u w
  unfolding recover_object
  recover_object-ok o u w h = go (api.get o.meta.namespace o.meta.name u) refl h
    where
      go :
          (a : Result (Object S) × W)
          → api.get o.meta.namespace o.meta.name u ≡ a
          → ◌≡◌ {A = Result (Unit {0}) × W}
              (on_result a.0
                (λ _. pure tt)
                (λ e. if is_not_found e then api.create (unversioned o) else raise e)
                a.1)
              (ok tt, w)
          → Recovered o u w
      go (ok o', v) e h = inl (o', e ∙ ap (λ (p : Result (Unit {0}) × W). (ok o', p.1)) h)
      go (err f, v) e h = elim (Bool-cases (is_not_found f)) [
        | inl missing ↦ inr (f, v, e, missing, rw (missing) at h)
        | inr other ↦ let k = rw (other) at h in cc
      ]
      go (panic, v) e h = cc

  recover_object-Present :
      (o : Object S) (u w : W)
      → recover_object api o u ≡ (ok tt, w)
      → Present o.meta.namespace o.meta.name w
  recover_object-Present o u w h = elim (recover_object-ok o u w h) [
    | inl (o', read) ↦ laws.got _ _ o' u w read
    | inr (e, v, read, missing, made) ↦ laws.created (unversioned o) v w made
  ]

  recover_object_keeps :
      (b o : Object S) (u w : W)
      → recover_object api o u ≡ (ok tt, w)
      → Present b.meta.namespace b.meta.name u
      → Present b.meta.namespace b.meta.name w
  recover_object_keeps b o u w h p = elim (recover_object-ok o u w h) [
    | inl (o', read) ↦ laws.get_keeps _ _ (ok o') u w read _ _ p
    | inr (e, v, read, missing, made) ↦
        laws.create_keeps (unversioned o) (ok tt) v w made _ _
          (laws.get_keeps _ _ (err e) u v read _ _ p)
  ]

  -- Behind a recovery that succeeds, all its objects are there.
  pub recover_object-All :
      (items : List (Object S)) (u w : W)
      → each (recover_object api) items u ≡ (ok tt, w)
      → All (λ o. Present o.meta.namespace o.meta.name w) items
  recover_object-All items u w h =
      Ran-All (recover_object api) (λ o v. Present o.meta.namespace o.meta.name v)
        recover_object-Present recover_object_keeps (each-ok (recover_object api) items u w h)

module _ {W S : Type 0} (s : Storage W) (codec : Codec (List (Object S))) where
  -- A backup was there and nothing is left to do, or what is chosen of the objects that were
  -- listed was saved, and is left to do.
  abbrev pub BackedUp :
      Action W (List (Object S))
      → String
      → (List (Object S) → List (Object S))
      → List (Object S)
      → W
      → W
      → Type 0
  BackedUp list key chosen m u w =
      ((old : List (Object S)) × (load s codec key u ≡ (ok old, w)) × (m ≡ []))
      ⊎ ((e : Error) × (v v' : W) × (items : List (Object S)) × (load s codec key u ≡ (err e, v))
          × (list v ≡ (ok items, v'))
          × (save s codec key (chosen items) v' ≡ (ok tt, w))
          × (m ≡ chosen items))

  pub back_up-ok :
      (list : Action W (List (Object S))) (key : String)
      (chosen : List (Object S) → List (Object S)) (m : List (Object S)) (u w : W)
      → back_up s codec list key chosen u ≡ (ok m, w)
      → BackedUp list key chosen m u w
  unfolding back_up
  back_up-ok list key chosen m u w h = go (load s codec key u) refl h
    where
      again : Action W (List (Object S))
      again = list >>= λ items. save s codec key (chosen items) >> pure (chosen items)

      go :
          (a : Result (List (Object S)) × W)
          → load s codec key u ≡ a
          → ◌≡◌ {A = Result (List (Object S)) × W}
              (on_result a.0
                (λ _. pure [])
                (λ e. if is_backup_key_not_found e then again else raise e)
                a.1)
              (ok m, w)
          → BackedUp list key chosen m u w
      go (ok old, v) e h = inl (
        old,
        e ∙ ap (λ (p : Result (List (Object S)) × W). (ok old, p.1)) h,
        sym (ok-injective (ap (λ (p : Result (List (Object S)) × W). p.0) h)),
      )
      go (err f, v) e h = elim (Bool-cases (is_backup_key_not_found f)) [
        | inr other ↦ let k = rw (other) at h in cc
        | inl missing ↦
            let k = rw (missing) at h in
            let (items, v', listed, k1) =
              bind-eq-ok list (λ items. save s codec key (chosen items) >> pure (chosen items)) k in
            let (x, v2, saved, k2) =
              bind-eq-ok (save s codec key (chosen items)) (λ _. pure (chosen items)) k1 in
            inr (
              f,
              v,
              v',
              items,
              e,
              listed,
              saved ∙ ap (λ (p : Result (List (Object S)) × W). (ok tt, p.1)) k2,
              sym (ok-injective (ap (λ (p : Result (List (Object S)) × W). p.0) k2)),
            )
      ]
      go (panic, v) e h = cc

  -- Where a backup is found, a recovery is what is done with it.
  pub with_backup-found :
      (key : String) (f : List (Object S) → Action W (Unit {0})) (items : List (Object S)) (u v : W)
      → load s codec key u ≡ (ok items, v)
      → with_backup s codec key f u ≡ f items v
  unfolding with_backup
  with_backup-found key f items u v h =
      ap
        (λ (p : Result (List (Object S)) × W).
          on_result p.0 f (λ e. if is_backup_key_not_found e then pure tt else raise e) p.1)
        h

  -- Behind a save, a load of the key gives the object as long as the storage keeps its bytes.
  abbrev pub Stored : String → List (Object S) → W → Type 0
  Stored key items w = (raw : Bytes) × (s.get key w ≡ (ok raw, w)) × (codec.decode raw ≡ ok items)

  pub save-Stored :
      (key : String) (items : List (Object S)) (u w : W)
      → Keeps s
      → ((raw : Bytes) → codec.marshal items ≡ ok raw → codec.decode raw ≡ ok items)
      → save s codec key items u ≡ (ok tt, w)
      → Stored key items w
  unfolding save
  save-Stored key items u w keeps reads h =
      let (raw, v, marshalled, put) =
        bind-eq-ok (lift (codec.marshal items)) (λ raw. s.put key raw) h in
      (raw, keeps key raw v w put, reads raw (ap (λ (p : Result Bytes × W). p.0) marshalled))

  pub Stored-load :
      (key : String) (items : List (Object S)) (w : W)
      → Stored key items w
      → load s codec key w ≡ (ok items, w)
  unfolding load
  Stored-load key items w (raw, got, read) =
      ap (λ (p : Result Bytes × W). continue p.0 (λ raw. lift (codec.decode raw)) p.1) got
      ∙ ap (λ (r : Result (List (Object S))). (r, w)) read

-- The storage is apart from the objects: a patch and a deletion leave what it reads.
abbrev pub SeparateFrom : {W S : Type 0} → Api W S → Storage W → Type 0
SeparateFrom {W} {S} api s =
    (key : String) (raw : Bytes) (o n : Object S) (r : Result (Unit {0})) (u w : W)
    → (api.patch n o u ≡ (r, w)) ⊎ (api.delete o u ≡ (r, w))
    → s.get key u ≡ (ok raw, u)
    → s.get key w ≡ (ok raw, w)

module _ {W S : Type 0} (s : Storage W) (api : Api W S) (apart : SeparateFrom api s) where
  pub delete_object_keeps :
      (now : W → ℤ) (o : Object S) (key : String) (raw : Bytes) (u w : W)
      → delete_object api now o u ≡ (ok tt, w)
      → s.get key u ≡ (ok raw, u)
      → s.get key w ≡ (ok raw, w)
  unfolding delete_object
  delete_object_keeps now o key raw u w h p = go (is_empty o.meta.finalizers) h
    where
      go :
          (none_left : Bool)
          → ((if none_left then pure tt else api.patch (finalized (now u) o) o) >> api.delete o) u
            ≡ (ok tt, w)
          → s.get key w ≡ (ok raw, w)
      go true h = apart key raw o o (ok tt) u w (inr h) p
      go false h =
          let (x, v, patched, deleted) =
            bind-eq-ok (api.patch (finalized (now u) o) o) (λ _. api.delete o) h in
          apart key raw o o (ok x) v w (inr deleted)
            (apart key raw o (finalized (now u) o) (ok x) u v (inl patched) p)
