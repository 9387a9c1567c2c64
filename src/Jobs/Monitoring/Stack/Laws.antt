-- ===== src/Jobs/Monitoring/Stack/Laws.antt =====
-- What a backup of the monitoring stack has done for each of its objects.
use ks_upgrade.Base.{
  String, ◌≡◌, ap, ◌∙◌, ◌⊎◌, inl, inr, true, false, Bool-cases, if◌then◌else◌, not, Option, none,
  some, List, Error, Result, ok, err, is_backup_key_not_found, is_no_match,
}
use ks_upgrade.Base.Action.{Action, pure, raise, attempt, attempt-eq-ok, guard-eq-ok}
use ks_upgrade.Base.Loops.{each, Through, each-Through}
use ks_upgrade.Storage.{Bytes, Storage, Keeps}
use ks_upgrade.Store.{Codec, load, save}
use ks_upgrade.Store.Laws.{load-save}
use ks_upgrade.Jobs.Objects.{is_absent}
use ks_upgrade.Jobs.Monitoring.Objects.{Resource}
use ks_upgrade.Jobs.Monitoring.Stack.{
  object_key, backup_stack_object, backup_resource, backup_stack,
}

module _ {W Kind Untyped : Type 0} (s : Storage W) (keeps : Keeps s) (codec : Codec Untyped)
    (decodes : (o : Untyped) (raw : Bytes) → codec.marshal o ≡ ok raw → codec.decode raw ≡ ok o)
    (kind_for : Resource → Action W Kind) (with_kind : Option Kind → Untyped → Untyped)
    (get : Resource → String × String → Action W Untyped) where
  -- The object had a backup; or it has none and is absent; or it was read, and its backup is what
  -- was read, with the kind.
  abbrev pub Kept : Resource → Option Kind → String × String → W → W → Type 0
  Kept r kind name u w =
      ((o : Untyped) × (load s codec (object_key r name) u ≡ (ok o, w)))
      ⊎ ((e : Error) × (v : W) × (load s codec (object_key r name) u ≡ (err e, v))
          × (is_backup_key_not_found e ≡ true)
          × (((f : Error) × (get r name v ≡ (err f, w)) × (is_absent f ≡ true))
              ⊎ ((o : Untyped) × (v' : W) × (get r name v ≡ (ok o, v'))
                  × (load s codec (object_key r name) w ≡ (ok (with_kind kind o), w)))))

  backup_stack_object-Kept :
      (r : Resource) (kind : Option Kind) (name : String × String) (u w : W)
      → backup_stack_object s codec kind_for with_kind get r kind name u ≡ (ok tt, w)
      → Kept r kind name u w
  unfolding backup_stack_object
  backup_stack_object-Kept r kind name u w h =
      elim (attempt-eq-ok (load s codec (object_key r name)) _ _ h) [
        | inl (o, v, loaded, rest) ↦
            inl (o, loaded ∙ ap (λ (p : Result (Unit {0}) × W). (ok o, p.1)) rest)
        | inr (e, v, missed, rest) ↦ inr (missing e v missed rest)
      ]
    where
      key : String
      key = object_key r name

      fetch : Action W (Unit {0})
      fetch =
          attempt (get r name) (λ o. save s codec key (with_kind kind o))
            (λ f. if is_absent f then pure tt else raise f)

      fetched :
          (v : W)
          → fetch v ≡ (ok tt, w)
          → ((f : Error) × (get r name v ≡ (err f, w)) × (is_absent f ≡ true))
            ⊎ ((o : Untyped) × (v' : W) × (get r name v ≡ (ok o, v'))
                × (load s codec key w ≡ (ok (with_kind kind o), w)))
      fetched v h = elim (attempt-eq-ok (get r name) _ _ h) [
        | inl (o, v', got, saved) ↦ inr (
          o,
          v',
          got,
          load-save s keeps codec key (with_kind kind o) v' w (decodes (with_kind kind o)) saved,
        )
        | inr (f, v', got, rest) ↦
            let (absent, same) = guard-eq-ok (is_absent f) f rest in
            inl (f, got ∙ ap (λ x. (err f, x)) same, absent)
      ]

      missing :
          (e : Error) (v : W)
          → load s codec key u ≡ (err e, v)
          → (if not (is_backup_key_not_found e) then raise e else fetch) v ≡ (ok tt, w)
          → (e : Error) × (v : W) × (load s codec key u ≡ (err e, v))
            × (is_backup_key_not_found e ≡ true)
            × (((f : Error) × (get r name v ≡ (err f, w)) × (is_absent f ≡ true))
                ⊎ ((o : Untyped) × (v' : W) × (get r name v ≡ (ok o, v'))
                    × (load s codec key w ≡ (ok (with_kind kind o), w))))
      missing e v missed rest = elim (Bool-cases (is_backup_key_not_found e)) [
        | inl unkept ↦ (e, v, missed, unkept, fetched v (rw (unkept) at rest))
        | inr other ↦ let k = rw (other) at rest in cc
      ]

  -- The kind of a resource, or none where no kind matches.
  abbrev pub Matched : Resource → Option Kind → W → W → Type 0
  Matched r none u v = (e : Error) × (kind_for r u ≡ (err e, v)) × (is_no_match e ≡ true)
  Matched r (some kind) u v = kind_for r u ≡ (ok kind, v)

  abbrev pub KeptAll : Resource → W → W → Type 0
  KeptAll r u w =
      (kind : Option Kind) × (v : W) × (Matched r kind u v) × Through (Kept r kind) r.objects v w

  backup_resource-KeptAll :
      (r : Resource) (u w : W)
      → backup_resource s codec kind_for with_kind get r u ≡ (ok tt, w)
      → KeptAll r u w
  unfolding backup_resource
  backup_resource-KeptAll r u w h = elim (attempt-eq-ok (kind_for r) _ _ h) [
    | inl (kind, v, matched, rest) ↦ (some kind, v, matched, all (some kind) v rest)
    | inr (e, v, unmatched, rest) ↦ no_kind e v unmatched rest (Bool-cases (is_no_match e))
  ]
    where
      step : Option Kind → String × String → Action W (Unit {0})
      step kind = backup_stack_object s codec kind_for with_kind get r kind

      all :
          (kind : Option Kind) (v : W)
          → each (step kind) r.objects v ≡ (ok tt, w)
          → Through (Kept r kind) r.objects v w
      all kind v rest =
          each-Through (step kind) (Kept r kind) (backup_stack_object-Kept r kind) r.objects v w
            rest

      no_kind :
          (e : Error) (v : W)
          → kind_for r u ≡ (err e, v)
          → (if not (is_no_match e) then raise e else each (step none) r.objects) v ≡ (ok tt, w)
          → (is_no_match e ≡ true) ⊎ (is_no_match e ≡ false)
          → KeptAll r u w
      no_kind e v unmatched rest (inl none_matches) =
          (none, v, (e, unmatched, none_matches), all none v (rw (none_matches) at rest))
      no_kind e v unmatched rest (inr other) = let k = rw (other) at rest in cc

  -- If the storage keeps what was put, and the decoder reads what the codec wrote, then a backup of
  -- the monitoring stack that succeeds has gone through the resources and their objects in order;
  -- each resource has a kind, or no kind matches it; and each object had a backup, or is absent, or
  -- was read, and its backup is what was read with the kind of its resource.
  pub backup_stack-ok :
      (resources : List Resource) (u w : W)
      → backup_stack s codec kind_for with_kind get resources u ≡ (ok tt, w)
      → Through KeptAll resources u w
  unfolding backup_stack
  backup_stack-ok resources u w h =
      each-Through (backup_resource s codec kind_for with_kind get) KeptAll backup_resource-KeptAll
        resources u w h
