-- ===== src/Jobs/Iam/Migration/Stored.antt =====
-- What is stored of the objects of a resource is what a migration will load.
use ks_upgrade.Base.{
  Bool, false, [], ◌∷◌, Option, none, some, Result, err, panic, if◌then◌else◌, subst, ok-injective,
  sym, refl, String, ◌≡◌, ℤ, pos, lt_int, true, List, ok,
}
use ks_upgrade.Base.Action.{Action, lift, ◌>>=◌, bind-eq-ok, lift-bind-ok}
use ks_upgrade.Storage.{Storage, Keeps}
use ks_upgrade.Store.{Codec}
use ks_upgrade.Jobs.Iam.Filters.{StoreOption}
use ks_upgrade.Jobs.Iam.Migration.{filter_items, filtered_items, object_key, store_option}
use ks_upgrade.Jobs.Iam.Objects.{OldObject}
use ks_upgrade.Jobs.Iam.Snapshot.{TimestampedData, store_object_with_timestamp, load_recent_object}
use ks_upgrade.Jobs.Iam.Snapshot.Laws.{Reads, load_recent_object-store}

-- The objects of a list that a filter lets through, in their order; it was asked for each of them
-- and gave no error.
pub data Passing {A : Type 0} (p : A → Result Bool) : List A → List A → Type 0 where
  none_left : Passing p [] []
  passes :
      {a : A} {items kept : List A}
      → p a ≡ ok true
      → Passing p items kept
      → Passing p (a ∷ items) (a ∷ kept)
  is_dropped :
      {a : A} {items kept : List A}
      → p a ≡ ok false
      → Passing p items kept
      → Passing p (a ∷ items) kept

-- Where there is no filter, all objects are let through.
abbrev pub LetThrough : {A : Type 0} → Option (A → Result Bool) → List A → List A → Type 0
LetThrough none items kept = kept ≡ items
LetThrough (some p) items kept = Passing p items kept

filter_items-Passing :
    {A : Type 0} (p : A → Result Bool) (items kept : List A)
    → filter_items p items ≡ ok kept
    → Passing p items kept
unfolding filter_items
filter_items-Passing p [] kept h = subst (Passing p []) (ok-injective h) none_left
filter_items-Passing {A} p (a ∷ items) kept h =
    go (λ rest. filter_items-Passing p items rest) (p a) refl (filter_items p items) refl h
  where
    go :
        ((rest : List A) → filter_items p items ≡ ok rest → Passing p items rest)
        → (b : Result Bool) → p a ≡ b
        → (rest : Result (List A)) → filter_items p items ≡ rest
        → elim b [
          | err e ↦ err e
          | panic ↦ panic
          | ok keep ↦ elim rest [
            | err e ↦ err e
            | panic ↦ panic
            | ok kept ↦ ok (if keep then a ∷ kept else kept)
          ]
        ]
          ≡ ok kept
        → Passing p (a ∷ items) kept
    go passing (ok true) asked (ok rest) filtered h =
        subst (Passing p (a ∷ items)) (ok-injective h) (passes asked (passing rest filtered))
    go passing (ok false) asked (ok rest) filtered h =
        subst (Passing p (a ∷ items)) (ok-injective h) (is_dropped asked (passing rest filtered))
    go passing (ok b) asked (err e) filtered h = cc
    go passing (ok b) asked panic filtered h = cc
    go passing (err e) asked rest filtered h = cc
    go passing panic asked rest filtered h = cc

filtered_items-LetThrough :
    {A : Type 0} (f : Option (A → Result Bool)) (items kept : List A)
    → filtered_items f items ≡ ok kept
    → LetThrough f items kept
unfolding filtered_items
filtered_items-LetThrough none items kept h = ok-injective (sym h)
filtered_items-LetThrough (some p) items kept h = filter_items-Passing p items kept h

module _ {W Raw : Type 0} (s : Storage W) (now : W → ℤ) (json : Codec (List TimestampedData))
    (lists : String → Codec (List (OldObject Raw)))
    (list : String → Action W (List (OldObject Raw))) where
  -- If the storage keeps what was put, the decoders read what `Marshal` wrote and the clock shows
  -- a time behind 1970, then behind a resource that was stored without an error, the list that a
  -- migration loads holds exactly those of its objects that its filter lets through, in their order,
  -- or all of them where it has no filter.
  pub store_option-loaded :
      Keeps s
      → Reads json
      → ((resource : String) → Reads (lists resource))
      → ((w : W) → lt_int (pos 0) (now w) ≡ true)
      → (o : StoreOption Raw) (u w : W) → store_option s now json lists list o u ≡ (ok tt, w)
      → (items kept : List (OldObject Raw)) × (v : W) × (list o.resource u ≡ (ok items, v))
        × LetThrough o.filter_func items kept
        × (load_recent_object s json (lists o.resource) (object_key o.resource) w ≡ (ok kept, w))
  unfolding store_option
  store_option-loaded keeps reads list_reads later o u w h =
      let (items, v, listed, rest) =
        bind-eq-ok (list o.resource)
          (λ items. lift (filtered_items o.filter_func items) >>= λ kept.
            store_object_with_timestamp s now json (lists o.resource) (object_key o.resource) kept)
          h in
      let (kept, passed, stored) =
        lift-bind-ok (filtered_items o.filter_func items)
          (store_object_with_timestamp s now json (lists o.resource) (object_key o.resource))
          rest in
      (
        items,
        kept,
        v,
        listed,
        filtered_items-LetThrough o.filter_func items kept passed,
        load_recent_object-store s now json (lists o.resource) keeps reads (list_reads o.resource)
            later (object_key o.resource) kept v w stored,
      )
