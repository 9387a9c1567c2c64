-- ===== src/Examples/Memory.antt =====
-- A storage in memory, for the runs of pkg/store and pkg/jobs/iam.
use ks_upgrade.Base.{
  ◌≡◌, refl, ap, subst, Option, none, some, backup_key_not_found, Result, ok, err, eq_refl,
}
use ks_upgrade.Base.Action.{Action}
use ks_upgrade.Base.Dict
use ks_upgrade.Base.Dict.{Dict}
use ks_upgrade.Storage.{Rereads, Bytes, Storage, Keeps}
use ks_upgrade.Store.{Codec}

abbrev pub found : Option Bytes → Action (Dict Bytes) Bytes
found none w = (err backup_key_not_found, w)
found (some b) w = (ok b, w)

abbrev pub memory : Storage (Dict Bytes)
memory = record {
  put = λ k object w. (ok tt, Dict.insert k object w);
  get = λ k w. found (Dict.lookup k w) w;
  delete = λ k w. (ok tt, Dict.erase k w);
}

pub memory-Keeps : Keeps memory
memory-Keeps k object u w h =
    let there : Dict.lookup k (Dict.insert k object u) ≡ some object =
      rw (Dict.lookup-insert, eq_refl k) refl in
    subst (λ (x : Dict Bytes). found (Dict.lookup k x) x ≡ (ok object, x))
      (ap (λ (p : Result (Unit {0}) × Dict Bytes). p.1) h)
      (ap (λ o. found o (Dict.insert k object u)) there)

pub memory-Rereads : Rereads memory
memory-Rereads k object u w h = go (Dict.lookup k u) refl h
  where
    go :
        (o : Option Bytes)
        → Dict.lookup k u ≡ o
        → found o u ≡ (ok object, w)
        → found (Dict.lookup k w) w ≡ (ok object, w)
    go none e h = cc
    go (some b) e h =
        subst (λ (x : Dict Bytes). found (Dict.lookup k x) x ≡ (ok object, x))
          (ap (λ (p : Result Bytes × Dict Bytes). p.1) h)
          (rw (e, found) (ap (λ (p : Result Bytes × Dict Bytes). (p.0, u)) h))

abbrev pub plain : Codec Bytes
plain = record { marshal = ok; decode = ok }
