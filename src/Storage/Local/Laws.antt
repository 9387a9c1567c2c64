-- ===== src/Storage/Local/Laws.antt =====
-- A local directory keeps what was put, and forgets what was deleted.
use ks_upgrade.Base.{
  String, [], ◌≡◌, ap, ok, err, ◌∙◌, Result, Option, none, some, not_exist, backup_key_not_found,
  inl, inr,
}
use ks_upgrade.Base.Action.{raise, on_result, bind-eq-ok, attempt-eq-ok}
use ks_upgrade.Storage.{Bytes, Keeps, Storage}
use ks_upgrade.Storage.Local.{FileSystem, key_error, put, get, delete, local_file_storage}

-- What is relied on of each call by itself, with what a file holds: opening for writing leaves an
-- empty file, writing into an empty file fills it, a removal leaves no file, a file that is there can
-- be opened and read, and opening a missing one says that it does not exist.
pub record FileLaws {W : Type 0} (fs : FileSystem W) (holds : W → String → Option Bytes)
    : Type 0 where
  pub truncates :
      (file : String) (u v : W) → fs.open_truncated file u ≡ (ok tt, v) → holds v file ≡ some []
  pub fills :
      (file : String) (object : Bytes) (v w : W)
      → holds v file ≡ some []
      → fs.write file object v ≡ (ok tt, w)
      → holds w file ≡ some object
  pub removes : (file : String) (u w : W) → fs.remove file u ≡ (ok tt, w) → holds w file ≡ none
  pub opens :
      (file : String) (object : Bytes) (w : W)
      → holds w file ≡ some object
      → fs.open_file file w ≡ (ok tt, w)
  pub reads :
      (file : String) (object : Bytes) (w : W)
      → holds w file ≡ some object
      → fs.read_from file w ≡ (ok object, w)
  pub misses :
      (file : String) (w : W) → holds w file ≡ none → fs.open_file file w ≡ (err not_exist, w)

-- A key that was deleted is not found, and looking for it changes nothing.
abbrev pub Forgets : {W : Type 0} → Storage W → Type 0
Forgets {W} s =
    (k : String) (u w : W) → s.delete k u ≡ (ok tt, w) → s.get k w ≡ (err backup_key_not_found, w)

module _ {W : Type 0} (fs : FileSystem W) (holds : W → String → Option Bytes)
    (laws : FileLaws fs holds) where
  get_held :
      (path k : String) (object : Bytes) (w : W)
      → holds w (fs.join path k) ≡ some object
      → get fs path k w ≡ (ok object, w)
  unfolding get
  get_held path k object w held =
      ap
        (λ (p : Result (Unit {0}) × W).
          on_result p.0 (λ _. fs.read_from (fs.join path k)) (λ e. raise (key_error e)) p.1)
        (laws.opens (fs.join path k) object w held)
      ∙ laws.reads (fs.join path k) object w held

  get_missing :
      (path k : String) (w : W)
      → holds w (fs.join path k) ≡ none
      → get fs path k w ≡ (err backup_key_not_found, w)
  unfolding get key_error
  get_missing path k w missing =
      ap
        (λ (p : Result (Unit {0}) × W).
          on_result p.0 (λ _. fs.read_from (fs.join path k)) (λ e. raise (key_error e)) p.1)
        (laws.misses (fs.join path k) w missing)

  -- If opening a file for writing empties it, writing into an empty file fills it, a removal leaves
  -- no file, a file that is there is opened and read, and a missing one is said not to exist, then a
  -- local directory keeps what was put, and a key that was deleted is not found, in the error of the
  -- storage.
  pub local_file_storage-Keeps :
      (path : String) → Keeps (local_file_storage fs path) × Forgets (local_file_storage fs path)
  unfolding local_file_storage put get delete
  local_file_storage-Keeps path = (keeps, forgets)
    where
      keeps : Keeps (local_file_storage fs path)
      keeps k object u w h =
          let (x, v, opened, written) =
            bind-eq-ok (fs.open_truncated (fs.join path k)) (λ _. fs.write (fs.join path k) object)
              h in
          get_held path k object w (
            laws.fills (fs.join path k) object v w (laws.truncates (fs.join path k) u v opened)
              written)

      forgets : Forgets (local_file_storage fs path)
      forgets k u w h = elim (attempt-eq-ok (fs.remove (fs.join path k)) _ _ h) [
        | inl (x, v, removed, same) ↦ get_missing path k w (
            laws.removes (fs.join path k) u w
              (removed ∙ ap (λ (p : Result (Unit {0}) × W). (ok tt, p.1)) same))
        | inr (e, v, failed, raised) ↦ cc
      ]
