-- ===== src/Config/Laws.antt =====
-- The configuration that `LoadConfig` returns.
use ks_upgrade.Base.{
  String, ◌==◌, eq_iff, ℤ, pos, negsuc, eq_int, false, if◌then◌else◌, List, [], ◌∷◌, ◌++◌, Option,
  none, some, Error, not_exist, is_not_exist, Result, ok, err, ◌≡◌, ◌≢◌, refl, subst, sym,
  ok-injective, ◌∙◌, ◌⊎◌, inl, inr, Bool-cases, Option-cases, arith, Result-view, is_ok, is_err,
  is_panic,
}
use ks_upgrade.Config.Merge.{Fields, merge}
use ks_upgrade.Config.{
  ExtensionsMuseumConfig, ValidatorConfig, Config, validate_museum, validate, no_validators,
  new_default_config, five_minutes, with_validators, merge_files, load_from_file, load_config,
}

-- Every field that has a default holds a value.
pub record IsValidated (c : ExtensionsMuseumConfig) : Type 0 where
  pub has_namespace : c.namespace ≢ ""
  pub has_name : c.name ≢ ""
  pub has_timeout : c.watch_timeout ≢ pos 0

if_empty : (s t : String) → t ≢ "" → (if s == "" then t else s) ≢ ""
if_empty s t h = elim (Bool-cases (s == "")) [
  | inl e ↦ rw e h
  | inr d ↦ rw d (λ e. let same = (eq_iff s "").1 e in cc)
]

if_empty_idem :
    (s t : String)
    → (t == "") ≡ false
    → (if (if s == "" then t else s) == "" then t else (if s == "" then t else s))
      ≡ (if s == "" then t else s)
if_empty_idem s t h = elim (Bool-cases (s == "")) [ inl e ↦ rw e (rw h) | inr d ↦ rw d (rw d) ]

if_zero : (d : ℤ) → (if eq_int d (pos 0) then five_minutes else d) ≢ pos 0
if_zero (pos m) h = ground arith
if_zero (negsuc m) h = ground arith

if_zero_idem :
    (d t : ℤ)
    → (if eq_int (if eq_int d (pos 0) then t else d) (pos 0)
        then t
        else (if eq_int d (pos 0) then t else d))
      ≡ (if eq_int d (pos 0) then t else d)
if_zero_idem d t = elim (Bool-cases (eq_int d (pos 0))) [
  | inl e ↦ rw e (ground arith)
  | inr e ↦ rw e (rw e)
]

nonempty : (t : String) → (t == "") ≡ false → t ≢ ""
nonempty t d e = let same = (eq_iff t "").1 e in cc

validate_museum-IsValidated : (c : ExtensionsMuseumConfig) → IsValidated (validate_museum c)
unfolding validate_museum
validate_museum-IsValidated c = record {
  has_namespace = if_empty c.namespace "kubesphere-system" (nonempty _ refl);
  has_name = if_empty c.name "extensions-museum" (nonempty _ refl);
  has_timeout = if_zero c.watch_timeout;
}

-- `Validate` changes nothing that it has validated.
pub validate_idem : (c : ValidatorConfig) → validate (validate c) ≡ validate c
unfolding validate
validate_idem c = λ i. record {
  extensions_museum = record {
    enabled = m.enabled;
    namespace = if_empty_idem m.namespace "kubesphere-system" refl i;
    name = if_empty_idem m.name "extensions-museum" refl i;
    sync_interval = if_zero_idem m.sync_interval (pos 0) i;
    watch_timeout = if_zero_idem m.watch_timeout five_minutes i;
  };
  ks_version = c.ks_version;
}
  where
    open c use {extensions_museum as m}

module _ {Options : Type 0} (read : String → Result (Option Fields))
    (decode : Option Fields → Config Options → Result (Config Options)) where
  -- Every file of the list was read.
  abbrev pub Reads : List String → Type 0
  Reads [] = Unit
  Reads (f ∷ fs) = ((m : Option Fields) × (read f ≡ ok m)) × Reads fs

  merge_files-stops :
      (before after : List String) (file : String) (merged : Option Fields) (e : Error)
      → Reads before
      → read file ≡ err e
      → merge_files read decode merged (before ++ file ∷ after) ≡ err e
  unfolding merge_files
  merge_files-stops [] after file merged e ok_before fails = rw (fails, merge_files)
  merge_files-stops (f ∷ before) after file merged e ((m, reads), ok_before) fails =
      rw (reads, merge_files)
        (merge_files-stops before after file (merge merged m) e ok_before fails)

  load_from_file-stops :
      (before after : List String) (file : String) (c : Config Options) (e : Error)
      → Reads before
      → read file ≡ err e
      → load_from_file read decode (before ++ file ∷ after) c ≡ err e
  unfolding load_from_file
  load_from_file-stops before after file c e reads fails =
      rw (merge_files-stops before after file none e reads fails, load_from_file)

  -- One file that does not exist, behind files that are read, leaves the default configuration:
  -- what the files before it and behind it hold is not used.
  pub load_config_missing :
      (before after : List String) (file : String)
      → Reads before
      → read file ≡ err not_exist
      → load_config read decode (before ++ file ∷ after) ≡ ok new_default_config
  unfolding load_config
  load_config_missing before after file reads missing = rw (
    load_from_file-stops before after file new_default_config not_exist reads missing,
    load_config,
  )

  -- A file that cannot be read for any other reason ends the loading with its error.
  pub load_config_unreadable :
      (before after : List String) (file : String) (e : Error)
      → Reads before
      → read file ≡ err e
      → is_not_exist e ≡ false
      → load_config read decode (before ++ file ∷ after) ≡ err e
  unfolding load_config
  load_config_unreadable before after file e reads fails other =
      rw (load_from_file-stops before after file new_default_config e reads fails, load_config)
        (rw other)

  Defaults : Config Options → Type 0
  Defaults c = (v : ValidatorConfig) × (c.validator ≡ some v) × IsValidated v.extensions_museum

  with_validators-Defaults : (c : Config Options) → Defaults (with_validators c)
  unfolding with_validators validate Defaults
  with_validators-Defaults c = elim (Option-cases c.validator) [
    | inl missing ↦ (
      validate no_validators,
      rw (missing, with_validators),
      validate_museum-IsValidated no_validators.extensions_museum,
    )
    | inr (v, given) ↦
        (validate v, rw (given, with_validators), validate_museum-IsValidated v.extensions_museum)
  ]

  load_from_file-Defaults :
      (files : List String) (c c' : Config Options)
      → load_from_file read decode files c ≡ ok c'
      → Defaults c'
  unfolding load_from_file
  load_from_file-Defaults files c c' h = elim (Result-view (merge_files read decode none files)) [
    | is_err e f ↦ let k = rw (f, load_from_file) at h in cc
    | is_panic f ↦ let k = rw (f, load_from_file) at h in cc
    | is_ok merged f ↦ elim (Result-view (decode merged c)) [
      | is_err e g ↦ let k = rw (f, load_from_file, g) at h in cc
      | is_panic g ↦ let k = rw (f, load_from_file, g) at h in cc
      | is_ok c'' g ↦
          let k = rw (f, load_from_file, g) at h in
          subst Defaults (ok-injective k) (with_validators-Defaults c'')
    ]
  ]

  -- A configuration that was loaded is the default one, or its validators have every default.
  pub load_config-IsValidated :
      (files : List String) (c : Config Options)
      → load_config read decode files ≡ ok c
      → (c ≡ new_default_config)
        ⊎ ((v : ValidatorConfig) × (c.validator ≡ some v) × IsValidated v.extensions_museum)
  unfolding load_config Defaults
  load_config-IsValidated files c h =
      elim (Result-view (load_from_file read decode files new_default_config)) [
        | is_ok c' f ↦
            inr
              (load_from_file-Defaults files new_default_config c (f ∙ (rw (f, load_config) at h)))
        | is_err e f ↦ elim (Bool-cases (is_not_exist e)) [
          | inl missing ↦ inl (sym (ok-injective (rw (missing) at (rw (f, load_config) at h))))
          | inr other ↦ let k = rw other at (rw (f, load_config) at h) in cc
        ]
        | is_panic f ↦ let k = rw (f, load_config) at h in cc
      ]
