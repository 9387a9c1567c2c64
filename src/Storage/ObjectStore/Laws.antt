-- ===== src/Storage/ObjectStore/Laws.antt =====
-- What the object storage does when it puts an object, and the bounds of the concurrency.
use ks_upgrade.Base.{
  ℕ, suc, ◌+◌, ◌-◌, ◌*◌, ◌/◌, ◌≤◌, ◌<◌, ◌≡◌, refl, ◌⊎◌, inl, inr, ap, ◌∙◌, String, true,
  if◌then◌else◌, ltb, pos, Option, none, some, Error, Result, ok, is_backup_not_found, arith,
  length, Bool-cases,
}
use ks_upgrade.Base.Action.{bind-eq-ok}
use ks_upgrade.Storage.{Bytes}
use ks_upgrade.Storage.ObjectStore.{
  S3Client, handler_aws_err, outcome, retry, uploaded, put, default_part_size, min_concurrency,
  max_concurrency, calculate_concurrency,
}

module _ {W : Type 0} (client : S3Client W) where
  -- The first upload ended without an error.
  abbrev pub Uploaded : String → Bytes → W → W → Type 0
  Uploaded k object u w =
      (unread : Bytes) × (client.upload k k object (length object) u ≡ ((none, unread), w))

  -- The bucket was missing and was made, and what the first upload had left was uploaded.
  abbrev pub Retried : String → Bytes → W → W → Type 0
  Retried k object u w =
      (e : Error) × (unread : Bytes) × (v : W) × (v' : W) × (rest : Bytes) × (client.upload k k
          object (length object) u
        ≡ ((some e, unread), v))
      × (is_backup_not_found (handler_aws_err e) ≡ true)
      × (client.create_bucket v ≡ (ok tt, v'))
      × (client.upload k k unread (length object) v' ≡ ((none, rest), w))

  retry-ok :
      (k : String) (object unread : Bytes) (v w : W)
      → retry client k object unread v ≡ (ok tt, w)
      → (v' : W) × (rest : Bytes) × (client.create_bucket v ≡ (ok tt, v'))
        × (client.upload k k unread (length object) v' ≡ ((none, rest), w))
  unfolding retry
  retry-ok k object unread v w h =
      let (x, v', made, up) =
        bind-eq-ok client.create_bucket
          (λ _ v. outcome (client.upload k k unread (length object) v)) h in
      let (rest, f) = sent (client.upload k k unread (length object) v') up in (v', rest, made, f)
    where
      sent :
          (a : (Option Error × Bytes) × W)
          → outcome a ≡ (ok tt, w)
          → (rest : Bytes) × (a ≡ ((none, rest), w))
      sent ((none, rest), w') up =
          (rest, ap (λ (p : Result (Unit {0}) × W). ((none, rest), p.1)) up)
      sent ((some e, rest), w') up = cc

  -- `Put` succeeds in two ways only: the first upload ended without an error; or its error says
  -- that the bucket is missing, the bucket was made, and a second upload of what the first one
  -- had left unread ended without an error.
  pub put-ok :
      (k : String) (object : Bytes) (u w : W)
      → put client k object u ≡ (ok tt, w)
      → Uploaded k object u w ⊎ Retried k object u w
  unfolding put uploaded
  put-ok k object u w h = go (client.upload k k object (length object) u) refl h
    where
      go :
          (a : (Option Error × Bytes) × W)
          → client.upload k k object (length object) u ≡ a
          → uploaded client k object a.0 a.1 ≡ (ok tt, w)
          → Uploaded k object u w ⊎ Retried k object u w
      go ((none, unread), v) f h =
          inl (unread, f ∙ ap (λ (p : Result (Unit {0}) × W). ((none, unread), p.1)) h)
      go ((some e, unread), v) f h = elim (Bool-cases (is_backup_not_found (handler_aws_err e))) [
        | inl missing ↦
            let (v', rest, made, up) = retry-ok k object unread v w (rw (missing) at h) in
            inr (e, unread, v, v', rest, f, missing, made, up)
        | inr other ↦ let k = rw (other) at h in cc
      ]

-- The number that both bounds cut off.
unfoldable bounded : ℕ → ℕ
bounded c =
    if ltb c min_concurrency
    then min_concurrency
    else if ltb max_concurrency c
    then max_concurrency
    else c

bounded_lem :
    (c size : ℕ)
    → size ≤ c * default_part_size
    → c * default_part_size < size + default_part_size
    → (min_concurrency ≤ bounded c)
      × (bounded c ≤ max_concurrency)
      × ((min_concurrency < bounded c)
          → bounded c < max_concurrency
          → (size ≤ bounded c * default_part_size)
            × (bounded c * default_part_size < size + default_part_size))
unfolding bounded
bounded_lem c size lower upper = ground arith

rounded_up :
    (n : ℕ)
    → (suc n ≤ (suc n + (default_part_size - 1)) / default_part_size * default_part_size)
      × ((suc n + (default_part_size - 1)) / default_part_size * default_part_size
          < suc n + default_part_size)
rounded_up n = (omega arith, omega arith)

-- The concurrency is between 5 and 128, and where neither bound cuts it off it is the number of
-- parts of 5 megabytes that a size fills, rounded up.
pub calculate_concurrency_lem :
    (size : ℕ)
    → (min_concurrency ≤ calculate_concurrency (pos size))
      × (calculate_concurrency (pos size) ≤ max_concurrency)
      × ((min_concurrency < calculate_concurrency (pos size))
          → calculate_concurrency (pos size) < max_concurrency
          → (size ≤ calculate_concurrency (pos size) * default_part_size)
            × (calculate_concurrency (pos size) * default_part_size < size + default_part_size))
unfolding calculate_concurrency bounded
calculate_concurrency_lem ℕ.zero = (omega arith, omega arith, λ h. omega arith)
calculate_concurrency_lem (suc n) =
    bounded_lem ((suc n + (default_part_size - 1)) / default_part_size) (suc n) (rounded_up n).0
      (rounded_up n).1
