-- ===== src/TryResult.antt =====
-- `TryResult` of src/try_result.rs: the answer of a lookup that does not wait for the lock.
use neocache.Prelude.{Bool, true, false, Option, none, some}

pub data TryResult {ℓ} (R : Type ℓ) : Type ℓ where
  present : R → TryResult R
  absent : TryResult R
  locked : TryResult R

module _ {ℓ} {R : Type ℓ} where
  unfoldable pub is_present : TryResult R → Bool
  is_present (present r) = true
  is_present _ = false

  unfoldable pub is_absent : TryResult R → Bool
  is_absent absent = true
  is_absent (present r) = false
  is_absent locked = false

  unfoldable pub is_locked : TryResult R → Bool
  is_locked locked = true
  is_locked (present r) = false
  is_locked absent = false

  -- `none` is the panic.
  unfoldable pub unwrap : TryResult R → Option R
  unwrap (present r) = some r
  unwrap locked = none
  unwrap absent = none

  unfoldable pub try_unwrap : TryResult R → Option R
  try_unwrap (present r) = some r
  try_unwrap _ = none
