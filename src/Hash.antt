-- ===== src/Hash.antt =====
-- helpers/hash.go, and the lock of an app in scalingengine/striped_lock.go: FNV-1a on 32 bits of the bytes
-- of a string. A mutex is the index of its slot.
pub mod Stripes
use Prim.Native.Nat.{bit_xor}
use app_autoscaler.Prelude.{
  ℕ, zero, suc, ◌*◌, ◌%◌, ◌^◌, String, Bool, Option, none, some, List, [], ◌∷◌,
}
use app_autoscaler.Strconv.{bytes}

-- fnv.New32a, whose `Write` returns no error.
abbrev pub fnv_step : ℕ → List ℕ → ℕ
fnv_step h [] = h
fnv_step h (b ∷ bs) = fnv_step (bit_xor h b * 16777619 % 2 ^ 32) bs

-- FNVHash
unfoldable pub fnv_hash : String → ℕ
fnv_hash key = fnv_step 2166136261 (bytes key)

pub record StripedLock : Type 0 where
  pub locks : ℕ

-- NewStripedLock; a capacity of 0 panics, as a negative one does.
unfoldable pub new_striped_lock : ℕ → Option StripedLock
new_striped_lock zero = none
new_striped_lock (suc n) = some (record { locks = suc n })

-- GetLock, for fewer than 2 ^ 32 locks.
unfoldable pub get_lock : StripedLock → String → ℕ
get_lock sl key = fnv_hash key % sl.locks
