-- ===== src/Hash/Stripes.antt =====
-- The slot of a key.
use app_autoscaler.Prelude.{ℕ, suc, ◌<◌, ◌≡◌, refl, String, some, arith}
use app_autoscaler.Hash.{StripedLock, new_striped_lock, get_lock}

-- Of a lock with a capacity above 0, `GetLock` finds a slot in range for every key: it never panics.
pub get_lock_in_range :
    (n : ℕ) (key : String)
    → (sl : StripedLock) × (new_striped_lock (suc n) ≡ some sl) × (get_lock sl key < sl.locks)
unfolding new_striped_lock get_lock
get_lock_in_range n key = (record { locks = suc n }, refl, omega arith)
