-- ===== src/AppManager/Shards.antt =====
-- Which node takes an app.
use app_autoscaler.Prelude.{ℕ, zero, suc, ◌%◌, ◌<◌, ◌≡◌, refl, String, true, some, arith}
use app_autoscaler.Hash.{fnv_hash}
use app_autoscaler.AppManager.{takes}

-- With at least one node, every app is taken by exactly one of them, the node indices being those below
-- their number.
pub takes_one :
    (n : ℕ) (app : String)
    → (i : ℕ) × (i < suc n)
      × (takes (suc n) i app ≡ some true)
      × ((j : ℕ) → j < suc n → takes (suc n) j app ≡ some true → j ≡ i)
unfolding takes
takes_one zero app = (0, omega arith, refl, λ j lt e. omega arith)
takes_one (suc n) app =
    let h = fnv_hash app % suc (suc n) in (h, omega arith, ground arith, λ j lt e. ground arith)
