-- ===== src/TsdCache.antt =====
-- collection/TSDCache.go: a ring of the latest points of a time series, kept in the order of their
-- timestamps. The lock is not modelled: every method holds it from its first line to its last.
-- `none` stands for a panic: the dereference of an empty slot. The array is a function of the slot,
-- and a slot is always an index modulo the capacity. The bound `r` of the search is kept as `r + 1`,
-- which is never negative.
pub mod Window
pub mod Search
pub mod Spec
pub mod Layout
pub mod Insert
pub mod Put
pub mod Around
pub mod Refinement
pub mod Query
pub mod Order
pub mod History
pub mod Complete
pub mod Filled
pub mod Tracked
pub mod Sound
mod Examples
use app_autoscaler.Prelude.{
  ℕ, zero, suc, ◌+◌, ◌-◌, ◌/◌, ◌%◌, Bool, true, false, ◌||◌, ◌&&◌, Option, none, some, List, [],
  ◌∷◌, ◌++◌, ltb, ◌==◌, if◌then◌else◌,
}
use app_autoscaler.Prelude.Int.{ℤ, ltb_ℤ, leb_ℤ}
use app_autoscaler.Models.{LabelMap}

-- The interface TSD.
pub record Tsd (A : Type 0) : Type 0 where
  pub get_timestamp : A → ℤ
  pub has_labels : A → LabelMap → Bool

pub record TsdCache (A : Type 0) : Type 0 where
  pub items : ℕ → Option A
  pub capacity : ℕ
  pub cursor : ℕ
  pub num : ℕ

infixl 5 ◌>>=◌
abbrev pub ◌>>=◌ {ℓ κ} : {A : Type ℓ} {B : Type κ} → Option A → (A → Option B) → Option B
none >>= f = none
some a >>= f = f a

abbrev pub is_some {ℓ} : {A : Type ℓ} → Option A → Bool
is_some none = false
is_some (some a) = true

abbrev pub update : {A : Type 0} (slots : ℕ → Option A) (slot : ℕ) (item : Option A) → ℕ → Option A
update slots slot item k = if k == slot then item else slots k

-- `capacity <= 0` panics; a negative capacity panics in the same way.
unfoldable pub new_tsd_cache : {A : Type 0} → ℕ → Option (TsdCache A)
new_tsd_cache zero = none
new_tsd_cache (suc n) = some (record { items = λ i. none; capacity = suc n; cursor = 0; num = 0 })

module _ {A : Type 0} where
  -- c.data[i % c.capacity]
  abbrev pub at : TsdCache A → ℕ → Option A
  at c i = c.items (i % c.capacity)

  -- The first position of the data, and the one behind the last.
  unfoldable pub low : TsdCache A → ℕ
  low c = if is_some (c.items c.cursor) then c.cursor else 0

  unfoldable pub high : TsdCache A → ℕ
  high c = if is_some (c.items c.cursor) then c.cursor + c.capacity else c.cursor

  -- for i := pos + n; i > pos; i-- { data[i % capacity] = data[(i - 1) % capacity] }
  pub shift : ℕ → ℕ → ℕ → (ℕ → Option A) → ℕ → Option A
  shift capacity zero pos items = items
  shift capacity (suc n) pos items =
      shift capacity n pos (update items ((pos + suc n) % capacity) (items ((pos + n) % capacity)))

  -- c.num++, deferred
  abbrev pub counted : TsdCache A → TsdCache A
  counted c = record c { num = suc c.num }

  unfoldable pub store : TsdCache A → A → TsdCache A
  store c d =
      counted (record c {
        items = update c.items c.cursor (some d);
        cursor = (c.cursor + 1) % c.capacity;
      })

  -- The points from `pos` on go one position up, over the oldest if the ring is full.
  pub shift_in : TsdCache A → A → ℕ → TsdCache A
  unfolding shift
  shift_in c d pos =
      let end = if is_some (c.items c.cursor) then c.cursor + c.capacity else c.cursor in
      counted (record c {
        items = update (shift c.capacity (end - pos) pos c.items) (pos % c.capacity) (some d);
        cursor = (c.cursor + 1) % c.capacity;
      })

  -- Put, behind the search for the position.
  pub insert_at : TsdCache A → A → ℕ → TsdCache A
  unfolding shift_in
  insert_at c d pos =
      if pos == c.cursor && is_some (c.items c.cursor) then counted c else shift_in c d pos

module _ {A : Type 0} ⦃tsd : Tsd A⦄ where
  abbrev pub stamp : A → ℤ
  stamp = tsd.get_timestamp

  -- The loop on `l` and `r + 1`; `none` also says that the fuel ran out.
  unfoldable pub search : TsdCache A → ℤ → ℕ → ℕ → ℕ → Option ℕ
  search c t zero l r = none
  search c t (suc fuel) l r = elim (ltb l r) [
    | false ↦ some l
    | true ↦
        let m = l + (r - 1 - l) / 2 in
        elim (at c m) [
          | none ↦ none
          | some d ↦ elim (leb_ℤ t (stamp d)) [
            | true ↦ search c t fuel l m
            | false ↦ search c t fuel (m + 1) r
          ]
        ]
  ]

  -- Each round leaves less than it had, so one round more than there are positions is enough.
  unfoldable pub binary_search : TsdCache A → ℤ → Option ℕ
  unfolding search low high
  binary_search c t =
      if c.num == 0 then some 0 else search c t (suc (high c - low c)) (low c) (high c)

  unfoldable pub put : TsdCache A → A → Option (TsdCache A)
  unfolding store insert_at
  put c d = if c.num == 0 then some (store c d) else do
    last ← c.items ((c.cursor + c.capacity - 1) % c.capacity)
    if leb_ℤ (stamp last) (stamp d)
        then some (store c d)
        else (do pos ← binary_search c (stamp d); some (insert_at c d pos))

  -- for i := from; i < from + n; i++
  unfoldable pub collect : TsdCache A → LabelMap → ℕ → ℕ → Option (List A)
  collect c labels zero i = some []
  collect c labels (suc n) i = do
    d ← at c i
    rest ← collect c labels n (i + 1)
    some (if tsd.has_labels d labels then d ∷ rest else rest)

  unfoldable pub query : TsdCache A → ℤ → ℤ → LabelMap → Option (List A × Bool)
  unfolding collect
  query c start end labels = if c.num == 0 then some ([], false) else do
    from ← binary_search c start
    to ← binary_search c end
    result ← collect c labels (to - from) from
    oldest ← c.items (if ltb c.num c.capacity then 0 else c.cursor)
    some (result, leb_ℤ (stamp oldest) start)
