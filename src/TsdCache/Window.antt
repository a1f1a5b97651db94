-- ===== src/TsdCache/Window.antt =====
-- The positions of the ring, and the list of the points that a range of positions holds.
use native.Mathlib.Nat.{mod-eq_of_lt, mod-eq-sub-mod}
use native.Mathlib.Decide.{dec_lt, ℕ_discrete}
use app_autoscaler.Prelude.{
  ℕ, zero, suc, ◌+◌, ◌-◌, ◌%◌, ◌≤◌, ◌<◌, ◌≡◌, refl, ap, sym, ◌∙◌, ◌⊎◌, inl, inr, ◌≢◌, Option, none,
  some, List, [], ◌∷◌, ◌++◌, arith,
}
use app_autoscaler.TsdCache.{shift}

-- A position below twice the capacity is its slot, or a round more.
pub slot-cases : (x w : ℕ) → x < w + w → ((x < w) × (x % w ≡ x)) ⊎ ((w ≤ x) × (x % w ≡ x - w))
slot-cases x w h = elim (dec_lt x w) [
  | yes lt ↦ inl (lt, mod-eq_of_lt lt)
  | no ge ↦ inr (omega arith, mod-eq-sub-mod (omega arith) ∙ mod-eq_of_lt (omega arith))
]

-- Positions less than a round apart have two slots.
pub slot_ne : (a b w : ℕ) → a < b → b < a + w → b < w + w → (a % w) ≢ (b % w)
slot_ne a b w lt near h e = ground (arith, slot-cases a w, slot-cases b w)

pub slot_round : (x w : ℕ) → x < w → (x + w) % w ≡ x
slot_round x w h = grind arith

module _ {ℓ} {A : Type ℓ} where
  abbrev pub cons? : Option A → List A → List A
  cons? none xs = xs
  cons? (some x) xs = x ∷ xs

  -- The points at `n` positions from `i` on.
  abbrev pub window : (ℕ → Option A) → ℕ → ℕ → List A
  window f zero i = []
  window f (suc n) i = cons? (f i) (window f n (i + 1))

  cons?-append : (o : Option A) (xs ys : List A) → cons? o xs ++ ys ≡ cons? o (xs ++ ys)
  cons?-append none xs ys = refl
  cons?-append (some x) xs ys = refl

  pub window_ext :
      (f g : ℕ → Option A) (n i j : ℕ)
      → ((k : ℕ) → k < n → f (i + k) ≡ g (j + k))
      → window f n i ≡ window g n j
  window_ext f g zero i j h = refl
  window_ext f g (suc n) i j h =
      let e : f i ≡ g j = ap f (omega arith) ∙ h 0 (omega arith) ∙ ap g (omega arith) in
      rw e (
        ap (cons? (g j)) (
          window_ext f g n (i + 1) (j + 1)
            λ k lt. ap f (omega arith) ∙ h (suc k) (omega arith) ∙ ap g (omega arith)))

  pub window_split :
      (f : ℕ → Option A) (n m k i : ℕ)
      → k ≡ n + m
      → window f k i ≡ window f n i ++ window f m (i + n)
  window_split f zero m k i e =
      let e' : k ≡ m = omega arith in let e'' : i + 0 ≡ i = omega arith in rw (e', e'')
  window_split f (suc n) m zero i e = absurd (omega arith)
  window_split f (suc n) m (suc k) i e =
      ap (cons? (f i)) (
        window_split f n m k (i + 1) (omega arith)
        ∙ ap (λ (j : ℕ). window f n (i + 1) ++ window f m j) (omega arith))
      ∙ sym (cons?-append (f i) (window f n (i + 1)) (window f m (i + suc n)))

module _ {A : Type 0} where
  pub shift_kept :
      (w n pos s : ℕ) (items : ℕ → Option A)
      → ((k : ℕ) → k < n → s ≢ (pos + suc k) % w)
      → shift w n pos items s ≡ items s
  unfolding shift
  shift_kept w zero pos s items h = refl
  shift_kept w (suc n) pos s items h =
      shift_kept w n pos s _ (λ k lt. h k (omega arith)) ∙ ground (arith, h n (omega arith))

  -- What the loop of `Put` moves: each of the `n` positions behind `pos` gets the point before it.
  pub shift_moved :
      (w n pos k : ℕ) (items : ℕ → Option A)
      → n < w
      → pos + n < w + w
      → k < n
      → shift w n pos items ((pos + suc k) % w) ≡ items ((pos + k) % w)
  unfolding shift
  shift_moved w zero pos k items h b lt = elim lt [ ]
  shift_moved w (suc n) pos k items h b lt = elim (ℕ_discrete k n) [
    | yes last ↦ rw last (
        shift_kept w n pos ((pos + suc n) % w) _ (λ j near e.
          slot_ne (pos + suc j) (pos + suc n) w (omega arith) (omega arith) (omega arith) (sym e))
        ∙ ground arith)
    | no before ↦
        shift_moved w n pos k _ (omega arith) (omega arith) (omega arith)
        ∙ ground
            (arith, slot_ne (pos + k) (pos + suc n) w (omega arith) (omega arith) (omega arith))
  ]
