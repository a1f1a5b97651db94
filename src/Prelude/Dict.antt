-- ===== src/Prelude/Dict.antt =====
-- Go maps with string keys, as association lists. A key is listed once by `insert`, and every law is
-- about `lookup`; the order of a `range` over a map is the order of the list.
use app_autoscaler.Prelude.{
  String, ◌≡◌, refl, ◌∙◌, true, false, List, [], ◌∷◌, Option, none, some, arith, str_eq, eq_iff,
  if◌then◌else◌,
}

abbrev pub Dict {ℓ} : Type ℓ → Type ℓ
Dict V = List (String × V)

module _ {ℓ} {V : Type ℓ} where
  -- m[k], with `none` for a missing key
  unfoldable pub lookup : String → Dict V → Option V
  lookup key [] = none
  lookup key (entry ∷ rest) = if str_eq entry.0 key then some entry.1 else lookup key rest

  -- m[k] = v
  unfoldable pub insert : String → V → Dict V → Dict V
  insert key value [] = (key, value) ∷ []
  insert key value (entry ∷ rest) =
      let kept = insert key value rest in
      if str_eq entry.0 key then (key, value) ∷ rest else entry ∷ kept

  -- delete(m, k)
  unfoldable pub remove : String → Dict V → Dict V
  remove key [] = []
  remove key (entry ∷ rest) =
      let kept = remove key rest in if str_eq entry.0 key then kept else entry ∷ kept

  pub lookup-insert :
      (new key : String) (value : V) (dict : Dict V)
      → lookup key (insert new value dict)
        ≡ (if str_eq new key then some value else lookup key dict)
  unfolding lookup insert
  lookup-insert new key value [] = refl
  lookup-insert new key value (entry ∷ rest) =
      let below = lookup-insert new key value rest in
      ground (arith, below, eq_iff new key, eq_iff entry.0 new, eq_iff entry.0 key)

  pub lookup-remove :
      (gone key : String) (dict : Dict V)
      → lookup key (remove gone dict) ≡ (if str_eq gone key then none else lookup key dict)
  unfolding lookup remove
  lookup-remove gone key [] = ground arith
  lookup-remove gone key (entry ∷ rest) =
      let below = lookup-remove gone key rest in
      ground (arith, below, eq_iff gone key, eq_iff entry.0 gone, eq_iff entry.0 key)

  pub insert_same :
      (id key : String) (v : V) (d : Dict V)
      → str_eq id key ≡ true
      → lookup key (insert id v d) ≡ some v
  insert_same id key v d e = lookup-insert id key v d ∙ rw e refl

  pub insert_other :
      (id key : String) (v : V) (d : Dict V)
      → str_eq id key ≡ false
      → lookup key (insert id v d) ≡ lookup key d
  insert_other id key v d e = lookup-insert id key v d ∙ rw e refl
