-- ===== src/Tables.antt =====
-- What the packages of db/sqldb use of a table: reading rows with a condition and an order, inserting, deleting,
-- and the copy of many rows in a transaction. The two metric databases have the same lines for the copy.
pub mod Sorted
use app_autoscaler.Prelude.{
  ℕ, suc, Bool, true, false, not, Option, none, some, List, [], ◌∷◌, ◌++◌, if◌then◌else◌, take,
}
use app_autoscaler.Models.{Error, Result, ok, err}

-- The faults of a query. `cut` is the number of rows after which the reading breaks off: rows.Next says that
-- there are no more, and the code does not ask rows.Err.
pub record Reads : Type 0 where
  pub query : Option Error
  pub scan : Option Error
  pub cut : Option ℕ

abbrev pub no_read_faults : Reads
no_read_faults = record { query = none; scan = none; cut = none }

-- The faults of a copy: of its steps, and the rows whose Exec fails.
pub record Copies (A : Type 0) : Type 0 where
  pub begin : Option Error
  pub prepare : Option Error
  pub flush : Option Error
  pub close : Option Error
  pub commit : Option Error
  pub rejects : A → Bool

abbrev pub no_copy_faults : {A : Type 0} → Copies A
no_copy_faults = record {
  begin = none;
  prepare = none;
  flush = none;
  close = none;
  commit = none;
  rejects = λ a. false;
}

-- `open_transactions` are those that were neither committed nor rolled back: each keeps its connection.
pub record Table (A : Type 0) : Type 0 where
  pub rows : List A
  pub open_transactions : ℕ

module _ {A : Type 0} where
  abbrev pub filter_rows : (A → Bool) → List A → List A
  filter_rows p [] = []
  filter_rows p (x ∷ xs) = let rest = filter_rows p xs in if p x then x ∷ rest else rest

  abbrev pub place_row : (A → A → Bool) → A → List A → List A
  place_row le a [] = a ∷ []
  place_row le a (x ∷ xs) = let rest = place_row le a xs in if le a x then a ∷ x ∷ xs else x ∷ rest

  -- ORDER BY
  abbrev pub sort_rows : (A → A → Bool) → List A → List A
  sort_rows le [] = []
  sort_rows le (x ∷ xs) = place_row le x (sort_rows le xs)

  abbrev pub received : Option ℕ → List A → List A
  received none rows = rows
  received (some n) rows = take n rows

  -- The loop over rows.Next, after the query.
  abbrev pub scan_rows : Option Error → List A → Result (List A)
  scan_rows e [] = ok []
  scan_rows none (row ∷ rows) = ok (row ∷ rows)
  scan_rows (some e) (row ∷ rows) = err e

  abbrev pub read_rows : Reads → List A → Result (List A)
  read_rows f rows = elim f.query [ some e ↦ err e | none ↦ scan_rows f.scan (received f.cut rows) ]

  abbrev pub insert_row : Option Error → A → Table A → Table A × Option Error
  insert_row (some e) a t = (t, some e)
  insert_row none a t = (record t { rows = t.rows ++ a ∷ [] }, none)

  abbrev pub delete_rows : Option Error → (A → Bool) → Table A → Table A × Option Error
  delete_rows (some e) p t = (t, some e)
  delete_rows none p t = (record t { rows = filter_rows (λ a. not (p a)) t.rows }, none)

  abbrev pub left_open : Table A → Table A
  left_open t = record t { open_transactions = suc t.open_transactions }

  -- Begin, Prepare(CopyIn(...)), an Exec for each row and one to flush, Close and Commit.
  unfoldable pub copy_rows : Copies A → List A → Table A → Table A × Option Error
  copy_rows f new t = elim f.begin [
    | some e ↦ (t, some e)
    | none ↦ elim f.prepare [
      | some e ↦ (left_open t, some e)
      | none ↦ elim f.flush [
        | some e ↦ (left_open t, some e)
        | none ↦ elim f.close [
          | some e ↦ (left_open t, some e)
          | none ↦ elim f.commit [
            | some e ↦ (t, some e)
            | none ↦ (record t { rows = t.rows ++ filter_rows (λ a. not (f.rejects a)) new }, none)
          ]
        ]
      ]
    ]
  ]
