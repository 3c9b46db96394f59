-- ===== src/Storage/Sql/Table.antt =====
-- Facts about the statements on the table: which rows there are for an id, and how many.
use durex.Prelude.{
  ℕ, zero, suc, ◌≤◌, ◌<◌, String, ◌≡◌, refl, Bool, true, none, some, List, [], ◌∷◌, map, select,
  take, length, tally, arith, eq_iff, ◌==◌, if◌then◌else◌, Bool-cases, inl, inr,
}
use durex.Storage.Sql.{Row, row_of_id, update_row, delete_row, insert_by, order_by}

module _ {A : Type 0} where
  pub tally-select_le : (p q : A → Bool) (xs : List A) → tally q (select p xs) ≤ tally q xs
  unfolding tally select
  tally-select_le p q [] = omega arith
  tally-select_le p q (x ∷ xs) = ground (arith, tally-select_le p q xs)

  pub tally-take_le : (n : ℕ) (q : A → Bool) (xs : List A) → tally q (take n xs) ≤ tally q xs
  unfolding tally
  tally-take_le zero q xs = ground arith
  tally-take_le (suc n) q [] = omega arith
  tally-take_le (suc n) q (x ∷ xs) = ground (arith, tally-take_le n q xs)

  pub length-take_le : (n : ℕ) (xs : List A) → length (take n xs) ≤ n
  length-take_le zero xs = omega arith
  length-take_le (suc n) [] = omega arith
  length-take_le (suc n) (x ∷ xs) = omega (arith, length-take_le n xs)

module _ {Json Time : Type 0} where
  abbrev pub id_is : String → Row Json Time → Bool
  id_is id r = r.id == id

  pub tally-insert_by :
      (less : Row Json Time → Row Json Time → Bool) (q : Row Json Time → Bool) (r : Row Json Time)
      (rows : List (Row Json Time))
      → tally q (insert_by less r rows) ≡ tally q (r ∷ rows)
  unfolding tally insert_by
  tally-insert_by less q r [] = refl
  tally-insert_by less q r (s ∷ rows) = ground (arith, tally-insert_by less q r rows)

  pub tally-order_by :
      (less : Row Json Time → Row Json Time → Bool) (q : Row Json Time → Bool)
      (rows : List (Row Json Time))
      → tally q (order_by less rows) ≡ tally q rows
  unfolding tally order_by
  tally-order_by less q [] = refl
  tally-order_by less q (r ∷ rows) =
      ground (arith, tally-insert_by less q r (order_by less rows), tally-order_by less q rows)

  -- with one row for the id, a selected row of it is the one that is found
  pub row_of_id-select :
      (p : Row Json Time → Bool) (id : String) (rows : List (Row Json Time))
      → tally (id_is id) rows ≤ 1
      → 0 < tally (id_is id) (select p rows)
      → (r : Row Json Time) × (row_of_id id rows ≡ some r) × (p r ≡ true)
  unfolding tally select row_of_id
  row_of_id-select p id [] u h = absurd (omega arith)
  row_of_id-select p id (r ∷ rows) u h = elim (Bool-cases (r.id == id)) [
    | inl e ↦ (r, ground arith, ground (arith, tally-select_le p (id_is id) rows))
    | inr e ↦
        let (s, found, holds) = row_of_id-select p id rows (ground arith) (ground arith) in
        (s, ground arith, holds)
  ]

  pub row_of_id-update_row :
      (id j : String) (f : Row Json Time → Row Json Time) (rows : List (Row Json Time))
      → ((r : Row Json Time) → (f r).id ≡ r.id)
      → row_of_id j (update_row id f rows) ≡ (
          if id == j
          then elim (row_of_id j rows) [ none ↦ none | some r ↦ some (f r) ]
          else row_of_id j rows)
  unfolding row_of_id update_row
  row_of_id-update_row id j f [] same_id = ground arith
  row_of_id-update_row id j f (r ∷ rows) same_id = ground (
    arith,
    same_id r,
    eq_iff id j,
    eq_iff r.id id,
    eq_iff r.id j,
    row_of_id-update_row id j f rows same_id,
  )

  pub row_of_id_same :
      (id : String) (r : Row Json Time) (rows : List (Row Json Time))
      → row_of_id id rows ≡ some r
      → r.id ≡ id
  unfolding row_of_id
  row_of_id_same id r [] h = absurd (ground arith)
  row_of_id_same id r (s ∷ rows) h = ground (arith, eq_iff s.id id, row_of_id_same id r rows)

  pub row_of_id-none :
      (id : String) (rows : List (Row Json Time))
      → row_of_id id rows ≡ none
      → tally (id_is id) rows ≡ 0
  unfolding row_of_id tally
  row_of_id-none id [] h = refl
  row_of_id-none id (r ∷ rows) h = ground (arith, row_of_id-none id rows)

  pub tally-update_row :
      (id j : String) (f : Row Json Time → Row Json Time) (rows : List (Row Json Time))
      → ((r : Row Json Time) → (f r).id ≡ r.id)
      → tally (id_is j) (update_row id f rows) ≡ tally (id_is j) rows
  unfolding tally update_row
  tally-update_row id j f [] same_id = refl
  tally-update_row id j f (r ∷ rows) same_id =
      ground (arith, same_id r, tally-update_row id j f rows same_id)

  pub tally-map :
      (j : String) (f : Row Json Time → Row Json Time) (rows : List (Row Json Time))
      → ((r : Row Json Time) → (f r).id ≡ r.id)
      → tally (id_is j) (map f rows) ≡ tally (id_is j) rows
  unfolding tally
  tally-map j f [] same_id = refl
  tally-map j f (r ∷ rows) same_id = ground (arith, same_id r, tally-map j f rows same_id)

  pub row_of_id-map :
      (j : String) (f : Row Json Time → Row Json Time) (rows : List (Row Json Time))
      → ((r : Row Json Time) → (f r).id ≡ r.id)
      → row_of_id j (map f rows) ≡ elim (row_of_id j rows) [ none ↦ none | some r ↦ some (f r) ]
  unfolding row_of_id
  row_of_id-map j f [] same_id = refl
  row_of_id-map j f (r ∷ rows) same_id = ground (arith, same_id r, row_of_id-map j f rows same_id)

  pub row_of_id-delete_row :
      (id j : String) (rows : List (Row Json Time))
      → row_of_id j (delete_row id rows) ≡ (if id == j then none else row_of_id j rows)
  unfolding row_of_id delete_row select
  row_of_id-delete_row id j [] = ground arith
  row_of_id-delete_row id j (r ∷ rows) =
      ground (arith, eq_iff id j, eq_iff r.id id, eq_iff r.id j, row_of_id-delete_row id j rows)
