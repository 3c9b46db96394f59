-- ===== src/Storage/Sql/Order.antt =====
-- ORDER BY and LIMIT: the rows of a window are no later in the order than those left out.
use durex.Prelude.{
  ℕ, zero, suc, ◌<◌, ◌≡◌, sym, Bool, true, false, List, [], ◌∷◌, select, take, tally, All, arith,
  eq_refl, if◌then◌else◌, Bool-cases, inl, inr,
}
use mathlib.Core.Path.{subst}
use durex.Storage.Sql.{Row, insert_by, order_by, more_urgent}
use durex.Storage.Sql.Table.{id_is}

module _ {A : Type 0} where
  pub All-map₂ :
      (P Q R : A → Type 0) (xs : List A)
      → ((x : A) → P x → Q x → R x)
      → All P xs
      → All Q xs
      → All R xs
  All-map₂ P Q R [] f h g = tt
  All-map₂ P Q R (x ∷ xs) f h g = (f x h.0 g.0, All-map₂ P Q R xs f h.1 g.1)

  pub All-take : (P : A → Type 0) (n : ℕ) (xs : List A) → All P xs → All P (take n xs)
  All-take P zero xs h = tt
  All-take P (suc n) [] h = tt
  All-take P (suc n) (x ∷ xs) h = (h.0, All-take P n xs h.1)

  -- what holds of the elements that pass holds of those too that do not
  pub All-select_inv :
      (P Q : A → Type 0) (p : A → Bool) (xs : List A)
      → ((x : A) → P x → Q x)
      → ((x : A) → p x ≡ false → Q x)
      → All P (select p xs)
      → All Q xs
  unfolding select
  All-select_inv P Q p [] f g h = tt
  All-select_inv P Q p (x ∷ xs) f g h = elim (Bool-cases (p x)) [
    | inl e ↦
        let h' : P x × All P (select p xs) =
          subst (λ b. All P (if b then x ∷ select p xs else select p xs)) e h in
        (f x h'.0, All-select_inv P Q p xs f g h'.1)
    | inr e ↦
        let h' = subst (λ b. All P (if b then x ∷ select p xs else select p xs)) e h in
        (g x e, All-select_inv P Q p xs f g h')
  ]

-- `less` as the strict part of a total order of classes
pub record IsOrder {A : Type 0} (less : A → A → Bool) : Type 0 where
  pub asym : (a b : A) → less a b ≡ true → less b a ≡ false
  pub trans : (a b c : A) → less a b ≡ false → less b c ≡ false → less a c ≡ false

module _ {Json Time : Type 0} where
  pub more_urgent-IsOrder :
      (before : Time → Time → Bool) → IsOrder before → IsOrder (more_urgent {Json = Json} before)
  unfolding more_urgent
  more_urgent-IsOrder before o = record {
    asym = λ a b h. ground (arith, o.asym a.ready_at b.ready_at);
    trans = λ a b c h g. ground (arith, o.trans a.ready_at b.ready_at c.ready_at);
  }

module _ {Json Time : Type 0} (less : Row Json Time → Row Json Time → Bool) where
  abbrev Sorted : List (Row Json Time) → Type 0
  Sorted [] = Unit
  Sorted (r ∷ rows) = All (λ s. less s r ≡ false) rows × Sorted rows

  abbrev inserted :
      Row Json Time → Row Json Time → List (Row Json Time) → Bool → List (Row Json Time)
  inserted r s rows b = if b then s ∷ insert_by less r rows else r ∷ s ∷ rows

  module _ (P : Row Json Time → Type 0) where
    All-insert_by :
        (r : Row Json Time) (rows : List (Row Json Time))
        → P r × All P rows
        → All P (insert_by less r rows)
    unfolding insert_by
    All-insert_by r [] h = h
    All-insert_by r (s ∷ rows) h = elim (Bool-cases (less s r)) [
      | inl e ↦
          subst (λ b. All P (inserted r s rows b)) (sym e)
            (h.1.0, All-insert_by r rows (h.0, h.1.1))
      | inr e ↦ subst (λ b. All P (inserted r s rows b)) (sym e) h
    ]

    All-insert_by_inv :
        (r : Row Json Time) (rows : List (Row Json Time))
        → All P (insert_by less r rows)
        → P r × All P rows
    unfolding insert_by
    All-insert_by_inv r [] h = h
    All-insert_by_inv r (s ∷ rows) h = elim (Bool-cases (less s r)) [
      | inl e ↦
          let h' : P s × All P (insert_by less r rows) =
            subst (λ b. All P (inserted r s rows b)) e h in
          let g = All-insert_by_inv r rows h'.1 in (g.0, (h'.0, g.1))
      | inr e ↦ subst (λ b. All P (inserted r s rows b)) e h
    ]

    pub All-order_by : (rows : List (Row Json Time)) → All P rows → All P (order_by less rows)
    unfolding order_by
    All-order_by [] h = tt
    All-order_by (r ∷ rows) h = All-insert_by r (order_by less rows) (h.0, All-order_by rows h.1)

    pub All-order_by_inv : (rows : List (Row Json Time)) → All P (order_by less rows) → All P rows
    unfolding order_by
    All-order_by_inv [] h = tt
    All-order_by_inv (r ∷ rows) h =
        let g = All-insert_by_inv r (order_by less rows) h in (g.0, All-order_by_inv rows g.1)

  -- a row is among the first rows by its id, or is not less than any of them
  pub data Placed (first : List (Row Json Time)) (r : Row Json Time) : Type 0 where
    among : 0 < tally (id_is r.id) first → Placed first r
    behind : All (λ s. less r s ≡ false) first → Placed first r

  Placed-cons :
      (s : Row Json Time) (first : List (Row Json Time)) (r : Row Json Time)
      → less r s ≡ false
      → Placed first r
      → Placed (s ∷ first) r
  unfolding tally
  Placed-cons s first r h (Placed.among a) = Placed.among (ground arith)
  Placed-cons s first r h (Placed.behind b) = Placed.behind (h, b)

  Sorted-take :
      (n : ℕ) (rows : List (Row Json Time)) → Sorted rows → All (Placed (take n rows)) rows
  unfolding tally
  Sorted-take zero [] h = tt
  Sorted-take zero (r ∷ rows) h = (Placed.behind tt, Sorted-take zero rows h.1)
  Sorted-take (suc n) [] h = tt
  Sorted-take (suc n) (r ∷ rows) h = (
    Placed.among (ground (arith, eq_refl r.id)),
    All-map₂ (λ s. less s r ≡ false) (Placed (take n rows)) (Placed (r ∷ take n rows)) rows
        (λ s. Placed-cons r (take n rows) s) h.0 (Sorted-take n rows h.1),
  )

  module _ (o : IsOrder less) where
    insert_by-Sorted :
        (r : Row Json Time) (rows : List (Row Json Time))
        → Sorted rows
        → Sorted (insert_by less r rows)
    unfolding insert_by
    insert_by-Sorted r [] h = (tt, tt)
    insert_by-Sorted r (s ∷ rows) h = elim (Bool-cases (less s r)) [
      | inl e ↦
          subst (λ b. Sorted (inserted r s rows b)) (sym e)
            (
              All-insert_by (λ t. less t s ≡ false) r rows (o.asym s r e, h.0),
              insert_by-Sorted r rows h.1,
            )
      | inr e ↦
          subst (λ b. Sorted (inserted r s rows b)) (sym e)
            (
              (
                e,
                All-map₂ (λ t. less t s ≡ false) (λ t. less t s ≡ false) (λ t. less t r ≡ false)
                    rows (λ t g g'. o.trans t s r g e) h.0 h.0,
              ),
              h,
            )
    ]

    order_by-Sorted : (rows : List (Row Json Time)) → Sorted (order_by less rows)
    unfolding order_by
    order_by-Sorted [] = tt
    order_by-Sorted (r ∷ rows) = insert_by-Sorted r (order_by less rows) (order_by-Sorted rows)

    -- the rows that a window of the first `n` takes are no later in the order than the others
    pub take-order_by :
        (n : ℕ) (rows : List (Row Json Time)) → All (Placed (take n (order_by less rows))) rows
    take-order_by n rows =
        All-order_by_inv (Placed (take n (order_by less rows))) rows
          (Sorted-take n (order_by less rows) (order_by-Sorted rows))
