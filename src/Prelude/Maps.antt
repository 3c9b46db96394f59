-- ===== src/Prelude/Maps.antt =====
-- Go's `map[string]V` as an association list. The order of the entries stands for the order in
-- which `range` happens to visit the map.
use Prim.Native.String.{String}
use mathlib.Core.Path.{◌≡◌, refl, sym, ap, ◌∙◌, subst}
use mathlib.Core.Option.{Option, none, some}
use mathlib.Core.List.{List, [], ◌∷◌, ◌++◌, map}
use mathlib.Core.List.{append-nil, append_assoc}
use native.Mathlib.Omega.{arith}
use text.Mathlib.Text.{◌==◌}
use text.Mathlib.TextEquality.{eq_iff}
use durex.Prelude.Tests.{if◌then◌else◌}

abbrev pub Dict {ℓ} : Type ℓ → Type ℓ
Dict V = List (String × V)

module _ {ℓ} {V : Type ℓ} where
  -- v, ok := m[key]
  unfoldable pub lookup : String → Dict V → Option V
  lookup key [] = none
  lookup key ((this, held) ∷ entries) = if this == key then some held else lookup key entries

  -- m[key] = value
  unfoldable pub insert : String → V → Dict V → Dict V
  insert key value [] = (key, value) ∷ []
  insert key value ((this, held) ∷ entries) =
      if this == key then (key, value) ∷ entries else (this, held) ∷ insert key value entries

  -- delete(m, k)
  unfoldable pub remove : String → Dict V → Dict V
  remove k [] = []
  remove k ((j, v) ∷ m) = let rest = remove k m in if j == k then rest else (j, v) ∷ rest

  -- for k, v := range src { dst[k] = v }
  unfoldable pub merge : Dict V → Dict V → Dict V
  merge dst [] = dst
  merge dst ((k, v) ∷ src) = merge (insert k v dst) src

  abbrev pub values : Dict V → List V
  values = map (λ e. e.1)

  -- reading after a write, and after a deletion
  pub lookup-insert :
      (key asked : String) (value : V) (entries : Dict V)
      → lookup asked (insert key value entries)
        ≡ (if key == asked then some value else lookup asked entries)
  unfolding lookup insert
  lookup-insert key asked value [] = refl
  lookup-insert key asked value ((this, held) ∷ entries) = ground (
    arith,
    lookup-insert key asked value entries,
    eq_iff this key,
    eq_iff this asked,
    eq_iff key asked,
  )

  pub lookup-remove :
      (key asked : String) (entries : Dict V)
      → lookup asked (remove key entries) ≡ (if key == asked then none else lookup asked entries)
  unfolding lookup remove
  lookup-remove key asked [] = ground arith
  lookup-remove key asked ((this, held) ∷ entries) =
      ground (
        arith,
        lookup-remove key asked entries,
        eq_iff this key,
        eq_iff this asked,
        eq_iff key asked,
      )

module _ {ℓ} {V : Type ℓ} where
  -- Each key stands once, as in a Go map.
  abbrev pub Distinct : Dict V → Type ℓ
  Distinct [] = Unit
  Distinct ((k, v) ∷ m) = (lookup k m ≡ none) × Distinct m

  pub insert-Distinct : (k : String) (v : V) (m : Dict V) → Distinct m → Distinct (insert k v m)
  unfolding lookup insert
  insert-Distinct k v [] h = (refl, tt)
  insert-Distinct k v ((j, w) ∷ m) h =
      ground (arith, eq_iff j k, eq_iff k j, lookup-insert k j v m, insert-Distinct k v m h.1)

  pub remove-Distinct : (k : String) (m : Dict V) → Distinct m → Distinct (remove k m)
  unfolding lookup remove
  remove-Distinct k [] h = tt
  remove-Distinct k ((j, w) ∷ m) h =
      ground (arith, eq_iff k j, lookup-remove k j m, remove-Distinct k m h.1)

  -- Copying a map over another: the value of a key is the source's where it has one.
  pub lookup-merge :
      (k : String) (dst src : Dict V)
      → Distinct src
      → lookup k (merge dst src) ≡ elim (lookup k src) [ none ↦ lookup k dst | some v ↦ some v ]
  unfolding lookup merge
  lookup-merge k dst [] h = refl
  lookup-merge k dst ((j, w) ∷ src) h =
      ground (arith, eq_iff j k, lookup-insert j k w dst, lookup-merge k (insert j w dst) src h.1)

  pub insert_new :
      (k : String) (v : V) (m : Dict V) → lookup k m ≡ none → insert k v m ≡ m ++ (k, v) ∷ []
  unfolding lookup insert
  insert_new k v [] h = refl
  insert_new k v ((j, w) ∷ m) h = ground (arith, insert_new k v m)

  pub lookup-append :
      (k : String) (xs ys : Dict V)
      → lookup k (xs ++ ys) ≡ elim (lookup k xs) [ none ↦ lookup k ys | some v ↦ some v ]
  unfolding lookup
  lookup-append k [] ys = refl
  lookup-append k ((j, w) ∷ xs) ys = ground (arith, lookup-append k xs ys)

  free_after :
      (k : String) (v : V) (xs ys : Dict V) → Distinct (xs ++ (k, v) ∷ ys) → lookup k xs ≡ none
  unfolding lookup
  free_after k v [] ys h = refl
  free_after k v ((j, w) ∷ xs) ys h =
      ground
        (arith, eq_iff j k, eq_iff k j, lookup-append j xs ((k, v) ∷ ys), free_after k v xs ys h.1)

  -- Copying entries with new keys appends them.
  pub merge-Distinct_append :
      (dst src : Dict V) → Distinct (dst ++ src) → merge dst src ≡ dst ++ src
  unfolding merge
  merge-Distinct_append dst [] h = sym (append-nil dst)
  merge-Distinct_append dst ((j, w) ∷ src) h =
      let inserted = insert_new j w dst (free_after j w dst src h) in
      let moved = append_assoc dst ((j, w) ∷ []) src in
      ap (λ d. merge d src) inserted
      ∙ merge-Distinct_append (dst ++ (j, w) ∷ []) src (subst Distinct (sym moved) h)
      ∙ moved

  pub merge-Distinct : (dst src : Dict V) → Distinct dst → Distinct (merge dst src)
  unfolding merge
  merge-Distinct dst [] h = h
  merge-Distinct dst ((j, w) ∷ src) h =
      merge-Distinct (insert j w dst) src (insert-Distinct j w dst h)

pub lookup-nil {ℓ} : {V : Type ℓ} (k : String) → lookup {V = V} k [] ≡ none
unfolding lookup
lookup-nil k = refl

pub ruleset dict_laws = (lookup-nil, lookup-insert, lookup-remove)
