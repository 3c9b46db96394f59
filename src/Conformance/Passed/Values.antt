-- ===== src/Conformance/Passed/Values.antt =====
-- The tests on the values of a command's data, over the in-memory storage, which copies the data
-- through JSON on the way in and on the way out.
use durex.Prelude.{
  ℕ, suc, ◌≤◌, ◌≡◌, refl, inl, inr, String, Bool, true, false, Option, some, [], ◌∷◌, Dict, lookup,
  insert, arith, ◌==◌, eq_refl, Option-cases,
}
use durex.Spec.{made}
use durex.Status.{Status, same}
use durex.Instance.{Instance, clone, deep_copy_map, get as get_value}
use durex.Env.{Env}
use durex.Storage.Memory.{new_memory, create, get}
use durex.Storage.Memory.Map.{memory}
use durex.Conformance.{Setting, instance_of}
use durex.Conformance.Basics.{test_create_and_get, is_text_at}
use durex.Conformance.Fields.{
  Samples, test_data_persistence, test_metadata_persistence, is_true_at, is_nested_at, sampled,
}
use durex.Conformance.Stored.{create_new}

module _ (env : Env) (setting : Setting) where
  open env use {Any, round_trip, of_string, as_string, as_bool}
  open setting use {now, ids}

  -- What the suite asks of encoding/json: a map that is encoded and decoded keeps, under each key, a
  -- text, the value true, and a map with a text under "key".
  pub record KeepsValues : Type 0 where
    pub text_kept :
        (m r : Dict Any) (k t : String)
        → round_trip m ≡ some r
        → is_text_at env (memory env) setting (lookup k m) t ≡ true
        → is_text_at env (memory env) setting (lookup k r) t ≡ true
    pub truth_kept :
        (m r : Dict Any) (k : String)
        → round_trip m ≡ some r
        → is_true_at env (memory env) setting (lookup k m) ≡ true
        → is_true_at env (memory env) setting (lookup k r) ≡ true
    pub nested_kept :
        (m r : Dict Any) (k : String)
        → round_trip m ≡ some r
        → is_nested_at env (memory env) setting (lookup k m) ≡ true
        → is_nested_at env (memory env) setting (lookup k r) ≡ true
    pub text_made : (t : String) → as_string (of_string t) ≡ some t

  -- the copy of a copy keeps a property of the value under a key that a round trip keeps
  copied_twice :
      (P : Option Any → Bool) (m : Dict Any) (k : String)
      → ((m r : Dict Any) → round_trip m ≡ some r → P (lookup k m) ≡ true → P (lookup k r) ≡ true)
      → P (lookup k m) ≡ true
      → P (lookup k (made (deep_copy_map env (deep_copy_map env (some m))))) ≡ true
  unfolding deep_copy_map
  copied_twice P m k kept h = elim (Option-cases (round_trip m)) [
    | inl e ↦ ground (arith, e, h)
    | inr (r, e) ↦ elim (Option-cases (round_trip r)) [
      | inl f ↦ ground (arith, e, f, kept m r e h)
      | inr (q, f) ↦ ground (arith, e, f, kept r q f (kept m r e h))
    ]
  ]

  module _ (distinct : (i j : ℕ) → suc i ≤ j → (ids i == ids j) ≡ false) (keeps : KeepsValues) where
    pub create_and_get_passes :
        (inner : Any) → test_create_and_get env (memory env) setting inner new_memory ≡ []
    unfolding test_create_and_get create get get_value lookup insert clone same
    create_and_get_passes inner =
        let m : Dict Any = ("key", of_string "value") ∷ ("nested", inner) ∷ [] in
        let read =
          copied_twice (λ v. is_text_at env (memory env) setting v "value") m "key"
            (λ a r. keeps.text_kept a r "key" "value") (ground (arith, keeps.text_made "value")) in
        ground (arith, read)

    pub metadata_passes : test_metadata_persistence env (memory env) setting new_memory ≡ []
    unfolding test_metadata_persistence get lookup clone
    metadata_passes =
        let m : Dict Any =
          ("worker", of_string "worker-1") ∷ ("host", of_string "localhost") ∷ [] in
        let cmd : Instance Any = record (instance_of (ids 0) "metaTest" Status.pending now now) {
          metadata = some m;
        } in
        let worker =
          copied_twice (λ v. is_text_at env (memory env) setting v "worker-1") m "worker"
            (λ a r. keeps.text_kept a r "worker" "worker-1")
            (ground (arith, keeps.text_made "worker-1")) in
        let host =
          copied_twice (λ v. is_text_at env (memory env) setting v "localhost") m "host"
            (λ a r. keeps.text_kept a r "host" "localhost")
            (ground (arith, keeps.text_made "localhost")) in
        rw (create_new env ids distinct 0 [] cmd tt refl)
          (rw (eq_refl (ids 0)) (ground (arith, worker, host)))

    module _ (samples : Samples Any) (truth : as_bool samples.truth ≡ some true)
        (nested : is_nested_at env (memory env) setting (some samples.nested) ≡ true) where
      pub data_passes : test_data_persistence env (memory env) setting samples new_memory ≡ []
      unfolding test_data_persistence get get_value lookup clone
      data_passes =
          let m = sampled env (memory env) setting samples in
          let cmd : Instance Any = record (instance_of (ids 0) "dataTest" Status.pending now now) {
            payload = some m;
          } in
          let text =
            copied_twice (λ v. is_text_at env (memory env) setting v "hello") m "string"
              (λ a r. keeps.text_kept a r "string" "hello")
              (ground (arith, keeps.text_made "hello")) in
          let unicode =
            copied_twice (λ v. is_text_at env (memory env) setting v "日本語 🎉") m "unicode"
              (λ a r. keeps.text_kept a r "unicode" "日本語 🎉")
              (ground (arith, keeps.text_made "日本語 🎉")) in
          let bool =
            copied_twice (is_true_at env (memory env) setting) m "bool"
              (λ a r. keeps.truth_kept a r "bool") (ground (arith, truth)) in
          let inside =
            copied_twice (is_nested_at env (memory env) setting) m "nested"
              (λ a r. keeps.nested_kept a r "nested") nested in
          rw (create_new env ids distinct 0 [] cmd tt refl)
            (rw (eq_refl (ids 0)) (ground (arith, text, unicode, bool, inside)))
