-- ===== src/Conformance/Fields.antt =====
-- storagetest/conformance.go: the tests that the fields of a command persist. The values of the data
-- which are neither texts nor built from texts are arguments.
use durex.Prelude.{
  ℕ, suc, ◌*◌, pos, ◌+ℤ◌, ◌-ℤ◌, String, Bool, false, Option, none, some, is_some, List, [], ◌∷◌,
  ◌++◌, length, Dict, lookup, ◌==◌,
}
use durex.Status.{Status, same, pending, started, completed, failed, expired, cancelled, repeating}
use durex.Spec.{made}
use durex.Instance.{Instance, get, has_tag}
use durex.Env.{Env}
use durex.Storage.{Storage}
use durex.Conformance.{Failure, wrong, Setting, expect, instance_of, must, creating}
use durex.Conformance.Basics.{is_text_at}
use durex.Conformance.Queries.{second, is_count}

-- what testDataPersistence puts into the data: 42, 3.14, true, a slice, a map and nil
pub record Samples (Any : Type 0) : Type 0 where
  pub forty_two : Any
  pub pi : Any
  pub truth : Any
  pub slice : Any
  pub nested : Any
  pub null : Any

-- the comparison of each expected name with the one at its place; a place out of range panics,
-- which is a failure too
abbrev pub each_name : List String → List String → List Failure
each_name [] names = []
each_name (e ∷ es) [] = wrong "Sequence mismatch" ∷ []
each_name (e ∷ es) (n ∷ ns) = expect (n == e) "Sequence mismatch" ++ each_name es ns

abbrev pub every_status : List Status
every_status = pending ∷ started ∷ completed ∷ failed ∷ expired ∷ cancelled ∷ repeating ∷ []

module _ (env : Env) (st : Storage env.Any) (setting : Setting) where
  open env use {Any, of_string, as_bool, as_map}
  open setting use {now, ids}

  -- Create, Get, and the checks of what was read
  abbrev pub reading_back : Instance Any → st.State → (Instance Any → List Failure) → List Failure
  reading_back cmd s checks = creating st s cmd λ s'. must "Get failed" (st.get s' cmd.id) checks

  abbrev pub sampled : Samples Any → Dict Any
  sampled v =
      ("string", of_string "hello")
      ∷ ("int", v.forty_two)
      ∷ ("float", v.pi)
      ∷ ("bool", v.truth)
      ∷ ("slice", v.slice)
      ∷ ("nested", v.nested)
      ∷ ("null", v.null)
      ∷ ("unicode", of_string "日本語 🎉")
      ∷ []

  abbrev pub is_true_at : Option Any → Bool
  is_true_at none = false
  is_true_at (some v) = elim (as_bool v) [ none ↦ false | some b ↦ b ]

  -- v.(map[string]any) with the text "value" under "key"
  abbrev pub is_nested_at : Option Any → Bool
  is_nested_at none = false
  is_nested_at (some v) = elim (as_map v) [
    | none ↦ false
    | some m ↦ is_text_at env st setting (lookup "key" m) "value"
  ]

  unfoldable pub test_data_persistence : Samples Any → st.State → List Failure
  unfolding get
  test_data_persistence v s =
      reading_back
        (record (instance_of (ids 0) "dataTest" pending now now) { payload = some (sampled v) }) s
        λ got.
          expect (is_text_at env st setting (get got "string") "hello") "String not persisted"
          ++ (expect (is_true_at (get got "bool")) "Bool not persisted"
              ++ (expect (is_text_at env st setting (get got "unicode") "日本語 🎉")
                    "Unicode not persisted"
                  ++ expect (is_nested_at (get got "nested")) "Nested map not persisted correctly"))

  unfoldable pub test_sequence_persistence : st.State → List Failure
  test_sequence_persistence s =
      let expected : List String = "step2" ∷ "step3" ∷ "step4" ∷ [] in
      reading_back (record (instance_of (ids 0) "step1" pending now now) { sequence = expected }) s
        λ got.
          expect (is_count (length got.sequence) 3) "Sequence length mismatch"
          ++ each_name expected got.sequence

  abbrev pub each_tag : List String → Instance Any → List Failure
  each_tag [] got = []
  each_tag (t ∷ ts) got =
      expect (has_tag got t) "Tag not found in persisted tags" ++ each_tag ts got

  unfoldable pub test_tags_persistence : st.State → List Failure
  test_tags_persistence s =
      let expected : List String = "urgent" ∷ "email" ∷ "user-123" ∷ [] in
      reading_back (record (instance_of (ids 0) "tagTest" pending now now) { tags = expected }) s
        λ got. expect (is_count (length got.tags) 3) "Tags length mismatch" ++ each_tag expected got

  unfoldable pub test_metadata_persistence : st.State → List Failure
  test_metadata_persistence s =
      let metadata : Option (Dict Any) =
        some (("worker", of_string "worker-1") ∷ ("host", of_string "localhost") ∷ []) in
      reading_back (record (instance_of (ids 0) "metaTest" pending now now) { metadata = metadata })
        s
        λ got.
          expect (is_text_at env st setting (lookup "worker" (made got.metadata)) "worker-1")
            "Metadata worker mismatch"
          ++ expect (is_text_at env st setting (lookup "host" (made got.metadata)) "localhost")
              "Metadata host mismatch"

  -- the time of the test is cut to microseconds first: `now` is such a time
  unfoldable pub test_timestamp_persistence : st.State → List Failure
  test_timestamp_persistence s =
      let cmd : Instance Any =
        instance_of (ids 0) "timestampTest" completed (now -ℤ pos (120 * second))
          (now -ℤ pos (90 * second)) in
      reading_back
        (record cmd {
          started_at = some (now -ℤ pos (60 * second));
          completed_at = some now;
          deadline_at = some (now +ℤ pos (3600 * second));
        })
        s
        λ got.
          expect (is_some got.started_at) "StartedAt should not be nil"
          ++ (expect (is_some got.completed_at) "CompletedAt should not be nil"
              ++ expect (is_some got.deadline_at) "DeadlineAt should not be nil")

  -- the loop over the statuses, with the id of its round
  unfoldable pub each_status : ℕ → List Status → st.State → List Failure
  each_status i [] s = []
  each_status i (status ∷ rest) s =
      let cmd : Instance Any = instance_of (ids i) "statusTest" status now now in
      creating st s cmd λ s'.
        must "Get failed" (st.get s' cmd.id) λ got.
          expect (same got.status status) "Status not persisted" ++ each_status (suc i) rest s'

  unfoldable pub test_all_statuses_persist : st.State → List Failure
  unfolding each_status
  test_all_statuses_persist = each_status 0 every_status
