-- ===== src/Conformance/Queries.antt =====
-- storagetest/conformance.go: the tests of FindPending, FindByStatus, FindByParent and
-- FindByUniqueKey. FindByParent, which the executor does not call, is an argument of its test.
use durex.Prelude.{
  ℕ, suc, ◌*◌, ◌%◌, pos, ◌+ℤ◌, ◌-ℤ◌, leb, String, Bool, false, ◌||◌, none, some, List, [], ◌∷◌,
  ◌++◌, map, length, ◌==◌, if◌then◌else◌,
}
use durex.Status.{
  named, Status, same, is_active, pending, started, completed, failed, repeating, expired,
  cancelled,
}
use durex.Instance.{Instance}
use durex.Env.{Env}
use durex.Storage.{Storage, Reply}
use durex.Conformance.{Failure, Setting, expect, instance_of, must, creating, create_each}
use durex.Conformance.Basics.{expect_not_found}

abbrev pub second : ℕ
second = 1000000000

-- a check of each command that a query returned
abbrev pub each : {V : Type 0} → (Instance V → Bool) → String → List (Instance V) → List Failure
each p message [] = []
each p message (i ∷ is) = expect (p i) message ++ each p message is

-- equality of two counts
abbrev pub is_count : ℕ → ℕ → Bool
is_count n k = if leb n k then leb k n else false

abbrev pub found_statuses : List Status
found_statuses = pending ∷ started ∷ completed ∷ failed ∷ repeating ∷ expired ∷ cancelled ∷ []

-- the status of round i: FAILED if i is a multiple of 3, else COMPLETED if it is even
abbrev pub status_of_round : ℕ → Status
status_of_round i = if leb (i % 3) 0 then failed else if leb (i % 2) 0 then completed else pending

abbrev pub rounds : List ℕ
rounds = 0 ∷ 1 ∷ 2 ∷ 3 ∷ 4 ∷ 5 ∷ 6 ∷ 7 ∷ 8 ∷ 9 ∷ []

abbrev pub parent_id : String
parent_id = "parent-find-1"

module _ (env : Env) (st : Storage env.Any) (setting : Setting) where
  open env use {Any}
  open setting use {now, later, ids}

  -- the instance of the i-th round, which was ready i seconds ago
  abbrev pub in_status : ℕ → Status → Instance Any
  in_status i status = instance_of (ids i) "test" status now (now -ℤ pos (i * second))

  abbrev pub of_statuses : ℕ → List Status → List (Instance Any)
  of_statuses i [] = []
  of_statuses i (status ∷ rest) = in_status i status ∷ of_statuses (suc i) rest

  unfoldable pub test_find_pending : st.State → List Failure
  test_find_pending s = create_each st s (of_statuses 0 found_statuses) λ s'.
      must "FindPending failed" (st.find_pending s' later) λ l.
        expect (is_count (length l) 3) "Expected 3 pending commands"
        ++ each (λ c. is_active c.status) "FindPending returned non-active status" l

  abbrev pub has_id : String → List (Instance Any) → Bool
  has_id id [] = false
  has_id id (c ∷ cs) = c.id == id || has_id id cs

  unfoldable pub test_find_pending_respects_ready_at : st.State → List Failure
  test_find_pending_respects_ready_at s =
      let ready : Instance Any = instance_of (ids 0) "readyNow" pending now (now -ℤ pos second) in
      let not_ready : Instance Any =
        instance_of (ids 1) "notReady" pending now (now +ℤ pos (3600 * second)) in
      creating st s ready λ s'. creating st s' not_ready λ s''.
        must "FindPending failed" (st.find_pending s'' later)
          λ l. expect (has_id ready.id l) "Ready command should be in FindPending results"

  unfoldable pub test_find_by_status : st.State → List Failure
  test_find_by_status s =
      create_each st s
        (map (λ i. instance_of (ids i) "test-find-status" (status_of_round i) now now) rounds)
        λ s'.
          must "FindByStatus failed" (st.find_by_status s' (named completed))
            λ l. each (λ c. same c.status completed) "FindByStatus returned wrong status" l

  abbrev pub is_child_of : String → Instance Any → Bool
  is_child_of parent c = elim c.parent_id [ none ↦ false | some p ↦ p == parent ]

  abbrev pub children : List (Instance Any)
  children =
      record (instance_of (ids 0) "child" pending now now) { parent_id = some parent_id }
      ∷ record (instance_of (ids 1) "child" pending now now) { parent_id = some parent_id }
      ∷ record (instance_of (ids 2) "child" pending now now) { parent_id = some parent_id }
      ∷ instance_of (ids 3) "unrelated" pending now now
      ∷ []

  abbrev pub family : List (Instance Any)
  family = instance_of parent_id "parent" completed now now ∷ children

  -- after the creations
  abbrev pub check_children :
      (st.State → String → Reply (List (Instance Any))) → st.State → List Failure
  check_children find_by_parent s = must "FindByParent failed" (find_by_parent s parent_id) λ found.
      expect (is_count (length found) 3) "Expected 3 children"
      ++ each (is_child_of parent_id) "Child has wrong parent" found

  unfoldable pub test_find_by_parent :
      (st.State → String → Reply (List (Instance Any))) → st.State → List Failure
  test_find_by_parent find_by_parent s = create_each st s family (check_children find_by_parent)

  unfoldable pub test_find_by_unique_key : st.State → List Failure
  test_find_by_unique_key s =
      let key : String = "unique-key-test-1" in
      let cmd : Instance Any = record (instance_of (ids 0) "uniqueCmd" pending now now) {
        unique_key = key;
      } in
      creating st s cmd λ s'. must "FindByUniqueKey failed" (st.find_by_unique_key s' key) λ found.
        expect (found.id == cmd.id) "Found wrong command"
        ++ (expect (found.unique_key == key) "UniqueKey mismatch"
            ++ expect_not_found (st.find_by_unique_key s' "nonexistent-key")
                "Expected ErrNotFound for nonexistent key")

  unfoldable pub test_find_by_unique_key_only_active : st.State → List Failure
  test_find_by_unique_key_only_active s =
      let key : String = "unique-key-active-test" in
      let cmd : Instance Any = record (instance_of (ids 0) "completedUnique" completed now now) {
        unique_key = key;
      } in
      creating st s cmd λ s'.
        expect_not_found (st.find_by_unique_key s' key)
          "FindByUniqueKey should not find terminal status commands"
