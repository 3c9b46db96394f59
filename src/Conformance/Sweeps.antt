-- ===== src/Conformance/Sweeps.antt =====
-- storagetest/conformance.go: the tests of Cleanup and Count.
use durex.Prelude.{
  ℕ, ◌*◌, ℤ, pos, ◌-ℤ◌, leb, String, none, some, List, [], ◌∷◌, ◌++◌, map, if◌then◌else◌,
}
use durex.Status.{pending, completed}
use durex.Instance.{Instance}
use durex.Env.{Env}
use durex.Storage.{Storage, Reply, ok, err}
use durex.Conformance.{Failure, wrong, Setting, expect, instance_of, must, creating, create_each}
use durex.Conformance.Basics.{expect_not_found}
use durex.Conformance.Queries.{second, is_count}

-- if err != nil { t.Error }
abbrev pub expect_found {ℓ} : {A : Type ℓ} → Reply A → String → List Failure
expect_found (ok a) message = []
expect_found (err x) message = wrong message ∷ []

abbrev pub hours : ℕ → ℤ
hours n = pos (n * (3600 * second))

abbrev pub five : List ℕ
five = 0 ∷ 1 ∷ 2 ∷ 3 ∷ 4 ∷ []

module _ (env : Env) (st : Storage env.Any) (setting : Setting) where
  open env use {Any}
  open setting use {now, later, ids}

  abbrev pub finished_at : String → String → ℤ → Instance Any
  finished_at id name t = record (instance_of id name completed t t) { completed_at = some t }

  unfoldable pub test_cleanup : st.State → List Failure
  test_cleanup s =
      let old = finished_at (ids 0) "old" (now -ℤ hours 2) in
      let recent = finished_at (ids 1) "recent" now in
      creating st s old λ s'. creating st s' recent λ s''.
        let (reply, swept) = st.cleanup s'' later (hours 1) in
        must "Cleanup failed" reply λ n.
          expect (is_count n 1) "Expected 1 cleanup"
          ++ (expect_not_found (st.get swept old.id) "Old command should be deleted"
              ++ expect_found (st.get swept recent.id) "Recent command should still exist")

  unfoldable pub test_cleanup_preserves_active : st.State → List Failure
  test_cleanup_preserves_active s =
      let t = now -ℤ hours 2 in
      let cmd : Instance Any = instance_of (ids 0) "oldPending" pending t t in
      creating st s cmd λ s'.
        let (reply, swept) = st.cleanup s' later (hours 1) in
        must "Cleanup failed" reply λ n.
          expect (is_count n 0) "Expected 0 cleanup for active commands"
          ++ expect_found (st.get swept cmd.id) "Active command should not be cleaned up"

  unfoldable pub test_count : st.State → List Failure
  test_count s =
      create_each st s (map (λ i. instance_of (ids i) "count-test" pending now now) five) λ s'.
        must "Count failed" (st.count s' none) λ total. expect (leb 5 total) "Expected at least 5"

  -- the last two of the five are COMPLETED, now
  abbrev pub command_of_round : ℕ → Instance Any
  command_of_round i =
      if leb 3 i
      then finished_at (ids i) "count-status-test" now
      else instance_of (ids i) "count-status-test" pending now now

  unfoldable pub test_count_by_status : st.State → List Failure
  test_count_by_status s = create_each st s (map command_of_round five) λ s'.
      must "Count by status failed" (st.count s' (some pending))
        λ n. expect (leb 3 n) "Expected at least 3 pending"
