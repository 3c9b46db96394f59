-- ===== src/Conformance/Passed/Lookups.antt =====
-- The tests on several commands, over the in-memory storage.
use durex.Prelude.{
  ℕ, suc, ◌*◌, ◌≤◌, ◌≡◌, refl, ◌∙◌, pos, ltb_ℤ, ◌+ℤ◌, ◌-ℤ◌, ◌≤ℤ◌, -ℤ_parts, +ℤ_parts, String, true,
  false, [], ◌∷◌, map, lookup, insert, remove, select, tally, arith, ◌==◌, eq_refl, eq_iff,
}
use durex.Status.{Status, same, is_active, is_terminal}
use durex.Instance.{Instance, clone, deep_copy_map}
use durex.Env.{Env}
use durex.Storage.Memory.{
  new_memory, create, get, find_pending, find_by_status, find_by_parent, cleanup, count, sweep,
}
use durex.Storage.Memory.Map.{memory}
use durex.Conformance.{instance_of, Setting, create_each}
use durex.Conformance.Queries.{
  test_find_pending, test_find_pending_respects_ready_at, test_find_by_status, test_find_by_parent,
  second, of_statuses, found_statuses, check_children, children, parent_id, status_of_round, rounds,
}
use durex.Conformance.Sweeps.{
  test_cleanup, test_cleanup_preserves_active, test_count, test_count_by_status, hours, five,
  command_of_round, finished_at,
}
use durex.Conformance.Stored.{create_new, create_each_lem}

module _ (env : Env) (setting : Setting) where
  open env use {Any}
  open setting use {now, later, ids}

  module _ (distinct : (i j : ℕ) → suc i ≤ j → (ids i == ids j) ≡ false)
      (clock : now ≤ℤ later) where
    earlier : (k : ℕ) → ltb_ℤ later (now -ℤ pos k) ≡ false
    earlier k = ground (arith, -ℤ_parts now (pos k))

    pub find_pending_passes : test_find_pending env (memory env) setting new_memory ≡ []
    unfolding test_find_pending find_pending clone deep_copy_map select is_active
    find_pending_passes =
        create_each_lem env ids distinct 0 []
          (of_statuses env (memory env) setting 0 found_statuses) _ tt
          (refl, (refl, (refl, (refl, (refl, (refl, (refl, tt)))))))
        ∙ ground (arith, earlier (0 * second), earlier (1 * second), earlier (4 * second))

    pub ready_passes : test_find_pending_respects_ready_at env (memory env) setting new_memory ≡ []
    unfolding test_find_pending_respects_ready_at find_pending clone deep_copy_map select is_active
    ready_passes =
        let ready : Instance Any =
          instance_of (ids 0) "readyNow" Status.pending now (now -ℤ pos second) in
        let not_ready : Instance Any =
          instance_of (ids 1) "notReady" Status.pending now (now +ℤ pos (3600 * second)) in
        rw (create_new env ids distinct 0 [] ready tt refl) (
          rw
            (create_new env ids distinct 1 ((ids 0, clone env ready) ∷ []) not_ready
              (distinct 0, tt) refl)
            (ground (arith, earlier second, eq_refl (ids 0))))

    pub find_by_status_passes : test_find_by_status env (memory env) setting new_memory ≡ []
    unfolding test_find_by_status find_by_status clone deep_copy_map select same
    find_by_status_passes =
        create_each_lem env ids distinct 0 []
          (map (λ i. instance_of (ids i) "test-find-status" (status_of_round i) now now) rounds) _
          tt (refl, (refl, (refl, (refl, (refl, (refl, (refl, (refl, (refl, (refl, tt))))))))))
        ∙ refl

    pub count_passes : test_count env (memory env) setting new_memory ≡ []
    unfolding test_count count tally
    count_passes =
        create_each_lem env ids distinct 0 []
          (map (λ i. instance_of (ids i) "count-test" Status.pending now now) five) _ tt
          (refl, (refl, (refl, (refl, (refl, tt)))))
        ∙ refl

    pub count_by_status_passes : test_count_by_status env (memory env) setting new_memory ≡ []
    unfolding test_count_by_status count tally clone deep_copy_map same
    count_by_status_passes =
        create_each_lem env ids distinct 0 [] (map (command_of_round env (memory env) setting) five)
          _ tt (refl, (refl, (refl, (refl, (refl, tt)))))
        ∙ refl

    module _ (parent_differs : (m : ℕ) → (parent_id == ids m) ≡ false) where
      pub find_by_parent_passes :
          test_find_by_parent env (memory env) setting (find_by_parent env) new_memory ≡ []
      unfolding test_find_by_parent create_each create find_by_parent lookup insert clone
          deep_copy_map select
      find_by_parent_passes =
          create_each_lem env ids distinct 0
            ((parent_id, instance_of parent_id "parent" Status.completed now now) ∷ [])
            (children env (memory env) setting)
            (check_children env (memory env) setting (find_by_parent env))
            (λ m h. parent_differs m, tt) (refl, (refl, (refl, (refl, tt))))
          ∙ refl

    differ_sym : (a b : String) → (a == b) ≡ false → (b == a) ≡ false
    differ_sym a b h = ground (arith, eq_iff a b, eq_iff b a)

    module _ (brief : later ≤ℤ now +ℤ hours 1) where
      old_is_stale : ltb_ℤ (now -ℤ hours 2) (later -ℤ hours 1) ≡ true
      old_is_stale = ground (arith, -ℤ_parts now (hours 2), -ℤ_parts later (hours 1))

      recent_is_kept : ltb_ℤ now (later -ℤ hours 1) ≡ false
      recent_is_kept = ground (arith, +ℤ_parts now (hours 1), -ℤ_parts later (hours 1))

      pub cleanup_passes : test_cleanup env (memory env) setting new_memory ≡ []
      unfolding test_cleanup cleanup get lookup remove clone deep_copy_map sweep is_terminal
      cleanup_passes =
          let old = finished_at env (memory env) setting (ids 0) "old" (now -ℤ hours 2) in
          let recent = finished_at env (memory env) setting (ids 1) "recent" now in
          rw (create_new env ids distinct 0 [] old tt refl) (
            rw
              (create_new env ids distinct 1 ((ids 0, clone env old) ∷ []) recent (distinct 0, tt)
                refl)
              (ground (
                arith,
                old_is_stale,
                recent_is_kept,
                eq_refl (ids 0),
                eq_refl (ids 1),
                differ_sym (ids 0) (ids 1) (distinct 0 1 (omega arith)),
              )))

      pub preserves_passes : test_cleanup_preserves_active env (memory env) setting new_memory ≡ []
      unfolding test_cleanup_preserves_active cleanup get lookup remove clone deep_copy_map sweep
          is_terminal
      preserves_passes =
          let cmd : Instance Any =
            instance_of (ids 0) "oldPending" Status.pending (now -ℤ hours 2) (now -ℤ hours 2) in
          rw (create_new env ids distinct 0 [] cmd tt refl) (rw (eq_refl (ids 0)) refl)
