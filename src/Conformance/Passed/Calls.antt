-- ===== src/Conformance/Passed/Calls.antt =====
-- The tests on single commands and on the fields that persist, over the in-memory storage.
use durex.Prelude.{
  ℕ, suc, ◌*◌, ◌≤◌, ◌≡◌, refl, pos, ◌+ℤ◌, ◌-ℤ◌, true, false, some, List, [], ◌∷◌, ◌++◌, Dict,
  lookup, insert, remove, arith, ◌==◌, eq_refl,
}
use durex.Status.{Status, same, is_active}
use durex.Instance.{Instance, clone, deep_copy_map, has_tag}
use durex.Env.{Env}
use durex.Storage.Memory.{new_memory, create, update, delete, get, find_by_unique_key}
use durex.Storage.Memory.Map.{memory}
use durex.Conformance.{instance_of, Setting}
use durex.Conformance.Basics.{
  test_create_duplicate, test_update, test_update_not_found, test_delete, test_delete_idempotent,
  test_get_not_found,
}
use durex.Conformance.Queries.{test_find_by_unique_key, test_find_by_unique_key_only_active, second}
use durex.Conformance.Fields.{
  every_status, test_sequence_persistence, test_tags_persistence, test_timestamp_persistence,
  test_all_statuses_persist, each_status,
}
use durex.Conformance.Stored.{AllOlder-append, holding, AllOlder, create_new, get-created}

same_self : (status : Status) → same status status ≡ true
unfolding same
same_self Status.pending = refl
same_self Status.started = refl
same_self Status.completed = refl
same_self Status.failed = refl
same_self Status.expired = refl
same_self Status.repeating = refl
same_self Status.cancelled = refl
same_self Status.dead_letter = refl

module _ (env : Env) (setting : Setting) where
  open env use {Any}
  open setting use {now, later, ids}

  pub duplicate_passes : test_create_duplicate env (memory env) setting new_memory ≡ []
  unfolding test_create_duplicate create lookup insert
  duplicate_passes = refl

  pub update_passes : test_update env (memory env) setting new_memory ≡ []
  unfolding test_update create update get lookup insert clone deep_copy_map same
  update_passes = refl

  pub update_not_found_passes : test_update_not_found env (memory env) setting new_memory ≡ []
  unfolding test_update_not_found update lookup
  update_not_found_passes = refl

  pub delete_passes : test_delete env (memory env) setting new_memory ≡ []
  unfolding test_delete create delete get lookup insert remove
  delete_passes = refl

  pub delete_idempotent_passes : test_delete_idempotent env (memory env) setting new_memory ≡ []
  unfolding test_delete_idempotent delete
  delete_idempotent_passes = refl

  pub get_not_found_passes : test_get_not_found env (memory env) setting new_memory ≡ []
  unfolding test_get_not_found get lookup
  get_not_found_passes = refl

  module _ (distinct : (i j : ℕ) → suc i ≤ j → (ids i == ids j) ≡ false) where
    pub unique_key_passes : test_find_by_unique_key env (memory env) setting new_memory ≡ []
    unfolding test_find_by_unique_key find_by_unique_key clone deep_copy_map is_active
    unique_key_passes =
        let cmd : Instance Any = record (instance_of (ids 0) "uniqueCmd" Status.pending now now) {
          unique_key = "unique-key-test-1";
        } in
        rw (create_new env ids distinct 0 [] cmd tt refl) (ground (arith, eq_refl (ids 0)))

    pub only_active_passes :
        test_find_by_unique_key_only_active env (memory env) setting new_memory ≡ []
    unfolding test_find_by_unique_key_only_active find_by_unique_key clone deep_copy_map is_active
    only_active_passes =
        let cmd : Instance Any =
          record (instance_of (ids 0) "completedUnique" Status.completed now now) {
            unique_key = "unique-key-active-test";
          } in
        rw (create_new env ids distinct 0 [] cmd tt refl) refl

    pub sequence_passes : test_sequence_persistence env (memory env) setting new_memory ≡ []
    unfolding test_sequence_persistence get lookup clone deep_copy_map
    sequence_passes =
        let cmd : Instance Any = record (instance_of (ids 0) "step1" Status.pending now now) {
          sequence = "step2" ∷ "step3" ∷ "step4" ∷ [];
        } in
        rw (create_new env ids distinct 0 [] cmd tt refl) (rw (eq_refl (ids 0)) refl)

    pub tags_passes : test_tags_persistence env (memory env) setting new_memory ≡ []
    unfolding test_tags_persistence get lookup clone deep_copy_map has_tag
    tags_passes =
        let cmd : Instance Any = record (instance_of (ids 0) "tagTest" Status.pending now now) {
          tags = "urgent" ∷ "email" ∷ "user-123" ∷ [];
        } in
        rw (create_new env ids distinct 0 [] cmd tt refl) (rw (eq_refl (ids 0)) refl)

    pub timestamp_passes : test_timestamp_persistence env (memory env) setting new_memory ≡ []
    unfolding test_timestamp_persistence get lookup clone deep_copy_map
    timestamp_passes =
        let cmd : Instance Any =
          record (instance_of (ids 0) "timestampTest" Status.completed (now -ℤ pos (120 * second))
            (now -ℤ pos (90 * second))) {
              started_at = some (now -ℤ pos (60 * second));
              completed_at = some now;
              deadline_at = some (now +ℤ pos (3600 * second));
            } in
        rw (create_new env ids distinct 0 [] cmd tt refl) (rw (eq_refl (ids 0)) refl)

    each_status_passes :
        (n : ℕ) (statuses : List Status) (d : Dict (Instance Any))
        → AllOlder env ids n d
        → each_status env (memory env) setting n statuses (holding env ids d) ≡ []
    unfolding each_status get clone deep_copy_map
    each_status_passes n [] d h = refl
    each_status_passes n (status ∷ rest) d h =
        let cmd : Instance Any = instance_of (ids n) "statusTest" status now now in
        rw (create_new env ids distinct n d cmd h refl) (
          rw (get-created env ids distinct n d cmd h) (
            rw (same_self status) (
              each_status_passes (suc n) rest (d ++ (ids n, clone env cmd) ∷ [])
                (AllOlder-append env ids distinct n d cmd h))))

    pub all_statuses_passes : test_all_statuses_persist env (memory env) setting new_memory ≡ []
    unfolding test_all_statuses_persist
    all_statuses_passes = each_status_passes 0 every_status [] tt
