-- ===== src/Conformance/Passed.antt =====
-- The in-memory storage passes the conformance suite.
mod Calls
mod Lookups
pub mod Values
use durex.Prelude.{
  ℕ, suc, ◌≤◌, ◌≡◌, ◌≤ℤ◌, ◌+ℤ◌, String, true, false, some, List, [], ◌∷◌, All, ◌==◌,
}
use durex.Env.{Env}
use durex.Storage.Memory.{new_memory, find_by_parent}
use durex.Storage.Memory.Map.{memory}
use durex.Conformance.{Setting}
use durex.Conformance.Queries.{parent_id}
use durex.Conformance.Sweeps.{hours}
use durex.Conformance.Fields.{Samples, is_nested_at}
use durex.Conformance.Suite.{run_conformance_tests}
use durex.Conformance.Passed.Calls.{
  duplicate_passes, update_passes, update_not_found_passes, delete_passes, delete_idempotent_passes,
  get_not_found_passes, unique_key_passes, only_active_passes, sequence_passes, tags_passes,
  timestamp_passes, all_statuses_passes,
}
use durex.Conformance.Passed.Lookups.{
  find_pending_passes, ready_passes, find_by_status_passes, count_passes, count_by_status_passes,
  find_by_parent_passes, cleanup_passes, preserves_passes,
}
use durex.Conformance.Passed.Values.{
  KeepsValues, create_and_get_passes, metadata_passes, data_passes,
}

-- The in-memory storage passes every test of the conformance suite, without a failure: with ids that
-- are distinct from one another and from the id that a test chooses for a parent, a test whose clock
-- does not go back and that takes at most an hour, and JSON that keeps texts, `true` and a map with
-- a text in it.
pub run_conformance_tests-memory :
    (env : Env) (setting : Setting) (inner : env.Any) (samples : Samples env.Any)
    → ((i j : ℕ) → suc i ≤ j → (setting.ids i == setting.ids j) ≡ false)
    → ((m : ℕ) → (parent_id == setting.ids m) ≡ false)
    → setting.now ≤ℤ setting.later
    → setting.later ≤ℤ setting.now +ℤ hours 1
    → KeepsValues env setting
    → env.as_bool samples.truth ≡ some true
    → is_nested_at env (memory env) setting (some samples.nested) ≡ true
    → All
        (λ (result : String × List _). result.1 ≡ [])
        (run_conformance_tests env
          (memory env)
          setting
          (find_by_parent env)
          inner
          samples
          new_memory)
unfolding run_conformance_tests
run_conformance_tests-memory env setting inner samples distinct parent clock brief keeps truth
      nested =
    search (
      create_and_get_passes env setting distinct keeps inner,
      duplicate_passes env setting,
      update_passes env setting,
      update_not_found_passes env setting,
      delete_passes env setting,
      delete_idempotent_passes env setting,
      get_not_found_passes env setting,
      find_pending_passes env setting distinct clock,
      ready_passes env setting distinct clock,
      find_by_status_passes env setting distinct clock,
      find_by_parent_passes env setting distinct clock parent,
      unique_key_passes env setting distinct,
      only_active_passes env setting distinct,
      cleanup_passes env setting distinct clock brief,
      preserves_passes env setting distinct clock brief,
      count_passes env setting distinct clock,
      count_by_status_passes env setting distinct clock,
      data_passes env setting distinct keeps samples truth nested,
      sequence_passes env setting distinct,
      tags_passes env setting distinct,
      metadata_passes env setting distinct keeps,
      timestamp_passes env setting distinct,
      all_statuses_passes env setting distinct,
    )
