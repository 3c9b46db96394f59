-- ===== src/Conformance/Suite.antt =====
-- storagetest/conformance.go: RunConformanceTests, with the failures of each test on a new storage.
use durex.Prelude.{String, List, [], ◌∷◌}
use durex.Instance.{Instance}
use durex.Env.{Env}
use durex.Storage.{Storage, Reply}
use durex.Conformance.{Failure, Setting}
use durex.Conformance.Basics.{
  test_create_and_get, test_create_duplicate, test_update, test_update_not_found, test_delete,
  test_delete_idempotent, test_get_not_found,
}
use durex.Conformance.Queries.{
  test_find_pending, test_find_pending_respects_ready_at, test_find_by_status, test_find_by_parent,
  test_find_by_unique_key, test_find_by_unique_key_only_active,
}
use durex.Conformance.Sweeps.{
  test_cleanup, test_cleanup_preserves_active, test_count, test_count_by_status,
}
use durex.Conformance.Fields.{
  Samples, test_data_persistence, test_sequence_persistence, test_tags_persistence,
  test_metadata_persistence, test_timestamp_persistence, test_all_statuses_persist,
}

module _ (env : Env) (st : Storage env.Any) (setting : Setting) where
  open env use {Any}

  -- `inner` is the map {"inner": 123}
  unfoldable pub run_conformance_tests :
      (st.State → String → Reply (List (Instance Any)))
      → Any
      → Samples Any
      → st.State
      → List (String × List Failure)
  run_conformance_tests find_by_parent inner samples s =
      ("CreateAndGet", test_create_and_get env st setting inner s)
      ∷ ("CreateDuplicate", test_create_duplicate env st setting s)
      ∷ ("Update", test_update env st setting s)
      ∷ ("UpdateNotFound", test_update_not_found env st setting s)
      ∷ ("Delete", test_delete env st setting s)
      ∷ ("DeleteIdempotent", test_delete_idempotent env st setting s)
      ∷ ("GetNotFound", test_get_not_found env st setting s)
      ∷ ("FindPending", test_find_pending env st setting s)
      ∷ ("FindPendingRespectsReadyAt", test_find_pending_respects_ready_at env st setting s)
      ∷ ("FindByStatus", test_find_by_status env st setting s)
      ∷ ("FindByParent", test_find_by_parent env st setting find_by_parent s)
      ∷ ("FindByUniqueKey", test_find_by_unique_key env st setting s)
      ∷ ("FindByUniqueKeyOnlyActive", test_find_by_unique_key_only_active env st setting s)
      ∷ ("Cleanup", test_cleanup env st setting s)
      ∷ ("CleanupPreservesActive", test_cleanup_preserves_active env st setting s)
      ∷ ("Count", test_count env st setting s)
      ∷ ("CountByStatus", test_count_by_status env st setting s)
      ∷ ("DataPersistence", test_data_persistence env st setting samples s)
      ∷ ("SequencePersistence", test_sequence_persistence env st setting s)
      ∷ ("TagsPersistence", test_tags_persistence env st setting s)
      ∷ ("MetadataPersistence", test_metadata_persistence env st setting s)
      ∷ ("TimestampPersistence", test_timestamp_persistence env st setting s)
      ∷ ("AllStatusesPersist", test_all_statuses_persist env st setting s)
      ∷ []
