-- ===== src/Conformance/Basics.antt =====
-- storagetest/conformance.go: the tests of Create, Get, Update and Delete.
use durex.Prelude.{
  pos, is_zero, String, Bool, false, is_some, Option, none, some, List, [], ◌∷◌, ◌++◌, ◌==◌,
}
use durex.Text.{Text, lit}
use durex.Status.{same, pending, completed}
use durex.Instance.{Instance, get}
use durex.Env.{Env}
use durex.Storage.{Storage, Reply, ok, err, not_found, already_exists}
use durex.Conformance.{Failure, wrong, Setting, expect, instance_of, must, creating}

-- err != ErrNotFound, and the same of ErrAlreadyExists
abbrev pub expect_not_found {ℓ} : {A : Type ℓ} → Reply A → String → List Failure
expect_not_found (err not_found) message = []
expect_not_found _ message = wrong message ∷ []

abbrev pub expect_exists {ℓ} : {A : Type ℓ} → Reply A → String → List Failure
expect_exists (err already_exists) message = []
expect_exists _ message = wrong message ∷ []

abbrev pub is_lit : Text → String → Bool
is_lit (lit t) s = t == s
is_lit _ s = false

module _ (env : Env) (st : Storage env.Any) (setting : Setting) where
  open env use {Any, as_string, of_string}
  open setting use {now}

  abbrev pub plain : String → String → Instance Any
  plain id name = instance_of id name pending now now

  -- the text under a key of the data
  abbrev pub is_text_at : Option Any → String → Bool
  is_text_at none text = false
  is_text_at (some v) text = elim (as_string v) [ none ↦ false | some t ↦ t == text ]

  -- `nested` is the map under the key of that name
  unfoldable pub test_create_and_get : Any → st.State → List Failure
  unfolding get
  test_create_and_get nested s =
      let cmd : Instance Any = record (plain "test-create-get-1" "testCommand") {
        payload = some (("key", of_string "value") ∷ ("nested", nested) ∷ []);
      } in
      creating st s cmd λ s'. must "Get failed" (st.get s' cmd.id) λ got.
        expect (got.id == cmd.id) "ID mismatch"
        ++ (expect (got.name == cmd.name) "Name mismatch"
            ++ (expect (same got.status cmd.status) "Status mismatch"
                ++ expect (is_text_at (get got "key") "value") "Data key mismatch"))

  unfoldable pub test_create_duplicate : st.State → List Failure
  test_create_duplicate s =
      let cmd = plain "test-dup-1" "testCommand" in
      creating st s cmd λ s'. expect_exists (st.create s' cmd).0 "Expected ErrAlreadyExists"

  unfoldable pub test_update : st.State → List Failure
  test_update s =
      let cmd = record (plain "test-update-1" "testCommand") { retries = pos 3 } in
      let cmd' = record cmd {
        status = completed;
        retries = pos 0;
        error = lit "test error";
        completed_at = some now;
      } in
      creating st s cmd λ s'.
        let (reply, s'') = st.update s' cmd' in
        must "Update failed" reply λ _. must "Get failed" (st.get s'' cmd.id) λ got.
          expect (same got.status completed) "Status not updated"
          ++ (expect (is_zero got.retries) "Retries not updated"
              ++ (expect (is_lit got.error "test error") "Error not updated"
                  ++ expect (is_some got.completed_at) "CompletedAt should not be nil"))

  -- the times of the instance are zero
  unfoldable pub test_update_not_found : st.State → List Failure
  test_update_not_found s =
      expect_not_found
        (st.update s (instance_of "nonexistent-update" "test" pending (pos 0) (pos 0))).0
        "Expected ErrNotFound"

  unfoldable pub test_delete : st.State → List Failure
  test_delete s =
      let cmd = plain "test-delete-1" "testCommand" in
      creating st s cmd λ s'.
        let (reply, s'') = st.delete s' cmd.id in
        must "Delete failed" reply
          λ _. expect_not_found (st.get s'' cmd.id) "Expected ErrNotFound after delete"

  unfoldable pub test_delete_idempotent : st.State → List Failure
  test_delete_idempotent s = elim (st.delete s "nonexistent-delete").0 [
    | err x ↦ wrong "Delete of non-existent should be idempotent" ∷ []
    | ok _ ↦ []
  ]

  unfoldable pub test_get_not_found : st.State → List Failure
  test_get_not_found s = expect_not_found (st.get s "nonexistent-get") "Expected ErrNotFound"
