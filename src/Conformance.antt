-- ===== src/Conformance.antt =====
-- storagetest/conformance.go: the conformance suite that a storage runs. A test is a function from
-- the state of a new storage to the failures that it reports; t.Fatalf ends it. This file has what
-- the tests share; the instances of a test are created at `now`, the clock of the calls of the
-- storage is `later`, and `ids n` is the n-th id that durex.GenerateID returns in a test.
pub mod Basics
pub mod Queries
pub mod Sweeps
pub mod Fields
pub mod Stored
pub mod Suite
pub mod Passed
use durex.Prelude.{ℕ, ℤ, pos, String, Bool, true, false, none, List, [], ◌∷◌, ◌++◌}
use durex.Text.{empty_text}
use durex.Status.{Status}
use durex.Instance.{Instance}
use durex.Storage.{Storage, StorageError, Reply, ok, err}

pub data Failure : Type 0 where
  -- t.Fatalf after a call that failed
  call_failed : String → StorageError → Failure
  -- t.Errorf
  wrong : String → Failure

pub record Setting : Type 0 where
  pub now : ℤ
  pub later : ℤ
  pub ids : ℕ → String

-- if !ok { t.Errorf }
abbrev pub expect : Bool → String → List Failure
expect true message = []
expect false message = wrong message ∷ []

-- an Instance with its id, name, status and times; all else is zero
abbrev pub instance_of : {V : Type 0} → String → String → Status → ℤ → ℤ → Instance V
instance_of id name status created_at ready_at = record {
  id = id;
  name = name;
  payload = none;
  status = status;
  retries = pos 0;
  sequence = [];
  parent_id = none;
  priority = pos 0;
  tags = [];
  unique_key = "";
  trace_id = "";
  correlation_id = "";
  created_at = created_at;
  ready_at = ready_at;
  started_at = none;
  completed_at = none;
  deadline_at = none;
  timeout = pos 0;
  period = pos 0;
  cron = "";
  error = empty_text;
  attempt = pos 0;
  metadata = none;
  history = [];
}

-- a call whose error is fatal, and the rest of the test on its answer
abbrev pub must {ℓ} : {A : Type ℓ} → String → Reply A → (A → List Failure) → List Failure
must message (err x) rest = call_failed message x ∷ []
must message (ok a) rest = rest a

module _ {V : Type 0} (st : Storage V) where
  abbrev pub creating : st.State → Instance V → (st.State → List Failure) → List Failure
  creating s cmd rest =
      let (reply, s') = st.create s cmd in must "Create failed" reply (λ _. rest s')

  -- a loop that creates instances
  unfoldable pub create_each :
      st.State → List (Instance V) → (st.State → List Failure) → List Failure
  create_each s [] rest = rest s
  create_each s (cmd ∷ cmds) rest = creating s cmd (λ s'. create_each s' cmds rest)
