-- ===== src/Storage.antt =====
-- storage.go: the errors, the query and the interface of a storage, as operations on its state.
-- The operations of QueryableStorage and LockingStorage are optional: `none` is a type assertion
-- that fails. The clock's reading is an argument of the operations that call time.Now.
pub mod Laws
pub mod Memory
pub mod Hooked
pub mod Sql
use durex.Prelude.{
  ◌≡◌, ◌⊎◌, inl, inr, refl, ℕ, ℤ, pos, String, Bool, false, true, Option, none, List, [],
}
use durex.Text.{Text}
use durex.Status.{Status, StatusText}
use durex.Instance.{Instance}

-- `backend` is any other error of a database.
pub data StorageError : Type 0 where
  not_found already_exists storage_closed : StorageError
  backend : Text → StorageError

pub data Reply {ℓ} (A : Type ℓ) : Type ℓ where
  ok : A → Reply A
  err : StorageError → Reply A

abbrev pub is_ok {ℓ} : {A : Type ℓ} → Reply A → Bool
is_ok (ok a) = true
is_ok (err e) = false

pub Reply-cases :
    {A : Type 0} (r : Reply A) → ((x : StorageError) × (r ≡ err x)) ⊎ ((a : A) × (r ≡ ok a))
Reply-cases (err x) = inl (x, refl)
Reply-cases (ok a) = inr (a, refl)

pub record Query : Type 0 where
  pub status : Option StatusText
  pub name : Option String
  pub parent_id : Option String
  pub tags : List String
  pub created_after : Option ℤ
  pub created_before : Option ℤ
  pub limit : ℤ
  pub offset : ℤ
  pub order_by : String
  pub order_desc : Bool

-- Query{}
abbrev pub any_query : Query
any_query = record {
  status = none;
  name = none;
  parent_id = none;
  tags = [];
  created_after = none;
  created_before = none;
  limit = pos 0;
  offset = pos 0;
  order_by = "";
  order_desc = false;
}

pub record Storage (V : Type 0) : Type 1 where
  pub State : Type 0
  pub create : State → Instance V → Reply (Unit {0}) × State
  pub update : State → Instance V → Reply (Unit {0}) × State
  pub delete : State → String → Reply (Unit {0}) × State
  pub get : State → String → Reply (Instance V)
  pub find_pending : State → ℤ → Reply (List (Instance V))
  pub find_by_status : State → StatusText → Reply (List (Instance V))
  pub find_by_unique_key : State → String → Reply (Instance V)
  pub cleanup : State → ℤ → ℤ → Reply ℕ × State
  pub count : State → Option Status → Reply ℕ
  pub find : Option (State → Query → Reply (List (Instance V)))
  pub claim_pending : Option (State → ℤ → ℤ → Reply (List (Instance V)) × State)
