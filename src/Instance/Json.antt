-- ===== src/Instance/Json.antt =====
-- instance.go: MarshalJSON and UnmarshalJSON. Both hand encoding/json a struct of the instance itself
-- and two more fields, period_ns and timeout_ns, which are zero where the JSON has none.
use durex.Prelude.{ℤ, Option, none, some}
use durex.Instance.{Instance}

-- the struct under its tags
pub record Aux (V : Type 0) : Type 0 where
  pub alias : Instance V
  pub period_ns : ℤ
  pub timeout_ns : ℤ

-- json.Marshal of that struct, and json.Unmarshal into the instance that is there and two zero
-- fields; `none` is an error, and `B` the bytes
pub record AuxJson (V B : Type 0) : Type 0 where
  pub marshal : Aux V → Option B
  pub unmarshal : B → Instance V → Option (Aux V)

module _ {V B : Type 0} (json : AuxJson V B) where
  open json use {marshal, unmarshal}

  unfoldable pub marshal_json : Instance V → Option B
  marshal_json i = marshal (record { alias = i; period_ns = i.period; timeout_ns = i.timeout })

  -- what a failed call leaves behind is not modelled
  unfoldable pub unmarshal_json : B → Instance V → Option (Instance V)
  unmarshal_json bytes i = elim (unmarshal bytes i) [
    | none ↦ none
    | some aux ↦ some (record aux.alias { period = aux.period_ns; timeout = aux.timeout_ns })
  ]
