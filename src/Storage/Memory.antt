-- ===== src/Storage/Memory.antt =====
-- storage/memory.go: the in-memory storage. A method returns its reply and the new state; the
-- mutex makes each method one step.
pub mod Sweep
pub mod Map
pub mod Queries
use durex.Prelude.{
  ℕ, suc, ℤ, pos, pos_part, ltb_ℤ, ◌-ℤ◌, leb, ltb, String, Bool, true, false, not, ◌&&◌, Option,
  none, some, is_some, List, [], ◌∷◌, map, length, take, drop, select, tally, Dict, lookup, insert,
  remove, values, ◌==◌, if◌then◌else◌,
}
use durex.Status.{StatusText, is_status, Status, is_active, is_terminal, same}
use durex.Instance.{Instance, clone, has_tag}
use durex.Storage.{Reply, ok, err, storage_closed, already_exists, not_found, Query}
use durex.Env.{Env}

pub record Memory (V : Type 0) : Type 0 where
  pub commands : Dict (Instance V)
  pub closed : Bool

abbrev pub new_memory : {V : Type 0} → Memory V
new_memory = record { commands = []; closed = false }

has_tags : {V : Type 0} → Instance V → List String → Bool
unfolding has_tag
has_tags cmd [] = true
has_tags cmd (tag ∷ tags) = has_tag cmd tag && has_tags cmd tags

-- each test of matchesQuery that returns false
abbrev fits {ℓ} : {A : Type ℓ} → Option A → (A → Bool) → Bool
fits none test = true
fits (some a) test = test a

unfoldable pub matches_query : {V : Type 0} → Instance V → Query → Bool
unfolding has_tags same
matches_query cmd query =
    fits query.status (λ s. is_status cmd.status s)
    && fits query.name (λ n. cmd.name == n)
    && fits query.parent_id (λ p. elim cmd.parent_id [ none ↦ false | some q ↦ q == p ])
    && has_tags cmd query.tags
    && fits query.created_after (λ t. not (ltb_ℤ cmd.created_at t))
    && fits query.created_before (λ t. not (ltb_ℤ t cmd.created_at))

-- the offset and the limit of Find; a value that is not positive is not applied
unfoldable pub page {ℓ} : {A : Type ℓ} → ℤ → ℤ → List A → List A
page offset limit result =
    let rest = if ltb 0 (pos_part offset) then drop (pos_part offset) result else result in
    if ltb 0 (pos_part limit) && ltb (pos_part limit) (length rest)
    then take (pos_part limit) rest
    else rest

-- the first command, in the order of the map, that passes the test
first : {V : Type 0} → (Instance V → Bool) → List (Instance V) → Option (Instance V)
first p [] = none
first p (c ∷ cs) = if p c then some c else first p cs

unfoldable pub is_stale : {V : Type 0} → ℤ → Instance V → Bool
unfolding is_terminal
is_stale cutoff cmd =
    is_terminal cmd.status && elim cmd.completed_at [ none ↦ false | some t ↦ ltb_ℤ t cutoff ]

-- the loop of Cleanup: it ranges over the map while it deletes from it
unfoldable pub sweep :
    {V : Type 0} → ℤ → List (String × Instance V) → Dict (Instance V) → ℕ → Dict (Instance V) × ℕ
unfolding is_stale
sweep cutoff [] m count = (m, count)
sweep cutoff ((id, cmd) ∷ rest) m count =
    sweep cutoff rest (if is_stale cutoff cmd then remove id m else m)
      (if is_stale cutoff cmd then suc count else count)

module _ (env : Env) where
  open env use {Any}

  unfoldable pub create : Memory Any → Instance Any → Reply (Unit {0}) × Memory Any
  unfolding clone
  create m cmd =
      if m.closed
      then (err storage_closed, m)
      else if is_some (lookup cmd.id m.commands)
      then (err already_exists, m)
      else (ok tt, record m { commands = insert cmd.id (clone env cmd) m.commands })

  unfoldable pub update : Memory Any → Instance Any → Reply (Unit {0}) × Memory Any
  unfolding clone
  update m cmd =
      if m.closed
      then (err storage_closed, m)
      else if is_some (lookup cmd.id m.commands)
      then (ok tt, record m { commands = insert cmd.id (clone env cmd) m.commands })
      else (err not_found, m)

  unfoldable pub delete : Memory Any → String → Reply (Unit {0}) × Memory Any
  delete m id =
      if m.closed
      then (err storage_closed, m)
      else (ok tt, record m { commands = remove id m.commands })

  unfoldable pub get : Memory Any → String → Reply (Instance Any)
  unfolding clone
  get m id =
      if m.closed
      then err storage_closed
      else elim (lookup id m.commands) [ none ↦ err not_found | some cmd ↦ ok (clone env cmd) ]

  -- the loops that collect the commands which pass a test
  collect : Memory Any → (Instance Any → Bool) → Reply (List (Instance Any))
  unfolding clone
  collect m p =
      if m.closed then err storage_closed else ok (map (clone env) (select p (values m.commands)))

  unfoldable pub find_pending : Memory Any → ℤ → Reply (List (Instance Any))
  unfolding collect is_active
  find_pending m now = collect m (λ cmd. is_active cmd.status && not (ltb_ℤ now cmd.ready_at))

  unfoldable pub find_by_status : Memory Any → StatusText → Reply (List (Instance Any))
  unfolding collect same
  find_by_status m status = collect m (λ cmd. is_status cmd.status status)

  unfoldable pub find_by_parent : Memory Any → String → Reply (List (Instance Any))
  unfolding collect
  find_by_parent m parent_id =
      collect m (λ cmd. elim cmd.parent_id [ none ↦ false | some p ↦ p == parent_id ])

  unfoldable pub find_by_unique_key : Memory Any → String → Reply (Instance Any)
  unfolding clone first is_active
  find_by_unique_key m key =
      if m.closed
      then err storage_closed
      else elim (first (λ cmd. cmd.unique_key == key && is_active cmd.status) (values m.commands)) [
        | none ↦ err not_found
        | some cmd ↦ ok (clone env cmd)
      ]

  unfoldable pub cleanup : Memory Any → ℤ → ℤ → Reply ℕ × Memory Any
  unfolding sweep
  cleanup m now older_than =
      if m.closed
      then (err storage_closed, m)
      else (let (kept, n) = sweep (now -ℤ older_than) m.commands m.commands 0 in
          (ok n, record m { commands = kept }))

  unfoldable pub count : Memory Any → Option Status → Reply ℕ
  unfolding same
  count m status =
      if m.closed
      then err storage_closed
      else ok (tally (λ cmd. fits status (λ s. same cmd.status s)) (values m.commands))

  unfoldable pub find : Memory Any → Query → Reply (List (Instance Any))
  unfolding clone matches_query page
  find m query =
      if m.closed
      then err storage_closed
      else ok (
          page query.offset query.limit
            (map (clone env) (select (λ cmd. matches_query cmd query) (values m.commands))))

  unfoldable pub all : Memory Any → List (Instance Any)
  unfolding clone
  all m = map (clone env) (values m.commands)

unfoldable pub close : {V : Type 0} → Memory V → Memory V
close m = record { commands = []; closed = true }

unfoldable pub reset : {V : Type 0} → Memory V → Memory V
reset m = record m { commands = [] }
