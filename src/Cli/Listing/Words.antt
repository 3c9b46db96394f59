-- ===== src/Cli/Listing/Words.antt =====
-- What `durex list --status` finds for the words that the flag's help names.
use durex.Prelude.{
  ltb_ℤ, pos, negsuc, ◌+◌, ◌⊎◌, ◌&&◌, ◌||◌, if◌then◌else◌, ℕ, zero, suc, take, drop, pos_part, ℤ,
  String, ◌≡◌, false, some, none, List, [], Bool, ◌∷◌, select, ap, ◌∙◌, refl, arith, ◌==◌,
}
use durex.Status.{Status, named, unnamed, status_text}
use durex.Env.{Env}
use durex.Storage.Sql.{Row, Engine, Database, order_by}
use durex.Storage.Sql.Rows.{scan_all}
use durex.Storage.Sql.Sqlite
use durex.Storage.Sql.Sqlite.{sqlite}
use durex.Storage.Sql.Postgres.Queries
use durex.Storage.Sql.Postgres.Queries.{postgres}
use durex.Instance.{Instance, has_tag}
use durex.Storage.{Storage, ok}
use durex.Cli.{printed}
use durex.Cli.Listing.{
  ListOptions, fallback, filter_commands, queried, query_of, list_commands_of, status_of_upper,
}

-- "Filter by status (pending, started, completed, failed, expired, cancelled, repeating)"
pub data Word : Type 0 where
  pending started completed failed expired cancelled repeating : Word

abbrev pub text_of : Word → String
text_of pending = "pending"
text_of started = "started"
text_of completed = "completed"
text_of failed = "failed"
text_of expired = "expired"
text_of cancelled = "cancelled"
text_of repeating = "repeating"

abbrev pub status_of : Word → Status
status_of pending = Status.pending
status_of started = Status.started
status_of completed = Status.completed
status_of failed = Status.failed
status_of expired = Status.expired
status_of cancelled = Status.cancelled
status_of repeating = Status.repeating

status_of_upper-text_of : (w : Word) → status_of_upper (text_of w) ≡ named (status_of w)
unfolding status_of_upper
status_of_upper-text_of pending = refl
status_of_upper-text_of started = refl
status_of_upper-text_of completed = refl
status_of_upper-text_of failed = refl
status_of_upper-text_of expired = refl
status_of_upper-text_of cancelled = refl
status_of_upper-text_of repeating = refl

text_of-nonempty : (w : Word) → (text_of w == "") ≡ false
text_of-nonempty pending = refl
text_of-nonempty started = refl
text_of-nonempty completed = refl
text_of-nonempty failed = refl
text_of-nonempty expired = refl
text_of-nonempty cancelled = refl
text_of-nonempty repeating = refl

status_text-text_of : (w : Word) → status_text (text_of w) ≡ unnamed
status_text-text_of pending = refl
status_text-text_of started = refl
status_text-text_of completed = refl
status_text-text_of failed = refl
status_text-text_of expired = refl
status_text-text_of cancelled = refl
status_text-text_of repeating = refl

module _ {A : Type 0} where
  select-nothing : (p : A → Bool) (xs : List A) → ((x : A) → p x ≡ false) → select p xs ≡ []
  unfolding select
  select-nothing p [] h = refl
  select-nothing p (x ∷ xs) h = ground (arith, h x, select-nothing p xs h)

  take-nothing : (n : ℕ) → take {A = A} n [] ≡ []
  take-nothing zero = refl
  take-nothing (suc n) = refl

  drop-nothing : (n : ℕ) → drop {A = A} n [] ≡ []
  drop-nothing zero = refl
  drop-nothing (suc n) = refl

-- one command at least, also where the limit is not positive
abbrev pub limit_of : ListOptions → ℕ
limit_of o = if ltb_ℤ (pos 0) o.limit then pos_part o.limit else 1

module _ {V : Type 0} (o : ListOptions) where
  -- a flag that is not given lets every command pass
  abbrev pub is_listed : Instance V → Bool
  is_listed cmd = (o.name == "" || cmd.name == o.name) && (o.tag == "" || has_tag cmd o.tag)

  filter_commands-take :
      (room kept : ℕ) (l : List (Instance V))
      → ((room ≡ 0) × (ltb_ℤ (pos (suc kept)) o.limit ≡ false)) ⊎ (o.limit ≡ pos (kept + suc room))
      → filter_commands o kept l ≡ take (suc room) (select is_listed l)
  unfolding filter_commands select
  filter_commands-take room kept [] c = refl
  filter_commands-take zero kept (cmd ∷ l) c = ground (arith, c, filter_commands-take zero kept l c)
  filter_commands-take (suc room) kept (cmd ∷ l) c =
      ground
        (arith, c, filter_commands-take (suc room) kept l c, filter_commands-take room (suc kept) l)

  filter_commands-room :
      (room : ℕ) (l : List (Instance V))
      → ((room ≡ 0) × (ltb_ℤ (pos 1) o.limit ≡ false)) ⊎ (o.limit ≡ pos (suc room))
      → suc room ≡ limit_of o
      → filter_commands o 0 l ≡ take (limit_of o) (select is_listed l)
  filter_commands-room room l c e =
      filter_commands-take room 0 l (ground (arith, c)) ∙ ap (λ n. take n (select is_listed l)) e

  filter_commands-limit :
      (limit : ℤ) (l : List (Instance V))
      → o.limit ≡ limit
      → filter_commands o 0 l ≡ take (limit_of o) (select is_listed l)
  filter_commands-limit (pos zero) l e =
      filter_commands-room 0 l (ground (arith, e)) (ground (arith, e))
  filter_commands-limit (pos (suc n)) l e =
      filter_commands-room n l (ground (arith, e)) (ground (arith, e))
  filter_commands-limit (negsuc n) l e =
      filter_commands-room 0 l (ground (arith, e)) (ground (arith, e))

module _ {Any : Type 0} (engine : Engine Any) where
  -- no row has a status that is no state's name
  find_sqlite-unnamed :
      (db : Database engine.Json engine.Time) (o : ListOptions)
      → db.fault ≡ none
      → Sqlite.find engine db (query_of o (some unnamed)) ≡ ok []
  unfolding Sqlite.find Sqlite.matches_query Sqlite.window query_of order_by scan_all
  find_sqlite-unnamed db o f = rw f (
      rw
        (select-nothing (Sqlite.matches_query engine (query_of o (some unnamed))) db.rows
          (λ r. refl))
        (ground (arith, take-nothing {A = Row engine.Json engine.Time} (pos_part o.limit))))

  find_postgres-unnamed :
      (db : Database engine.Json engine.Time) (o : ListOptions)
      → db.fault ≡ none
      → Queries.find engine db (query_of o (some unnamed)) ≡ ok []
  unfolding Queries.find Queries.matches_query Queries.window query_of order_by scan_all
  find_postgres-unnamed db o f = rw f (
      rw
        (select-nothing (Queries.matches_query engine (query_of o (some unnamed))) db.rows
          (λ r. refl))
        (ground (arith, take-nothing {A = Row engine.Json engine.Time} (pos_part o.limit))))

-- A status given to `durex list` by a word that the help of `--status` names: on both databases that
-- the tool opens, where they answer, no command is listed, whatever is stored. The branch for a
-- storage without queries lists the first of those that FindByStatus returns for the status that the
-- word names and that have the name and the tag of the other flags, as many as the limit, or one if
-- the limit is not positive.
pub list_commands-text_of :
    (env : Env) (engine : Engine env.Any) (db : Database engine.Json engine.Time)
    (st : Storage env.Any) (s : st.State) (o : ListOptions) (now : ℤ) (w : Word)
    (l : List (Instance env.Any))
    → o.status ≡ text_of w
    → db.fault ≡ none
    → st.find_by_status s (named (status_of w)) ≡ ok l
    → (list_commands_of (sqlite env engine) o now db ≡ printed [])
      × (list_commands_of (postgres env engine) o now db ≡ printed [])
      × (fallback st o now s ≡ printed (take (limit_of o) (select (is_listed o) l)))
unfolding list_commands_of queried fallback
list_commands-text_of env engine db st s o now w l e f b =
    let filled = ap (λ (t : String). t == "") e ∙ text_of-nonempty w in
    let other = ap (λ (t : String). status_text t) e ∙ status_text-text_of w in
    (
      ground (arith, filled, other, find_sqlite-unnamed engine db o f),
      ground (arith, filled, other, find_postgres-unnamed engine db o f),
      ground (
        arith,
        filled,
        b,
        filter_commands-limit o o.limit l refl,
        ap status_of_upper e,
        status_of_upper-text_of w,
      ),
    )
