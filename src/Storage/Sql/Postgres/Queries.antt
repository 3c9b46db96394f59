-- ===== src/Storage/Sql/Postgres/Queries.antt =====
-- storage/postgres.go: the queries, each one SQL statement, and the storage as a whole.
use durex.Prelude.{
  ℕ, ℤ, pos, ltb_ℤ, pos_part, String, Bool, true, false, not, ◌&&◌, Option, none, some, List, [],
  ◌∷◌, select, take, drop, length, tally, ◌==◌, if◌then◌else◌,
}
use durex.Text.{lit}
use durex.Status.{StatusText, is_status, Status, same}
use durex.Instance.{Instance}
use durex.Env.{Env}
use durex.Storage.{Storage, Reply, ok, err, backend, not_found, Query}
use durex.Storage.Sql.{Row, Engine, Database, order_by, more_urgent, is_in_progress, allowed_column}
use durex.Storage.Sql.Rows.{scan_instance, scan_all}
use durex.Storage.Sql.Postgres.{query, create, update, delete, get, claim_pending, cleanup}

module _ {Any : Type 0} (engine : Engine Any) where
  open engine use {Json, Time, format, before, mentions, column_before}

  query_instances :
      Database Json Time
      → (List (Row Json Time) → List (Row Json Time))
      → Reply (List (Instance Any))
  query_instances db rows_of =
      query engine db (λ rows. scan_all engine (scan_instance engine) (rows_of rows))

  unfoldable pub is_pending : ℤ → Row Json Time → Bool
  is_pending now r = is_in_progress r.status && not (before (format now) r.ready_at)

  unfoldable pub find_pending : Database Json Time → ℤ → Reply (List (Instance Any))
  unfolding query_instances
  find_pending db now =
      query_instances db (λ rows. order_by (more_urgent before) (select (is_pending now) rows))

  unfoldable pub find_by_status : Database Json Time → StatusText → Reply (List (Instance Any))
  unfolding query_instances
  find_by_status db status = query_instances db (λ rows.
      order_by (λ a b. before b.created_at a.created_at)
        (select (λ r. is_status r.status status) rows))

  abbrev is_equal : Option String → String → Bool
  is_equal none s = false
  is_equal (some t) s = t == s

  unfoldable pub find_by_parent : Database Json Time → String → Reply (List (Instance Any))
  unfolding query_instances
  find_by_parent db parent_id = query_instances db (λ rows.
      order_by (λ a b. before a.created_at b.created_at)
        (select (λ r. is_equal r.parent_id parent_id) rows))

  unfoldable pub find_by_correlation_id : Database Json Time → String → Reply (List (Instance Any))
  unfolding query_instances
  find_by_correlation_id db correlation_id = query_instances db (λ rows.
      order_by (λ a b. before a.created_at b.created_at)
        (select (λ r. is_equal r.correlation_id correlation_id) rows))

  -- LIMIT 1 without an order: any row would do, here it is the first
  unfoldable pub find_by_unique_key : Database Json Time → String → Reply (Instance Any)
  find_by_unique_key db key = query engine db (λ rows.
      elim (select (λ r. is_equal r.unique_key key && is_in_progress r.status) rows) [
        | [] ↦ err not_found
        | r ∷ rest ↦ scan_instance engine r
      ])

  unfoldable pub count : Database Json Time → Option Status → Reply ℕ
  count db none = query engine db (λ rows. ok (length rows))
  count db (some status) = query engine db (λ rows. ok (tally (λ r. same r.status status) rows))

  abbrev holds {ℓ} : {A : Type ℓ} → Option A → (A → Bool) → Bool
  holds none p = true
  holds (some a) p = p a

  mentions_all : List String → Option Json → Bool
  mentions_all [] tags = true
  mentions_all (t ∷ ts) none = false
  mentions_all (t ∷ ts) (some j) = mentions j t && mentions_all ts (some j)

  -- the conditions of Find, joined with AND
  unfoldable pub matches_query : Query → Row Json Time → Bool
  unfolding mentions_all
  matches_query q r =
      holds q.status (λ s. is_status r.status s)
      && holds q.name (λ n. r.name == n)
      && holds q.parent_id (λ p. is_equal r.parent_id p)
      && mentions_all q.tags r.tags
      && holds q.created_after (λ t. before (format t) r.created_at)
      && holds q.created_before (λ t. before r.created_at (format t))

  unfoldable pub window : Query → List (Row Json Time) → List (Row Json Time)
  window q rows =
      let rest = if ltb_ℤ (pos 0) q.offset then drop (pos_part q.offset) rows else rows in
      if ltb_ℤ (pos 0) q.limit then take (pos_part q.limit) rest else rest

  unfoldable pub order_of : Query → Row Json Time → Row Json Time → Bool
  order_of q a b =
      let column = if q.order_by == "" then "created_at" else q.order_by in
      if q.order_desc then column_before column b a else column_before column a b

  unfoldable pub find : Database Json Time → Query → Reply (List (Instance Any))
  unfolding query_instances
  find db q =
      if not (q.order_by == "") && not (allowed_column q.order_by)
      then err (backend (lit "invalid order_by column"))
      else query_instances db
          (λ rows. window q (order_by (order_of q) (select (matches_query q) rows)))

-- as seen by one executor, between the transactions of the others
abbrev pub postgres : (env : Env) → Engine env.Any → Storage env.Any
postgres env engine = record {
  State = Database engine.Json engine.Time;
  create = create engine;
  update = update engine;
  delete = delete engine;
  get = get engine;
  find_pending = find_pending engine;
  find_by_status = find_by_status engine;
  find_by_unique_key = find_by_unique_key engine;
  cleanup = cleanup engine;
  count = count engine;
  find = some (find engine);
  claim_pending = some (claim_pending engine []);
}
