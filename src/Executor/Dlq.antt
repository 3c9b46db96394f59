-- ===== src/Executor/Dlq.antt =====
-- executor_api.go: the dead letter queue and the statistics.
pub mod Replay
pub mod Purge
use durex.Prelude.{
  ℕ, suc, ℤ, pos, ◌-ℤ◌, ltb_ℤ, String, Bool, false, not, Option, none, some, List, [], ◌∷◌, length,
  if◌then◌else◌,
}
use durex.Text.{empty_text}
use durex.Status.{named, pending, completed, failed, dead_letter, repeating, same}
use durex.Instance.{Instance}
use durex.Registry.{count}
use durex.RateLimiter.{RateLimitStats, RateLimiter}
use durex.RateLimiter
use durex.Storage.{Storage, Reply, ok, err}
use durex.Env.{Env}
use durex.Executor.{Executor, Error, storage_failed, not_dead_lettered}
use durex.Executor.Schedule.{schedule}
use durex.Executor.Api.{Answer, done, refused, write}

-- the fields that a replay sets again; Retries stays as it was left
unfoldable pub reset_for_replay : {V : Type 0} → Instance V → ℤ → Instance V
reset_for_replay i now = record i {
  status = pending;
  error = empty_text;
  started_at = none;
  completed_at = none;
  attempt = pos 0;
  ready_at = now;
}

unfoldable pub is_purgeable : {V : Type 0} → ℤ → Instance V → Bool
is_purgeable cutoff i = elim i.completed_at [ none ↦ false | some t ↦ ltb_ℤ t cutoff ]

pub record Stats : Type 0 where
  pub pending : ℕ
  pub completed : ℕ
  pub failed : ℕ
  pub dead_letter : ℕ
  pub repeating : ℕ
  pub queue_size : ℕ
  pub registered_commands : ℕ
  pub worker_count : ℕ
  pub rate_limit : Option RateLimitStats

infixl 5 ◌>>=◌
abbrev ◌>>=◌ {ℓ κ} : {A : Type ℓ} {B : Type κ} → Reply A → (A → Reply B) → Reply B
ok a >>= f = f a
err e >>= f = err e

module _ (env : Env) (st : Storage env.Any) where
  open env use {Any}

  unfoldable pub replay_from_dlq :
      Executor Any st.State → String → ℤ → Option Error × Executor Any st.State
  replay_from_dlq e id now = elim (st.get e.storage id) [
    | err x ↦ (some (storage_failed x), e)
    | ok i ↦
        if not (same i.status dead_letter)
        then (some (not_dead_lettered i.status), e)
        else (let (failure, e') = write env st e (reset_for_replay i now) in
            elim failure [
              | some x ↦ (some x, e')
              | none ↦ (none, schedule e' (reset_for_replay i now) now)
            ])
  ]

  unfoldable pub find_dead_lettered : Executor Any st.State → Answer (List (Instance Any))
  find_dead_lettered e = elim (st.find_by_status e.storage (named dead_letter)) [
    | ok l ↦ done l
    | err x ↦ refused (storage_failed x)
  ]

  -- the loop of PurgeDLQ; a failing delete is not counted
  unfoldable pub purge_each : st.State → ℤ → List (Instance Any) → ℕ → st.State × ℕ
  purge_each s cutoff [] n = (s, n)
  purge_each s cutoff (i ∷ is) n =
      let (reply, s') = st.delete s i.id in
      purge_each (if is_purgeable cutoff i then s' else s) cutoff is
        (if is_purgeable cutoff i then (elim reply [ ok _ ↦ suc n | err x ↦ n ]) else n)

  unfoldable pub purge_dlq : Executor Any st.State → ℤ → ℤ → Answer ℕ × Executor Any st.State
  purge_dlq e age now = elim (st.find_by_status e.storage (named dead_letter)) [
    | err x ↦ (refused (storage_failed x), e)
    | ok commands ↦
        let (s, n) = purge_each e.storage (now -ℤ age) commands 0 in
        (done n, record e { storage = s })
  ]

  limiter_stats : Option RateLimiter → Option RateLimitStats
  limiter_stats none = none
  limiter_stats (some r) = some (RateLimiter.stats r)

  unfoldable pub stats : Executor Any st.State → Reply Stats
  unfolding limiter_stats
  stats e = do
    pending_count ← st.count e.storage (some pending)
    completed_count ← st.count e.storage (some completed)
    failed_count ← st.count e.storage (some failed)
    dead_letter_count ← st.count e.storage (some dead_letter)
    repeating_count ← st.count e.storage (some repeating)
    ok (record {
      pending = pending_count;
      completed = completed_count;
      failed = failed_count;
      dead_letter = dead_letter_count;
      repeating = repeating_count;
      queue_size = length e.queue;
      registered_commands = count e.registry;
      worker_count = e.config.parallelism;
      rate_limit = limiter_stats e.rate_limiter;
    })
