-- ===== src/Executor/Handlers/Limiter.antt =====
-- What follows an execution leaves the rate limiter alone.
use durex.Prelude.{suc, ℤ, String, ◌≡◌, refl, ◌∙◌, Option, none, some, List, [], ◌∷◌, arith}
use durex.Text.{Text}
use durex.Spec.{Spec}
use durex.Result.{Result}
use durex.Instance.{Instance}
use durex.Registry.{resolve}
use durex.Env.{Env}
use durex.Storage.{Storage}
use durex.Executor.{Executor, Command, Outcome, Verdict, metric, command_retried, handle_error_call}
use durex.Executor.Create.{create_instance, new_instance, with_defaults}
use durex.Executor.Schedule.{schedule}
use durex.Executor.Api.{add, add_all, persist}
use durex.Executor.Handlers.{
  update_then, handle_result, handle_error, handle_expired, complete, spawn_child, spawn_children,
  spawn_barrier, barrier_spec, continue_with, propagate_ids, follow_up, follow_verdict, expired_of,
  recover_of, as_repeating, as_retrying, as_backing_off, as_failed, as_expired,
}

pub limiter-schedule :
    {V S : Type 0} (e : Executor V S) (i : Instance V) (now : ℤ)
    → (schedule e i now).rate_limiter ≡ e.rate_limiter
unfolding schedule
limiter-schedule e i now = ground arith

module _ (env : Env) (st : Storage env.Any) where
  open env use {Any}

  pub limiter-persist :
      (e : Executor Any st.State) (i : Instance Any) (now : ℤ)
      → (persist env st e i now).1.rate_limiter ≡ e.rate_limiter
  unfolding persist
  limiter-persist e i now =
      ground (arith, limiter-schedule (record e { storage = (st.create e.storage i).1 }) i now)

  pub limiter-add :
      (e : Executor Any st.State) (spec : Spec Any) (now : ℤ)
      → (add env st e spec now).1.rate_limiter ≡ e.rate_limiter
  unfolding add create_instance
  limiter-add e spec now = ground (
    arith,
    limiter-persist (record e { generated = suc e.generated })
        (new_instance e (with_defaults e spec) (env.generated e.generated) now) now,
  )

  pub limiter-add_all :
      (e : Executor Any st.State) (specs : List (Spec Any)) (now : ℤ)
      → (add_all env st e specs now).rate_limiter ≡ e.rate_limiter
  unfolding add_all
  limiter-add_all e [] now = refl
  limiter-add_all e (spec ∷ specs) now =
      limiter-add_all (add env st e spec now).1 specs now ∙ limiter-add e spec now

  pub limiter-spawn_child :
      (e : Executor Any st.State) (parent : Instance Any) (spec : Spec Any) (now : ℤ)
      → (spawn_child env st e parent spec now).1.rate_limiter ≡ e.rate_limiter
  unfolding spawn_child create_instance
  limiter-spawn_child e parent spec now =
      let made = new_instance e (with_defaults e spec) (env.generated e.generated) now in
      let child = record made { parent_id = some parent.id } in
      ground (
        arith,
        limiter-schedule
            (record e { generated = suc e.generated; storage = (st.create e.storage child).1 })
            child now,
      )

  pub limiter-spawn_children :
      (e : Executor Any st.State) (parent : Instance Any) (specs : List (Spec Any)) (now : ℤ)
      → (spawn_children env st e parent specs now).1.rate_limiter ≡ e.rate_limiter
  unfolding spawn_children
  limiter-spawn_children e parent [] now = refl
  limiter-spawn_children e parent (spec ∷ specs) now =
      let child = propagate_ids spec parent in
      limiter-spawn_children (spawn_child env st e parent child now).1 parent specs now
      ∙ limiter-spawn_child e parent child now

  pub limiter-continue_with :
      (e : Executor Any st.State) (i : Instance Any) (c : Option (Spec Any)) (ids : List String)
      (now : ℤ)
      → (continue_with env st e i c ids now).rate_limiter ≡ e.rate_limiter
  unfolding continue_with spawn_barrier
  limiter-continue_with e i none ids now = refl
  limiter-continue_with e i (some c) [] now = refl
  limiter-continue_with e i (some c) (id ∷ ids) now =
      limiter-spawn_child e i (barrier_spec env st i (propagate_ids c i) (id ∷ ids)) now

  pub limiter-handle_result :
      (e : Executor Any st.State) (i : Instance Any) (result : Result Any) (now : ℤ)
      → (handle_result env st e i result now).1.rate_limiter ≡ e.rate_limiter
  unfolding handle_result complete update_then
  limiter-handle_result e i result now =
      let repeated = as_repeating env e.config i now in
      let retried = as_retrying i now in
      let e₁ = metric e (command_retried i.name i.attempt) in
      let (ids, e₂) = spawn_children env st e i result.commands now in
      ground (
        arith,
        limiter-schedule (record e { storage = (st.update e.storage repeated).1 }) repeated now,
        limiter-schedule (record e₁ { storage = (st.update e₁.storage retried).1 }) retried now,
        limiter-spawn_children e i result.commands now,
        limiter-continue_with e₂ i result.continuation ids now,
      )

  pub limiter-follow_verdict :
      (e : Executor Any st.State) (i : Instance Any) (v : Verdict Any) (now : ℤ)
      → (follow_verdict env st e i v now).1.rate_limiter ≡ e.rate_limiter
  limiter-follow_verdict e i (Verdict.returned r) now = limiter-add_all e r.commands now
  limiter-follow_verdict e i (Verdict.failed t) now = refl
  limiter-follow_verdict e i (Verdict.panicked t) now = refl

  pub limiter-follow_up :
      (e : Executor Any st.State) (o : Option (Outcome Any)) (now : ℤ)
      → (follow_up env st e o now).1.rate_limiter ≡ e.rate_limiter
  unfolding follow_up
  limiter-follow_up e none now = refl
  limiter-follow_up e (some o) now = limiter-follow_verdict e o.instance_after o.verdict now

  pub limiter-handle_error :
      (e : Executor Any st.State) (i : Instance Any) (handler : Command Any) (t : Text) (now : ℤ)
      → (handle_error env st e i handler t now).1.rate_limiter ≡ e.rate_limiter
  unfolding handle_error update_then
  limiter-handle_error e i handler t now =
      let retried = as_backing_off e.config i t now in
      let failed = as_failed e.config i t now in
      let e₁ = metric e (command_retried i.name i.attempt) in
      let e₂ = handle_error_call (record e { storage = (st.update e.storage failed).1 }) failed t in
      ground (
        arith,
        limiter-schedule (record e₁ { storage = (st.update e₁.storage retried).1 }) retried now,
        limiter-follow_up e₂ (recover_of env st handler failed t) now,
      )

  pub limiter-handle_expired :
      (e : Executor Any st.State) (i : Instance Any) (now : ℤ)
      → (handle_expired env st e i now).1.rate_limiter ≡ e.rate_limiter
  unfolding handle_expired update_then
  limiter-handle_expired e i now =
      let e' = record e { storage = (st.update e.storage (as_expired i now)).1 } in
      ground (
        arith,
        limiter-follow_up e' (expired_of env st (resolve e.registry i.name) (as_expired i now)) now,
      )
