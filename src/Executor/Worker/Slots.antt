-- ===== src/Executor/Worker/Slots.antt =====
-- An execution gives back the slot of the rate limiter that it took, on every path.
use durex.Prelude.{
  ℕ, ℤ, ◌-ℤ◌, ltb_ℤ, String, ◌≡◌, ◌≢◌, ◌⊎◌, inl, inr, refl, sym, ◌∙◌, Bool, true, false, not, ◌&&◌,
  ◌||◌, Bool-cases, Option-cases, Option, none, some, arith,
}
use mathlib.Core.Path.{subst}
use durex.Text.{timed_out}
use durex.Instance.{Instance, is_overdue}
use durex.Registry.{resolve}
use durex.RateLimiter.{RateLimiter, acquired, waits, running, attempt, take_slot, remove_waiter}
use durex.RateLimiter.Bounds.{running-release, global_ct-release, attempt_cases}
use durex.Env.{Env}
use durex.Storage.{Storage}
use durex.Executor.{
  Executor, Command, Verdict, metric, command_started, command_failed, command_completed,
}
use durex.Executor.Schedule.{schedule_delayed}
use durex.Executor.Handlers.{Flow, finished, fault, panic, blocked, update_then}
use durex.Executor.Worker.{
  as_started, run_command, conclude, conclude_verdict, run_handler, start_handler, give_up_slot,
  release_slot, limited, with_slot, execute, execute_with_middleware, recover_panic, unwind,
  safe_execute,
}
use durex.Executor.Handlers.Limiter.{
  limiter-handle_result, limiter-handle_error, limiter-handle_expired,
}

module _ (env : Env) (st : Storage env.Any) where
  open env use {Any}

  limiter-conclude_verdict :
      (e : Executor Any st.State) (i : Instance Any) (handler : Command Any) (after : Instance Any)
      (v : Verdict Any) (now finish : ℤ)
      → (conclude_verdict env st e i handler after v now finish).1.rate_limiter ≡ e.rate_limiter
  limiter-conclude_verdict e i handler after (Verdict.panicked t) now finish = refl
  limiter-conclude_verdict e i handler after (Verdict.failed t) now finish =
      limiter-handle_error env st (metric e (command_failed after.name t)) after handler t finish
      ∙ ground arith
  limiter-conclude_verdict e i handler after (Verdict.returned r) now finish =
      let late = metric e (command_failed after.name (timed_out after.timeout)) in
      let in_time = metric e (command_completed after.name (finish -ℤ now)) in
      ground (
        arith,
        limiter-handle_error env st late after handler (timed_out after.timeout) finish,
        limiter-handle_result env st in_time after r finish,
      )

  limiter-run_handler :
      (e : Executor Any st.State) (i : Instance Any) (handler : Command Any) (now finish : ℤ)
      → (run_handler env st e i handler now finish).1.rate_limiter ≡ e.rate_limiter
  unfolding run_handler conclude
  limiter-run_handler e i handler now finish =
      let o =
        execute_with_middleware e.config.middleware (run_command env st e.storage handler) i in
      limiter-conclude_verdict (metric e (command_started i.name)) i handler o.instance_after
        o.verdict now finish
      ∙ ground arith

  limiter-start_handler :
      (e : Executor Any st.State) (i : Instance Any) (claimed : Bool) (handler : Command Any)
      (now finish : ℤ)
      → (start_handler env st e i claimed handler now finish).1.rate_limiter ≡ e.rate_limiter
  unfolding start_handler update_then
  limiter-start_handler e i true handler now finish = limiter-run_handler e i handler now finish
  limiter-start_handler e i false handler now finish = ground (
    arith,
    limiter-run_handler (record e { storage = (st.update e.storage (as_started i now)).1 })
        (as_started i now) handler now finish,
  )

  -- the slots in use, of one command and of all
  abbrev pub slots : Option RateLimiter → String → ℕ
  slots none name = 0
  slots (some r) name = running r name

  abbrev pub all_slots : Option RateLimiter → ℕ
  all_slots none = 0
  all_slots (some r) = r.global_ct

  -- the flow is blocked, or the slots are those of before
  abbrev Balanced : Executor Any st.State → Flow Any × Executor Any st.State → Type 0
  Balanced e p =
      p.0 ≢ blocked
      → ((name : String) → slots p.1.rate_limiter name ≡ slots e.rate_limiter name)
        × (all_slots p.1.rate_limiter ≡ all_slots e.rate_limiter)

  Balanced-of_eq :
      (e : Executor Any st.State) (p : Flow Any × Executor Any st.State)
      → p.1.rate_limiter ≡ e.rate_limiter
      → Balanced e p
  Balanced-of_eq e p h b = (λ name. cc, cc)

  give_up_slot-eq :
      (e : Executor Any st.State) (i : Instance Any) (claimed : Bool) (now : ℤ)
      → (give_up_slot env st e i claimed now).1.rate_limiter ≡ e.rate_limiter
  unfolding give_up_slot update_then schedule_delayed
  give_up_slot-eq e i true now = ground arith
  give_up_slot-eq e i false now = refl

  limited_of :
      (e : Executor Any st.State) (i : Instance Any) (claimed : Bool) (handler : Command Any)
      (cancelled : Bool) (now finish : ℤ) (r : RateLimiter)
      → e.rate_limiter ≡ some r
      → with_slot env st e i claimed handler cancelled now finish
        ≡ limited env st e i claimed handler cancelled now finish (attempt r i.name)
  unfolding with_slot
  limited_of e i claimed handler cancelled now finish r h = rw (h, with_slot)

  acquired-Balanced :
      (e : Executor Any st.State) (r : RateLimiter) (i : Instance Any) (claimed : Bool)
      (handler : Command Any) (cancelled : Bool) (now finish : ℤ)
      → e.rate_limiter ≡ some r
      → Balanced e
          (limited env st e i claimed handler cancelled now finish (acquired, take_slot r i.name))
  unfolding limited release_slot
  acquired-Balanced e r i claimed handler cancelled now finish h b =
      let taken = take_slot r i.name in
      let run =
        limiter-start_handler (record e { rate_limiter = some taken }) i claimed handler now
          finish in
      (
        λ name. ground (arith, run, running-release r i.name name),
        ground (arith, run, global_ct-release r i.name),
      )

  waits-Balanced :
      (e : Executor Any st.State) (r r' : RateLimiter) (i : Instance Any) (claimed : Bool)
      (handler : Command Any) (cancelled : Bool) (now finish : ℤ) (key : String) (ch : ℕ)
      → e.rate_limiter ≡ some r
      → r'.current ≡ r.current
      → r'.global_ct ≡ r.global_ct
      → Balanced e (limited env st e i claimed handler cancelled now finish (waits key ch, r'))
  unfolding limited remove_waiter
  waits-Balanced e r r' i claimed handler cancelled now finish key ch h c g b =
      let left = record e { rate_limiter = some (remove_waiter r' key ch) } in
      let same = give_up_slot-eq left i claimed now in
      (λ name. ground (arith, same), ground (arith, same))

  with_slot-Balanced :
      (e : Executor Any st.State) (i : Instance Any) (claimed : Bool) (handler : Command Any)
      (cancelled : Bool) (now finish : ℤ)
      → Balanced e (with_slot env st e i claimed handler cancelled now finish)
  unfolding with_slot
  with_slot-Balanced e i claimed handler cancelled now finish = elim (Option-cases e.rate_limiter) [
    | inl n ↦
        Balanced-of_eq e (with_slot env st e i claimed handler cancelled now finish)
          (ground (arith, limiter-start_handler e i claimed handler now finish))
    | inr (r, h) ↦
        subst (Balanced e) (sym (limited_of e i claimed handler cancelled now finish r h))
          (elim (attempt_cases r i.name) [
            | inl a ↦ rw a (acquired-Balanced e r i claimed handler cancelled now finish h)
            | inr (key, ch, r', a, c, g) ↦
                rw a (waits-Balanced e r r' i claimed handler cancelled now finish key ch h c g)
          ])
  ]

  -- an execution leaves the limiter alone, or it is the part under the limiter
  execute_cases :
      (e : Executor Any st.State) (i : Instance Any) (claimed cancelled : Bool) (now finish : ℤ)
      (c : Option (Command Any))
      → resolve e.registry i.name ≡ c
      → ((execute env st e i claimed cancelled now finish).1.rate_limiter ≡ e.rate_limiter)
        ⊎ ((handler : Command Any) × (execute env st e i claimed cancelled now finish
              ≡ with_slot env st e i claimed handler cancelled now finish))
  unfolding execute update_then schedule_delayed
  execute_cases e i claimed cancelled now finish none p =
      inl (ground (arith, limiter-handle_expired env st e i now))
  execute_cases e i claimed cancelled now finish (some handler) p =
      elim (Bool-cases (e.stopping || is_overdue i now || (not claimed && ltb_ℤ now i.ready_at))) [
        | inl early ↦ inl (ground (arith, limiter-handle_expired env st e i now))
        | inr late ↦ inr (handler, ground arith)
      ]

  execute-Balanced :
      (e : Executor Any st.State) (i : Instance Any) (claimed cancelled : Bool) (now finish : ℤ)
      → Balanced e (execute env st e i claimed cancelled now finish)
  execute-Balanced e i claimed cancelled now finish =
      elim (execute_cases e i claimed cancelled now finish (resolve e.registry i.name) refl) [
        | inl h ↦ Balanced-of_eq e (execute env st e i claimed cancelled now finish) h
        | inr (handler, h) ↦ rw h (with_slot-Balanced e i claimed handler cancelled now finish)
      ]

  unwind-Balanced :
      (e : Executor Any st.State) (p : Flow Any × Executor Any st.State) (now : ℤ)
      → Balanced e p
      → Balanced e (unwind env st p now)
  unfolding recover_panic
  unwind-Balanced e (finished, e') now h = h
  unwind-Balanced e (fault x, e') now h = h
  unwind-Balanced e (panic j t, e') now h =
      λ b. let (each, all) = h (λ p. cc) in (λ name. ground (arith, each name), ground (arith, all))
  unwind-Balanced e (blocked, e') now h = h

  -- The rate limiter is never left short of a slot: unless it is still blocked on the limiter, an
  -- execution ends with as many slots in use, of each command and in all, as it found, whether it
  -- completes, fails, expires, panics, meets a storage error, or gives up waiting.
  pub safe_execute-Balanced :
      (e : Executor Any st.State) (i : Instance Any) (claimed cancelled : Bool) (now finish : ℤ)
      → (safe_execute env st e i claimed cancelled now finish).0 ≢ blocked
      → ((name : String)
          → slots (safe_execute env st e i claimed cancelled now finish).1.rate_limiter name
            ≡ slots e.rate_limiter name)
        × (all_slots (safe_execute env st e i claimed cancelled now finish).1.rate_limiter
            ≡ all_slots e.rate_limiter)
  unfolding safe_execute
  safe_execute-Balanced e i claimed cancelled now finish =
      unwind-Balanced e (execute env st e i claimed cancelled now finish) finish
        (execute-Balanced e i claimed cancelled now finish)
