-- ===== src/Executor/Barrier/Join.antt =====
-- When the barrier lets the continuation run.
use Prim.Native.String.{◌++◌ as string_append}
use durex.Prelude.{
  String, ◌≡◌, ◌≢◌, refl, true, false, none, some, List, [], ◌∷◌, ◌⊎◌, inl, inr, sym, ap, ◌∙◌,
  Option, Dict, insert, lookup, lookup-insert, lookup-merge, Distinct, ◌++◌, ◌||◌, ◌==◌,
  if◌then◌else◌, Bool-cases, All, merge, arith,
}
use durex.Status.{completed, dead_letter, is_terminal}
use durex.Spec.{Spec, made}
use durex.Instance.{Instance}
use durex.Result.{next}
use durex.Storage.{Storage, Reply, ok, err}
use durex.Env.{Env}
use durex.Executor.{Verdict}
use durex.Executor.Barrier.{
  BarrierData, counts_as_failed, all_complete, last_failed, add_results, merge_children, decode,
  wait_for_missing, join, found, fetch, resume, no_children, barrier_execute,
}

-- a child that neither holds the barrier back nor fails it
abbrev pub Passes : {V : Type 0} → Instance V → Type 0
Passes c = (is_terminal c.status ≡ true) × (counts_as_failed c.status ≡ false)

module _ {V : Type 0} where
  all_complete_sound :
      (cs : List (Instance V)) → all_complete cs ≡ true → All (λ c. is_terminal c.status ≡ true) cs
  unfolding all_complete
  all_complete_sound [] h = tt
  all_complete_sound (c ∷ cs) h = ground (arith, all_complete_sound cs)

  last_failed-some : (id : String) (cs : List (Instance V)) → last_failed (some id) cs ≢ none
  unfolding last_failed
  last_failed-some id [] h = cc
  last_failed-some id (c ∷ cs) h = ground (arith, last_failed-some id cs, last_failed-some c.id cs)

  Passes-All :
      (cs : List (Instance V)) → all_complete cs ≡ true → last_failed none cs ≡ none → All Passes cs
  unfolding all_complete last_failed
  Passes-All [] h f = tt
  Passes-All (c ∷ cs) h f = ground (arith, Passes-All cs, last_failed-some c.id cs)

  complete_of_Passes :
      (cs : List (Instance V))
      → All Passes cs
      → (all_complete cs ≡ true) × (last_failed none cs ≡ none)
  unfolding all_complete last_failed
  complete_of_Passes [] h = (refl, refl)
  complete_of_Passes (c ∷ cs) h = ground (arith, complete_of_Passes cs h.1)

module _ {V : Type 0} where
  -- the entries of the data of one child, under its id and under its name, without those that the
  -- barrier keeps for itself
  abbrev child_results : Instance V → Dict V → Dict V
  child_results c [] = []
  child_results c ((k, v) ∷ rest) =
      let key : String → String =
        λ s. string_append (string_append (string_append "_barrier_result_" s) "_") k in
      if k == "_barrier_check_count" || k == "_barrier_parent"
      then child_results c rest
      else (key c.id, v) ∷ (key c.name, v) ∷ child_results c rest

  abbrev pub results_of : List (Instance V) → Dict V
  results_of [] = []
  results_of (c ∷ cs) = child_results c (made c.payload) ++ results_of cs

  -- the last value of the key, if there is one
  abbrev pub last_value : String → Option V → Dict V → Option V
  last_value key before [] = before
  last_value key before ((k, v) ∷ rest) = last_value key (if k == key then some v else before) rest

  last_value-append :
      (key : String) (before : Option V) (m rest : Dict V)
      → last_value key before (m ++ rest) ≡ last_value key (last_value key before m) rest
  last_value-append key before [] rest = refl
  last_value-append key before ((k, v) ∷ m) rest =
      last_value-append key (if k == key then some v else before) m rest

  lookup-add_results :
      (key : String) (dst : Dict V) (c : Instance V) (m : Dict V)
      → lookup key (add_results dst c m) ≡ last_value key (lookup key dst) (child_results c m)
  unfolding add_results
  lookup-add_results key dst c [] = refl
  lookup-add_results key dst c ((k, v) ∷ m) =
      let under : String → String =
        λ s. string_append (string_append (string_append "_barrier_result_" s) "_") k in
      let dst' = insert (under c.name) v (insert (under c.id) v dst) in
      elim (Bool-cases (k == "_barrier_check_count" || k == "_barrier_parent")) [
        | inl e ↦ rw e (lookup-add_results key dst c m)
        | inr e ↦ rw e (
            lookup-add_results key dst' c m
            ∙ ap (λ b. last_value key b (child_results c m))
                (lookup-insert (under c.name) key v (insert (under c.id) v dst)
                  ∙ ap (λ b. if under c.name == key then some v else b)
                      (lookup-insert (under c.id) key v dst)))
      ]

  lookup-merge_children :
      (key : String) (dst : Dict V) (cs : List (Instance V))
      → lookup key (merge_children dst cs) ≡ last_value key (lookup key dst) (results_of cs)
  unfolding merge_children
  lookup-merge_children key dst [] = refl
  lookup-merge_children key dst (c ∷ cs) =
      lookup-merge_children key (add_results dst c (made c.payload)) cs
      ∙ ap (λ v. last_value key v (results_of cs)) (lookup-add_results key dst c (made c.payload))
      ∙ sym (
          last_value-append key (lookup key dst) (child_results c (made c.payload)) (results_of cs))

module _ (env : Env) (d : BarrierData env.Any) (children : List (Instance env.Any)) where
  open env use {Any}

  abbrev pub resumed : Spec Any
  resumed = record continuation {
    payload = some (merge_children (merge [] (made continuation.payload)) children);
  }
    where
      open d use {continuation}

  join-Passes :
      (All Passes children → join env d children ≡ Verdict.returned (next resumed))
      × ((spec : Spec Any)
          → join env d children ≡ Verdict.returned (next spec)
          → All Passes children)
  unfolding join
  join-Passes = (
    λ h. ground (arith, complete_of_Passes children h),
    λ spec h. ground (arith, Passes-All children),
  )

  -- The barrier returns the continuation exactly when every child is in a terminal state and none in
  -- one that counts as failed. The continuation is returned with its other fields as they were, and
  -- in its data each key has the value that the children's results give it: those are the entries of
  -- their data but the barrier's own, each under the child's id and under its name, where a later one
  -- goes before an earlier one; a key of none of them has the value that it had. The continuation's
  -- data has each key once, as a Go map.
  pub join_iff :
      Distinct (made d.continuation.payload)
      → (All Passes children → join env d children ≡ Verdict.returned (next resumed))
        × ((spec : Spec Any)
            → join env d children ≡ Verdict.returned (next spec)
            → All Passes children)
        × ((key : String)
            → lookup key (made resumed.payload)
              ≡ last_value key (lookup key (made d.continuation.payload)) (results_of children))
        × (record resumed { payload = d.continuation.payload } ≡ d.continuation)
  unfolding lookup
  join_iff h = (
    join-Passes.0,
    join-Passes.1,
    λ key.
        lookup-merge_children key (merge [] (made d.continuation.payload)) children
        ∙ ap (λ v. last_value key v (results_of children))
            (ground (arith, lookup-merge key [] (made d.continuation.payload) h)),
    refl,
  )

-- a child that ended well, or in the dead letter queue
abbrev pub EndedOrDead : {V : Type 0} → Instance V → Type 0
EndedOrDead c = (c.status ≡ completed) ⊎ (c.status ≡ dead_letter)

Passes-of_EndedOrDead : {V : Type 0} (cs : List (Instance V)) → All EndedOrDead cs → All Passes cs
unfolding is_terminal counts_as_failed
Passes-of_EndedOrDead [] h = tt
Passes-of_EndedOrDead (c ∷ cs) h = ground (arith, Passes-of_EndedOrDead cs h.1)

-- A child that failed for good and went to the dead letter queue does not stop the barrier: with
-- any mix of completed and dead-lettered children the continuation is returned.
pub join_dead_letter :
    (env : Env) (d : BarrierData env.Any) (children : List (Instance env.Any))
    → All EndedOrDead children
    → join env d children ≡ Verdict.returned (next (resumed env d children))
join_dead_letter env d children h =
    (join-Passes env d children).0 (Passes-of_EndedOrDead children h)

module _ (env : Env) (st : Storage env.Any) (s : st.State) where
  open env use {Any}

  abbrev pub ChildPasses : String → Type 0
  ChildPasses id = (c : Instance Any) × (st.get s id ≡ ok c) × Passes c

  found-Passes :
      (r : Reply (Instance Any)) (id : String) (p : List (Instance Any) × List String)
      → (found env st r id p).1 ≡ []
      → All Passes (found env st r id p).0
      → ((c : Instance Any) × (r ≡ ok c) × Passes c) × (p.1 ≡ []) × All Passes p.0
  found-Passes (ok c) id p m h = ((c, refl, h.0), m, h.1)
  found-Passes (err x) id p m h = cc

  fetch-Passes :
      (ids : List String)
      → (fetch env st s ids).1 ≡ []
      → All Passes (fetch env st s ids).0
      → All ChildPasses ids
  unfolding fetch
  fetch-Passes [] m h = tt
  fetch-Passes (id ∷ ids) m h =
      let (here, m', h') = found-Passes (st.get s id) id (fetch env st s ids) m h in
      (here, fetch-Passes ids m' h')

  resume-Passes :
      (cmd : Instance Any) (d : BarrierData Any) (p : List (Instance Any) × List String)
      (spec : Spec Any)
      → (resume env st cmd d p).verdict ≡ Verdict.returned (next spec)
      → (p.1 ≡ []) × All Passes p.0
  unfolding wait_for_missing
  resume-Passes cmd d (cs, []) spec h = (refl, (join-Passes env d cs).1 spec h)
  resume-Passes cmd d (cs, id ∷ ids) spec h = absurd (ground arith)

  -- If a barrier that waits for children spawns a command, then each of its children is read from
  -- the storage, is in a terminal state there, and in none that counts as failed.
  pub barrier_execute-next :
      (cmd : Instance Any) (d : BarrierData Any) (spec : Spec Any)
      → decode env cmd.payload ≡ some d
      → no_children env st d ≡ false
      → (barrier_execute env st s cmd).verdict ≡ Verdict.returned (next spec)
      → All ChildPasses d.child_ids
  unfolding barrier_execute
  barrier_execute-next cmd d spec e n h =
      let (m, p) = resume-Passes cmd d (fetch env st s d.child_ids) spec (ground arith) in
      fetch-Passes d.child_ids m p
