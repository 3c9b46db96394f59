-- ===== src/Executor/Handlers/Children.antt =====
-- spawnChildren: what a child takes over from its parent, over a storage that keeps the contract.
use durex.Prelude.{
  ℤ, String, ◌≡◌, ◌≢◌, sym, ◌∙◌, true, false, Option, none, some, List, [], ◌∷◌, All, arith, eq_iff,
  ◌==◌, if◌then◌else◌, Option-cases, inl, inr,
}
use mathlib.Core.Path.{subst}
use durex.Spec.{Spec, merge_specs}
use durex.Instance.{Instance, record_event}
use durex.Storage.{Storage, is_ok}
use durex.Storage.Laws.{StorageLaws}
use durex.Env.{Env}
use durex.Executor.{Executor}
use durex.Executor.Create.{with_defaults, new_instance, create_instance}
use durex.Executor.Schedule.{schedule, queue_schedule, send, schedule_delayed}
use durex.Executor.Handlers.{propagate_ids, spawn_created, spawn_child, spawn_children}

module _ (env : Env) (st : Storage env.Any) (laws : StorageLaws st) where
  open env use {Any}

  schedule-storage :
      (e : Executor Any st.State) (i : Instance Any) (now : ℤ)
      → (schedule e i now).storage ≡ e.storage
  unfolding schedule queue_schedule send schedule_delayed
  schedule-storage e i now = ground arith

  -- a stored command with the parent, and with the ids that are passed on
  pub record IsChild (s : st.State) (parent : Instance Any) (id : String) : Type 0 where
    pub child : Instance Any
    pub stored : laws.view s id ≡ some child
    pub parent_id : child.parent_id ≡ some parent.id
    pub correlation_id :
        child.correlation_id
        ≡ (if parent.correlation_id == "" then parent.id else parent.correlation_id)
    pub trace_id : (parent.trace_id == "") ≡ false → child.trace_id ≡ parent.trace_id

  -- a new command leaves a child as it is
  create-IsChild :
      (s : st.State) (i parent : Instance Any) (id : String)
      → IsChild s parent id
      → IsChild (st.create s i).1 parent id
  create-IsChild s i parent id c = record {
    child = c.child;
    stored =
        ground (arith, c.stored, laws.create_view s i id, laws.create_fresh s i, eq_iff i.id id);
    parent_id = c.parent_id;
    correlation_id = c.correlation_id;
    trace_id = c.trace_id;
  }

  with_defaults-ids :
      (e : Executor Any st.State) (spec : Spec Any)
      → ((spec.trace_id == "") ≡ false → (with_defaults e spec).trace_id ≡ spec.trace_id)
        × ((spec.correlation_id == "") ≡ false
            → (with_defaults e spec).correlation_id ≡ spec.correlation_id)
  unfolding with_defaults merge_specs
  with_defaults-ids e spec = (λ h. ground arith, λ h. ground arith)

  -- an instance with the ids of the parent, stored as its child
  spawn_created-IsChild :
      (i parent : Instance Any) (e : Executor Any st.State) (now : ℤ) (id : String)
      → i.correlation_id
        ≡ (if parent.correlation_id == "" then parent.id else parent.correlation_id)
      → ((parent.trace_id == "") ≡ false → i.trace_id ≡ parent.trace_id)
      → (spawn_created env st (some i) parent.id e now).0 ≡ some id
      → IsChild (spawn_created env st (some i) parent.id e now).1.storage parent id
  unfolding spawn_created
  spawn_created-IsChild i parent e now id c t h =
      let child : Instance Any = record i { parent_id = some parent.id } in
      let same = laws.stored_rest child in
      let s' = (st.create e.storage child).1 in
      let accepted : is_ok (st.create e.storage child).0 ≡ true = ground arith in
      let named : child.id ≡ id = ground arith in
      let after : (spawn_created env st (some i) parent.id e now).1.storage ≡ s' =
        ground (arith, schedule-storage (record e { storage = s' }) child now) in
      subst (λ s. IsChild s parent id) (sym after)
        (record {
          child = laws.stored child;
          stored = ground (arith, laws.create_view e.storage child id, eq_iff child.id id);
          parent_id = ground (arith, same);
          correlation_id = ground (arith, same, c);
          trace_id = λ n. ground (arith, same, t n);
        })

  spawned_none :
      (parent_id : String) (e : Executor Any st.State) (now : ℤ) (id : String)
      → (spawn_created env st none parent_id e now).0 ≢ some id
  unfolding spawn_created
  spawned_none parent_id e now id h = ground arith

  spawn_created-kept :
      (i : Option (Instance Any)) (parent : Instance Any) (parent_id : String)
      (e : Executor Any st.State) (now : ℤ) (id : String)
      → IsChild e.storage parent id
      → IsChild (spawn_created env st i parent_id e now).1.storage parent id
  unfolding spawn_created
  spawn_created-kept none parent parent_id e now id c = c
  spawn_created-kept (some i) parent parent_id e now id c =
      let child : Instance Any = record i { parent_id = some parent_id } in
      let s' = (st.create e.storage child).1 in
      let after : (spawn_created env st (some i) parent_id e now).1.storage ≡ s' =
        ground (arith, schedule-storage (record e { storage = s' }) child now) in
      subst (λ s. IsChild s parent id) (sym after) (create-IsChild e.storage child parent id c)

  propagated :
      (spec : Spec Any) (parent : Instance Any)
      → spec.trace_id ≡ ""
      → spec.correlation_id ≡ ""
      → ((propagate_ids spec parent).trace_id ≡ parent.trace_id)
        × ((propagate_ids spec parent).correlation_id
            ≡ (if parent.correlation_id == "" then parent.id else parent.correlation_id))
  unfolding propagate_ids
  propagated spec parent t c =
      (ground (arith, t, eq_iff spec.trace_id ""), ground (arith, c, eq_iff spec.correlation_id ""))

  created-ids :
      (e : Executor Any st.State) (spec : Spec Any) (parent i : Instance Any) (now : ℤ)
      → spec.trace_id ≡ ""
      → spec.correlation_id ≡ ""
      → (parent.id == "") ≡ false
      → (create_instance env e (propagate_ids spec parent) now).0 ≡ some i
      → (i.correlation_id
          ≡ (if parent.correlation_id == "" then parent.id else parent.correlation_id))
        × ((parent.trace_id == "") ≡ false → i.trace_id ≡ parent.trace_id)
  unfolding create_instance new_instance record_event
  created-ids e spec parent i now t c p h =
      let q = propagate_ids spec parent in
      let ids = with_defaults-ids e q in
      let passed = propagated spec parent t c in
      let made : (i.correlation_id ≡ (with_defaults e q).correlation_id)
          × (i.trace_id ≡ (with_defaults e q).trace_id) =
        (ground arith, ground arith) in
      let named : (q.correlation_id == "") ≡ false = ground (arith, passed.1) in
      (
        made.0 ∙ ids.1 named ∙ passed.1,
        λ n. made.1 ∙ ids.0 (ground (arith, passed.0, n)) ∙ passed.0,
      )

  create_instance-storage :
      (e : Executor Any st.State) (spec : Spec Any) (now : ℤ)
      → (create_instance env e spec now).1.storage ≡ e.storage
  unfolding create_instance
  create_instance-storage e spec now = ground arith

  spawn_child-kept :
      (e : Executor Any st.State) (maker parent : Instance Any) (spec : Spec Any) (now : ℤ)
      (id : String)
      → IsChild e.storage parent id
      → IsChild (spawn_child env st e maker spec now).1.storage parent id
  unfolding spawn_child
  spawn_child-kept e maker parent spec now id c =
      let (i, e') = create_instance env e spec now in
      spawn_created-kept i parent maker.id e' now id
        (subst (λ s. IsChild s parent id) (sym (create_instance-storage e spec now)) c)

  spawn_children-kept :
      (e : Executor Any st.State) (parent : Instance Any) (specs : List (Spec Any)) (now : ℤ)
      (id : String)
      → IsChild e.storage parent id
      → IsChild (spawn_children env st e parent specs now).1.storage parent id
  unfolding spawn_children
  spawn_children-kept e parent [] now id c = c
  spawn_children-kept e parent (spec ∷ specs) now id c =
      spawn_children-kept (spawn_child env st e parent (propagate_ids spec parent) now).1 parent
        specs now id (spawn_child-kept e parent parent (propagate_ids spec parent) now id c)

  spawn_child-IsChild :
      (e : Executor Any st.State) (parent : Instance Any) (spec : Spec Any) (now : ℤ) (id : String)
      → spec.trace_id ≡ ""
      → spec.correlation_id ≡ ""
      → (parent.id == "") ≡ false
      → (spawn_child env st e parent (propagate_ids spec parent) now).0 ≡ some id
      → IsChild (spawn_child env st e parent (propagate_ids spec parent) now).1.storage parent id
  unfolding spawn_child
  spawn_child-IsChild e parent spec now id t c p h =
      let (made, e') = create_instance env e (propagate_ids spec parent) now in
      let spawned = λ (o : Option (Instance Any)). spawn_created env st o parent.id e' now in
      let P : Option (Instance Any) → Type 0 =
        λ o. (spawned o).0 ≡ some id → IsChild (spawned o).1.storage parent id in
      elim (Option-cases made) [
        | inl n ↦ subst P (sym n) (λ g. absurd (spawned_none parent.id e' now id g)) h
        | inr (i, m) ↦
            let ids = created-ids e spec parent i now t c p m in
            subst P (sym m) (spawn_created-IsChild i parent e' now id ids.0 ids.1) h
      ]

  abbrev pub IsPlain : Spec Any → Type 0
  IsPlain spec = (spec.trace_id ≡ "") × (spec.correlation_id ≡ "")

  -- The commands that a handler's result spawns, where their specifications name no trace and no
  -- correlation and the parent's id is not empty: each of them is stored with its parent's id as
  -- parent, with the parent's correlation id, or the parent's own id if it has none, and with its
  -- trace id, if it has one.
  pub spawn_children-IsChild :
      (e : Executor Any st.State) (parent : Instance Any) (specs : List (Spec Any)) (now : ℤ)
      → (parent.id == "") ≡ false
      → All IsPlain specs
      → All
          (IsChild (spawn_children env st e parent specs now).1.storage parent)
          (spawn_children env st e parent specs now).0
  unfolding spawn_children
  spawn_children-IsChild e parent [] now p h = tt
  spawn_children-IsChild e parent (spec ∷ specs) now p h =
      let q = propagate_ids spec parent in
      let e' = (spawn_child env st e parent q now).1 in
      let rest = spawn_children-IsChild e' parent specs now p h.1 in
      let ids = (spawn_children env st e' parent specs now).0 in
      let P = IsChild (spawn_children env st e' parent specs now).1.storage parent in
      let All_of : Option String → Type 0 = λ o. All P (elim o [ none ↦ ids | some i ↦ i ∷ ids ]) in
      elim (Option-cases (spawn_child env st e parent q now).0) [
        | inl n ↦ subst All_of (sym n) rest
        | inr (id, m) ↦
            let this = spawn_child-IsChild e parent spec now id h.0.0 h.0.1 p m in
            subst All_of (sym m) (spawn_children-kept e' parent specs now id this, rest)
      ]
