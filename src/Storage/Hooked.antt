-- ===== src/Storage/Hooked.antt =====
-- storage.go, HookedStorage: a storage whose writes call the user's hooks. The state is that of the
-- wrapped storage with the calls of hooks so far, newest last. The struct embeds the interface
-- Storage, so it has its methods alone: the type assertions to QueryableStorage and LockingStorage
-- fail on it, whatever it wraps.
use durex.Prelude.{
  ◌≡◌, refl, arith, length, ◌+◌, true, String, Bool, none, List, [], ◌∷◌, ◌++◌, arith,
  if◌then◌else◌,
}
use durex.Instance.{Instance}
use durex.Storage.{Storage, StorageError, Reply, ok, err}

-- which of the hooks are set
pub record Hooks : Type 0 where
  pub after_create : Bool
  pub after_update : Bool
  pub after_delete : Bool
  pub on_error : Bool

abbrev pub all_hooks : Hooks
all_hooks = record {
  after_create = true;
  after_update = true;
  after_delete = true;
  on_error = true;
}

pub data HookCall (V : Type 0) : Type 0 where
  created updated : Instance V → HookCall V
  deleted : String → HookCall V
  failed_op : String → StorageError → HookCall V

module _ {V : Type 0} (hooks : Hooks) (st : Storage V) where
  abbrev Hooked : Type 0
  Hooked = st.State × List (HookCall V)

  -- if the hook is set it is called
  abbrev call : Bool → HookCall V → List (HookCall V) → List (HookCall V)
  call set c log = if set then log ++ c ∷ [] else log

  abbrev report :
      String
      → Bool
      → HookCall V
      → Reply (Unit {0}) × st.State
      → List (HookCall V)
      → Reply (Unit {0}) × Hooked
  report op set after (ok u, s) log = (ok u, (s, call set after log))
  report op set after (err e, s) log = (err e, (s, call hooks.on_error (failed_op op e) log))

  abbrev create : Hooked → Instance V → Reply (Unit {0}) × Hooked
  create (s, log) cmd = report "Create" hooks.after_create (created cmd) (st.create s cmd) log

  abbrev update : Hooked → Instance V → Reply (Unit {0}) × Hooked
  update (s, log) cmd = report "Update" hooks.after_update (updated cmd) (st.update s cmd) log

  abbrev delete : Hooked → String → Reply (Unit {0}) × Hooked
  delete (s, log) id = report "Delete" hooks.after_delete (deleted id) (st.delete s id) log

  abbrev pub hooked_storage : Storage V
  hooked_storage = record {
    State = Hooked;
    create = create;
    update = update;
    delete = delete;
    get = λ s. st.get s.0;
    find_pending = λ s. st.find_pending s.0;
    find_by_status = λ s. st.find_by_status s.0;
    find_by_unique_key = λ s. st.find_by_unique_key s.0;
    cleanup =
        λ s now older_than. let (reply, s') = st.cleanup s.0 now older_than in (reply, (s', s.1));
    count = λ s. st.count s.0;
    find = none;
    claim_pending = none;
  }

pub data Write (V : Type 0) : Type 0 where
  creates updates : Instance V → Write V
  deletes : String → Write V

module _ {V : Type 0} (st : Storage V) where
  unfoldable perform : st.State → Write V → Reply (Unit {0}) × st.State
  perform s (creates i) = st.create s i
  perform s (updates i) = st.update s i
  perform s (deletes id) = st.delete s id

  unfoldable pub run : st.State → List (Write V) → List (Reply (Unit {0})) × st.State
  unfolding perform
  run s [] = ([], s)
  run s (w ∷ ws) =
      let (reply, s') = perform s w in let (replies, s'') = run s' ws in (reply ∷ replies, s'')

module _ {V : Type 0} (hooks : Hooks) (st : Storage V) where
  length-snoc : (log : List (HookCall V)) (c : HookCall V) → length (log ++ c ∷ []) ≡ length log + 1
  length-snoc [] c = refl
  length-snoc (x ∷ log) c = omega (arith, length-snoc log c)

  report-hooked :
      (op : String) (set : Bool) (p : Reply (Unit {0}) × st.State) (log : List (HookCall V))
      (c : HookCall V)
      → ((report hooks st op set c p log).0 ≡ p.0)
        × ((report hooks st op set c p log).1.0 ≡ p.1)
        × ((set ≡ true) × (hooks.on_error ≡ true)
            → length (report hooks st op set c p log).1.1 ≡ length log + 1)
  report-hooked op set (ok u, s) log c = (refl, refl, λ h. ground (arith, length-snoc log c))
  report-hooked op set (err e, s) log c =
      (refl, refl, λ h. ground (arith, length-snoc log (failed_op op e)))

  perform-hooked_storage :
      (w : Write V) (s : st.State) (log : List (HookCall V))
      → ((perform (hooked_storage hooks st) (s, log) w).0 ≡ (perform st s w).0)
        × ((perform (hooked_storage hooks st) (s, log) w).1.0 ≡ (perform st s w).1)
        × (hooks ≡ all_hooks
            → length (perform (hooked_storage hooks st) (s, log) w).1.1 ≡ length log + 1)
  unfolding perform
  perform-hooked_storage (creates i) s log =
      ground (arith, report-hooked "Create" hooks.after_create (st.create s i) log (created i))
  perform-hooked_storage (updates i) s log =
      ground (arith, report-hooked "Update" hooks.after_update (st.update s i) log (updated i))
  perform-hooked_storage (deletes id) s log =
      ground (arith, report-hooked "Delete" hooks.after_delete (st.delete s id) log (deleted id))

  -- Hooks only observe: any sequence of writes is answered as by the wrapped storage and leaves it in
  -- the same state; and if all hooks are set, each write, accepted or refused, calls exactly one.
  pub run-hooked_storage :
      (ws : List (Write V)) (s : st.State) (log : List (HookCall V))
      → ((run (hooked_storage hooks st) (s, log) ws).0 ≡ (run st s ws).0)
        × ((run (hooked_storage hooks st) (s, log) ws).1.0 ≡ (run st s ws).1)
        × (hooks ≡ all_hooks
            → length (run (hooked_storage hooks st) (s, log) ws).1.1 ≡ length log + length ws)
  unfolding run perform
  run-hooked_storage [] s log = (refl, refl, λ h. ground arith)
  run-hooked_storage (w ∷ ws) s log =
      let (reply, p) = perform (hooked_storage hooks st) (s, log) w in
      ground (arith, perform-hooked_storage w s log, run-hooked_storage ws p.0 p.1)
