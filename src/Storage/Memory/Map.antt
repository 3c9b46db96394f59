-- ===== src/Storage/Memory/Map.antt =====
-- The in-memory storage keeps the contract of storage.go: it is a map from ids to commands.
use durex.Prelude.{
  not, ◌&&◌, String, ◌≡◌, refl, Option, none, some, true, is_some, lookup, lookup-insert,
  lookup-remove, arith, ◌==◌, if◌then◌else◌,
}
use durex.Instance.{Instance, clone}
use durex.Env.{Env}
use durex.Storage.{Storage, ok, err, not_found, storage_closed, is_ok}
use durex.Storage.Laws.{StorageLaws}
use durex.Storage.Memory.{
  Memory, create, update, delete, get, find_pending, find_by_status, find_by_unique_key, cleanup,
  count, find,
}

-- (*Memory)(nil) as a durex.Storage and a durex.QueryableStorage; it has no ClaimPending
abbrev pub memory : (env : Env) → Storage env.Any
memory env = record {
  State = Memory env.Any;
  create = create env;
  update = update env;
  delete = delete env;
  get = get env;
  find_pending = find_pending env;
  find_by_status = find_by_status env;
  find_by_unique_key = find_by_unique_key env;
  cleanup = cleanup env;
  count = count env;
  find = some (find env);
  claim_pending = none;
}

module _ (env : Env) where
  open env use {Any}

  abbrev copied : Option (Instance Any) → Option (Instance Any)
  copied none = none
  copied (some i) = some (clone env i)

  -- what Get returns, if anything
  abbrev pub view : Memory Any → String → Option (Instance Any)
  view m id = if m.closed then none else copied (lookup id m.commands)

  pub create-view :
      (m : Memory Any) (i : Instance Any) (j : String)
      → view (create env m i).1 j ≡ (
          if is_ok (create env m i).0
          then (if i.id == j then some (clone env (clone env i)) else view m j)
          else view m j)
  unfolding create
  create-view m i j = ground (arith, lookup-insert i.id j (clone env i) m.commands)

  pub update-view :
      (m : Memory Any) (i : Instance Any) (j : String)
      → view (update env m i).1 j ≡ (
          if is_ok (update env m i).0
          then (if i.id == j then some (clone env (clone env i)) else view m j)
          else view m j)
  unfolding update
  update-view m i j = ground (arith, lookup-insert i.id j (clone env i) m.commands)

  pub delete-view :
      (m : Memory Any) (id j : String)
      → view (delete env m id).1 j
        ≡ (if is_ok (delete env m id).0 then (if id == j then none else view m j) else view m j)
  unfolding delete
  delete-view m id j = ground (arith, lookup-remove id j m.commands)

  pub create_fresh :
      (m : Memory Any) (i : Instance Any) → is_ok (create env m i).0 ≡ true → view m i.id ≡ none
  unfolding create
  create_fresh m i h = ground arith

  pub update_known :
      (m : Memory Any) (i : Instance Any)
      → is_ok (update env m i).0 ≡ true
      → is_some (view m i.id) ≡ true
  unfolding update
  update_known m i h = ground arith

  pub get_view :
      (m : Memory Any) (id : String) (i : Instance Any) → get env m id ≡ ok i → view m id ≡ some i
  unfolding get
  get_view m id i h = ground arith

  pub get_missing : (m : Memory Any) (id : String) → get env m id ≡ err not_found → view m id ≡ none
  unfolding get
  get_missing m id h = ground arith

  unfoldable pub memory_laws : StorageLaws (memory env)
  unfolding clone
  memory_laws = record {
    view = view;
    stored = λ i. clone env (clone env i);
    stored_rest = λ i. refl;
    create_view = create-view;
    create_fresh = create_fresh;
    update_view = update-view;
    update_known = update_known;
    delete_view = delete-view;
    get_view = get_view;
    get_missing = get_missing;
  }

  -- The in-memory storage is a map from ids to commands, on every operation and every branch of it:
  -- Create is accepted on an open storage without the id, Update on one with it, Delete on an open
  -- one, and Get returns what the map holds; what is accepted changes the entry of its id alone, what is refused
  -- nothing; a stored command has been copied on the way in and on the way out.
  pub memory_is_map :
      (m : Memory Any) (i : Instance Any) (id j : String)
      → ((is_ok (create env m i).0 ≡ (not m.closed && not (is_some (view m i.id))))
          × (view (create env m i).1 j ≡ (
              if is_ok (create env m i).0 && (i.id == j)
              then some (clone env (clone env i))
              else view m j)))
        × ((is_ok (update env m i).0 ≡ is_some (view m i.id))
            × (view (update env m i).1 j ≡ (
                if is_ok (update env m i).0 && (i.id == j)
                then some (clone env (clone env i))
                else view m j)))
        × ((is_ok (delete env m id).0 ≡ not m.closed)
            × (view (delete env m id).1 j
                ≡ (if is_ok (delete env m id).0 && (id == j) then none else view m j)))
        × (get env m id ≡ (
            if m.closed
            then err storage_closed
            else elim (view m id) [ none ↦ err not_found | some c ↦ ok c ]))
  unfolding create update delete get
  memory_is_map m i id j = (
    (ground arith, ground (arith, create-view m i j)),
    (ground arith, ground (arith, update-view m i j)),
    (ground arith, ground (arith, delete-view m id j)),
    ground arith,
  )
