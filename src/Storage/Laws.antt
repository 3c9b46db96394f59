-- ===== src/Storage/Laws.antt =====
-- What storage.go promises of every storage, read as a map from ids to commands: the contract that
-- the executor's proofs rest on. `stored i` is what a later read returns of a command `i` that was
-- written: the payload and the metadata have gone through JSON, all else is as it was.
use durex.Prelude.{String, ◌≡◌, true, Option, none, some, is_some, ◌==◌, if◌then◌else◌}
use durex.Instance.{Instance}
use durex.Storage.{Storage, ok, err, not_found, is_ok}

pub record StorageLaws {V : Type 0} (st : Storage V) : Type 0 where
  pub view : st.State → String → Option (Instance V)
  pub stored : Instance V → Instance V
  pub stored_rest :
      (i : Instance V)
      → stored i ≡ record i { payload = (stored i).payload; metadata = (stored i).metadata }
  -- a refused call changes nothing; an accepted one changes the entry of its own id
  pub create_view :
      (s : st.State) (i : Instance V) (j : String)
      → view (st.create s i).1 j ≡ (
          if is_ok (st.create s i).0
          then (if i.id == j then some (stored i) else view s j)
          else view s j)
  pub create_fresh :
      (s : st.State) (i : Instance V) → is_ok (st.create s i).0 ≡ true → view s i.id ≡ none
  pub update_view :
      (s : st.State) (i : Instance V) (j : String)
      → view (st.update s i).1 j ≡ (
          if is_ok (st.update s i).0
          then (if i.id == j then some (stored i) else view s j)
          else view s j)
  pub update_known :
      (s : st.State) (i : Instance V)
      → is_ok (st.update s i).0 ≡ true
      → is_some (view s i.id) ≡ true
  pub delete_view :
      (s : st.State) (id j : String)
      → view (st.delete s id).1 j
        ≡ (if is_ok (st.delete s id).0 then (if id == j then none else view s j) else view s j)
  pub get_view :
      (s : st.State) (id : String) (i : Instance V) → st.get s id ≡ ok i → view s id ≡ some i
  pub get_missing : (s : st.State) (id : String) → st.get s id ≡ err not_found → view s id ≡ none
