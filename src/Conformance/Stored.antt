-- ===== src/Conformance/Stored.antt =====
-- What the in-memory storage holds after the creations of a test, whose ids are generated.
use mathlib.Core.List.{append-nil, append_assoc}
use durex.Prelude.{
  ℕ, suc, ◌≤◌, ◌≡◌, refl, sym, ap, ◌∙◌, String, false, none, some, List, [], ◌∷◌, ◌++◌, Dict,
  lookup, insert_new, lookup-append, arith, ◌==◌, eq_refl,
}
use durex.Instance.{Instance, clone}
use durex.Env.{Env}
use durex.Storage.{ok}
use durex.Storage.Memory.{Memory, create}
use durex.Storage.Memory.Map.{memory}
use durex.Conformance.{Failure, create_each}

module _ (env : Env) (ids : ℕ → String) where
  open env use {Any}

  abbrev pub holding : Dict (Instance Any) → Memory Any
  holding d = record { commands = d; closed = false }

  abbrev pub entries : List (Instance Any) → Dict (Instance Any)
  entries [] = []
  entries (c ∷ cs) = (c.id, clone env c) ∷ entries cs

  -- none of the ids from the n-th on
  abbrev pub Older : ℕ → String → Type 0
  Older n key = (m : ℕ) → n ≤ m → (key == ids m) ≡ false

  abbrev pub AllOlder : ℕ → Dict (Instance Any) → Type 0
  AllOlder n [] = Unit
  AllOlder n ((key, c) ∷ d) = Older n key × AllOlder n d

  -- the ids of the instances are those from the n-th on, in their order
  abbrev pub Numbered : ℕ → List (Instance Any) → Type 0
  Numbered n [] = Unit
  Numbered n (c ∷ cs) = (c.id ≡ ids n) × Numbered (suc n) cs

  pub lookup-older : (n : ℕ) (d : Dict (Instance Any)) → AllOlder n d → lookup (ids n) d ≡ none
  unfolding lookup
  lookup-older n [] h = refl
  lookup-older n ((key, c) ∷ d) h = ground (arith, h.0 n (omega arith), lookup-older n d h.1)

  module _ (distinct : (i j : ℕ) → suc i ≤ j → (ids i == ids j) ≡ false) where
    pub AllOlder-append :
        (n : ℕ) (d : Dict (Instance Any)) (c : Instance Any)
        → AllOlder n d
        → AllOlder (suc n) (d ++ (ids n, c) ∷ [])
    AllOlder-append n [] c h = (distinct n, tt)
    AllOlder-append n ((key, k) ∷ d) c h = (λ m l. h.0 m (omega arith), AllOlder-append n d c h.1)

    pub create_new :
        (n : ℕ) (d : Dict (Instance Any)) (c : Instance Any)
        → AllOlder n d
        → c.id ≡ ids n
        → create env (holding d) c ≡ (ok tt, holding (d ++ (ids n, clone env c) ∷ []))
    unfolding create
    create_new n d c h e =
        let fresh = lookup-older n d h in
        ground (arith, e, fresh, insert_new (ids n) (clone env c) d fresh)

    -- the state after a loop that creates instances
    pub create_each_lem :
        (n : ℕ) (d : Dict (Instance Any)) (cmds : List (Instance Any))
        (rest : Memory Any → List Failure)
        → AllOlder n d
        → Numbered n cmds
        → create_each (memory env) (holding d) cmds rest ≡ rest (holding (d ++ entries cmds))
    unfolding create_each
    create_each_lem n d [] rest h k = ap (λ e. rest (holding e)) (sym (append-nil d))
    create_each_lem n d (c ∷ cmds) rest h k =
        let more =
          create_each_lem (suc n) (d ++ (ids n, clone env c) ∷ []) cmds rest
            (AllOlder-append n d (clone env c) h) k.1 in
        rw (create_new n d c h k.0) (
          more
          ∙ ap (λ e. rest (holding e)) (append_assoc d ((ids n, clone env c) ∷ []) (entries cmds))
          ∙ ap (λ id. rest (holding (d ++ (id, clone env c) ∷ entries cmds))) (sym k.0))

    -- a command that was created last is found under its id
    pub get-created :
        (n : ℕ) (d : Dict (Instance Any)) (c : Instance Any)
        → AllOlder n d
        → lookup (ids n) (d ++ (ids n, clone env c) ∷ []) ≡ some (clone env c)
    unfolding lookup
    get-created n d c h = ground (
      arith,
      lookup-append (ids n) d ((ids n, clone env c) ∷ []),
      lookup-older n d h,
      eq_refl (ids n),
    )
