-- ===== src/Cli/Stats/Groups.antt =====
-- The breakdown of `durex stats --detailed` against the tallies of the commands of each name.
use durex.Prelude.{
  ℕ, suc, ◌+◌, ◌≡◌, refl, ◌∙◌, ap, sym, inl, inr, String, Bool, ◌&&◌, Option, none, some, List, [],
  ◌∷◌, arith, ltb, ◌==◌, if◌then◌else◌, tally, lookup, lookup-insert, lookup-nil, Dict, Bool-cases,
  eq_iff, Option-cases, Distinct, insert-Distinct,
}
use durex.Status.{Status, same}
use durex.Instance.{Instance}
use durex.Cli.Stats.{NameStats, no_stats, count_status, add_command, group_by_name}

abbrev plus : NameStats → NameStats → NameStats
plus a b = record {
  pending = a.pending + b.pending;
  started = a.started + b.started;
  completed = a.completed + b.completed;
  failed = a.failed + b.failed;
  total = a.total + b.total;
}

-- the entry of a name after more commands
abbrev held : Option NameStats → NameStats → Option NameStats
held none t = if ltb 0 t.total then some t else none
held (some s) t = some (plus s t)

abbrev bit : Bool → ℕ
bit b = if b then 1 else 0

-- one command of a status
abbrev single : Status → NameStats
single status = record {
  pending = bit (same status Status.pending);
  started = bit (same status Status.started);
  completed = bit (same status Status.completed);
  failed = bit (same status Status.failed) + bit (same status Status.dead_letter);
  total = 1;
}

count_status_lem :
    (status : Status) (s : NameStats)
    → count_status status (record s { total = suc s.total }) ≡ plus s (single status)
unfolding count_status same
count_status_lem Status.pending s = ground arith
count_status_lem Status.started s = ground arith
count_status_lem Status.completed s = ground arith
count_status_lem Status.failed s = ground arith
count_status_lem Status.expired s = ground arith
count_status_lem Status.repeating s = ground arith
count_status_lem Status.cancelled s = ground arith
count_status_lem Status.dead_letter s = ground arith

held_plus :
    (o : Option NameStats) (a t : NameStats)
    → a.total ≡ 1
    → held (some (elim o [ none ↦ a | some s ↦ plus s a ])) t ≡ held o (plus a t)
held_plus none a t h = ground arith
held_plus (some s) a t h = ground arith

module _ {V : Type 0} where
  -- how many commands of a name have a status
  abbrev pub tally_status : String → Status → List (Instance V) → ℕ
  tally_status name status = tally (λ c. c.name == name && same c.status status)

  -- the tallies of a name; failed and dead-lettered commands count as failed
  abbrev pub tallies : String → List (Instance V) → NameStats
  tallies name cmds = record {
    pending = tally_status name Status.pending cmds;
    started = tally_status name Status.started cmds;
    completed = tally_status name Status.completed cmds;
    failed = tally_status name Status.failed cmds + tally_status name Status.dead_letter cmds;
    total = tally (λ (c : Instance V). c.name == name) cmds;
  }

  tallies_cons :
      (name : String) (cmd : Instance V) (cmds : List (Instance V))
      → tallies name (cmd ∷ cmds) ≡ (
          if cmd.name == name
          then plus (single cmd.status) (tallies name cmds)
          else tallies name cmds)
  unfolding tally
  tallies_cons name cmd cmds = elim (Bool-cases (cmd.name == name)) [
    | inl e ↦ ground (arith, e)
    | inr e ↦ ground (arith, e)
  ]

  lookup-add_command :
      (name : String) (stats : Dict NameStats) (cmd : Instance V)
      → lookup name (add_command stats cmd) ≡ (
          if cmd.name == name
          then some (elim (lookup cmd.name stats) [
            | none ↦ single cmd.status
            | some s ↦ plus s (single cmd.status)
          ])
          else lookup name stats)
  unfolding add_command
  lookup-add_command name stats cmd = elim (Option-cases (lookup cmd.name stats)) [
    | inl e ↦
        let s = count_status cmd.status (record no_stats { total = 1 }) in
        ground (arith, e, lookup-insert cmd.name name s stats, count_status_lem cmd.status no_stats)
    | inr (held, e) ↦
        let s = count_status cmd.status (record held { total = suc held.total }) in
        ground (arith, e, lookup-insert cmd.name name s stats, count_status_lem cmd.status held)
  ]

  group_step :
      (name : String) (stats : Dict NameStats) (cmd : Instance V) (cmds : List (Instance V))
      → held
          (if cmd.name == name
            then some (elim (lookup cmd.name stats) [
              | none ↦ single cmd.status
              | some s ↦ plus s (single cmd.status)
            ])
            else lookup name stats)
          (tallies name cmds)
        ≡ held (lookup name stats) (tallies name (cmd ∷ cmds))
  group_step name stats cmd cmds = elim (Bool-cases (cmd.name == name)) [
    | inl e ↦ rw e (
        ap
          (λ n.
            held
              (some (elim (lookup n stats) [
                | none ↦ single cmd.status
                | some s ↦ plus s (single cmd.status)
              ]))
              (tallies name cmds))
          ((eq_iff cmd.name name).0 e)
        ∙ held_plus (lookup name stats) (single cmd.status) (tallies name cmds) refl
        ∙ ap (held (lookup name stats)) (sym (tallies_cons name cmd cmds ∙ rw e refl)))
    | inr e ↦ rw e (ap (held (lookup name stats)) (sym (tallies_cons name cmd cmds ∙ rw e refl)))
  ]

  group-Distinct :
      (stats : Dict NameStats) (cmds : List (Instance V))
      → Distinct stats
      → Distinct (group_by_name stats cmds)
  unfolding group_by_name add_command
  group-Distinct stats [] d = d
  group-Distinct stats (cmd ∷ cmds) d =
      group-Distinct (add_command stats cmd) cmds (insert-Distinct cmd.name _ stats d)

  lookup-group :
      (name : String) (stats : Dict NameStats) (cmds : List (Instance V))
      → lookup name (group_by_name stats cmds) ≡ held (lookup name stats) (tallies name cmds)
  unfolding group_by_name
  lookup-group name stats [] =
      unfold tally in
      elim (Option-cases (lookup name stats)) [
        | inl e ↦ ground (arith, e)
        | inr (s, e) ↦ ground (arith, e)
      ]
  lookup-group name stats (cmd ∷ cmds) =
      lookup-group name (add_command stats cmd) cmds
      ∙ ap (λ o. held o (tallies name cmds)) (lookup-add_command name stats cmd)
      ∙ group_step name stats cmd cmds

  -- The breakdown of `durex stats --detailed` has an entry for a name exactly if some command has
  -- that name; it counts the commands of the name in all, and those that are PENDING, STARTED,
  -- COMPLETED, and FAILED or dead-lettered. Every name stands once.
  pub lookup-group_by_name :
      (name : String) (cmds : List (Instance V))
      → (lookup name (group_by_name [] cmds)
          ≡ (let t = tallies name cmds in if ltb 0 t.total then some t else none))
        × Distinct (group_by_name [] cmds)
  lookup-group_by_name name cmds =
      (lookup-group name [] cmds ∙ rw lookup-nil, group-Distinct [] cmds tt)
