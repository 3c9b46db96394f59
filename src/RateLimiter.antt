-- ===== src/RateLimiter.antt =====
-- ratelimit.go: limits on how many commands run at once. A critical section under the mutex is one
-- step. Acquire is cut at its waits: `attempt` is one round of its loop, which either takes a slot
-- or leaves a channel in a list of waiters; `remove_waiter` is the end of a cancelled wait, and a
-- signalled channel means that the caller makes another `attempt`. The counters are native numbers:
-- they are at most the number of running commands, and are tested before they are decremented.
pub mod Bounds
pub mod Holders
pub mod Lost
use durex.Prelude.{
  ℕ, suc, ◌-◌, ◌+◌, ℤ, pos, ltb, ltb_ℤ, String, Bool, true, false, not, ◌&&◌, Option, none, some,
  List, [], ◌∷◌, ◌++◌, length, map, Dict, lookup, insert, remove, if◌then◌else◌,
}
use Prim.Native.Nat.{compare, Ordering}

pub record RateLimiter : Type 0 where
  pub limits : Dict ℤ
  pub current : Dict ℕ
  pub waiters : Dict (List ℕ)
  pub global : ℤ
  pub global_ct : ℕ
  -- the next channel that `make` returns, and the channels that hold a signal
  pub next_chan : ℕ
  pub signals : List ℕ

abbrev pub new_rate_limiter : RateLimiter
new_rate_limiter = record {
  limits = [];
  current = [];
  waiters = [];
  global = pos 0;
  global_ct = 0;
  next_chan = 0;
  signals = [];
}

-- m[name] of a map to numbers or slices: the zero value on a missing key
abbrev pub or_zero : Option ℕ → ℕ
or_zero none = 0
or_zero (some n) = n

abbrev pub or_nil : Option (List ℕ) → List ℕ
or_nil none = []
or_nil (some l) = l

unfoldable pub set_limit : RateLimiter → String → ℤ → RateLimiter
set_limit r name limit =
    if ltb_ℤ (pos 0) limit
    then record r { limits = insert name limit r.limits }
    else record r { limits = remove name r.limits }

unfoldable pub set_global_limit : RateLimiter → ℤ → RateLimiter
set_global_limit r limit = record r { global = limit }

abbrev pub running : RateLimiter → String → ℕ
running r name = or_zero (lookup name r.current)

-- r.global > 0 && r.globalCt >= r.global
unfoldable pub global_full : RateLimiter → Bool
global_full r = ltb_ℤ (pos 0) r.global && not (ltb_ℤ (pos r.global_ct) r.global)

-- hasLimit && r.current[name] >= limit
unfoldable pub command_full : RateLimiter → String → Bool
command_full r name = elim (lookup name r.limits) [
  | none ↦ false
  | some limit ↦ not (ltb_ℤ (pos (running r name)) limit)
]

unfoldable pub take_slot : RateLimiter → String → RateLimiter
take_slot r name = record r {
  current = insert name (suc (running r name)) r.current;
  global_ct = suc r.global_ct;
}

-- make(chan struct{}, 1), and its place in a list of waiters
unfoldable pub enqueue : RateLimiter → String → RateLimiter
enqueue r key = record r {
  waiters = insert key (or_nil (lookup key r.waiters) ++ r.next_chan ∷ []) r.waiters;
  next_chan = suc r.next_chan;
}

pub data Attempt : Type 0 where
  acquired : Attempt
  waits : String → ℕ → Attempt

unfoldable pub attempt : RateLimiter → String → Attempt × RateLimiter
unfolding global_full command_full take_slot enqueue
attempt r name =
    if global_full r
    then (waits "" r.next_chan, enqueue r "")
    else if command_full r name
    then (waits name r.next_chan, enqueue r name)
    else (acquired, take_slot r name)

unfoldable pub try_acquire : RateLimiter → String → Bool × RateLimiter
unfolding global_full command_full take_slot
try_acquire r name =
    if global_full r
    then (false, r)
    else if command_full r name
    then (false, r)
    else (true, take_slot r name)

-- the first waiter of the list is dropped from it and signalled
notify : RateLimiter → String → RateLimiter
notify r key = elim (or_nil (lookup key r.waiters)) [
  | [] ↦ r
  | ch ∷ rest ↦ record r { waiters = insert key rest r.waiters; signals = ch ∷ r.signals }
]

unfoldable pub give_back : RateLimiter → String → RateLimiter
give_back r name = record r {
  current =
      if ltb 0 (running r name) then insert name (running r name - 1) r.current else r.current;
  global_ct = if ltb 0 r.global_ct then r.global_ct - 1 else r.global_ct;
}

unfoldable pub release : RateLimiter → String → RateLimiter
unfolding give_back notify
release r name = notify (notify (give_back r name) name) ""

abbrev same_chan : ℕ → ℕ → Bool
same_chan a b = elim (compare a b) [ Ordering.eq ↦ true | _ ↦ false ]

without : ℕ → List ℕ → List ℕ
without ch [] = []
without ch (w ∷ ws) = if same_chan w ch then ws else w ∷ without ch ws

unfoldable pub remove_waiter : RateLimiter → String → ℕ → RateLimiter
unfolding without
remove_waiter r key ch = record r {
  waiters = insert key (without ch (or_nil (lookup key r.waiters))) r.waiters;
}

pub record CommandRateStats : Type 0 where
  pub limit : ℤ
  pub current : ℕ
  pub waiting : ℕ

pub record RateLimitStats : Type 0 where
  pub global_limit : ℤ
  pub global_current : ℕ
  pub commands : Dict CommandRateStats

unfoldable pub stats : RateLimiter → RateLimitStats
stats r = record {
  global_limit = r.global;
  global_current = r.global_ct;
  commands = map (λ e. (e.0, entry e.0 e.1)) r.limits;
}
  where
    entry : String → ℤ → CommandRateStats
    entry name limit = record {
      limit = limit;
      current = running r name;
      waiting = length (or_nil (lookup name r.waiters));
    }
