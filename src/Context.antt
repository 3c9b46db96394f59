-- ===== src/Context.antt =====
-- context.go: the values that a context carries. A value overrides the older ones of its key; the
-- cancellation of contexts is not modelled.
use durex.Prelude.{◌≡◌, String, Option, none, List, [], ◌∷◌, arith, ◌==◌, if◌then◌else◌}
use durex.Instance.{Instance}
use durex.Executor.{Middleware}

-- what the three keys of durex hold
pub data Entry (V : Type 0) : Type 0 where
  trace_id correlation_id : String → Entry V
  instance_of : Option (Instance V) → Entry V

-- the newest value first; other packages' keys are of other types
abbrev pub Context : Type 0 → Type 0
Context V = List (Entry V)

module _ {V : Type 0} where
  unfoldable pub with_trace_id : Context V → String → Context V
  with_trace_id ctx value = trace_id value ∷ ctx

  unfoldable pub trace_id_from_context : Context V → String
  trace_id_from_context [] = ""
  trace_id_from_context (trace_id t ∷ ctx) = t
  trace_id_from_context (correlation_id c ∷ ctx) = trace_id_from_context ctx
  trace_id_from_context (instance_of i ∷ ctx) = trace_id_from_context ctx

  unfoldable pub with_correlation_id : Context V → String → Context V
  with_correlation_id ctx value = correlation_id value ∷ ctx

  unfoldable pub correlation_id_from_context : Context V → String
  correlation_id_from_context [] = ""
  correlation_id_from_context (trace_id t ∷ ctx) = correlation_id_from_context ctx
  correlation_id_from_context (correlation_id c ∷ ctx) = c
  correlation_id_from_context (instance_of i ∷ ctx) = correlation_id_from_context ctx

  -- `none` is a nil pointer
  unfoldable pub with_instance : Context V → Option (Instance V) → Context V
  with_instance ctx i = instance_of i ∷ ctx

  unfoldable pub instance_from_context : Context V → Option (Instance V)
  instance_from_context [] = none
  instance_from_context (trace_id t ∷ ctx) = instance_from_context ctx
  instance_from_context (correlation_id c ∷ ctx) = instance_from_context ctx
  instance_from_context (instance_of i ∷ ctx) = i

  abbrev with_trace : Context V → String → Context V
  with_trace ctx t = if t == "" then ctx else with_trace_id ctx t

  abbrev with_correlation : Context V → String → Context V
  with_correlation ctx c = if c == "" then ctx else with_correlation_id ctx c

  -- DefaultContextInjector; DefaultContextExtractor is the two readers
  unfoldable pub inject_context : Context V → String → String → Context V
  inject_context ctx t c = with_correlation (with_trace ctx t) c

  -- it passes the call on, since the instance carries the ids
  unfoldable pub tracing_middleware : Middleware V
  tracing_middleware rest i = rest i

  -- A context into which ids are injected gives them back; an empty id leaves what the context
  -- held, and the instance of the context stays.
  pub extract-inject_context :
      (ctx : Context V) (t c : String)
      → (trace_id_from_context (inject_context ctx t c)
          ≡ (if t == "" then trace_id_from_context ctx else t))
        × (correlation_id_from_context (inject_context ctx t c)
            ≡ (if c == "" then correlation_id_from_context ctx else c))
        × (instance_from_context (inject_context ctx t c) ≡ instance_from_context ctx)
  unfolding inject_context with_trace_id with_correlation_id trace_id_from_context
      correlation_id_from_context instance_from_context
  extract-inject_context ctx t c = (ground arith, ground arith, ground arith)
