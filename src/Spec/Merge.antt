-- ===== src/Spec/Merge.antt =====
-- Laws of mergeSpecs: precedence, and what a second merge with the same defaults finds.
use durex.Prelude.{
  String, ◌≡◌, refl, ap, ◌∙◌, Option, none, some, Dict, lookup, lookup-merge, Distinct, arith,
}
use durex.Spec.{Spec, merge_specs, defaults_after, or_option, or_data, made}

module _ {V : Type 0} where
  lookup-or_data :
      (k : String) (d u : Option (Dict V))
      → Distinct (made u)
      → lookup k (made (or_data d u)) ≡ or_option (lookup k (made d)) (lookup k (made u))
  lookup-or_data k d none h = unfold lookup in refl
  lookup-or_data k d (some u) h = ground (arith, lookup-merge k (made d) u h)

  -- The merged specification has, under each key of its data, the user's value where the user gives
  -- one and the default's otherwise; whatever Go map the user passes.
  pub merge_specs-payload :
      (defaults user : Spec V) (k : String)
      → Distinct (made user.payload)
      → lookup k (made (merge_specs defaults user).payload)
        ≡ or_option (lookup k (made defaults.payload)) (lookup k (made user.payload))
  unfolding merge_specs
  merge_specs-payload defaults user k h = lookup-or_data k defaults.payload user.payload h

  -- A handler whose Default() returns the same map at each call gives the data of one command to the
  -- next: the second merge finds, where the second user gives no value, the first one's before the
  -- default's own; whatever Go maps the users pass, if the defaults have a map.
  pub merge_specs-defaults_after :
      (defaults first second : Spec V) (d : Dict V) (k : String)
      → defaults.payload ≡ some d
      → Distinct (made first.payload)
      → Distinct (made second.payload)
      → lookup k (made (merge_specs (defaults_after defaults first) second).payload)
        ≡ or_option
            (or_option (lookup k d) (lookup k (made first.payload)))
            (lookup k (made second.payload))
  unfolding defaults_after
  merge_specs-defaults_after defaults first second d k p h g =
      merge_specs-payload (defaults_after defaults first) second k g
      ∙ ap (λ b. or_option b (lookup k (made second.payload)))
          (rw p (lookup-or_data k (some d) first.payload h))
