-- ===== src/Rule/Lookup.antt =====
-- What a search of the routing table finds.
use inc_emulation.Base.{
  ℕ, ◌+◌, ◌≤◌, ◌≡◌, ◌↔◌, ◌⊎◌, inl, inr, refl, ap, arith, true, false, eq_ℤ_iff, ℤ, none, some, [],
  ◌∷◌, ◌++◌, length, length-append, Bool-cases, if◌then◌else◌,
}
use inc_emulation.Rule.{
  Primitive, allreduce, eq_primitive, Rule, RuleTable, max_rules, match_rule, lookup_rule, add_rule,
}

-- When a rule applies to a packet of that operation.
abbrev pub Applies : Rule → ℕ → ℕ → Primitive → ℤ → Type 0
Applies rule src dst prim param =
    (rule.src_ip ≡ src)
    × (rule.dst_ip ≡ dst)
    × (rule.primitive ≡ prim)
    × ((prim ≡ allreduce) ⊎ (rule.primitive_param ≡ param))

eq_primitive_iff : (p q : Primitive) → (eq_primitive p q ≡ true) ↔ (p ≡ q)
eq_primitive_iff p q = ground arith

module _ (src dst : ℕ) (prim : Primitive) (param : ℤ) where
  pub match_rule_iff :
      (rule : Rule) → (match_rule rule src dst prim param ≡ true) ↔ Applies rule src dst prim param
  unfolding match_rule
  match_rule_iff rule = (
    λ h. ground (
      arith,
      eq_primitive_iff rule.primitive prim,
      eq_primitive_iff prim allreduce,
      eq_ℤ_iff rule.primitive_param param,
    ),
    λ h. ground (
      arith,
      eq_primitive_iff rule.primitive prim,
      eq_primitive_iff prim allreduce,
      eq_ℤ_iff rule.primitive_param param,
    ),
  )

  -- The rule is the first of the table that applies.
  abbrev pub IsFirst : RuleTable → Rule → Type 0
  IsFirst [] r = ⊥
  IsFirst (x ∷ table) r =
      (Applies x src dst prim param × (x ≡ r))
      ⊎ ((¬ Applies x src dst prim param) × IsFirst table r)

  not-Applies :
      (rule : Rule) → match_rule rule src dst prim param ≡ false → ¬ Applies rule src dst prim param
  not-Applies rule miss a = cc ((match_rule_iff rule).1 a)

  lookup_rule-some :
      (table : RuleTable) (r : Rule)
      → lookup_rule table src dst prim param ≡ some r
      → IsFirst table r
  unfolding lookup_rule
  lookup_rule-some [] r h = cc
  lookup_rule-some (x ∷ table) r h = elim (Bool-cases (match_rule x src dst prim param)) [
    | inl hit ↦ inl ((match_rule_iff x).0 hit, ground arith)
    | inr miss ↦ inr (not-Applies x miss, lookup_rule-some table r (ground arith))
  ]

  IsFirst-lookup_rule :
      (table : RuleTable) (r : Rule)
      → IsFirst table r
      → lookup_rule table src dst prim param ≡ some r
  unfolding lookup_rule
  IsFirst-lookup_rule [] r h = absurd h
  IsFirst-lookup_rule (x ∷ table) r (inl (a, e)) = rw ((match_rule_iff x).1 a) (ap some e)
  IsFirst-lookup_rule (x ∷ table) r (inr (n, f)) =
      elim (Bool-cases (match_rule x src dst prim param)) [
        | inl hit ↦ absurd (n ((match_rule_iff x).0 hit))
        | inr miss ↦ rw miss (IsFirst-lookup_rule table r f)
      ]

  -- The search returns a rule exactly if that rule is the first of the table that applies: same
  -- addresses, same primitive, and the same parameter unless the primitive is AllReduce.
  pub lookup_rule_iff :
      (table : RuleTable) (r : Rule)
      → (lookup_rule table src dst prim param ≡ some r) ↔ IsFirst table r
  lookup_rule_iff table r = (lookup_rule-some table r, IsFirst-lookup_rule table r)

  lookup_rule-append :
      (table : RuleTable) (r : Rule)
      → lookup_rule (table ++ (r ∷ [])) src dst prim param
        ≡ (elim (lookup_rule table src dst prim param) [
          | some x ↦ some x
          | none ↦ if match_rule r src dst prim param then some r else none
        ])
  unfolding lookup_rule
  lookup_rule-append [] r = refl
  lookup_rule-append (x ∷ table) r = ground (arith, lookup_rule-append table r)

-- A rule that is added goes behind the others: later searches find what they found before, and the
-- new rule only where none was found. The table stays within its 100 places.
lookup_rule-add_rule :
    (table table' : RuleTable) (r : Rule) (src dst : ℕ) (prim : Primitive) (param : ℤ)
    → add_rule table r ≡ some table'
    → (lookup_rule table' src dst prim param ≡ (elim (lookup_rule table src dst prim param) [
      | some x ↦ some x
      | none ↦ if match_rule r src dst prim param then some r else none
    ]))
      × (length table' ≡ length table + 1)
      × (length table' ≤ max_rules)
unfolding add_rule
lookup_rule-add_rule table table' r src dst prim param h = (
  ground (arith, lookup_rule-append src dst prim param table r),
  ground (arith, length-append table (r ∷ [])),
  ground (arith, length-append table (r ∷ [])),
)

-- Adding fails exactly on a table of 100 rules or more.
add_rule-none_iff :
    (table : RuleTable) (r : Rule) → (add_rule table r ≡ none) ↔ (max_rules ≤ length table)
unfolding add_rule
add_rule-none_iff table r = ground arith

-- For an AllReduce the parameter of the search does not matter.
lookup_rule-allreduce :
    (table : RuleTable) (src dst : ℕ) (p q : ℤ)
    → lookup_rule table src dst allreduce p ≡ lookup_rule table src dst allreduce q
unfolding lookup_rule match_rule
lookup_rule-allreduce [] src dst p q = refl
lookup_rule-allreduce (x ∷ table) src dst p q =
    ground (arith, lookup_rule-allreduce table src dst p q)
