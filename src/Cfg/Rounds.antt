-- ===== src/Cfg/Rounds.antt =====
-- crates/rua-common/src/core.rs: the rounds of the loop of `expand_cfg_attributes`, up to the limit.
use rua_lang.Base.{
  ℕ, zero, suc, ◌+◌, ◌≤◌, ◌<◌, ◌≡◌, refl, sym, ◌∙◌, ap, Bool, true, false, ◌&&◌, List, [], ◌∷◌,
  ◌++◌, append-nil, append_assoc, Call, ok, go, stop, loop, codes, arith,
}
use rua_lang.Cfg.{
  MetaItem, MetaItems, item_then, Attribute, CfgExpr, CfgOptions, matches, cfg_expr, CfgError,
}
use rua_lang.Base.{Result, error, done}
use rua_lang.Cfg.Expand.{
  ExpandedAttributes, max_expansions, single_cfg_argument, nested_attributes, Expansion,
  expand_cfg_attr, expand_attribute, expand_step,
}
use rua_lang.Cfg.Expands.{Expands, nothing, keeps, tests, skips, opens}
use rua_lang.Lex.Kind.{bytes_eq}

abbrev pub state : List Attribute → List Attribute → Bool → ℕ → Expansion
state queue retained active expansions = record {
  queue = queue;
  retained = retained;
  active = active;
  expansions = expansions;
}

abbrev pub limit_exceeded : Result CfgError ExpandedAttributes
limit_exceeded = error (codes "cfg_attr expansion limit exceeded")

and_assoc : (a b c : Bool) → (a && b) && c ≡ a && (b && c)
and_assoc false b c = refl
and_assoc true b c = refl

and_true_right : (a : Bool) → a && true ≡ a
and_true_right false = refl
and_true_right true = refl

module _ (options : CfgOptions) where
  unfoldable pub run : ℕ → Expansion → Call (Result CfgError ExpandedAttributes)
  run fuel s = loop fuel (λ s. ok (expand_step options s s.queue)) s

  run-go :
      (fuel : ℕ) (s s' : Expansion)
      → expand_step options s s.queue ≡ go s'
      → run (suc fuel) s ≡ run fuel s'
  unfolding run loop
  run-go fuel s s' e = rw e refl

  pub run-stop :
      (fuel : ℕ) (s : Expansion) (r : Result CfgError ExpandedAttributes)
      → expand_step options s s.queue ≡ stop r
      → run (suc fuel) s ≡ ok r
  unfolding run loop
  run-stop fuel s r e = rw e refl

  -- below the limit a round handles the first attribute
  step-attribute :
      (a : Attribute) (q r : List Attribute) (v : Bool) (k : ℕ)
      → k < max_expansions
      → expand_step options (state (a ∷ q) r v k) (a ∷ q)
        ≡ expand_attribute options (state q r v (k + 1)) a
  unfolding expand_step
  step-attribute a q r v k h = ground arith

  pub at_limit :
      (a : Attribute) (q r : List Attribute) (v : Bool) (k fuel : ℕ)
      → max_expansions ≤ k
      → run (suc fuel) (state (a ∷ q) r v k) ≡ ok limit_exceeded
  unfolding expand_step
  at_limit a q r v k fuel h = run-stop fuel (state (a ∷ q) r v k) limit_exceeded (ground arith)

  -- one round on each kind of attribute
  pub keeps-step :
      (a : Attribute) (q r : List Attribute) (v : Bool) (k : ℕ)
      → bytes_eq a.name (codes "cfg") ≡ false
      → bytes_eq a.name (codes "cfg_attr") ≡ false
      → expand_attribute options (state q r v k) a ≡ go (state q (r ++ a ∷ []) v k)
  unfolding expand_attribute
  keeps-step a q r v k e e' = rw (e, e') refl

  pub tests-step :
      (a : Attribute) (q r : List Attribute) (v : Bool) (k : ℕ) (c : CfgExpr)
      → bytes_eq a.name (codes "cfg") ≡ true
      → single_cfg_argument a.items ≡ done c
      → expand_attribute options (state q r v k) a ≡ go (state q r (v && matches options c) k)
  unfolding expand_attribute
  tests-step a q r v k c e e' = rw (e, e') refl

  pub skips-step :
      (a : Attribute) (q r : List Attribute) (v : Bool) (k : ℕ) (condition item : MetaItem)
      (items : MetaItems) (c : CfgExpr)
      → bytes_eq a.name (codes "cfg") ≡ false
      → bytes_eq a.name (codes "cfg_attr") ≡ true
      → a.items ≡ item_then condition (item_then item items)
      → cfg_expr condition ≡ done c
      → matches options c ≡ false
      → expand_attribute options (state q r v k) a ≡ go (state q r v k)
  unfolding expand_attribute expand_cfg_attr
  skips-step a q r v k condition item items c e e' i ec m =
      rw (e, e', i, expand_cfg_attr, ec, m) refl

  pub opens-step :
      (a : Attribute) (q r : List Attribute) (v : Bool) (k : ℕ) (condition item : MetaItem)
      (items : MetaItems) (c : CfgExpr) (inner : List Attribute)
      → bytes_eq a.name (codes "cfg") ≡ false
      → bytes_eq a.name (codes "cfg_attr") ≡ true
      → a.items ≡ item_then condition (item_then item items)
      → cfg_expr condition ≡ done c
      → matches options c ≡ true
      → nested_attributes (item_then item items) ≡ done inner
      → expand_attribute options (state q r v k) a ≡ go (state (inner ++ q) r v k)
  unfolding expand_attribute expand_cfg_attr
  opens-step a q r v k condition item items c inner e e' i ec m ei =
      rw (e, e', i, expand_cfg_attr, ec, m, ei) refl

  pub round :
      (a : Attribute) (q r : List Attribute) (v : Bool) (k fuel : ℕ) (s' : Expansion)
      → k < max_expansions
      → expand_attribute options (state q r v (k + 1)) a ≡ go s'
      → run (suc fuel) (state (a ∷ q) r v k) ≡ run fuel s'
  round a q r v k fuel s' h e =
      run-go fuel (state (a ∷ q) r v k) s' (step-attribute a q r v k h ∙ e)

  run-state :
      (fuel : ℕ) (q : List Attribute) {r r' : List Attribute} {v v' : Bool} {k k' : ℕ}
      → r ≡ r'
      → v ≡ v'
      → k ≡ k'
      → run fuel (state q r v k) ≡ run fuel (state q r' v' k')
  run-state fuel q {r} {r'} {v} {v'} {k} {k'} er ev ek =
      ap (λ r. run fuel (state q r v k)) er
      ∙ ap (λ v. run fuel (state q r' v k)) ev
      ∙ ap (λ k. run fuel (state q r' v' k)) ek

  -- Below the limit the rounds on some attributes add what these expand to.
  pub run-Expands :
      {attributes kept : List Attribute} {n : ℕ} {active : Bool} (q r : List Attribute) (v : Bool)
      (k fuel total : ℕ)
      → Expands options attributes n kept active
      → k + n ≤ max_expansions
      → total ≡ n + fuel
      → run total (state (attributes ++ q) r v k)
        ≡ run fuel (state q (r ++ kept) (v && active) (k + n))
  run-Expands q r v k fuel total nothing h t =
      ap (λ f. run f (state q r v k)) (omega arith)
      ∙ run-state fuel q (sym (append-nil r)) (sym (and_true_right v)) (omega arith)
  run-Expands q r v k fuel zero (keeps a e e' x) h t = absurd (omega arith)
  run-Expands q r v k fuel (suc total) (keeps a {rest} {n} {kept} {active} e e' x) h t =
      round a (rest ++ q) r v k total _ (omega arith) (keeps-step a (rest ++ q) r v (k + 1) e e')
      ∙ run-Expands q (r ++ a ∷ []) v (k + 1) fuel total x (omega arith) (omega arith)
      ∙ run-state fuel q (append_assoc r (a ∷ []) kept) refl (omega arith)
  run-Expands q r v k fuel zero (tests a c e e' x) h t = absurd (omega arith)
  run-Expands q r v k fuel (suc total) (tests a c {rest} {n} {kept} {active} e e' x) h t =
      round a (rest ++ q) r v k total _ (omega arith) (tests-step a (rest ++ q) r v (k + 1) c e e')
      ∙ run-Expands q r (v && matches options c) (k + 1) fuel total x (omega arith) (omega arith)
      ∙ run-state fuel q refl (and_assoc v (matches options c) active) (omega arith)
  run-Expands q r v k fuel zero (skips a cd i is c e e' ei ec m x) h t = absurd (omega arith)
  run-Expands q r v k fuel (suc total) (skips a cd i is c {rest} e e' ei ec m x) h t =
      round a (rest ++ q) r v k total _ (omega arith)
        (skips-step a (rest ++ q) r v (k + 1) cd i is c e e' ei ec m)
      ∙ run-Expands q r v (k + 1) fuel total x (omega arith) (omega arith)
      ∙ run-state fuel q refl refl (omega arith)
  run-Expands q r v k fuel zero (opens a cd i is c inner e e' ei ec m en x y) h t =
      absurd (omega arith)
  run-Expands q r v k fuel (suc total)
        (opens a cd i is c inner {rest} {m} {n} {kept} {kept'} {active} {active'} e e' ei ec mt en x
          y)
        h t =
      round a (rest ++ q) r v k total _ (omega arith)
        (opens-step a (rest ++ q) r v (k + 1) cd i is c inner e e' ei ec mt en)
      ∙ run-Expands (rest ++ q) r v (k + 1) (n + fuel) total x (omega arith) (omega arith)
      ∙ run-Expands q (r ++ kept) (v && active) (k + 1 + m) fuel (n + fuel) y (omega arith) refl
      ∙ run-state fuel q (append_assoc r kept kept') (and_assoc v active active') (omega arith)
