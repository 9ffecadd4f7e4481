-- ===== src/Cfg/Limit.antt =====
-- crates/rua-common/src/core.rs: `expand_cfg_attributes` below its limit and above.
use rua_lang.Base.{
  ℕ, zero, suc, ◌+◌, ◌-◌, ◌≤◌, ◌<◌, ◌≡◌, refl, sym, ◌∙◌, ap, inl, inr, Bool, true, ◌&&◌, List, [],
  ◌∷◌, ◌++◌, append-nil, ok, ltb, leb, leb→le, leb→lt, ltb→lt, ltb→le, if◌then◌else◌, Bool-cases,
  arith,
}
use rua_lang.Cfg.{Attribute, CfgOptions, matches}
use rua_lang.Base.{done}
use rua_lang.Cfg.Expand.{
  max_expansions, Expansion, expand_attribute, expand_step, expand_cfg_attributes,
}
use rua_lang.Cfg.Expands.{Expands, nothing, keeps, tests, skips, opens}
use rua_lang.Cfg.Rounds.{
  state, limit_exceeded, run, run-stop, at_limit, keeps-step, tests-step, skips-step, opens-step,
  round, run-Expands,
}
use rua_lang.Base.{go}

module _ (options : CfgOptions) where
  -- a round at the limit stops, and one below it goes on
  limit_round :
      (a : Attribute) (q r : List Attribute) (v : Bool) (k total : ℕ) (s' : Expansion)
      → max_expansions < k + total
      → 0 < total
      → expand_attribute options (state q r v (k + 1)) a ≡ go s'
      → ((rest : ℕ)
          → total ≡ suc rest
          → k < max_expansions
          → run options rest s' ≡ ok limit_exceeded)
      → run options total (state (a ∷ q) r v k) ≡ ok limit_exceeded
  limit_round a q r v k zero s' h p e next = absurd (omega arith)
  limit_round a q r v k (suc total) s' h p e next = elim (Bool-cases (ltb k max_expansions)) [
    | inl y ↦
        let below = ltb→lt k max_expansions y in
        round options a q r v k total s' below e ∙ next total refl below
    | inr n ↦ at_limit options a q r v k total (ltb→le k max_expansions n)
  ]

  -- Attributes that expand to more than the limit leaves are refused.
  run-limit :
      {attributes kept : List Attribute} {n : ℕ} {active : Bool} (q r : List Attribute) (v : Bool)
      (k total : ℕ)
      → Expands options attributes n kept active
      → k ≤ max_expansions
      → max_expansions < k + n
      → max_expansions < k + total
      → run options total (state (attributes ++ q) r v k) ≡ ok limit_exceeded
  run-limit q r v k total nothing b h t = absurd (omega arith)
  run-limit q r v k total (keeps a {rest} e e' x) b h t =
      limit_round a (rest ++ q) r v k total _ t (omega arith)
        (keeps-step options a (rest ++ q) r v (k + 1) e e')
        (λ total' te below.
          run-limit q (r ++ a ∷ []) v (k + 1) total' x (omega arith) (omega arith) (omega arith))
  run-limit q r v k total (tests a c {rest} e e' x) b h t =
      limit_round a (rest ++ q) r v k total _ t (omega arith)
        (tests-step options a (rest ++ q) r v (k + 1) c e e')
        (λ total' te below.
          run-limit q r (v && matches options c) (k + 1) total' x (omega arith) (omega arith)
            (omega arith))
  run-limit q r v k total (skips a cd i is c {rest} e e' ei ec m x) b h t =
      limit_round a (rest ++ q) r v k total _ t (omega arith)
        (skips-step options a (rest ++ q) r v (k + 1) cd i is c e e' ei ec m)
        (λ total' te below.
          run-limit q r v (k + 1) total' x (omega arith) (omega arith) (omega arith))
  run-limit q r v k total
        (opens a cd i is c inner {rest} {m} {n} {kept} {kept'} {active} {active'} e e' ei ec mt en x
          y)
        b h t =
      limit_round a (rest ++ q) r v k total _ t (omega arith)
        (opens-step options a (rest ++ q) r v (k + 1) cd i is c inner e e' ei ec mt en)
        (λ total' te below. elim (Bool-cases (leb (k + 1 + m) max_expansions)) [
          | inl fits ↦
              run-Expands options (rest ++ q) r v (k + 1) (total' - m) total' x
                (leb→le (k + 1 + m) max_expansions fits)
                (omega (arith, leb→le (k + 1 + m) max_expansions fits))
              ∙ run-limit q (r ++ kept) (v && active) (k + 1 + m) (total' - m) y
                  (leb→le (k + 1 + m) max_expansions fits) (omega arith) (omega arith)
          | inr over ↦
              run-limit (rest ++ q) r v (k + 1) total' x (omega arith)
                (leb→lt (k + 1 + m) max_expansions over) (omega arith)
        ])

  run_from-start :
      (attributes kept : List Attribute) (n total : ℕ) (active : Bool)
      → max_expansions + 1 < total
      → Expands options attributes n kept active
      → run options total (state attributes [] true 0)
        ≡ ok (
            if leb n max_expansions
            then done (record { active = active; attributes = kept })
            else limit_exceeded)
  run_from-start attributes kept n total active h x =
      let start =
        ap (λ queue. run options total (state queue [] true 0)) (sym (append-nil attributes)) in
      elim (Bool-cases (leb n max_expansions)) [
        | inl y ↦
            let few = leb→le n max_expansions y in
            rw y (
              start
              ∙ run-Expands options [] [] true 0 (suc (total - n - 1)) total x (omega (arith, few))
                  (omega (arith, few))
              ∙ run-stop options (total - n - 1) (state [] kept active (0 + n))
                  (done (record { active = active; attributes = kept }))
                  (unfold expand_step in refl))
        | inr f ↦ rw f (
            start
            ∙ run-limit [] [] true 0 total x (omega arith)
                (omega (arith, leb→lt n max_expansions f)) (omega arith))
      ]

-- If the attributes expand, meeting `n` attributes, keeping `kept` and with `active` as the
-- conjunction of the `cfg` conditions met, then `expand_cfg_attributes` returns these two for `n` up to
-- 256, and the error of the limit for a larger `n`.
pub expand_cfg_attributes-Expands :
    (options : CfgOptions) (attributes kept : List Attribute) (n : ℕ) (active : Bool)
    → Expands options attributes n kept active
    → expand_cfg_attributes attributes options
      ≡ ok (
          if leb n max_expansions
          then done (record { active = active; attributes = kept })
          else limit_exceeded)
unfolding expand_cfg_attributes run
expand_cfg_attributes-Expands options attributes kept n active x =
    run_from-start options attributes kept n 258 active (omega arith) x
