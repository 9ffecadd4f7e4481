-- ===== src/Stacktrace/Index.antt =====
-- crates/ruac/src/stacktrace.rs: the slots of the line index, mapping by mapping, and the direct
-- search.
use mathlib.Core.Option
use rua_lang.Base.{
  ℕ, zero, suc, ◌+◌, ◌-◌, ◌≤◌, ◌<◌, min, ◌≡◌, refl, sym, ◌∙◌, ap, ◌⊎◌, inl, inr, Bool, false, ◌&&◌,
  List, [], ◌∷◌, map, Option, none, some, Call, Returns, ltb, leb, if◌then◌else◌, if-both,
  Bool-cases, ltb→lt, ltb→le, get_elem?-none, length, get_elem?, length-replicate,
  get_elem?-replicate, replicate, arith,
}
use rua_lang.Newlines.Count.{
  line_starts-le, newlines-take_mono, newlines-take_le, length-starts_after,
}
use rua_lang.Stacktrace.{
  LuaSourceMapping, IndexedMapping, generated_line_starts, generated_line_at, lt_priority, offer,
  map_range, indexed, add_mapping, add_mappings, source_of, new, map_line,
}
use rua_lang.Stacktrace.Reference.{
  reference_line_at, reference_mapping_contains_line, min_from, reference_mapping_for_line,
  priority,
}

module _ {ℓ} {A : Type ℓ} (f : A → A) where
  length-map_range : (lo n : ℕ) (xs : List A) → length (map_range lo n f xs) ≡ length xs
  unfolding map_range
  length-map_range lo n [] = refl
  length-map_range zero zero (x ∷ xs) = refl
  length-map_range zero (suc n) (x ∷ xs) = ap suc (length-map_range zero n xs)
  length-map_range (suc lo) n (x ∷ xs) = ap suc (length-map_range lo n xs)

  get_elem?-map_range :
      (lo n i : ℕ) (xs : List A) {x : A}
      → get_elem? xs i ≡ some x
      → get_elem? (map_range lo n f xs) i ≡ some (if leb lo i && ltb i (lo + n) then f x else x)
  unfolding map_range
  get_elem?-map_range lo n i [] e = cc
  get_elem?-map_range zero zero zero (y ∷ xs) e = ground arith
  get_elem?-map_range zero zero (suc i) (y ∷ xs) e = ground arith
  get_elem?-map_range zero (suc n) zero (y ∷ xs) e = ground arith
  get_elem?-map_range zero (suc n) (suc i) (y ∷ xs) {x} e =
      get_elem?-map_range zero n i xs e ∙ ground arith
  get_elem?-map_range (suc lo) n zero (y ∷ xs) e = ground arith
  get_elem?-map_range (suc lo) n (suc i) (y ∷ xs) e = get_elem?-map_range lo n i xs e ∙ ground arith

generated-eq-reference :
    (source : List ℕ) (offset : ℕ)
    → generated_line_at (generated_line_starts source) (length source) offset
      ≡ reference_line_at source offset
unfolding generated_line_at generated_line_starts reference_line_at
generated-eq-reference source offset =
    omega (arith, line_starts-le source (min offset (length source)))

reference_line_at_mono :
    (source : List ℕ) (i j : ℕ) → i ≤ j → reference_line_at source i ≤ reference_line_at source j
unfolding reference_line_at
reference_line_at_mono source i j h =
    omega (
      arith,
      newlines-take_mono source (min i (length source)) (min j (length source)) (omega arith),
    )

reference_line_at-le :
    (source : List ℕ) (i : ℕ) → reference_line_at source i ≤ length (generated_line_starts source)
unfolding reference_line_at generated_line_starts
reference_line_at-le source i =
    omega (arith, newlines-take_le source (min i (length source)), length-starts_after 0 source)

module _ (source : List ℕ) where
  abbrev starts : List ℕ
  starts = generated_line_starts source

  -- What a mapping does to the slot of a line.
  abbrev seen : ℕ → LuaSourceMapping → Option IndexedMapping → Option IndexedMapping
  seen line m slot =
      if reference_mapping_contains_line source m line then offer (indexed m) slot else slot

  abbrev seen_all : ℕ → List LuaSourceMapping → Option IndexedMapping → Option IndexedMapping
  seen_all line [] slot = slot
  seen_all line (m ∷ ms) slot = seen_all line ms (seen line m slot)

  abbrev Filled :
      (ℕ → Option IndexedMapping → Option IndexedMapping)
      → List (Option IndexedMapping)
      → List (Option IndexedMapping)
      → Type 0
  Filled change before after =
      (length after ≡ length before)
      × ((i : ℕ) (slot : Option IndexedMapping)
          → get_elem? before i ≡ some slot
          → get_elem? after i ≡ some (change (suc i) slot))

  add_mapping-Filled :
      (m : LuaSourceMapping) (candidates : List (Option IndexedMapping))
      → length candidates ≡ length starts
      → Returns
          (add_mapping starts (length source) m candidates)
          (Filled (λ line. seen line m) candidates)
  unfolding add_mapping reference_mapping_contains_line
  add_mapping-Filled m candidates size =
      if-both Good (leb m.generated_end m.generated_start)
        (λ t. (_, refl, (refl, λ i slot e. e ∙ ground arith)))
        λ f.
          if-both Good (leb 1 first && leb (first - 1) last && leb last (length candidates))
            (λ t. (
              _,
              refl,
              (
                length-map_range _ _ _ candidates,
                λ i slot e.
                    get_elem?-map_range (offer (indexed m)) (first - 1) (last - (first - 1)) i
                      candidates e
                    ∙ ground (arith, first_is, last_is),
              ),
            ))
            (λ k.
              let ordered =
                reference_line_at_mono source m.generated_start (m.generated_end - 1)
                  (ground arith) in
              let least : 1 ≤ reference_line_at source m.generated_start =
                unfold reference_line_at in omega arith in
              let last_le = reference_line_at-le source (m.generated_end - 1) in
              ground (arith, first_is, last_is))
    where
      first : ℕ
      first = generated_line_at starts (length source) m.generated_start

      last : ℕ
      last = generated_line_at starts (length source) (m.generated_end - 1)

      first_is : first ≡ reference_line_at source m.generated_start
      first_is = generated-eq-reference source m.generated_start

      last_is : last ≡ reference_line_at source (m.generated_end - 1)
      last_is = generated-eq-reference source (m.generated_end - 1)

      Good : Call (List (Option IndexedMapping)) → Type 0
      Good r = Returns r (Filled (λ line. seen line m) candidates)

  add_mappings-Filled :
      (ms : List LuaSourceMapping) (candidates : List (Option IndexedMapping))
      → length candidates ≡ length starts
      → Returns
          (add_mappings starts (length source) ms candidates)
          (Filled (λ line. seen_all line ms) candidates)
  unfolding add_mappings
  add_mappings-Filled [] candidates size = (candidates, refl, (refl, λ i slot e. e))
  add_mappings-Filled (m ∷ ms) candidates size =
      let (first, e, filled) = add_mapping-Filled m candidates size in
      let (last, e', filled') = add_mappings-Filled ms first (filled.0 ∙ size) in
      (last, rw e e', (filled'.0 ∙ filled.0, λ i slot h. filled'.1 i _ (filled.1 i slot h)))

  -- Offering the mappings of a line in turn finds the first of the least.
  seen_all-min_from :
      (line : ℕ) (ms : List LuaSourceMapping) (best : Option LuaSourceMapping)
      → seen_all line ms (Option.map indexed best)
        ≡ Option.map indexed (min_from (λ m. reference_mapping_contains_line source m line) best ms)
  unfolding min_from offer indexed
  seen_all-min_from line [] best = refl
  seen_all-min_from line (m ∷ ms) none =
      elim (Bool-cases (reference_mapping_contains_line source m line)) [
        | inl t ↦ rw t (seen_all-min_from line ms (some m))
        | inr f ↦ rw f (seen_all-min_from line ms none)
      ]
  seen_all-min_from line (m ∷ ms) (some best) =
      elim (Bool-cases (reference_mapping_contains_line source m line)) [
        | inl t ↦ elim (Bool-cases (lt_priority (priority m) (priority best))) [
          | inl lt ↦ rw (t, lt) (seen_all-min_from line ms (some m))
          | inr ge ↦ rw (t, ge) (seen_all-min_from line ms (some best))
        ]
        | inr f ↦ rw f (seen_all-min_from line ms (some best))
      ]

min_from-none :
    (keep : LuaSourceMapping → Bool) (ms : List LuaSourceMapping)
    → ((m : LuaSourceMapping) → keep m ≡ false)
    → min_from keep none ms ≡ none
unfolding min_from
min_from-none keep [] h = refl
min_from-none keep (m ∷ ms) h = rw (h m) (min_from-none keep ms h)

-- A line that the text does not have is in no mapping.
contains_line-false :
    (source : List ℕ) (line : ℕ) (m : LuaSourceMapping)
    → (line ≡ 0) ⊎ (length (generated_line_starts source) < line)
    → reference_mapping_contains_line source m line ≡ false
unfolding reference_mapping_contains_line
contains_line-false source line m h =
    ground (arith, reference_line_at-le source (m.generated_end - 1))

get_elem?-map {ℓ κ} :
    {A : Type ℓ} {B : Type κ} (f : A → B) (xs : List A) (i : ℕ)
    → get_elem? (map f xs) i ≡ Option.map f (get_elem? xs i)
get_elem?-map f [] i = refl
get_elem?-map f (x ∷ xs) zero = refl
get_elem?-map f (x ∷ xs) (suc i) = get_elem?-map f xs i

reference-none :
    (source : List ℕ) (ms : List LuaSourceMapping) (line : ℕ)
    → (line ≡ 0) ⊎ (length (generated_line_starts source) < line)
    → reference_mapping_for_line source ms line ≡ none
unfolding reference_mapping_for_line
reference-none source ms line h = rw (
    min_from-none (λ m. reference_mapping_contains_line source m line) ms
      (λ m. contains_line-false source line m h))

slot-reference :
    (source : List ℕ) (ms : List LuaSourceMapping) (line : ℕ)
    → source_of (seen_all source line ms none) ≡ reference_mapping_for_line source ms line
unfolding reference_mapping_for_line indexed
slot-reference source ms line = ap source_of (seen_all-min_from source line ms none) ∙ forget _
  where
    forget :
        (found : Option LuaSourceMapping)
        → source_of (Option.map indexed found) ≡ Option.map (λ m. m.source) found
    forget none = refl
    forget (some m) = refl

-- The slots of a filled index, read by line number.
map_line-Filled :
    (source : List ℕ) (ms : List LuaSourceMapping) (slots : List (Option IndexedMapping))
    → Filled source
        (λ line. seen_all source line ms)
        (replicate (length (generated_line_starts source)) none)
        slots
    → (line : ℕ)
    → map_line (record { by_line = map source_of slots }) line
      ≡ reference_mapping_for_line source ms line
unfolding map_line
map_line-Filled source ms slots filled zero = sym (reference-none source ms 0 (inl refl))
map_line-Filled source ms slots filled (suc i) =
    let rows = length (generated_line_starts source) in
    elim (Bool-cases (ltb i rows)) [
      | inl t ↦
          let found = filled.1 i none (get_elem?-replicate rows i none (ltb→lt i rows t)) in
          rw (get_elem?-map source_of slots i, found, map_line) (slot-reference source ms (suc i))
      | inr f ↦
          let over : get_elem? slots i ≡ none = get_elem?-none slots i (
            omega (
              arith,
              filled.0,
              length-replicate {A = Option IndexedMapping} rows none,
              ltb→le i rows f,
            )) in
          rw (get_elem?-map source_of slots i, over, map_line)
            (sym (reference-none source ms (suc i) (inr (omega (arith, ltb→le i rows f)))))
    ]

-- Building the index does not panic, and for every line number, one that the text lacks and zero
-- included, `map_line` answers the source range that the direct search over the source map gives:
-- that of the first among the mappings on the line with the least length and start.
pub map_line-new :
    (source : List ℕ) (source_map : List LuaSourceMapping)
    → Returns (new source source_map) (λ index.
      (line : ℕ) → map_line index line ≡ reference_mapping_for_line source source_map line)
map_line-new source [] = (record { by_line = [] }, unfold new in refl, empty_index)
  where
    empty_index :
        (line : ℕ)
        → map_line (record { by_line = [] }) line ≡ reference_mapping_for_line source [] line
    empty_index zero = unfold map_line reference_mapping_for_line min_from in refl
    empty_index (suc i) = unfold map_line reference_mapping_for_line min_from in refl
map_line-new source (m ∷ ms) =
    let rows = length (generated_line_starts source) in
    let (slots, e, filled) =
      add_mappings-Filled source (m ∷ ms) (replicate rows none) (length-replicate rows none) in
    (
      record { by_line = map source_of slots },
      unfold new in rw e refl,
      map_line-Filled source (m ∷ ms) slots filled,
    )
