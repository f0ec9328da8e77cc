-- ===== src/Targets/History.antt =====
-- Histories of calls of `TargetRegistry` (src/browser/target-registry.ts): its bounds, and what
-- becomes of a reference.
use antigravity_browser.Base.{
  ℕ, suc, ◌≤◌, ◌≡◌, refl, ◌∙◌, ◌⊎◌, inl, inr, Bool, Option, none, some, List, [], ◌∷◌, arith, Text,
  or_else, lookup, Dict, lookup-insert, text_eq_iff,
}
use antigravity_browser.Targets.Types.{
  Limit, TargetRegistry, SemanticTarget, SemanticTargetMetadata, TargetRecord, Result, ok,
  TargetRegistryError, err, Reading, target_not_found,
}
use antigravity_browser.Targets.Registry.{
  register, set_generation, keep, make_room, Context, advance_generation, invalidate, clear,
  prune_expired, add_record, resolve, ResolveOptions, new_record,
}
use antigravity_browser.Targets.Refs.{opaque_ref, opaque_ref_injective}
use antigravity_browser.Targets.Reading.{validate_semantic_target}

-- The calls that change the registry; the last one stands for those that only prune.
pub data Call : Type 0 where
  registers : SemanticTarget → ℕ → SemanticTargetMetadata → Context → Text → ℕ → Call
  sets_generation : Option ℕ → ℕ → Call
  advances clears : Call
  invalidates : Option ℕ → Option ℕ → Call
  prunes : ℕ → Call

unfoldable pub step : TargetRegistry → Call → TargetRegistry
step g (registers t locator m c suffix now) = (register t locator m c suffix now g).1
step g (sets_generation generation frame) = or_else (set_generation generation frame g) g
step g advances = advance_generation g
step g clears = clear g
step g (invalidates generation frame) = invalidate generation frame g
step g (prunes now) = prune_expired now g

unfoldable pub run : TargetRegistry → List Call → TargetRegistry
unfolding step
run g [] = g
run g (c ∷ cs) = run (step g c) cs

-- A reference that was issued for a counter up to the sequence.
abbrev pub Issued : Text → TargetRegistry → Type 0
Issued ref g = (k : ℕ) × (b : Text) × (k ≤ g.sequence) × (ref ≡ opaque_ref k b)

pub lookup-keep :
    (p : TargetRecord → Bool) (ref : Text) (m : Dict TargetRecord)
    → lookup ref m ≡ none
    → lookup ref (keep p m) ≡ none
unfolding lookup keep
lookup-keep p ref [] h = refl
lookup-keep p ref ((k, r) ∷ m) h = ground (arith, h, lookup-keep p ref m)

pub lookup-make_room :
    (n : Limit) (ref : Text) (m : Dict TargetRecord)
    → lookup ref m ≡ none
    → lookup ref (make_room n m) ≡ none
unfolding lookup make_room
lookup-make_room n ref [] h = refl
lookup-make_room n ref ((k, r) ∷ m) h = ground (arith, h, lookup-make_room n ref m)

-- Not in the registry.
abbrev pub Gone : Text → TargetRegistry → Type 0
Gone ref g = lookup ref g.records ≡ none

pub Result-cases {ℓ} :
    {A : Type ℓ} (r : Result A) → ((a : A) × (r ≡ ok a)) ⊎ ((e : TargetRegistryError) × (r ≡ err e))
Result-cases (ok a) = inl (a, refl)
Result-cases (err e) = inr (e, refl)

-- A call of `register` changes nothing or adds a record to the pruned registry.
pub register-cases :
    (t : SemanticTarget) (locator : ℕ) (m : SemanticTargetMetadata) (c : Context) (suffix : Text)
    (now : ℕ) (g : TargetRegistry)
    → ((register t locator m c suffix now g).1 ≡ g)
      ⊎ ((register t locator m c suffix now g).1
          ≡ (add_record t locator m c suffix now (prune_expired now g)).1)
unfolding register
register-cases t locator m c suffix now g = elim (Result-cases (validate_semantic_target t)) [
  | inl (u, k) ↦ inr (ground (arith, k))
  | inr (e, k) ↦ inl (ground (arith, k))
]

step-sequence : (g : TargetRegistry) (c : Call) → g.sequence ≤ (step g c).sequence
unfolding step set_generation advance_generation invalidate clear prune_expired
step-sequence g (registers t locator m c suffix now) =
    elim (register-cases t locator m c suffix now g) [
      | inl e ↦ rw e (omega arith)
      | inr e ↦ rw e (omega arith)
    ]
step-sequence g (sets_generation none frame) = omega arith
step-sequence g (sets_generation (some n) frame) = omega arith
step-sequence g advances = omega arith
step-sequence g clears = omega arith
step-sequence g (invalidates none none) = omega arith
step-sequence g (invalidates (some n) frame) = omega arith
step-sequence g (invalidates none (some n)) = omega arith
step-sequence g (prunes now) = omega arith

-- A new record does not stand under a reference that was issued.
pub lookup-add :
    (ref : Text) (t : SemanticTarget) (locator : ℕ) (m : SemanticTargetMetadata) (c : Context)
    (suffix : Text) (now : ℕ) (g : TargetRegistry)
    → Issued ref g
    → lookup ref (add_record t locator m c suffix now g).1.records
      ≡ lookup ref (make_room g.max_refs g.records)
lookup-add ref t locator m c suffix now g (k, b, le, e) = ground (
  arith,
  lookup-insert (opaque_ref (suc g.sequence) suffix) ref
      (new_record t locator m c (opaque_ref (suc g.sequence) suffix) now g)
      (make_room g.max_refs g.records),
  text_eq_iff (opaque_ref (suc g.sequence) suffix) ref,
  opaque_ref_injective (suc g.sequence) k suffix b,
  e,
  le,
)

step-Gone :
    (ref : Text) (g : TargetRegistry) (c : Call) → Issued ref g → Gone ref g → Gone ref (step g c)
unfolding step set_generation advance_generation invalidate clear prune_expired lookup
step-Gone ref g (registers t locator m c suffix now) i h =
    elim (register-cases t locator m c suffix now g) [
      | inl e ↦ rw e h
      | inr e ↦ rw e (
          lookup-add ref t locator m c suffix now (prune_expired now g) i
          ∙ lookup-make_room g.max_refs ref (prune_expired now g).records
              (lookup-keep _ ref g.records h))
    ]
step-Gone ref g (sets_generation none frame) i h = h
step-Gone ref g (sets_generation (some n) frame) i h = refl
step-Gone ref g advances i h = refl
step-Gone ref g clears i h = refl
step-Gone ref g (invalidates none none) i h = refl
step-Gone ref g (invalidates (some n) frame) i h = lookup-keep _ ref g.records h
step-Gone ref g (invalidates none (some n)) i h = lookup-keep _ ref g.records h
step-Gone ref g (prunes now) i h = lookup-keep _ ref g.records h

pub step-Issued :
    (ref : Text) (g : TargetRegistry) (c : Call) → Issued ref g → Issued ref (step g c)
step-Issued ref g c (k, b, le, e) = (k, b, omega (arith, le, step-sequence g c), e)

pub run-Issued :
    (ref : Text) (g : TargetRegistry) (cs : List Call) → Issued ref g → Issued ref (run g cs)
unfolding run
run-Issued ref g [] i = i
run-Issued ref g (c ∷ cs) i = run-Issued ref (step g c) cs (step-Issued ref g c i)

-- A reference that is gone stays gone.
pub run-Gone :
    (ref : Text) (g : TargetRegistry) (cs : List Call)
    → Issued ref g
    → Gone ref g
    → Gone ref (run g cs)
unfolding run
run-Gone ref g [] i h = h
run-Gone ref g (c ∷ cs) i h =
    run-Gone ref (step g c) cs (step-Issued ref g c i) (step-Gone ref g c i h)

-- What a call of `register` that issues a reference gives.
pub register-ok :
    (t : SemanticTarget) (locator : ℕ) (m : SemanticTargetMetadata) (c : Context) (suffix : Text)
    (now : ℕ) (g h : TargetRegistry) (ref : Text)
    → register t locator m c suffix now g ≡ (ok ref, h)
    → (ref ≡ opaque_ref (suc g.sequence) suffix)
      × (h ≡ (add_record t locator m c suffix now (prune_expired now g)).1)
unfolding register prune_expired
register-ok t locator m c suffix now g h ref e = elim (Result-cases (validate_semantic_target t)) [
  | inl (u, k) ↦ (ground (arith, k, e), ground (arith, k, e))
  | inr (f, k) ↦ absurd (ground (arith, k, e))
]

pub register-Issued :
    (t : SemanticTarget) (locator : ℕ) (m : SemanticTargetMetadata) (c : Context) (suffix : Text)
    (now : ℕ) (g h : TargetRegistry) (ref : Text)
    → register t locator m c suffix now g ≡ (ok ref, h)
    → Issued ref h
unfolding prune_expired
register-Issued t locator m c suffix now g h ref e =
    let (q, r) = register-ok t locator m c suffix now g h ref e in
    (suc g.sequence, suffix, ground (arith, r), q)

prune-Gone :
    (ref : Text) (now : ℕ) (g : TargetRegistry) → Gone ref g → Gone ref (prune_expired now g)
unfolding prune_expired
prune-Gone ref now g h = lookup-keep _ ref g.records h

pub resolve-Gone :
    (ref : Text) (o : ResolveOptions) (read : ℕ → Reading) (now : ℕ) (g : TargetRegistry)
    → Gone ref g
    → (resolve ref o read now g).0 ≡ err target_not_found
unfolding resolve
resolve-Gone ref o read now g h = ground (arith, prune-Gone ref now g h)

-- After the page has moved on, a reference from before is never found again: whatever is registered,
-- pruned or invalidated, before or after, under whatever options it is resolved.
pub stale_after_advance :
    (t : SemanticTarget) (locator : ℕ) (m : SemanticTargetMetadata) (c : Context) (suffix : Text)
    (now : ℕ) (g h : TargetRegistry) (ref : Text) (before after : List Call) (o : ResolveOptions)
    (read : ℕ → Reading) (later : ℕ)
    → register t locator m c suffix now g ≡ (ok ref, h)
    → (resolve ref o read later (run (advance_generation (run h before)) after)).0
      ≡ err target_not_found
unfolding advance_generation lookup
stale_after_advance t locator m c suffix now g h ref before after o read later e =
    let moved = advance_generation (run h before) in
    resolve-Gone ref o read later (run moved after) (
      run-Gone ref moved after
        (run-Issued ref h before (register-Issued t locator m c suffix now g h ref e)) refl)
