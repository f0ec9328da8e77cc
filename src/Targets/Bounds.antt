-- ===== src/Targets/Bounds.antt =====
-- How many references `TargetRegistry` (src/browser/target-registry.ts) holds, and that none is twice
-- in it.
use antigravity_browser.Base.{
  ℕ, suc, ◌≤◌, ◌<◌, ◌≡◌, refl, sym, subst, inl, inr, Bool, true, false, not, ◌&&◌, ◌||◌, none, some,
  List, [], ◌∷◌, arith, length, Text, text_eq, Bool-cases, Dict, insert, text_eq_iff, ◌∙◌,
}
use antigravity_browser.Targets.Types.{
  GivenLimit, absent, not_a_number, given, Limit, at_most, unbounded, TargetRegistry, TargetRecord,
  SemanticTarget, SemanticTargetMetadata, RegistryOptions,
}
use antigravity_browser.Targets.Registry.{
  keep, make_room, set_generation, advance_generation, Context, invalidate, add_record, clear,
  prune_expired, new_record, bounded_option, create,
}
use antigravity_browser.Base.{not_finite, below_zero, floor_of}
use antigravity_browser.Targets.History.{
  advances, clears, step, Call, registers, register-cases, sets_generation, invalidates, prunes,
  run,
}
use antigravity_browser.Targets.Refs.{opaque_ref}

-- Is it a key?
unfoldable pub has_key : Text → Dict TargetRecord → Bool
has_key ref [] = false
has_key ref ((k, r) ∷ m) = text_eq k ref || has_key ref m

-- No key is there twice.
unfoldable pub distinct : Dict TargetRecord → Bool
unfolding has_key
distinct [] = true
distinct ((k, r) ∷ m) = not (has_key k m) && distinct m

has_key-keep :
    (p : TargetRecord → Bool) (ref : Text) (m : Dict TargetRecord)
    → has_key ref m ≡ false
    → has_key ref (keep p m) ≡ false
unfolding has_key keep
has_key-keep p ref [] h = refl
has_key-keep p ref ((k, r) ∷ m) h = ground (arith, h, has_key-keep p ref m)

pub distinct-keep :
    (p : TargetRecord → Bool) (m : Dict TargetRecord)
    → distinct m ≡ true
    → distinct (keep p m) ≡ true
unfolding distinct keep
distinct-keep p [] h = refl
distinct-keep p ((k, r) ∷ m) h = ground (arith, h, distinct-keep p m, has_key-keep p k m)

length-keep : (p : TargetRecord → Bool) (m : Dict TargetRecord) → length (keep p m) ≤ length m
unfolding keep
length-keep p [] = omega arith
length-keep p ((k, r) ∷ m) = ground (arith, length-keep p m)

pub distinct-make_room :
    (n : Limit) (m : Dict TargetRecord) → distinct m ≡ true → distinct (make_room n m) ≡ true
unfolding distinct make_room
distinct-make_room n [] h = refl
distinct-make_room n ((k, r) ∷ m) h = ground (arith, h, distinct-make_room n m)

length-make_room : (n : ℕ) (m : Dict TargetRecord) → 1 ≤ n → length (make_room (at_most n) m) < n
unfolding make_room
length-make_room n [] h = omega (arith, h)
length-make_room n ((k, r) ∷ m) h = ground (arith, h, length-make_room n m h)

length-insert :
    (ref : Text) (r : TargetRecord) (m : Dict TargetRecord)
    → length (insert ref r m) ≤ suc (length m)
unfolding insert
length-insert ref r [] = omega arith
length-insert ref r ((k, q) ∷ m) = ground (arith, length-insert ref r m)

has_key-insert :
    (j ref : Text) (r : TargetRecord) (m : Dict TargetRecord)
    → text_eq ref j ≡ false
    → has_key j (insert ref r m) ≡ has_key j m
unfolding has_key insert
has_key-insert j ref r [] h = ground (arith, h)
has_key-insert j ref r ((k, q) ∷ m) h =
    ground (arith, h, has_key-insert j ref r m, text_eq_iff k ref)

distinct-insert :
    (ref : Text) (r : TargetRecord) (m : Dict TargetRecord)
    → distinct m ≡ true
    → distinct (insert ref r m) ≡ true
unfolding distinct insert has_key
distinct-insert ref r [] h = refl
distinct-insert ref r ((k, q) ∷ m) h = elim (Bool-cases (text_eq k ref)) [
  | inl t ↦ ground (arith, h, t)
  | inr f ↦ ground (
    arith,
    h,
    f,
    distinct-insert ref r m,
    has_key-insert k ref r m,
    text_eq_iff k ref,
    text_eq_iff ref k,
  )
]

-- No number of references is too many for NaN.
abbrev pub Fits : Limit → ℕ → Type 0
Fits (at_most n) k = (1 ≤ n) × (n ≤ 10000) × (k ≤ n)
Fits unbounded k = Unit {0}

-- The bounds of a registry.
pub record Bounded (g : TargetRegistry) : Type 0 where
  pub within : Fits g.max_refs (length g.records)
  pub once : distinct g.records ≡ true

Fits-fewer : (l : Limit) (k j : ℕ) → Fits l k → j ≤ k → Fits l j
Fits-fewer (at_most n) k j (a, b, c) h = (a, b, omega (arith, c, h))
Fits-fewer unbounded k j f h = tt

Fits-insert :
    (l : Limit) (ref : Text) (r : TargetRecord) (m : Dict TargetRecord)
    → Fits l (length m)
    → Fits l (length (insert ref r (make_room l m)))
Fits-insert (at_most n) ref r m (a, b, c) =
    (a, b, omega (arith, length-insert ref r (make_room (at_most n) m), length-make_room n m a))
Fits-insert unbounded ref r m f = tt

pub keeps-Bounded :
    (p : TargetRecord → Bool) (g : TargetRegistry)
    → Bounded g
    → Bounded (record g { records = keep p g.records })
keeps-Bounded p g b = record {
  within =
      Fits-fewer g.max_refs (length g.records) (length (keep p g.records)) b.within
        (length-keep p g.records);
  once = distinct-keep p g.records b.once;
}

pub add-Bounded :
    (t : SemanticTarget) (locator : ℕ) (m : SemanticTargetMetadata) (c : Context) (suffix : Text)
    (now : ℕ) (g : TargetRegistry)
    → Bounded g
    → Bounded (add_record t locator m c suffix now g).1
add-Bounded t locator m c suffix now g b =
    let ref = opaque_ref (suc g.sequence) suffix in
    let r = new_record t locator m c ref now g in
    let room = make_room g.max_refs g.records in
    record {
      within = Fits-insert g.max_refs ref r g.records b.within;
      once = distinct-insert ref r room (distinct-make_room g.max_refs g.records b.once);
    }

empty-Bounded :
    (g h : TargetRegistry) → h.max_refs ≡ g.max_refs → h.records ≡ [] → Bounded g → Bounded h
unfolding distinct
empty-Bounded g h e n b = record {
  within =
      subst (λ l. Fits l (length h.records)) (sym e)
        (Fits-fewer g.max_refs (length g.records) (length h.records) b.within (rw n (omega arith)));
  once = rw n refl;
}

pub step-Bounded : (g : TargetRegistry) (c : Call) → Bounded g → Bounded (step g c)
unfolding step set_generation advance_generation invalidate clear prune_expired
step-Bounded g (registers t locator m c suffix now) b =
    elim (register-cases t locator m c suffix now g) [
      | inl e ↦ subst Bounded (sym e) b
      | inr e ↦
          subst Bounded (sym e)
            (add-Bounded t locator m c suffix now (prune_expired now g) (keeps-Bounded _ g b))
    ]
step-Bounded g (sets_generation none frame) b = b
step-Bounded g (sets_generation (some n) frame) b = empty-Bounded g _ refl refl b
step-Bounded g advances b = empty-Bounded g _ refl refl b
step-Bounded g clears b = empty-Bounded g _ refl refl b
step-Bounded g (invalidates none none) b = empty-Bounded g _ refl refl b
step-Bounded g (invalidates (some n) frame) b = keeps-Bounded _ g b
step-Bounded g (invalidates none (some n)) b = keeps-Bounded _ g b
step-Bounded g (prunes now) b = keeps-Bounded _ g b

pub run-Bounded : (g : TargetRegistry) (cs : List Call) → Bounded g → Bounded (run g cs)
unfolding run
run-Bounded g [] b = b
run-Bounded g (c ∷ cs) b = run-Bounded (step g c) cs (step-Bounded g c b)

bounded_option-Fits : (l : GivenLimit) → Fits (bounded_option l 1 10000 2000) 0
unfolding bounded_option
bounded_option-Fits absent = (omega arith, omega arith, omega arith)
bounded_option-Fits not_a_number = tt
bounded_option-Fits (given not_finite) = (omega arith, omega arith, omega arith)
bounded_option-Fits (given below_zero) = (omega arith, omega arith, omega arith)
bounded_option-Fits (given (floor_of n)) = (omega arith, omega arith, omega arith)

pub create-Bounded : (o : RegistryOptions) → Bounded (create o)
unfolding create distinct
create-Bounded o = record { within = bounded_option-Fits o.max_refs; once = refl }

step-max_refs : (g : TargetRegistry) (c : Call) → (step g c).max_refs ≡ g.max_refs
unfolding step set_generation advance_generation invalidate clear prune_expired
step-max_refs g (registers t locator m c suffix now) =
    elim (register-cases t locator m c suffix now g) [
      | inl e ↦ ground (arith, e)
      | inr e ↦ ground (arith, e)
    ]
step-max_refs g (sets_generation none frame) = refl
step-max_refs g (sets_generation (some n) frame) = refl
step-max_refs g advances = refl
step-max_refs g clears = refl
step-max_refs g (invalidates none none) = refl
step-max_refs g (invalidates (some n) frame) = refl
step-max_refs g (invalidates none (some n)) = refl
step-max_refs g (prunes now) = refl

run-max_refs : (g : TargetRegistry) (cs : List Call) → (run g cs).max_refs ≡ g.max_refs
unfolding run
run-max_refs g [] = refl
run-max_refs g (c ∷ cs) = run-max_refs (step g c) cs ∙ step-max_refs g c

abbrev pub is_nan : GivenLimit → Bool
is_nan not_a_number = true
is_nan _ = false

some_limit :
    (l : GivenLimit) → is_nan l ≡ false → (n : ℕ) × (bounded_option l 1 10000 2000 ≡ at_most n)
unfolding bounded_option
some_limit absent h = (_, refl)
some_limit not_a_number h = absurd (ground (arith, h))
some_limit (given not_finite) h = (_, refl)
some_limit (given below_zero) h = (_, refl)
some_limit (given (floor_of n)) h = (_, refl)

-- Whatever the calls, a registry whose option `maxRefs` is left out or any number but NaN has a
-- limit from 1 to 10,000 and holds no more references than that, none of them twice.
pub created-Bounded :
    (o : RegistryOptions) (cs : List Call)
    → is_nan o.max_refs ≡ false
    → (n : ℕ) × ((run (create o) cs).max_refs ≡ at_most n)
      × (1 ≤ n)
      × (n ≤ 10000)
      × (length (run (create o) cs).records ≤ n)
      × (distinct (run (create o) cs).records ≡ true)
unfolding create
created-Bounded o cs h =
    let (n, e) = some_limit o.max_refs h in
    let kept : (run (create o) cs).max_refs ≡ at_most n = run-max_refs (create o) cs ∙ e in
    let b = run-Bounded (create o) cs (create-Bounded o) in
    let (low, high, k) = subst (λ l. Fits l (length (run (create o) cs).records)) kept b.within in
    (n, kept, low, high, k, b.once)
