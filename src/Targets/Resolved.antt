-- ===== src/Targets/Resolved.antt =====
-- What a reference that `TargetRegistry` (src/browser/target-registry.ts) resolves stands for.
use mathlib.Core.Option.{some-injective}
use antigravity_browser.Base.{
  ℕ, ◌-◌, ◌≤◌, ◌≡◌, sym, ◌∙◌, inl, inr, Bool, true, false, not, ◌&&◌, none, some, [], ◌∷◌, arith,
  Text, or_else, lookup, Dict, Option-cases, List, subst, suc, lookup-insert, text_eq_refl,
}
use antigravity_browser.Targets.Registry.{
  prune_expired, check_element, ResolveOptions, keep, resolve_record, resolve, Context, register,
  new_record, make_room, exceeds,
}
use antigravity_browser.Targets.Types.{
  Limit, at_most, unbounded, TargetRegistry, Reading, TargetRecord, TargetResolution, ok,
  SemanticTarget, SemanticTargetMetadata,
}
use antigravity_browser.Targets.Semantics.{metadata_matches, read_metadata, expects, is_actionable}
use antigravity_browser.Targets.Bounds.{Bounded, add-Bounded, keeps-Bounded, run-Bounded}
use antigravity_browser.Targets.Lookups.{keep-Same, Same, run-Same}
use antigravity_browser.Targets.History.{register-ok, Call, run, register-Issued}
use antigravity_browser.Targets.Refs.{opaque_ref}

lookup-keep-passes :
    (p : TargetRecord → Bool) (ref : Text) (m : Dict TargetRecord) (r : TargetRecord)
    → lookup ref (keep p m) ≡ some r
    → p r ≡ true
unfolding lookup keep
lookup-keep-passes p ref [] r h = absurd (ground (arith, h))
lookup-keep-passes p ref ((k, q) ∷ m) r h = ground (arith, h, lookup-keep-passes p ref m r)

-- At most a limit; NaN sets none.
abbrev pub IsWithin : ℕ → Limit → Type 0
IsWithin n (at_most limit) = n ≤ limit
IsWithin n unbounded = Unit {0}

exceeds-IsWithin : (n : ℕ) (l : Limit) → exceeds n l ≡ false → IsWithin n l
exceeds-IsWithin n (at_most limit) h = ground (arith, h)
exceeds-IsWithin n unbounded h = tt

prune-found :
    (ref : Text) (now : ℕ) (g : TargetRegistry) (r : TargetRecord)
    → Bounded g
    → lookup ref (prune_expired now g).records ≡ some r
    → (lookup ref g.records ≡ some r) × IsWithin (now - r.created_at) g.ref_ttl_ms
unfolding prune_expired
prune-found ref now g r b e = (
  elim (keep-Same (λ q. not (exceeds (now - q.created_at) g.ref_ttl_ms)) ref g.records b.once) [
    | inl n ↦ absurd (ground (arith, n, e))
    | inr s ↦ sym s ∙ e
  ],
  exceeds-IsWithin (now - r.created_at) g.ref_ttl_ms (
      ground (
        arith,
        lookup-keep-passes (λ q. not (exceeds (now - q.created_at) g.ref_ttl_ms)) ref g.records r e,
      )),
)

-- What was checked of the element of a record before it is handed out.
pub record Confirmed (o : ResolveOptions) (r : TargetRecord) (reading : Reading)
    (generation frame : ℕ) : Type 0 where
  pub single : reading.count ≡ 1
  pub same_generation : r.generation ≡ or_else o.generation generation
  pub same_frame : r.frame_generation ≡ or_else o.frame_generation frame
  pub unchanged :
      metadata_matches true (read_metadata reading (some r.metadata)) (expects r.metadata) ≡ true
  pub actionable :
      (o.require_actionable
        && not (is_actionable reading (read_metadata reading (some r.metadata))))
      ≡ false

resolve_record-Confirmed :
    (o : ResolveOptions) (read : ℕ → Reading) (g : TargetRegistry) (r : TargetRecord)
    (s : TargetResolution)
    → o.page ≡ none
    → resolve_record o read g r ≡ ok s
    → (s.locator ≡ r.locator)
      × Confirmed o r (read r.locator) g.current_generation g.current_frame_generation
unfolding check_element
resolve_record-Confirmed o read g r s n e = (
  ground (arith, n, e),
  record {
    single = ground (arith, n, e);
    same_generation = ground (arith, n, e);
    same_frame = ground (arith, n, e);
    unchanged = ground (arith, n, e);
    actionable = ground (arith, n, e);
  },
)

register-found :
    (t : SemanticTarget) (locator : ℕ) (m : SemanticTargetMetadata) (c : Context) (suffix : Text)
    (now : ℕ) (g h : TargetRegistry) (ref : Text)
    → register t locator m c suffix now g ≡ (ok ref, h)
    → lookup ref h.records ≡ some (new_record t locator m c ref now g)
unfolding prune_expired
register-found t locator m c suffix now g h ref e =
    let (q, r) = register-ok t locator m c suffix now g h ref e in
    let k = opaque_ref (suc g.sequence) suffix in
    ground (
      arith,
      q,
      r,
      lookup-insert k k (new_record t locator m c k now g)
          (make_room g.max_refs (prune_expired now g).records),
      text_eq_refl k,
    )

register-Bounded :
    (t : SemanticTarget) (locator : ℕ) (m : SemanticTargetMetadata) (c : Context) (suffix : Text)
    (now : ℕ) (g h : TargetRegistry) (ref : Text)
    → Bounded g
    → register t locator m c suffix now g ≡ (ok ref, h)
    → Bounded h
unfolding prune_expired
register-Bounded t locator m c suffix now g h ref b e =
    let (q, r) = register-ok t locator m c suffix now g h ref e in
    subst Bounded (sym r)
      (add-Bounded t locator m c suffix now (prune_expired now g) (keeps-Bounded _ g b))

resolve-found :
    (ref : Text) (o : ResolveOptions) (read : ℕ → Reading) (now : ℕ) (g q : TargetRegistry)
    (s : TargetResolution)
    → resolve ref o read now g ≡ (ok s, q)
    → (r : TargetRecord) × (lookup ref (prune_expired now g).records ≡ some r)
      × (resolve_record o read (prune_expired now g) r ≡ ok s)
unfolding resolve
resolve-found ref o read now g q s e =
    elim (Option-cases (lookup ref (prune_expired now g).records)) [
      | inl n ↦ absurd (ground (arith, n, e))
      | inr (r, k) ↦ (r, k, ground (arith, k, e))
    ]

found_again :
    (ref : Text) (g h : TargetRegistry) (r s : TargetRecord)
    → Same ref g.records h.records
    → lookup ref g.records ≡ some r
    → lookup ref h.records ≡ some s
    → s ≡ r
found_again ref g h r s (inl n) e f = absurd (ground (arith, n, f))
found_again ref g h r s (inr k) e f = some-injective s r (sym f ∙ k ∙ e)

-- A reference that is resolved on the registered locator, after any calls since it was issued, gives
-- that locator, within the time to live (which NaN makes endless), of an element that is still single, of the generations that
-- are asked for, whose semantics agree with those registered, and that may be acted on where that is
-- required. The registry holds its bounds, as every constructed one does.
pub resolved_as_registered :
    (t : SemanticTarget) (locator : ℕ) (m : SemanticTargetMetadata) (c : Context) (suffix : Text)
    (now : ℕ) (g h q : TargetRegistry) (ref : Text) (cs : List Call) (o : ResolveOptions)
    (read : ℕ → Reading) (later : ℕ) (s : TargetResolution)
    → Bounded g
    → register t locator m c suffix now g ≡ (ok ref, h)
    → o.page ≡ none
    → resolve ref o read later (run h cs) ≡ (ok s, q)
    → (s.locator ≡ locator)
      × IsWithin (later - now) (run h cs).ref_ttl_ms
      × Confirmed o
          (new_record t locator m c ref now g)
          (read locator)
          (run h cs).current_generation
          (run h cs).current_frame_generation
unfolding prune_expired
resolved_as_registered t locator m c suffix now g h q ref cs o read later s b e n f =
    let i = register-Issued t locator m c suffix now g h ref e in
    let d = register-Bounded t locator m c suffix now g h ref b e in
    let found = register-found t locator m c suffix now g h ref e in
    let (r, k, a) = resolve-found ref o read later (run h cs) q s f in
    let (l, age) = prune-found ref later (run h cs) r (run-Bounded h cs d) k in
    let same =
      found_again ref h (run h cs) (new_record t locator m c ref now g) r (run-Same ref h cs i d)
        found l in
    let (x, y) = resolve_record-Confirmed o read (prune_expired later (run h cs)) r s n a in
    subst
      (λ w.
        (s.locator ≡ w.locator)
        × IsWithin (later - w.created_at) (run h cs).ref_ttl_ms
        × Confirmed o w (read w.locator) (run h cs).current_generation
            (run h cs).current_frame_generation)
      same (x, age, y)
