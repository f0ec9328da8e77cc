-- ===== src/Targets/Lookups.antt =====
-- What a reference of `TargetRegistry` (src/browser/target-registry.ts) stands for, over any history
-- of calls.
use antigravity_browser.Base.{
  ◌≡◌, refl, sym, ◌∙◌, subst, ◌⊎◌, inl, inr, Bool, true, false, none, some, List, [], ◌∷◌, arith,
  Text, Dict, lookup, text_eq_iff,
}
use antigravity_browser.Targets.History.{
  advances, clears, run, step, lookup-keep, lookup-make_room, Call, Issued, step-Issued, registers,
  register-cases, lookup-add, sets_generation, invalidates, prunes,
}
use antigravity_browser.Targets.Types.{Limit, TargetRecord, TargetRegistry}
use antigravity_browser.Targets.Registry.{
  make_room, keep, set_generation, advance_generation, invalidate, clear, prune_expired,
}
use antigravity_browser.Targets.Bounds.{has_key, distinct, Bounded, step-Bounded, distinct-keep}

-- A reference has gone or stands for what it stood for.
abbrev pub Same : Text → Dict TargetRecord → Dict TargetRecord → Type 0
Same ref m n = (lookup ref n ≡ none) ⊎ (lookup ref n ≡ lookup ref m)

lookup-has_key : (ref : Text) (m : Dict TargetRecord) → has_key ref m ≡ false → lookup ref m ≡ none
unfolding lookup has_key
lookup-has_key ref [] h = refl
lookup-has_key ref ((k, r) ∷ m) h = ground (arith, h, lookup-has_key ref m)

pub keep-Same :
    (p : TargetRecord → Bool) (ref : Text) (m : Dict TargetRecord)
    → distinct m ≡ true
    → Same ref m (keep p m)
unfolding lookup keep distinct
keep-Same p ref [] d = inl refl
keep-Same p ref ((k, r) ∷ m) d =
    ground (arith, d, text_eq_iff k ref, keep-Same p ref m, lookup-keep p k m, lookup-has_key k m)

make_room-Same :
    (n : Limit) (ref : Text) (m : Dict TargetRecord)
    → distinct m ≡ true
    → Same ref m (make_room n m)
unfolding lookup make_room distinct
make_room-Same n ref [] d = inl refl
make_room-Same n ref ((k, r) ∷ m) d = ground (
  arith,
  d,
  text_eq_iff k ref,
  make_room-Same n ref m,
  lookup-make_room n k m,
  lookup-has_key k m,
)

Same-trans : (ref : Text) (l m n : Dict TargetRecord) → Same ref l m → Same ref m n → Same ref l n
Same-trans ref l m n h (inl e) = inl e
Same-trans ref l m n (inl e) (inr f) = inl (f ∙ e)
Same-trans ref l m n (inr e) (inr f) = inr (f ∙ e)

step-Same :
    (ref : Text) (g : TargetRegistry) (c : Call)
    → Issued ref g
    → distinct g.records ≡ true
    → Same ref g.records (step g c).records
unfolding step set_generation advance_generation invalidate clear prune_expired lookup
step-Same ref g (registers t locator m c suffix now) i d =
    elim (register-cases t locator m c suffix now g) [
      | inl e ↦ inr (rw e refl)
      | inr e ↦
          let pruned = (prune_expired now g).records in
          subst (λ h. Same ref g.records h.records) (sym e)
            (subst (λ l. (l ≡ none) ⊎ (l ≡ lookup ref g.records))
              (sym (lookup-add ref t locator m c suffix now (prune_expired now g) i))
              (Same-trans ref g.records pruned (make_room g.max_refs pruned)
                (keep-Same _ ref g.records d)
                (make_room-Same g.max_refs ref pruned (distinct-keep _ g.records d))))
    ]
step-Same ref g (sets_generation none frame) i d = inr refl
step-Same ref g (sets_generation (some n) frame) i d = inl refl
step-Same ref g advances i d = inl refl
step-Same ref g clears i d = inl refl
step-Same ref g (invalidates none none) i d = inl refl
step-Same ref g (invalidates (some n) frame) i d = keep-Same _ ref g.records d
step-Same ref g (invalidates none (some n)) i d = keep-Same _ ref g.records d
step-Same ref g (prunes now) i d = keep-Same _ ref g.records d

pub run-Same :
    (ref : Text) (g : TargetRegistry) (cs : List Call)
    → Issued ref g
    → Bounded g
    → Same ref g.records (run g cs).records
unfolding run
run-Same ref g [] i b = inr refl
run-Same ref g (c ∷ cs) i b =
    Same-trans ref g.records (step g c).records (run (step g c) cs).records
      (step-Same ref g c i b.once)
      (run-Same ref (step g c) cs (step-Issued ref g c i) (step-Bounded g c b))
