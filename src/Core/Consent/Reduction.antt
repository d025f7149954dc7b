-- ===== src/Core/Consent/Reduction.antt =====
-- The chain of authorization only narrows: `validate_envelope_reduction` of
-- crates/punkgo-core/src/consent.rs.
use punkgo_kernel.Prelude.{
  ◌≡◌, refl, Bool, true, false, not, ◌||◌, List, [], ◌∷◌, String, all, All, All-imp, ◌↔◌, ◌==◌,
  arith, eq_iff, inl, inr, ◌⊎◌,
}
use punkgo_kernel.Prelude.Int.{◌-ℤ◌, ◌≤ℤ◌, ltb_ℤ_false, ltb_ℤ_of_le}
use punkgo_kernel.Core.Errors.{ok, raise_if-eq-ok}
use punkgo_kernel.Core.Boundary.{GlobSet, glob_match}
use punkgo_kernel.Core.Boundary.Access.{Some, Some-map, any_iff, any-eq_iff}
use punkgo_kernel.Core.Boundary.Delegation.{IsLiteral, subset-Some}
use punkgo_kernel.Core.Consent.{
  EnvelopeRecord, EnvelopeSpec, remaining, target_covered, validate_envelope_reduction,
}
use punkgo_kernel.Core.Consent.Checks.{IsFunded, remaining-exact}

all_iff : {A : Type 0} (p : A → Bool) (xs : List A) → (all p xs ≡ true) ↔ All (λ x. p x ≡ true) xs
all_iff p [] = ((λ h. tt), λ h. refl)
all_iff p (x ∷ xs) = (
  λ h. (ground (arith, h), (all_iff p xs).0 (ground (arith, h))),
  λ h. (let rest = (all_iff p xs).1 h.1 in ground (arith, h.0, rest)),
)

not-false : {b : Bool} → not b ≡ false → b ≡ true
not-false {b} h = ground (arith, h)

module _ (glob : GlobSet) (any_path : (t : String) → glob_match glob "**" t ≡ true) where
  or_cases : (a b c : Bool) → (a || b || c) ≡ true → (a ≡ true) ⊎ (b ≡ true) ⊎ (c ≡ true)
  or_cases a b c h = ground arith

  covered-match :
      (p q t : String)
      → IsLiteral glob q
      → (glob_match glob p q || p == "**" || p == q) ≡ true
      → glob_match glob q t ≡ true
      → glob_match glob p t ≡ true
  covered-match p q t literal h m =
      ground (arith, any_path t, literal t m, eq_iff p "**", eq_iff p q)

  covered-targets :
      (target : String) (parents children : List String)
      → All (IsLiteral glob) children
      → all (target_covered glob parents) children ≡ true
      → Some (λ p. glob_match glob p target ≡ true) children
      → Some (λ p. glob_match glob p target ≡ true) parents
  unfolding target_covered
  covered-targets target parents [] literal h m = absurd m
  covered-targets target parents (q ∷ qs) literal h (inl m) =
      Some-map parents (λ p c. covered-match p q target literal.0 c m)
        ((any_iff _ parents).0 (ground arith))
  covered-targets target parents (q ∷ qs) literal h (inr m) =
      covered-targets target parents qs literal.1 (ground arith) m

  -- What a child's pattern needs: a pattern of the parent that is the same, or that matches its text.
  abbrev pub IsCovered : List String → String → Type 0
  IsCovered parents q = Some (λ p. (p ≡ q) ⊎ (glob_match glob p q ≡ true)) parents

  target_covered_iff :
      (parents : List String) (q : String)
      → (target_covered glob parents q ≡ true) ↔ IsCovered parents q
  unfolding target_covered
  target_covered_iff parents q = (
    λ h. Some-map parents (λ p c. covers_sound p (or_cases _ _ _ c)) ((any_iff _ parents).0 h),
    λ s. (any_iff _ parents).1 (Some-map parents (λ p c. covers_complete p c) s),
  )
    where
      covers_sound :
          (p : String)
          → (glob_match glob p q ≡ true) ⊎ ((p == "**") ≡ true) ⊎ ((p == q) ≡ true)
          → (p ≡ q) ⊎ (glob_match glob p q ≡ true)
      covers_sound p (inl m) = inr m
      covers_sound p (inr (inl e)) = inr (rw ((eq_iff p "**").0 e) (any_path q))
      covers_sound p (inr (inr e)) = inl ((eq_iff p q).0 e)

      covers_complete :
          (p : String)
          → (p ≡ q) ⊎ (glob_match glob p q ≡ true)
          → (glob_match glob p q || p == "**" || p == q) ≡ true
      covers_complete p (inl e) = ground (arith, (eq_iff p q).1 e)
      covers_complete p (inr m) = ground (arith, m)

  -- Where `**` matches every text: a child envelope passes the check against a funded parent exactly if
  -- its budget is at most the remaining budget of the parent, each of its action types is one of the
  -- parent's, and each of its patterns is one of the parent's or is, as a text, matched by one.
  pub validate_envelope_reduction_iff :
      (parent : EnvelopeRecord) (child : EnvelopeSpec)
      → IsFunded parent
      → (validate_envelope_reduction glob parent child ≡ ok tt) ↔ (
          (child.budget ≤ℤ parent.budget -ℤ parent.budget_consumed)
          × All (λ a. Some (λ b. b ≡ a) parent.actions) child.actions
          × All (IsCovered parent.targets) child.targets)
  unfolding validate_envelope_reduction
  validate_envelope_reduction_iff parent child funded = (
    λ h.
        let (a, h1) = raise_if-eq-ok _ _ _ h in
        let (b, h2) = raise_if-eq-ok _ _ _ h1 in
        let (c, h3) = raise_if-eq-ok _ _ _ h2 in
        (
          rw (← remaining-exact parent funded) (ltb_ℤ_false (remaining parent) child.budget a),
          All-imp _ _ child.actions (λ a. (any-eq_iff a parent.actions).0)
              ((all_iff _ child.actions).0 (not-false b)),
          All-imp _ _ child.targets (λ q. (target_covered_iff parent.targets q).0)
              ((all_iff _ child.targets).0 (not-false c)),
        ),
    λ (budget, actions, targets).
        let a =
          ltb_ℤ_of_le (remaining parent) child.budget (rw (remaining-exact parent funded) budget) in
        let b =
          (all_iff _ child.actions).1
            (All-imp _ _ child.actions (λ a. (any-eq_iff a parent.actions).1) actions) in
        let c =
          (all_iff _ child.targets).1
            (All-imp _ _ child.targets (λ q. (target_covered_iff parent.targets q).1) targets) in
        rw (a, b, c) refl,
  )

  -- Where `**` matches every text: a child envelope whose patterns have no wildcards, and that passes
  -- the check against a funded parent, permits an action type on a target only if its parent does;
  -- and where it permits any, its budget is at most the remaining budget of the parent.
  pub validate_envelope_reduction_sound :
      (parent : EnvelopeRecord) (child : EnvelopeSpec) (target action : String)
      → IsFunded parent
      → All (IsLiteral glob) child.targets
      → validate_envelope_reduction glob parent child ≡ ok tt
      → Some (λ a. a ≡ action) child.actions
      → Some (λ p. glob_match glob p target ≡ true) child.targets
      → (child.budget ≤ℤ parent.budget -ℤ parent.budget_consumed)
        × Some (λ a. a ≡ action) parent.actions
        × Some (λ p. glob_match glob p target ≡ true) parent.targets
  unfolding validate_envelope_reduction
  validate_envelope_reduction_sound parent child target action funded literal h acts targets = (
    rw (← remaining-exact parent funded)
        (ltb_ℤ_false (remaining parent) child.budget (ground arith)),
    subset-Some action child.actions parent.actions (ground arith) acts,
    covered-targets target parent.targets child.targets literal (ground arith) targets,
  )
