-- ===== src/Core/Boundary/Delegation.antt =====
-- What an actor hands on to the actors that it creates: `validate_child_targets` of
-- crates/punkgo-core/src/boundary.rs.
use punkgo_kernel.Prelude.{
  ◌≡◌, ◌≢◌, ◌∙◌, inl, inr, Bool, true, false, List, [], ◌∷◌, String, any, all, All, ◌==◌, arith,
  eq_iff, Bool-cases,
}
use punkgo_kernel.Core.Errors.{ok}
use punkgo_kernel.Core.Action.{ActionType, observe, as_str}
use punkgo_kernel.Core.Actor.{ActorRecord, WritableTarget}
use punkgo_kernel.Core.Boundary.{
  GlobSet, is_privileged_target, glob_match, pattern_covers, covers, check_writable_boundary,
  validate_child_targets,
}
use punkgo_kernel.Core.Boundary.Access.{
  Some, Some-map, any_iff, any-eq_iff, and_iff, Grants, MayWrite, observing, as_root, granted,
  check_writable_boundary_iff, not-IsPrivileged, word_of, as_str_lem,
}

-- A pattern that matches only itself: one with no wildcard.
abbrev pub IsLiteral : GlobSet → String → Type 0
IsLiteral glob p = (t : String) → glob_match glob p t ≡ true → t ≡ p

all_mem :
    {A : Type 0} (p : A → Bool) (q : A → Type 0) (xs : List A)
    → all p xs ≡ true
    → Some q xs
    → Some (λ x. (p x ≡ true) × q x) xs
all_mem p q [] h m = m
all_mem p q (x ∷ xs) h (inl m) = inl (((and_iff _ _).0 h).0, m)
all_mem p q (x ∷ xs) h (inr m) = inr (all_mem p q xs ((and_iff _ _).0 h).1 m)

Some-elim :
    {A : Type 0} {P : A → Type 0} {C : Type 0} (xs : List A) → ((x : A) → P x → C) → Some P xs → C
Some-elim [] f h = absurd h
Some-elim (x ∷ xs) f (inl h) = f x h
Some-elim (x ∷ xs) f (inr h) = Some-elim xs f h

-- Every text of `xs` stands in `ys`, by the code's test.
pub subset-Some :
    (action : String) (xs ys : List String)
    → all (λ x. any (λ a. a == x) ys) xs ≡ true
    → Some (λ a. a ≡ action) xs
    → Some (λ a. a ≡ action) ys
subset-Some action xs ys h m =
    Some-elim xs (λ a found. (any-eq_iff action ys).0 (rw found.1 at (found.0)))
      (all_mem _ _ xs h m)

module _ (glob : GlobSet) (any_path : (t : String) → glob_match glob "**" t ≡ true) where
  pattern_covers-glob_match :
      (p q t : String)
      → IsLiteral glob q
      → pattern_covers glob p q ≡ true
      → glob_match glob q t ≡ true
      → glob_match glob p t ≡ true
  unfolding pattern_covers
  pattern_covers-glob_match p q t literal h m =
      ground (arith, any_path t, literal t m, eq_iff p "**", eq_iff p q)

  -- A literal row of the child that is covered grants nothing that the covering row does not.
  covers-Grants :
      (action target : String) (child_wt parent_wt : WritableTarget)
      → IsLiteral glob child_wt.target
      → covers glob child_wt parent_wt ≡ true
      → Grants glob action target child_wt
      → Grants glob action target parent_wt
  unfolding covers
  covers-Grants action target child_wt parent_wt literal h g =
      let both = (and_iff _ _).0 h in
      (
        pattern_covers-glob_match parent_wt.target child_wt.target target literal both.0 g.0,
        subset-Some action child_wt.actions parent_wt.actions both.1 g.1,
      )

  child-Grants :
      (action target : String) (parent : ActorRecord) (ts : List WritableTarget)
      → All (λ wt. IsLiteral glob wt.target) ts
      → validate_child_targets glob parent ts ≡ ok tt
      → Some (Grants glob action target) ts
      → Some (Grants glob action target) parent.writable_targets
  unfolding validate_child_targets
  child-Grants action target parent [] literal h g = absurd g
  child-Grants action target parent (wt ∷ ts) literal h g =
      elim (Bool-cases (any (covers glob wt) parent.writable_targets)) [
        | inr no_row ↦ cc (rw no_row at h)
        | inl row ↦ elim g [
          | inl here ↦
              Some-map parent.writable_targets
                (λ p c. covers-Grants action target wt p literal.0 c here)
                ((any_iff (covers glob wt) parent.writable_targets).0 row)
          | inr later ↦ child-Grants action target parent ts literal.1 (rw row at h) later
        ]
      ]

  literal-no-wildcard :
      (ts : List WritableTarget)
      → All (λ wt. IsLiteral glob wt.target) ts
      → ¬ Some (λ wt. wt.target ≡ "**") ts
  literal-no-wildcard [] literal m = m
  literal-no-wildcard (wt ∷ ts) literal (inl e) =
      cc ((eq_iff "x" "**").1 (literal.0 "x" (rw e (any_path "x")) ∙ e))
  literal-no-wildcard (wt ∷ ts) literal (inr m) = literal-no-wildcard ts literal.1 m

  -- Where `**` matches every text and the rows of a child have no wildcards and pass the check, whatever the boundary of the child lets through the
  -- boundary of its parent lets through, for state-changing actions and observations alike.
  pub delegation_sound :
      (parent child : ActorRecord) (target : String) (t : ActionType)
      → All (λ wt. IsLiteral glob wt.target) child.writable_targets
      → validate_child_targets glob parent child.writable_targets ≡ ok tt
      → check_writable_boundary glob child target t ≡ ok tt
      → check_writable_boundary glob parent target t ≡ ok tt
  delegation_sound parent child target t literal valid h =
      (check_writable_boundary_iff glob parent target t).1
        (hand_on ((check_writable_boundary_iff glob child target t).0 h))
    where
      hand_on : MayWrite glob child target t → MayWrite glob parent target t
      hand_on (observing e) = observing e
      hand_on (as_root p s) = absurd (literal-no-wildcard child.writable_targets literal s)
      hand_on (granted p s) =
          granted p (child-Grants (word_of t) target parent child.writable_targets literal valid s)

-- With a wildcard in the row of the child this fails. A pattern that matches the text of a wider
-- pattern, as `a/*` matches the text `a/**`, passes the check, and the child may then write what the
-- parent may not.
pub wildcard_escalates :
    (glob : GlobSet) (parent child : ActorRecord) (p q target : String) (t : ActionType)
    → t ≢ observe
    → parent.writable_targets ≡ record { target = p; actions = as_str t ∷ [] } ∷ []
    → child.writable_targets ≡ record { target = q; actions = as_str t ∷ [] } ∷ []
    → is_privileged_target target ≡ false
    → glob_match glob p q ≡ true
    → glob_match glob q target ≡ true
    → glob_match glob p target ≡ false
    → (validate_child_targets glob parent child.writable_targets ≡ ok tt)
      × (check_writable_boundary glob child target t ≡ ok tt)
      × (check_writable_boundary glob parent target t ≢ ok tt)
unfolding validate_child_targets covers pattern_covers
wildcard_escalates glob parent child p q target t ne ep ec np pq qt pt = (
  rw (ec, ep) (ground (arith, eq_iff (as_str t) (as_str t))),
  (check_writable_boundary_iff glob child target t).1
      (granted (not-IsPrivileged target np) (rw ec (inl (qt, inl (as_str_lem t))))),
  λ h. denied ((check_writable_boundary_iff glob parent target t).0 h),
)
  where
    denied : MayWrite glob parent target t → ⊥
    denied (observing e) = ne e
    denied (as_root w s) = not-IsPrivileged target np w
    denied (granted w s) = elim (rw ep at s) [ inl g ↦ cc (g.0) | inr none_left ↦ none_left ]
