-- ===== src/Core/Boundary/Access.antt =====
-- Which accesses `check_writable_boundary` of crates/punkgo-core/src/boundary.rs lets through.
use punkgo_kernel.Prelude.{
  ◌≡◌, ◌≢◌, refl, ◌↔◌, ◌⊎◌, inl, inr, Bool, true, false, ◌&&◌, List, [], ◌∷◌, String, any,
  if◌then◌else◌, ◌==◌, arith, eq_iff, Bool-cases,
}
use text.Mathlib.Text.{starts_with}
use text.Mathlib.TextBridge.{IsPrefix}
use text.Mathlib.TextEquality.{starts_with_iff}
use punkgo_kernel.Core.Errors.{KernelError, boundary_violation, KernelResult, ok, err}
use punkgo_kernel.Core.Action.{ActionType, observe, create, mutate, execute, as_str}
use punkgo_kernel.Core.Actor.{ActorRecord, WritableTarget}
use punkgo_kernel.Core.Boundary.{
  GlobSet, is_privileged_target, find_wildcard, check_privileged_access, glob_match, find_grant,
  check_writable_boundary,
}

-- Some element of a list has a property.
abbrev pub Some : {A : Type 0} → (A → Type 0) → List A → Type 0
Some P [] = ⊥
Some P (x ∷ xs) = P x ⊎ Some P xs

pub any_iff :
    {A : Type 0} (p : A → Bool) (xs : List A) → (any p xs ≡ true) ↔ Some (λ x. p x ≡ true) xs
any_iff p [] = ((λ h. cc), λ h. absurd h)
any_iff p (x ∷ xs) = elim (Bool-cases (p x)) [
  | inl here ↦ ((λ h. inl here), λ h. rw here)
  | inr there ↦ (
    (λ h. inr ((any_iff p xs).0 (rw there at h))),
    λ h. elim h [ inl here ↦ cc | inr later ↦ rw there ((any_iff p xs).1 later) ],
  )
]

-- A row of an actor's boundary grants an action on a target.
abbrev pub Grants : GlobSet → String → String → WritableTarget → Type 0
Grants glob action target wt =
    (glob_match glob wt.target target ≡ true) × Some (λ a. a ≡ action) wt.actions

-- The privileged targets of PIP-001 §9.
abbrev pub IsPrivileged : String → Type 0
IsPrivileged target = IsPrefix "system/" target ⊎ IsPrefix "ledger/" target

pub is_privileged_target_iff :
    (target : String) → (is_privileged_target target ≡ true) ↔ IsPrivileged target
unfolding is_privileged_target
is_privileged_target_iff target =
    let (sys, sys') = starts_with_iff target "system/" in
    let (led, led') = starts_with_iff target "ledger/" in
    (
      λ h. elim (Bool-cases (starts_with target "system/")) [
        | inl e ↦ inl (sys e)
        | inr e ↦ inr (led (ground (arith, h, e)))
      ],
      λ p. elim p [ inl s ↦ ground (arith, sys' s) | inr l ↦ ground (arith, led' l) ],
    )

pub not-IsPrivileged :
    (target : String) → is_privileged_target target ≡ false → ¬ IsPrivileged target
not-IsPrivileged target h p = cc ((is_privileged_target_iff target).1 p)

-- The words of the types of actions in a boundary.
abbrev pub word_of : ActionType → String
word_of observe = "observe"
word_of create = "create"
word_of mutate = "mutate"
word_of execute = "execute"

pub as_str_lem : (t : ActionType) → as_str t ≡ word_of t
unfolding as_str
as_str_lem observe = refl
as_str_lem create = refl
as_str_lem mutate = refl
as_str_lem execute = refl

-- Who may act on a target. The root wildcard opens a privileged target for every action, those that
-- its row does not name included.
pub data MayWrite (glob : GlobSet) (actor : ActorRecord) (target : String) (t : ActionType)
    : Type 0 where
  observing : t ≡ observe → MayWrite glob actor target t
  as_root :
      IsPrivileged target
      → Some (λ wt. wt.target ≡ "**") actor.writable_targets
      → MayWrite glob actor target t
  granted :
      ¬ IsPrivileged target
      → Some (Grants glob (word_of t) target) actor.writable_targets
      → MayWrite glob actor target t

pub Some-map :
    {A : Type 0} {P Q : A → Type 0} (xs : List A) → ((x : A) → P x → Q x) → Some P xs → Some Q xs
Some-map [] f h = h
Some-map (x ∷ xs) f (inl h) = inl (f x h)
Some-map (x ∷ xs) f (inr h) = inr (Some-map xs f h)

pub any-eq_iff :
    (s : String) (xs : List String) → (any (λ a. a == s) xs ≡ true) ↔ Some (λ a. a ≡ s) xs
any-eq_iff s xs = (
  (λ h. Some-map xs (λ a e. (eq_iff a s).0 e) ((any_iff (λ a. a == s) xs).0 h)),
  λ h. (any_iff (λ a. a == s) xs).1 (Some-map xs (λ a e. (eq_iff a s).1 e) h),
)

-- Each loop is a test of every row.
find_wildcard-any :
    (wts : List WritableTarget)
    → find_wildcard wts ≡ (
        if any (λ wt. wt.target == "**") wts
        then ok tt
        else err (boundary_violation "actor denied access to privileged target"))
unfolding find_wildcard
find_wildcard-any [] = refl
find_wildcard-any (wt ∷ wts) = ground (arith, find_wildcard-any wts)

if_ok_iff :
    (b : Bool) (e : KernelError)
    → ◌≡◌ {A = KernelResult (Unit {0})} (if b then ok tt else err e) (ok tt) ↔ (b ≡ true)
if_ok_iff true e = ((λ h. refl), λ h. refl)
if_ok_iff false e = ((λ h. cc), λ h. cc)

iff_trans : {A B C : Type 0} → A ↔ B → B ↔ C → A ↔ C
iff_trans f g = ((λ a. g.0 (f.0 a)), λ c. f.1 (g.1 c))

pub and_iff : (a b : Bool) → ((a && b) ≡ true) ↔ ((a ≡ true) × (b ≡ true))
and_iff a b = ground arith

module _ (glob : GlobSet) where
  find_grant-any :
      (action target : String) (wts : List WritableTarget)
      → find_grant glob action target wts ≡ (
          if any (λ wt. glob_match glob wt.target target && any (λ a. a == action) wt.actions) wts
          then ok tt
          else err (boundary_violation "actor has no writable_target granting"))
  unfolding find_grant
  find_grant-any action target [] = refl
  find_grant-any action target (wt ∷ wts) = ground (arith, find_grant-any action target wts)

  find_wildcard_iff :
      (wts : List WritableTarget) → (find_wildcard wts ≡ ok tt) ↔ Some (λ wt. wt.target ≡ "**") wts
  find_wildcard_iff wts = rw (find_wildcard-any wts) (
      iff_trans (if_ok_iff (any (λ wt. wt.target == "**") wts) _) (
        iff_trans (any_iff (λ wt. wt.target == "**") wts) (
          Some-map wts (λ wt e. (eq_iff wt.target "**").0 e),
          Some-map wts (λ wt e. (eq_iff wt.target "**").1 e),
        )))

  find_grant_iff :
      (action target : String) (wts : List WritableTarget)
      → (find_grant glob action target wts ≡ ok tt) ↔ Some (Grants glob action target) wts
  find_grant_iff action target wts = rw (find_grant-any action target wts) (
      iff_trans (if_ok_iff _ _) (
        iff_trans (any_iff _ wts) (
          Some-map wts
              (λ wt e. let p = (and_iff _ _).0 e in (p.0, (any-eq_iff action wt.actions).0 p.1)),
          Some-map wts (λ wt e. (and_iff _ _).1 (e.0, (any-eq_iff action wt.actions).1 e.1)),
        )))

  check-state_changing :
      (actor : ActorRecord) (target : String) (t : ActionType)
      → t ≢ observe
      → check_writable_boundary glob actor target t ≡ (
          if is_privileged_target target
          then find_wildcard actor.writable_targets
          else find_grant glob (word_of t) target actor.writable_targets)
  unfolding check_writable_boundary check_privileged_access
  check-state_changing actor target observe h = absurd (h refl)
  check-state_changing actor target create h = rw (as_str_lem create) refl
  check-state_changing actor target mutate h = rw (as_str_lem mutate) refl
  check-state_changing actor target execute h = rw (as_str_lem execute) refl

  sound :
      (actor : ActorRecord) (target : String) (t : ActionType)
      → t ≢ observe
      → check_writable_boundary glob actor target t ≡ ok tt
      → MayWrite glob actor target t
  sound actor target t ne h = elim (Bool-cases (is_privileged_target target)) [
    | inl p ↦ as_root ((is_privileged_target_iff target).0 p) (
        (find_wildcard_iff actor.writable_targets).0
          (rw (check-state_changing actor target t ne, p) at h))
    | inr p ↦ granted (not-IsPrivileged target p) (
        (find_grant_iff (word_of t) target actor.writable_targets).0
          (rw (check-state_changing actor target t ne, p) at h))
  ]

  complete :
      (actor : ActorRecord) (target : String) (t : ActionType)
      → t ≢ observe
      → MayWrite glob actor target t
      → check_writable_boundary glob actor target t ≡ ok tt
  complete actor target t ne (observing e) = absurd (ne e)
  complete actor target t ne (as_root w s) =
      let p = (is_privileged_target_iff target).1 w in
      rw (check-state_changing actor target t ne, p)
        ((find_wildcard_iff actor.writable_targets).1 s)
  complete actor target t ne (granted other s) = elim (Bool-cases (is_privileged_target target)) [
    | inl p ↦ absurd (other ((is_privileged_target_iff target).0 p))
    | inr p ↦
        rw (check-state_changing actor target t ne, p)
          ((find_grant_iff (word_of t) target actor.writable_targets).1 s)
  ]

  -- The boundary lets an access through exactly if it is an observation; or the target begins with
  -- system/ or ledger/ and the actor has a row with the pattern **, whatever actions that row names;
  -- or the target begins with neither and a row matches it and names the action.
  pub check_writable_boundary_iff :
      (actor : ActorRecord) (target : String) (t : ActionType)
      → (check_writable_boundary glob actor target t ≡ ok tt) ↔ MayWrite glob actor target t
  unfolding check_writable_boundary
  check_writable_boundary_iff actor target observe = ((λ h. observing refl), λ h. refl)
  check_writable_boundary_iff actor target create =
      (sound actor target create (λ e. cc), complete actor target create (λ e. cc))
  check_writable_boundary_iff actor target mutate =
      (sound actor target mutate (λ e. cc), complete actor target mutate (λ e. cc))
  check_writable_boundary_iff actor target execute =
      (sound actor target execute (λ e. cc), complete actor target execute (λ e. cc))
