-- ===== src/Prelude/Table.antt =====
-- A table whose primary key is a text: the rows in insertion order, and the statements that select,
-- update or insert by key. The key is unique, so an UPDATE by key touches one row.
pub mod Kept
use mathlib.Core.Path.{◌≡◌, refl, subst}
use mathlib.Core.Logic.{inl, inr}
use punkgo_kernel.Prelude.Lists.{All}
use mathlib.Core.Option.{Option, none, some}
use mathlib.Core.List.{List, [], ◌∷◌, ◌++◌}
use Prim.Native.String.{String}
use text.Mathlib.Text.{◌==◌}
use text.Mathlib.TextEquality.{eq_iff}
use native.Mathlib.Omega.{arith}
use punkgo_kernel.Prelude.Tests.{if◌then◌else◌, Bool-cases}

abbrev pub map_option {ℓ κ} : {A : Type ℓ} {B : Type κ} → (A → B) → Option A → Option B
map_option f none = none
map_option f (some a) = some (f a)

module _ {A : Type 0} (key : A → String) where
  -- SELECT … WHERE key = k
  abbrev pub find_row : String → List A → Option A
  find_row k [] = none
  find_row k (r ∷ rs) = if key r == k then some r else find_row k rs

  -- UPDATE … WHERE key = k
  abbrev pub update_row : String → (A → A) → List A → List A
  update_row k f [] = []
  update_row k f (r ∷ rs) = if key r == k then f r ∷ rs else r ∷ update_row k f rs

  -- The keys are unique.
  abbrev pub HasUniqueKeys : List A → Type 0
  HasUniqueKeys [] = Unit
  HasUniqueKeys (r ∷ rs) = (find_row (key r) rs ≡ none) × HasUniqueKeys rs

  pub find_row-update_row :
      (k j : String) (f : A → A) (rows : List A)
      → ((r : A) → key (f r) ≡ key r)
      → find_row j (update_row k f rows)
        ≡ (if k == j then map_option f (find_row j rows) else find_row j rows)
  find_row-update_row k j f [] same = ground arith
  find_row-update_row k j f (r ∷ rs) same = ground (
    arith,
    same r,
    eq_iff k j,
    eq_iff (key r) k,
    eq_iff (key r) j,
    eq_iff (key (f r)) j,
    find_row-update_row k j f rs same,
  )

  -- A property of every row survives an update whose new row has it.
  pub All-update_row {κ} :
      (P : A → Type κ) (k : String) (f : A → A) (r : A) (rows : List A)
      → find_row k rows ≡ some r
      → P (f r)
      → All P rows
      → All P (update_row k f rows)
  All-update_row P k f r [] e p h = tt
  All-update_row P k f r (x ∷ xs) e p h = elim (Bool-cases (key x == k)) [
    | inl here ↦ rw here ((let same : x ≡ r = ground arith in rw same p), h.1)
    | inr there ↦ rw there (h.0, All-update_row P k f r xs (rw there at e) p h.1)
  ]

  pub All-find_row {κ} :
      (P : A → Type κ) (k : String) (r : A) (rows : List A)
      → find_row k rows ≡ some r
      → All P rows
      → P r
  All-find_row P k r [] e h = cc
  All-find_row P k r (x ∷ xs) e h = elim (Bool-cases (key x == k)) [
    | inl here ↦ (let same : x ≡ r = ground arith in subst P same h.0)
    | inr there ↦ All-find_row P k r xs (rw there at e) h.1
  ]

  -- INSERT of a row with a new key, behind the others.
  pub find_row-insert :
      (k : String) (r : A) (rows : List A)
      → find_row (key r) rows ≡ none
      → find_row k (rows ++ r ∷ []) ≡ (if key r == k then some r else find_row k rows)
  find_row-insert k r [] new = refl
  find_row-insert k r (x ∷ xs) new =
      ground
        (arith, eq_iff (key x) (key r), eq_iff (key x) k, eq_iff (key r) k, find_row-insert k r xs)

pub All-append {ℓ κ} :
    {A : Type ℓ} (P : A → Type κ) (xs ys : List A) → All P xs → All P ys → All P (xs ++ ys)
All-append P [] ys hx hy = hy
All-append P (x ∷ xs) ys hx hy = (hx.0, All-append P xs ys hx.1 hy)
