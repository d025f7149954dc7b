-- ===== src/Prelude/Table/Kept.antt =====
-- Two states of a table with a text as primary key: no row is lost, and each row is related to what
-- has become of it.
use mathlib.Core.Path.{◌≡◌, refl, ◌∙◌}
use mathlib.Core.Logic.{inl, inr}
use mathlib.Core.Option.{some}
use mathlib.Core.List.{List, [], ◌∷◌, ◌++◌}
use Prim.Native.String.{String}
use text.Mathlib.Text.{◌==◌}
use native.Mathlib.Omega.{arith}
use punkgo_kernel.Prelude.Tests.{Bool-cases}
use punkgo_kernel.Prelude.Table.{find_row, update_row, find_row-update_row}

-- What has become of one row.
pub record Survives {A : Type 0} (key : A → String) (R : A → A → Type 0) (k : String) (r : A)
    (rows : List A) : Type 0 where
  pub row : A
  pub found : find_row key k rows ≡ some row
  pub related : R r row

module _ {A : Type 0} (key : A → String) (R : A → A → Type 0) where
  pub record Kept (rows rows' : List A) : Type 0 where
    pub survives : (k : String) (r : A) → find_row key k rows ≡ some r → Survives key R k r rows'

  module _ (same : (r : A) → R r r) where
    pub Kept-refl : (rows : List A) → Kept rows rows
    Kept-refl rows = record { survives = λ k r h. record { row = r; found = h; related = same r } }

    pub Kept-update_row :
        (k : String) (f : A → A) (rows : List A)
        → ((r : A) → key (f r) ≡ key r)
        → ((r : A) → R r (f r))
        → Kept rows (update_row key k f rows)
    Kept-update_row k f rows keys moved = record {
      survives = λ j r h.
          let looked = find_row-update_row key k j f rows keys in
          elim (Bool-cases (k == j)) [
            | inl e ↦ record { row = f r; found = looked ∙ rw (e, h) refl; related = moved r }
            | inr e ↦ record { row = r; found = looked ∙ rw (e, h) refl; related = same r }
          ];
    }

    find_row-append :
        (k : String) (r : A) (rows new : List A)
        → find_row key k rows ≡ some r
        → find_row key k (rows ++ new) ≡ some r
    find_row-append k r [] new h = cc
    find_row-append k r (y ∷ ys) new h = ground (arith, find_row-append k r ys new)

    pub Kept-append : (rows new : List A) → Kept rows (rows ++ new)
    Kept-append rows new = record {
      survives =
          λ k r h. record { row = r; found = find_row-append k r rows new h; related = same r };
    }

  pub Kept-trans :
      ((a b c : A) → R a b → R b c → R a c)
      → (xs ys zs : List A) → Kept xs ys
      → Kept ys zs
      → Kept xs zs
  Kept-trans trans xs ys zs p q = record {
    survives = λ k r h.
        let a = p.survives k r h in
        let b = q.survives k a.row a.found in
        record { row = b.row; found = b.found; related = trans r a.row b.row a.related b.related };
  }
