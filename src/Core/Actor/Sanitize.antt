-- ===== src/Core/Actor/Sanitize.antt =====
-- What `sanitize_purpose` of crates/punkgo-core/src/actor.rs makes of any purpose.
use punkgo_kernel.Prelude.{
  ℕ, ◌≡◌, refl, ap, Bool, true, false, ◌&&◌, ◌||◌, List, [], ◌∷◌, map, leb, eqb, arith,
}
use punkgo_kernel.Core.Actor.{
  hyphen, is_nil, sanitize_char, collapse, trim_start, trim_end, sanitize_purpose,
}

-- A lower-case letter, a digit or a hyphen.
abbrev pub is_slug_char : ℕ → Bool
is_slug_char c = (leb b'0' c && leb c b'9') || (leb b'a' c && leb c b'z') || eqb c hyphen

-- Slug characters with no hyphen behind a hyphen; the flag says whether one stands in front.
abbrev pub IsCollapsed : Bool → List ℕ → Type 0
IsCollapsed prev [] = Unit
IsCollapsed prev (c ∷ cs) =
    (is_slug_char c ≡ true) × ((eqb c hyphen && prev) ≡ false) × IsCollapsed (eqb c hyphen) cs

-- The last character is no hyphen.
abbrev pub EndsWell : List ℕ → Type 0
EndsWell [] = Unit
EndsWell (c ∷ cs) = ((eqb c hyphen && is_nil cs) ≡ false) × EndsWell cs

-- A slug: no hyphen at either end, none next to another, and slug characters only.
pub record IsSlug (s : List ℕ) : Type 0 where
  pub collapsed : IsCollapsed true s
  pub ends : EndsWell s

sanitize_char-is_slug_char : (c : ℕ) → is_slug_char (sanitize_char c) ≡ true
unfolding sanitize_char
sanitize_char-is_slug_char c = ground arith

sanitize_char_id : (c : ℕ) → is_slug_char c ≡ true → sanitize_char c ≡ c
unfolding sanitize_char
sanitize_char_id c h = ground arith

collapse-IsCollapsed :
    (prev : Bool) (s : List ℕ) → IsCollapsed prev (collapse prev (map sanitize_char s))
unfolding collapse
collapse-IsCollapsed prev [] = tt
collapse-IsCollapsed false (c ∷ cs) =
    ground
      (arith, sanitize_char-is_slug_char c, collapse-IsCollapsed (eqb (sanitize_char c) hyphen) cs)
collapse-IsCollapsed true (c ∷ cs) =
    ground
      (arith, sanitize_char-is_slug_char c, collapse-IsCollapsed (eqb (sanitize_char c) hyphen) cs)

weaken : (prev : Bool) (s : List ℕ) → IsCollapsed true s → IsCollapsed prev s
weaken prev [] h = tt
weaken prev (c ∷ cs) h = (h.0, ground arith, h.2)

trim_start-IsCollapsed :
    (prev : Bool) (s : List ℕ) → IsCollapsed prev s → IsCollapsed true (trim_start s)
unfolding trim_start
trim_start-IsCollapsed prev [] h = tt
trim_start-IsCollapsed prev (c ∷ cs) h =
    ground (arith, trim_start-IsCollapsed (eqb c hyphen) cs h.2)

trim_end-IsCollapsed :
    (prev : Bool) (s : List ℕ) → IsCollapsed prev s → IsCollapsed prev (trim_end s)
unfolding trim_end
trim_end-IsCollapsed prev [] h = tt
trim_end-IsCollapsed prev (c ∷ cs) h = ground (arith, trim_end-IsCollapsed (eqb c hyphen) cs h.2)

trim_end-EndsWell : (s : List ℕ) → EndsWell (trim_end s)
unfolding trim_end
trim_end-EndsWell [] = tt
trim_end-EndsWell (c ∷ cs) = ground (arith, trim_end-EndsWell cs)

pub sanitize_purpose-IsSlug : (s : List ℕ) → IsSlug (sanitize_purpose s)
unfolding sanitize_purpose
sanitize_purpose-IsSlug s = record {
  collapsed =
      trim_end-IsCollapsed true _ (trim_start-IsCollapsed false _ (collapse-IsCollapsed false s));
  ends = trim_end-EndsWell _;
}

map-sanitize_char_id : (prev : Bool) (s : List ℕ) → IsCollapsed prev s → map sanitize_char s ≡ s
map-sanitize_char_id prev [] h = refl
map-sanitize_char_id prev (c ∷ cs) h =
    cc (sanitize_char_id c h.0, map-sanitize_char_id (eqb c hyphen) cs h.2)

collapse_id : (prev : Bool) (s : List ℕ) → IsCollapsed prev s → collapse prev s ≡ s
unfolding collapse
collapse_id prev [] h = refl
collapse_id prev (c ∷ cs) h = rw h.1 (ap (λ t. c ∷ t) (collapse_id (eqb c hyphen) cs h.2))

trim_start_id : (s : List ℕ) → IsCollapsed true s → trim_start s ≡ s
unfolding trim_start
trim_start_id [] h = refl
trim_start_id (c ∷ cs) h = ground arith

trim_end_id : (s : List ℕ) → EndsWell s → trim_end s ≡ s
unfolding trim_end
trim_end_id [] h = refl
trim_end_id (c ∷ cs) h = ground (arith, trim_end_id cs h.1)

-- A slug is left as it is.
pub sanitize_purpose_id : (s : List ℕ) → IsSlug s → sanitize_purpose s ≡ s
unfolding sanitize_purpose
sanitize_purpose_id s h = rw (
  map-sanitize_char_id true s h.collapsed,
  collapse_id false s (weaken false s h.collapsed),
  trim_start_id s h.collapsed,
  trim_end_id s h.ends,
)

-- The sanitized purpose is a slug: lower-case letters, digits and single hyphens between them; and
-- sanitizing again changes nothing.
pub sanitize_purpose_lem :
    (s : List ℕ)
    → IsSlug (sanitize_purpose s) × (sanitize_purpose (sanitize_purpose s) ≡ sanitize_purpose s)
sanitize_purpose_lem s =
    (sanitize_purpose-IsSlug s, sanitize_purpose_id _ (sanitize_purpose-IsSlug s))
