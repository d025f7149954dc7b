-- ===== src/Prelude/Texts.antt =====
-- `&str` methods by recursion on the characters.
use Prim.Native.Nat.{ℕ, zero, suc, ◌+◌, ◌/◌, ◌%◌, ◌<◌}
use Prim.Native.Char.{Char, code, char, IsScalar}
use mathlib.Core.List.{List, [], ◌∷◌}
use native.Mathlib.Decide.{dec_lt}
use mathlib.Core.Logic.{dite}
use Prim.Native.String.{String, ◌++◌}
use Prim.Native.String.append
use mathlib.Core.Path.{◌≡◌, refl}
use mathlib.Core.Bool.{Bool, true, false, ◌&&◌, ◌||◌}
use mathlib.Core.Option.{Option, none, some}
use text.Mathlib.TextEquality.{Char-path}
use mathlib.Core.Logic.{inl, inr}
use native.Mathlib.Omega.{arith}
use punkgo_kernel.Prelude.Tests.{Bool-cases, eqb, leb, ltb, if◌then◌else◌}

-- `s.strip_prefix(p)`
unfoldable pub strip_prefix : String → String → Option String
strip_prefix String.[] s = some s
strip_prefix (String.◌∷◌ c p) String.[] = none
strip_prefix (String.◌∷◌ c p) (String.◌∷◌ d s) =
    let rest = strip_prefix p s in if eqb (code c) (code d) then rest else none

-- `s.chars().all(p)` and `s.contains(c)`, on character codes.
unfoldable pub all_chars : (ℕ → Bool) → String → Bool
all_chars p String.[] = true
all_chars p (String.◌∷◌ c s) = p (code c) && all_chars p s

unfoldable pub contains_char : ℕ → String → Bool
contains_char x String.[] = false
contains_char x (String.◌∷◌ c s) = eqb (code c) x || contains_char x s

-- `s.is_empty()`
unfoldable pub is_empty : String → Bool
is_empty String.[] = true
is_empty (String.◌∷◌ _ _) = false

-- `c.is_ascii_hexdigit()`
abbrev pub is_ascii_hexdigit : ℕ → Bool
is_ascii_hexdigit c =
    (leb b'0' c && leb c b'9') || (leb b'A' c && leb c b'F') || (leb b'a' c && leb c b'f')

-- The character codes of a text, and the text of codes; a code that a `char` cannot have gives none.
unfoldable pub codes : String → List ℕ
codes String.[] = []
codes (String.◌∷◌ c s) = code c ∷ codes s

below_surrogates : (n : ℕ) → n < 55296 → IsScalar n
below_surrogates n h = ground arith

unfoldable pub of_codes : List ℕ → String
unfolding below_surrogates dec_lt
of_codes [] = String.[]
of_codes (n ∷ ns) =
    let rest = of_codes ns in
    dite (dec_lt n 55296) (λ h. String.◌∷◌ (char n (below_surrogates n h)) rest) (λ _. rest)

dite_yes {ℓ κ} :
    {P : Type ℓ} {C : Type κ} (d : Dec P) (x : P → C) (y : ¬ P → C)
    → P
    → (h : P) × (dite d x y ≡ x h)
dite_yes (yes h) x y k = (h, refl)
dite_yes (no c) x y k = absurd (c k)

pub of_codes_cons :
    (n : ℕ) (ns : List ℕ)
    → n < 55296
    → (c : Char) × (code c ≡ n) × (of_codes (n ∷ ns) ≡ String.◌∷◌ c (of_codes ns))
unfolding of_codes
of_codes_cons n ns h =
    let (k, e) =
      dite_yes (dec_lt n 55296) (λ k. String.◌∷◌ (char n (below_surrogates n k)) (of_codes ns))
        (λ _. of_codes ns) h in
    (char n (below_surrogates n k), refl, e)

-- `n.to_string()`: the digits of a number of at most `fuel` digits, in front of a text.
unfoldable pub digits : ℕ → ℕ → List ℕ → List ℕ
digits zero n acc = acc
digits (suc fuel) n acc = elim (ltb n 10) [
  | true ↦ (b'0' + n) ∷ acc
  | false ↦ digits fuel (n / 10) ((b'0' + n % 10) ∷ acc)
]

-- A `u128` has at most 39 digits.
unfoldable pub decimal : ℕ → String
unfolding digits of_codes
decimal n = of_codes (digits 40 n [])

-- What is left behind a prefix is the text without it, and the other way round.
pub strip_prefix-append : (p s : String) → strip_prefix p (p ++ s) ≡ some s
unfolding strip_prefix
strip_prefix-append String.[] s = rw (append.nil s) refl
strip_prefix-append (String.◌∷◌ c p) s =
    rw (append.cons c p s) ground (arith, strip_prefix-append p s)

pub strip_prefix_sound : (p s r : String) → strip_prefix p s ≡ some r → s ≡ p ++ r
unfolding strip_prefix
strip_prefix_sound String.[] s r h = rw (append.nil r) cc
strip_prefix_sound (String.◌∷◌ c p) String.[] r h = cc
strip_prefix_sound (String.◌∷◌ c p) (String.◌∷◌ d s) r h =
    elim (Bool-cases (eqb (code c) (code d))) [
      | inl e ↦
          (let same = Char-path c d (ground (arith, e)) in
            let rest = strip_prefix_sound p s r (ground (arith, h, e)) in
            rw (append.cons c p r, same, rest) refl)
      | inr e ↦ ground (arith, h, e)
    ]
