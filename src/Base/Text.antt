-- ===== src/Base/Text.antt =====
-- What the source uses of Go's packages strings and fmt: lower case and search over the code points of
-- a text, and numbers in decimal.
use Prim.Native.Char.{code}
use Prim.Native.String.{String, ◌++◌ as append}
use sentinel_flow_event_driv.Base.{
  ℕ, zero, suc, ◌+◌, ◌/◌, ◌%◌, ◌≡◌, refl, ap, inl, inr, ◌↔◌, Bool, true, false, ◌&&◌, ◌||◌, List,
  [], ◌∷◌, ◌++◌, map, ltb, leb, ◌==◌, if◌then◌else◌, arith, Bool-cases,
}

abbrev pub codes : String → List ℕ
codes String.[] = []
codes (String.◌∷◌ c s) = code c ∷ codes s

-- `unicode.ToLower`: the ASCII letters are computed, and above ASCII the table of Unicode decides.
unfoldable pub lower_rune : (ℕ → ℕ) → ℕ → ℕ
lower_rune table c = if leb c 127 then if leb b'A' c && leb c b'Z' then c + 32 else c else table c

-- `strings.ToLower`
unfoldable pub to_lower : (ℕ → ℕ) → List ℕ → List ℕ
unfolding lower_rune
to_lower table = map (lower_rune table)

unfoldable pub has_prefix : List ℕ → List ℕ → Bool
has_prefix s [] = true
has_prefix [] (p ∷ ps) = false
has_prefix (c ∷ s) (p ∷ ps) = c == p && has_prefix s ps

-- `strings.Contains`
unfoldable pub contains : List ℕ → List ℕ → Bool
unfolding has_prefix
contains [] sub = has_prefix [] sub
contains (c ∷ s) sub = has_prefix (c ∷ s) sub || contains s sub

-- `sub` stands somewhere in the text.
abbrev pub IsPartOf : List ℕ → List ℕ → Type 0
IsPartOf sub s = (before : List ℕ) × (after : List ℕ) × (s ≡ before ++ (sub ++ after))

has_prefix_sound :
    (s sub : List ℕ) → has_prefix s sub ≡ true → (after : List ℕ) × (s ≡ sub ++ after)
unfolding has_prefix
has_prefix_sound s [] h = (s, refl)
has_prefix_sound [] (p ∷ ps) h = cc
has_prefix_sound (c ∷ s) (p ∷ ps) h =
    let both : (c ≡ p) × (has_prefix s ps ≡ true) = ground arith in
    let (after, e) = has_prefix_sound s ps both.1 in (after, cc)

has_prefix-append : (sub after : List ℕ) → has_prefix (sub ++ after) sub ≡ true
unfolding has_prefix
has_prefix-append [] after = refl
has_prefix-append (p ∷ ps) after = ground (arith, has_prefix-append ps after)

contains_sound : (s sub : List ℕ) → contains s sub ≡ true → IsPartOf sub s
unfolding contains
contains_sound [] sub h = let (after, e) = has_prefix_sound [] sub h in ([], after, e)
contains_sound (c ∷ s) sub h = elim (Bool-cases (has_prefix (c ∷ s) sub)) [
  | inl here ↦ (let (after, e) = has_prefix_sound (c ∷ s) sub here in ([], after, e))
  | inr later ↦
      (let (before, after, e) = contains_sound s sub (ground arith) in
        (c ∷ before, after, ap (λ r. c ∷ r) e))
]

contains-append : (before sub after : List ℕ) → contains (before ++ (sub ++ after)) sub ≡ true
unfolding contains
contains-append [] [] [] = refl
contains-append [] [] (a ∷ after) = refl
contains-append [] (p ∷ ps) after = rw (has_prefix-append (p ∷ ps) after)
contains-append (b ∷ before) sub after = ground (arith, contains-append before sub after)

-- `strings.Contains` decides whether a text stands in another.
pub contains_iff : (s sub : List ℕ) → (contains s sub ≡ true) ↔ IsPartOf sub s
contains_iff s sub =
    (contains_sound s sub, λ (before, after, e). rw e (contains-append before sub after))

unfoldable pub digit_text : ℕ → String
digit_text d =
    if d == 0
    then "0"
    else if d == 1
    then "1"
    else if d == 2
    then "2"
    else if d == 3
    then "3"
    else if d == 4
    then "4"
    else if d == 5
    then "5"
    else if d == 6
    then "6"
    else if d == 7
    then "7"
    else if d == 8
    then "8"
    else "9"

-- The decimal digits of a number, for as many digits as there is fuel.
unfoldable pub decimal_from : ℕ → ℕ → String
unfolding digit_text
decimal_from zero n = ""
decimal_from (suc fuel) n =
    let front = decimal_from fuel (n / 10) in
    if ltb n 10 then digit_text n else append front (digit_text (n % 10))

-- `%d` of an int or int64 that is not negative: twenty digits are enough.
unfoldable pub decimal : ℕ → String
unfolding decimal_from
decimal n = decimal_from 20 n
