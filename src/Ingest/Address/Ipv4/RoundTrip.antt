-- ===== src/Ingest/Address/Ipv4/RoundTrip.antt =====
-- The dotted decimal form of four bytes is read back as these bytes.
use Prim.Native.Char.{code}
use Prim.Native.String.{◌++◌ as append}
use sentinel_flow_event_driv.Base.{
  ℕ, zero, suc, ◌+◌, ◌*◌, ◌/◌, ◌%◌, ◌<◌, ◌≡◌, refl, ap, ◌∙◌, false, String, some, List, [], ◌∷◌,
  ◌++◌, ltb, ◌==◌, ◌&&◌, ltb→lt, if◌then◌else◌, arith, Bool-cases, inl, inr,
}
use mathlib.Core.List.{append-nil}
use text.Mathlib.TextLemmas.{nil-append, cons-append}
use sentinel_flow_event_driv.Base.Lists.{length}
use sentinel_flow_event_driv.Base.Text.{codes, digit_text}
use sentinel_flow_event_driv.Ingest.Address.Ipv4.{is_empty, ipv4_fields, octet_text, ipv4_text}

pub codes-append : (s t : String) → codes (append s t) ≡ codes s ++ codes t
codes-append String.[] t = ap codes (nil-append t)
codes-append (String.◌∷◌ c s) t =
    ap codes (cons-append c s t) ∙ ap (λ (r : List ℕ). code c ∷ r) (codes-append s t)

codes-digit_text : (d : ℕ) → d < 10 → codes (digit_text d) ≡ (b'0' + d) ∷ []
unfolding digit_text
codes-digit_text zero h = refl
codes-digit_text (suc zero) h = refl
codes-digit_text (suc (suc zero)) h = refl
codes-digit_text (suc (suc (suc zero))) h = refl
codes-digit_text (suc (suc (suc (suc zero)))) h = refl
codes-digit_text (suc (suc (suc (suc (suc zero))))) h = refl
codes-digit_text (suc (suc (suc (suc (suc (suc zero)))))) h = refl
codes-digit_text (suc (suc (suc (suc (suc (suc (suc zero))))))) h = refl
codes-digit_text (suc (suc (suc (suc (suc (suc (suc (suc zero)))))))) h = refl
codes-digit_text (suc (suc (suc (suc (suc (suc (suc (suc (suc zero))))))))) h = refl
codes-digit_text (suc (suc (suc (suc (suc (suc (suc (suc (suc (suc d)))))))))) h =
    absurd (omega arith)

read_digit :
    (d val digits next : ℕ) (rest fields : List ℕ)
    → d < 10
    → next ≡ val * 10 + d
    → next < 256
    → (digits == 1 && val == 0) ≡ false
    → ipv4_fields ((b'0' + d) ∷ rest) val digits fields ≡ ipv4_fields rest next (digits + 1) fields
unfolding ipv4_fields
read_digit d val digits next rest fields h e fits first = ground arith

read_dot :
    (val digits : ℕ) (rest fields : List ℕ)
    → 0 < digits
    → length fields < 3
    → is_empty rest ≡ false
    → ipv4_fields (b'.' ∷ rest) val digits fields ≡ ipv4_fields rest 0 0 (fields ++ val ∷ [])
unfolding ipv4_fields
read_dot val digits rest fields some_digit few more = ground arith

-- The number of digits of a byte.
abbrev pub width : ℕ → ℕ
width b = if ltb b 10 then 1 else if ltb b 100 then 2 else 3

-- The digits of a byte.
abbrev pub octet_digits : ℕ → List ℕ
octet_digits b =
    if ltb b 10
    then (b'0' + b) ∷ []
    else if ltb b 100
    then (b'0' + b / 10) ∷ (b'0' + b % 10) ∷ []
    else (b'0' + b / 100) ∷ (b'0' + b / 10 % 10) ∷ (b'0' + b % 10) ∷ []

codes-octet_text : (b : ℕ) → b < 256 → codes (octet_text b) ≡ octet_digits b
unfolding octet_text
codes-octet_text b h = elim (Bool-cases (ltb b 10)) [
  | inl one ↦ rw one (codes-digit_text b (ltb→lt b 10 one))
  | inr more ↦ elim (Bool-cases (ltb b 100)) [
    | inl two ↦
        rw
          (
            more,
            two,
            codes-append,
            codes-digit_text (b / 10) (ground arith),
            codes-digit_text (b % 10) (omega arith),
          )
          refl
    | inr three ↦
        rw
          (
            more,
            three,
            codes-append,
            codes-append,
            codes-digit_text (b / 100) (omega arith),
            codes-digit_text (b / 10 % 10) (omega arith),
            codes-digit_text (b % 10) (omega arith),
          )
          refl
  ]
]

read_octet :
    (b : ℕ) (rest fields : List ℕ)
    → b < 256
    → ipv4_fields (octet_digits b ++ rest) 0 0 fields ≡ ipv4_fields rest b (width b) fields
read_octet b rest fields h = elim (Bool-cases (ltb b 10)) [
  | inl one ↦ rw one (read_digit b 0 0 b rest fields (ltb→lt b 10 one) (omega arith) h refl)
  | inr more ↦ elim (Bool-cases (ltb b 100)) [
    | inl two ↦
        rw (more, two)
          (read_digit (b / 10) 0 0 (b / 10) _ fields (ground arith) (omega arith) (omega arith) refl
            ∙ read_digit (b % 10) (b / 10) 1 b rest fields (omega arith) (omega arith) h
                (ground arith))
    | inr three ↦
        rw (more, three)
          (read_digit (b / 100) 0 0 (b / 100) _ fields (omega arith) (omega arith) (omega arith)
              refl
            ∙ read_digit (b / 10 % 10) (b / 100) 1 (b / 10) _ fields (omega arith) (omega arith)
                (omega arith) (ground arith)
            ∙ read_digit (b % 10) (b / 10) 2 b rest fields (omega arith) (omega arith) h refl)
  ]
]

octet_digits_nonempty : (b : ℕ) (rest : List ℕ) → is_empty (octet_digits b ++ rest) ≡ false
octet_digits_nonempty b rest = ground arith

-- The dotted form, as code points.
abbrev pub dotted : ℕ → ℕ → ℕ → ℕ → List ℕ
dotted a b c d =
    octet_digits a ++ b'.' ∷ (octet_digits b ++ b'.' ∷ (octet_digits c ++ b'.' ∷ octet_digits d))

pub codes-ipv4_text :
    (a b c d : ℕ)
    → a < 256
    → b < 256
    → c < 256
    → d < 256
    → codes (ipv4_text (a ∷ b ∷ c ∷ d ∷ [])) ≡ dotted a b c d
unfolding ipv4_text
codes-ipv4_text a b c d ha hb hc hd = simp (
  codes-append,
  codes-octet_text a ha,
  codes-octet_text b hb,
  codes-octet_text c hc,
  codes-octet_text d hd,
)

width_positive : (b : ℕ) → 0 < width b
width_positive b = ground arith

read_field :
    (b : ℕ) (rest fields : List ℕ)
    → b < 256
    → length fields < 3
    → is_empty rest ≡ false
    → ipv4_fields (octet_digits b ++ b'.' ∷ rest) 0 0 fields
      ≡ ipv4_fields rest 0 0 (fields ++ b ∷ [])
read_field b rest fields h few more =
    read_octet b (b'.' ∷ rest) fields h
    ∙ read_dot b (width b) rest fields (width_positive b) few more

pub fields-dotted :
    (a b c d : ℕ)
    → a < 256
    → b < 256
    → c < 256
    → d < 256
    → ipv4_fields (dotted a b c d) 0 0 [] ≡ some (a ∷ b ∷ c ∷ d ∷ [])
unfolding ipv4_fields
fields-dotted a b c d ha hb hc hd =
    let last : List ℕ = octet_digits d in
    let more : is_empty last ≡ false = rw append-nil at (octet_digits_nonempty d []) in
    read_field a _ [] ha (omega arith) (octet_digits_nonempty b _)
    ∙ read_field b _ (a ∷ []) hb (omega arith) (octet_digits_nonempty c _)
    ∙ read_field c last (a ∷ b ∷ []) hc (omega arith) more
    ∙ rw (← append-nil last) (read_octet d [] (a ∷ b ∷ c ∷ []) hd)
