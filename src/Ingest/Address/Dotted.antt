-- ===== src/Ingest/Address/Dotted.antt =====
-- `net.ParseIP` and `strings.TrimSpace` on the text that `IP.String` gives for an IPv4 address.
use sentinel_flow_event_driv.Base.{
  ℕ, ◌+◌, ◌/◌, ◌%◌, ◌<◌, ◌≡◌, refl, ap, ◌∙◌, sym, false, some, List, [], ◌∷◌, ◌++◌, ltb, ltb→lt,
  arith, Bool-cases, inl, inr,
}
use mathlib.Core.List.{append_assoc, reverse, reverse-append, reverse-reverse}
use sentinel_flow_event_driv.Base.Text.{codes}
use sentinel_flow_event_driv.Ingest.Address.{is_space, trim_left, trim_space, dispatch, parse_ip}
use sentinel_flow_event_driv.Ingest.Address.Ipv4.{v4_prefix, parse_ipv4, ipv4_text}
use sentinel_flow_event_driv.Ingest.Address.Ipv4.RoundTrip.{
  octet_digits, dotted, codes-ipv4_text, fields-dotted,
}

-- The first of the characters by which the kind of an address is told.
dispatch-octet :
    (whole rest : List ℕ) (b : ℕ)
    → b < 256
    → dispatch whole (octet_digits b ++ b'.' ∷ rest) ≡ parse_ipv4 whole
dispatch-octet whole rest b h = ground arith

parse_ip-dotted :
    (a b c d : ℕ)
    → a < 256
    → b < 256
    → c < 256
    → d < 256
    → parse_ip (dotted a b c d) ≡ some (v4_prefix ++ a ∷ b ∷ c ∷ d ∷ [])
unfolding parse_ip
parse_ip-dotted a b c d ha hb hc hd =
    dispatch-octet (dotted a b c d) _ a ha ∙ rw (parse_ipv4, fields-dotted a b c d ha hb hc hd) refl

is_space-digit : (d : ℕ) → d < 10 → is_space (b'0' + d) ≡ false
unfolding is_space
is_space-digit d h = ground arith

trim_left-tight : (c : ℕ) (cs : List ℕ) → is_space c ≡ false → trim_left (c ∷ cs) ≡ c ∷ cs
unfolding trim_left
trim_left-tight c cs h = rw h

-- A text that begins and ends with no space is its own trimmed form.
trim_space-tight :
    (first last : ℕ) (after before : List ℕ)
    → is_space first ≡ false
    → is_space last ≡ false
    → first ∷ after ≡ before ++ last ∷ []
    → trim_space (first ∷ after) ≡ first ∷ after
unfolding trim_space
trim_space-tight first last after before hf hl e =
    let whole : List ℕ = first ∷ after in
    let turned : reverse whole ≡ last ∷ reverse before =
      ap reverse e ∙ reverse-append before (last ∷ []) in
    ap (λ (s : List ℕ). reverse (trim_left (reverse s))) (trim_left-tight first after hf)
    ∙ ap (λ (s : List ℕ). reverse (trim_left s)) turned
    ∙ ap reverse (trim_left-tight last (reverse before) hl)
    ∙ ap reverse (sym turned)
    ∙ reverse-reverse whole

-- The first and the last character of a byte in decimal, which are no spaces.
head-octet :
    (b : ℕ) (rest : List ℕ)
    → b < 256
    → (c : ℕ) × (cs : List ℕ) × (octet_digits b ++ rest ≡ c ∷ cs) × (is_space c ≡ false)
head-octet b rest h = elim (Bool-cases (ltb b 10)) [
  | inl one ↦ (b'0' + b, rest, rw one refl, is_space-digit b (ltb→lt b 10 one))
  | inr more ↦ elim (Bool-cases (ltb b 100)) [
    | inl two ↦ (
      b'0' + b / 10,
      (b'0' + b % 10) ∷ rest,
      rw (more, two) refl,
      is_space-digit (b / 10) (ground arith),
    )
    | inr three ↦ (
      b'0' + b / 100,
      (b'0' + b / 10 % 10) ∷ (b'0' + b % 10) ∷ rest,
      rw (more, three) refl,
      is_space-digit (b / 100) (omega arith),
    )
  ]
]

last-octet :
    (b : ℕ)
    → b < 256
    → (l : ℕ) × (pre : List ℕ) × (octet_digits b ≡ pre ++ l ∷ []) × (is_space l ≡ false)
last-octet b h = elim (Bool-cases (ltb b 10)) [
  | inl one ↦ (b'0' + b, [], rw one refl, is_space-digit b (ltb→lt b 10 one))
  | inr more ↦ elim (Bool-cases (ltb b 100)) [
    | inl two ↦ (
      b'0' + b % 10,
      (b'0' + b / 10) ∷ [],
      rw (more, two) refl,
      is_space-digit (b % 10) (omega arith),
    )
    | inr three ↦ (
      b'0' + b % 10,
      (b'0' + b / 100) ∷ (b'0' + b / 10 % 10) ∷ [],
      rw (more, three) refl,
      is_space-digit (b % 10) (omega arith),
    )
  ]
]

trim_space-dotted : (a b c d : ℕ) → a < 256 → d < 256 → trim_space (dotted a b c d) ≡ dotted a b c d
trim_space-dotted a b c d ha hd =
    let (x, xs, starts, hx) =
      head-octet a (b'.' ∷ (octet_digits b ++ b'.' ∷ (octet_digits c ++ b'.' ∷ octet_digits d)))
        ha in
    let (l, pre, ends, hl) = last-octet d hd in
    let front : List ℕ =
      octet_digits a ++ b'.' ∷ (octet_digits b ++ b'.' ∷ (octet_digits c ++ b'.' ∷ pre)) in
    let cut : x ∷ xs ≡ front ++ l ∷ [] = sym starts ∙ rw ends (simp append_assoc) in
    ap trim_space starts ∙ trim_space-tight x l xs front hx hl cut ∙ sym starts

-- For any four bytes, `net.ParseIP` of the text that `IP.String` gives for their IPv4 address, with
-- spaces trimmed off, is the address again.
pub parse_ip-ipv4_text :
    (a b c d : ℕ)
    → a < 256
    → b < 256
    → c < 256
    → d < 256
    → parse_ip (trim_space (codes (ipv4_text (a ∷ b ∷ c ∷ d ∷ []))))
      ≡ some (v4_prefix ++ a ∷ b ∷ c ∷ d ∷ [])
parse_ip-ipv4_text a b c d ha hb hc hd =
    rw (codes-ipv4_text a b c d ha hb hc hd, trim_space-dotted a b c d ha hd)
      (parse_ip-dotted a b c d ha hb hc hd)
