-- ===== src/Ingest/Address.antt =====
-- The parts of Go's packages net and strings that `AnonymizeIP` uses: `strings.TrimSpace`,
-- `net.ParseIP` and `IP.String`. A text is its code points, an address its bytes.
pub mod Ipv4
pub mod Ipv6
pub mod Dotted
use sentinel_flow_event_driv.Base.{
  ℕ, zero, suc, Bool, true, false, ◌&&◌, ◌||◌, String, Option, none, some, List, [], ◌∷◌, ◌++◌, ltb,
  leb, ◌==◌, if◌then◌else◌,
}
use mathlib.Core.List.{reverse}
use sentinel_flow_event_driv.Ingest.Address.Ipv4.{parse_ipv4}
use sentinel_flow_event_driv.Ingest.Address.Ipv6.{parse_ipv6}

-- `unicode.IsSpace`
unfoldable pub is_space : ℕ → Bool
is_space c =
    leb 9 c && leb c 13
    || c == 32
    || c == 0x85
    || c == 0xa0
    || c == 0x1680
    || leb 0x2000 c && leb c 0x200a
    || c == 0x2028
    || c == 0x2029
    || c == 0x202f
    || c == 0x205f
    || c == 0x3000

unfoldable pub trim_left : List ℕ → List ℕ
unfolding is_space
trim_left [] = []
trim_left (c ∷ cs) = let rest = trim_left cs in if is_space c then rest else c ∷ cs

-- `strings.TrimSpace`
unfoldable pub trim_space : List ℕ → List ℕ
unfolding trim_left
trim_space s = reverse (trim_left (reverse (trim_left s)))

-- `netip.ParseAddr`, which the first of three characters decides, and the refusal of a zone.
abbrev pub dispatch : List ℕ → List ℕ → Option (List ℕ)
dispatch whole [] = none
dispatch whole (c ∷ cs) =
    let later = dispatch whole cs in
    if c == b'.'
    then parse_ipv4 whole
    else if c == b':'
    then parse_ipv6 whole
    else if c == b'%'
    then none
    else later

-- `net.ParseIP`: the 16 bytes, or nil.
unfoldable pub parse_ip : List ℕ → Option (List ℕ)
unfolding parse_ipv4 parse_ipv6
parse_ip s = dispatch s s

-- `ip.To4()` on 16 bytes: the last four behind the prefix of an IPv4 address.
unfoldable pub to_4 : List ℕ → Option (List ℕ)
to_4 (b0 ∷ b1 ∷ b2 ∷ b3 ∷ b4 ∷ b5 ∷ b6 ∷ b7 ∷ b8 ∷ b9 ∷ b10 ∷ b11 ∷ rest) =
    if b0 == 0
      && b1 == 0
      && b2 == 0
      && b3 == 0
      && b4 == 0
      && b5 == 0
      && b6 == 0
      && b7 == 0
      && b8 == 0
      && b9 == 0
      && b10 == 255
      && b11 == 255
    then some rest
    else none
to_4 _ = none
