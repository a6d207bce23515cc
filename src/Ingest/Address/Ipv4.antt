-- ===== src/Ingest/Address/Ipv4.antt =====
-- IPv4 addresses: `parseIPv4Fields` of Go's netip, and the dotted decimal form.
pub mod RoundTrip
use Prim.Native.String.{◌++◌ as append}
use sentinel_flow_event_driv.Base.{
  ℕ, ◌+◌, ◌-◌, ◌*◌, ◌/◌, ◌%◌, Bool, true, false, ◌&&◌, ◌||◌, String, Option, none, some, List, [],
  ◌∷◌, ◌++◌, ltb, leb, ◌==◌, if◌then◌else◌,
}
use sentinel_flow_event_driv.Base.Lists.{length}
use sentinel_flow_event_driv.Base.Text.{digit_text}

abbrev pub is_digit : ℕ → Bool
is_digit c = leb b'0' c && leb c b'9'

abbrev pub is_empty : List ℕ → Bool
is_empty [] = true
is_empty (_ ∷ _) = false

-- The loop over the characters: `fields` are the octets saved, `val` and `digits` the value and the
-- number of digits of the current one.
unfoldable pub ipv4_fields : List ℕ → ℕ → ℕ → List ℕ → Option (List ℕ)
ipv4_fields [] val digits fields = if ltb (length fields) 3 then none else some (fields ++ val ∷ [])
ipv4_fields (c ∷ cs) val digits fields =
    let more = ipv4_fields cs (val * 10 + (c - b'0')) (digits + 1) fields in
    let next = ipv4_fields cs 0 0 (fields ++ val ∷ []) in
    if is_digit c
    then if digits == 1 && val == 0
      then none
      else if ltb 255 (val * 10 + (c - b'0'))
      then none
      else more
    else if c == b'.'
    then if digits == 0 || is_empty cs then none else if length fields == 3 then none else next
    else none

-- The bytes that stand before the four of an IPv4 address in the form of 16 bytes.
abbrev pub v4_prefix : List ℕ
v4_prefix = 0 ∷ 0 ∷ 0 ∷ 0 ∷ 0 ∷ 0 ∷ 0 ∷ 0 ∷ 0 ∷ 0 ∷ 255 ∷ 255 ∷ []

unfoldable pub parse_ipv4 : List ℕ → Option (List ℕ)
unfolding ipv4_fields
parse_ipv4 s = elim (ipv4_fields s 0 0 []) [
  | none ↦ none
  | some fields ↦ some (v4_prefix ++ fields)
]

-- A byte in decimal.
unfoldable pub octet_text : ℕ → String
unfolding digit_text
octet_text b =
    if ltb b 10
    then digit_text b
    else if ltb b 100
    then append (digit_text (b / 10)) (digit_text (b % 10))
    else append (digit_text (b / 100)) (append (digit_text (b / 10 % 10)) (digit_text (b % 10)))

unfoldable pub ipv4_text : List ℕ → String
unfolding octet_text
ipv4_text [] = ""
ipv4_text (b ∷ []) = octet_text b
ipv4_text (b ∷ b' ∷ bs) = append (octet_text b) (append "." (ipv4_text (b' ∷ bs)))
