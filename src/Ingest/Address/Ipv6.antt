-- ===== src/Ingest/Address/Ipv6.antt =====
-- IPv6 addresses: `parseIPv6` of Go's netip, and the text of an address. A text with a zone is an
-- error for `net.ParseIP` in any case.
use Prim.Native.String.{◌++◌ as append}
use sentinel_flow_event_driv.Base.{
  ℕ, zero, suc, ◌+◌, ◌-◌, ◌*◌, ◌/◌, ◌%◌, Bool, true, false, not, ◌&&◌, ◌||◌, String, Option, none,
  some, List, [], ◌∷◌, ◌++◌, ltb, leb, ◌==◌, if◌then◌else◌,
}
use sentinel_flow_event_driv.Base.Lists.{length, replicate, take, drop}
use sentinel_flow_event_driv.Base.Text.{digit_text}
use sentinel_flow_event_driv.Ingest.Address.Ipv4.{ipv4_fields, is_digit}

-- The value of a hexadecimal digit.
unfoldable pub hex_value : ℕ → Option ℕ
hex_value c =
    if is_digit c
    then some (c - b'0')
    else if leb b'a' c && leb c b'f'
    then some (c - b'a' + 10)
    else if leb b'A' c && leb c b'F'
    then some (c - b'A' + 10)
    else none

-- The hex number at the front: its value, its number of digits and the rest; more than four digits
-- are an error.
unfoldable pub hex_group : List ℕ → ℕ → ℕ → Option (ℕ × ℕ × List ℕ)
unfolding hex_value
hex_group [] off acc = some (acc, off, [])
hex_group (c ∷ cs) off acc = elim (hex_value c) [
  | none ↦ some (acc, off, c ∷ cs)
  | some v ↦ if ltb 3 off then none else hex_group cs (off + 1) (acc * 16 + v)
]

-- The bytes saved, the place of the ellipsis among them, and the text that is left.
abbrev pub Groups : Type 0
Groups = List ℕ × Option ℕ × List ℕ

abbrev starts_with_char : ℕ → List ℕ → Bool
starts_with_char c [] = false
starts_with_char c (d ∷ ds) = d == c

-- What follows a group that is saved: the end, or a colon and more, perhaps an ellipsis. `true` where
-- the loop stops.
unfoldable pub separator : List ℕ → Option ℕ → ℕ → Option (List ℕ × Option ℕ × Bool)
separator [] ellipsis i = some ([], ellipsis, true)
separator (c ∷ []) ellipsis i = none
separator (c ∷ d ∷ s) ellipsis i =
    if c == b':'
    then if d == b':'
      then elim ellipsis [
        | some _ ↦ none
        | none ↦ elim s [ [] ↦ some ([], some i, true) | e ∷ r ↦ some (e ∷ r, some i, false) ]
      ]
      else some (d ∷ s, ellipsis, false)
    else none

-- The loop, of eight rounds at most.
unfoldable pub ipv6_groups : ℕ → List ℕ → List ℕ → Option ℕ → Option Groups
unfolding hex_group separator ipv4_fields
ipv6_groups zero s ip ellipsis = some (ip, ellipsis, s)
ipv6_groups (suc rounds) s ip ellipsis = elim (hex_group s 0 0) [
  | none ↦ none
  | some (acc, off, rest) ↦
      if off == 0
      then none
      else if starts_with_char b'.' rest
      then (let misplaced : Bool = elim ellipsis [
        | none ↦ not (length ip == 12)
        | some _ ↦ false
      ] in
          if misplaced || ltb 16 (length ip + 4) then none else elim (ipv4_fields s 0 0 []) [
            | none ↦ none
            | some fields ↦ some (ip ++ fields, ellipsis, [])
          ])
      else (let ip' = ip ++ acc / 256 ∷ acc % 256 ∷ [] in
          elim (separator rest ellipsis (length ip')) [
            | none ↦ none
            | some (s', ellipsis', stops) ↦ elim stops [
              | true ↦ some (ip', ellipsis', s')
              | false ↦ ipv6_groups rounds s' ip' ellipsis'
            ]
          ])
]

-- The checks after the loop, and the zeros for the ellipsis.
unfoldable pub expand : Groups → Option (List ℕ)
expand (ip, ellipsis, rest) = elim rest [
  | c ∷ cs ↦ none
  | [] ↦
      if ltb (length ip) 16
      then elim ellipsis [
        | none ↦ none
        | some at_byte ↦ some (take at_byte ip ++ replicate (16 - length ip) 0 ++ drop at_byte ip)
      ]
      else elim ellipsis [ none ↦ some ip | some _ ↦ none ]
]

abbrev has_zone : List ℕ → Bool
has_zone [] = false
has_zone (c ∷ cs) = c == b'%' || has_zone cs

-- After a leading ellipsis, if there is one.
abbrev groups_of : List ℕ → Option Groups
groups_of (c ∷ d ∷ s) =
    if c == b':' && d == b':'
    then elim s [ [] ↦ some ([], some 0, []) | e ∷ r ↦ ipv6_groups 8 (e ∷ r) [] (some 0) ]
    else ipv6_groups 8 (c ∷ d ∷ s) [] none
groups_of s = ipv6_groups 8 s [] none

unfoldable pub parse_ipv6 : List ℕ → Option (List ℕ)
unfolding ipv6_groups expand
parse_ipv6 s =
    if has_zone s then none else elim (groups_of s) [ none ↦ none | some groups ↦ expand groups ]

-- The text of an address.

unfoldable pub hex_digit : ℕ → String
unfolding digit_text
hex_digit d =
    if ltb d 10
    then digit_text d
    else if d == 10
    then "a"
    else if d == 11
    then "b"
    else if d == 12
    then "c"
    else if d == 13
    then "d"
    else if d == 14
    then "e"
    else "f"

-- `appendHex`: no leading zeros.
unfoldable pub group_text : ℕ → String
unfolding hex_digit
group_text g =
    let last = hex_digit (g % 16) in
    let third = append (hex_digit (g / 16 % 16)) last in
    let second = append (hex_digit (g / 256 % 16)) third in
    if ltb g 16
    then last
    else if ltb g 256
    then third
    else if ltb g 4096
    then second
    else append (hex_digit (g / 4096)) second

-- The 16-bit groups of the bytes.
unfoldable pub groups : List ℕ → List ℕ
groups (a ∷ b ∷ rest) = (a * 256 + b) ∷ groups rest
groups _ = []

unfoldable pub zero_run : List ℕ → ℕ
zero_run [] = 0
zero_run (g ∷ gs) = let more = suc (zero_run gs) in if g == 0 then more else 0

-- The first of the longest runs of at least two zero groups, as its start and length (0: none).
unfoldable pub best_run : ℕ → List ℕ → ℕ × ℕ → ℕ × ℕ
unfolding zero_run
best_run i [] best = best
best_run i (g ∷ gs) best =
    let l = zero_run (g ∷ gs) in
    best_run (suc i) gs (if leb 2 l && ltb best.1 l then (i, l) else best)

-- The groups from number `i` on, with the run left out; `skip` groups of the run are still to come.
unfoldable pub groups_text : ℕ → ℕ × ℕ → ℕ → List ℕ → String
unfolding group_text
groups_text i run skip [] = ""
groups_text i run (suc skip) (g ∷ gs) = groups_text (suc i) run skip gs
groups_text i run zero (g ∷ gs) =
    let in_run = append "::" (groups_text (suc i) run (run.1 - 1) gs) in
    let here = append (group_text g) (groups_text (suc i) run 0 gs) in
    if i == run.0 && ltb 0 run.1
    then in_run
    else if i == 0 || i == run.0 + run.1 && ltb 0 run.1
    then here
    else append ":" here

unfoldable pub ipv6_text : List ℕ → String
unfolding groups best_run groups_text
ipv6_text bytes = let gs = groups bytes in groups_text 0 (best_run 0 gs (0, 0)) 0 gs
