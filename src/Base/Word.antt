-- ===== src/Base/Word.antt =====
-- Go's int and int64 as bit patterns below 2 ^ 64 (two's complement), and its instants.
use Prim.Native.Nat.{ℕ, ◌+◌, ◌-◌, ◌%◌, min}
use mathlib.Core.Bool.{Bool}
use sentinel_flow_event_driv.Base.Tests.{ltb, leb}

-- A pattern below this stands for a number that is not negative.
abbrev pub sign_bit : ℕ
sign_bit = 9_223_372_036_854_775_808

abbrev pub word_mod : ℕ
word_mod = 18_446_744_073_709_551_616

-- a + b, which wraps.
abbrev pub add64 : ℕ → ℕ → ℕ
add64 a b = (a + b) % word_mod

-- The signed tests a <= b and a < b.
abbrev pub leb_signed : ℕ → ℕ → Bool
leb_signed a b = leb ((a + sign_bit) % word_mod) ((b + sign_bit) % word_mod)

abbrev pub ltb_signed : ℕ → ℕ → Bool
ltb_signed a b = ltb ((a + sign_bit) % word_mod) ((b + sign_bit) % word_mod)

-- An instant is the number of nanoseconds since Go's zero Time.
abbrev pub Time : Type 0
Time = ℕ

abbrev pub second : ℕ
second = 1_000_000_000

-- `now.Sub(t)`, which Go cuts off at the largest Duration. An instant that lies ahead of `now` gives
-- a negative Duration in Go and 0 here; the code only asks whether the result is below a positive
-- bound or above one that is not negative, which both answer alike.
abbrev pub elapsed : Time → Time → ℕ
elapsed now t = min (now - t) 9_223_372_036_854_775_807
