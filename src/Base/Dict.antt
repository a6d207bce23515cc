-- ===== src/Base/Dict.antt =====
-- A Go map with string keys, as an association list that is read from the front.
use Prim.Native.String.{String}
use mathlib.Core.Path.{◌≡◌, refl, subst}
use mathlib.Core.Logic.{inl, inr}
use mathlib.Core.Option.{Option, none, some}
use mathlib.Core.List.{List, [], ◌∷◌}
use native.Mathlib.Omega.{arith}
use text.Mathlib.TextEquality.{eq_iff}
use sentinel_flow_event_driv.Base.Tests.{str_eq, if◌then◌else◌, Bool-cases}

abbrev pub Dict {ℓ} : Type ℓ → Type ℓ
Dict V = List (String × V)

module _ {ℓ} {V : Type ℓ} where
  -- `v, ok := m[k]`
  unfoldable pub lookup : String → Dict V → Option V
  lookup k [] = none
  lookup k ((j, v) ∷ m) = if str_eq j k then some v else lookup k m

  -- `m[k] = v`
  unfoldable pub insert : String → V → Dict V → Dict V
  insert k v [] = (k, v) ∷ []
  insert k v ((j, w) ∷ m) = if str_eq j k then (k, v) ∷ m else (j, w) ∷ insert k v m

  -- `delete(m, k)`
  unfoldable pub erase : String → Dict V → Dict V
  erase k [] = []
  erase k ((j, v) ∷ m) = let rest = erase k m in if str_eq j k then rest else (j, v) ∷ rest

  -- Writing one key changes the reading of that key only.
  pub lookup-insert :
      (written read : String) (value : V) (entries : Dict V)
      → lookup read (insert written value entries)
        ≡ (if str_eq written read then some value else lookup read entries)
  unfolding insert lookup
  lookup-insert written read value [] = refl
  lookup-insert written read value ((name, old) ∷ entries) =
      let rest = lookup-insert written read value entries in
      ground (arith, rest, eq_iff name written, eq_iff name read, eq_iff written read)

  -- Erasing one key changes the reading of that key only.
  pub lookup-erase :
      (gone read : String) (entries : Dict V)
      → lookup read (erase gone entries) ≡ (if str_eq gone read then none else lookup read entries)
  unfolding erase lookup
  lookup-erase gone read [] = ground arith
  lookup-erase gone read ((name, old) ∷ entries) =
      let rest = lookup-erase gone read entries in
      ground (arith, rest, eq_iff name gone, eq_iff name read, eq_iff gone read)

-- `P` holds of what is there.
abbrev pub IsSome {ℓ κ} : {V : Type ℓ} → (V → Type κ) → Option V → Type κ
IsSome P none = Unit
IsSome P (some v) = P v

-- `P` holds of every value.
abbrev pub AllValues {ℓ κ} : {V : Type ℓ} → (V → Type κ) → Dict V → Type κ
AllValues P [] = Unit
AllValues P ((k, v) ∷ m) = P v × AllValues P m

module _ {ℓ κ} {V : Type ℓ} (P : V → Type κ) where
  pub AllValues-insert :
      (k : String) (v : V) (m : Dict V) → P v → AllValues P m → AllValues P (insert k v m)
  unfolding insert
  AllValues-insert k v [] p h = (p, h)
  AllValues-insert k v ((j, w) ∷ m) p h = elim (Bool-cases (str_eq j k)) [
    | inl here ↦ rw here (p, h.1)
    | inr there ↦ rw there (h.0, AllValues-insert k v m p h.1)
  ]

  pub AllValues-erase : (k : String) (m : Dict V) → AllValues P m → AllValues P (erase k m)
  unfolding erase
  AllValues-erase k [] h = h
  AllValues-erase k ((j, w) ∷ m) h = elim (Bool-cases (str_eq j k)) [
    | inl here ↦ rw here (AllValues-erase k m h.1)
    | inr there ↦ rw there (h.0, AllValues-erase k m h.1)
  ]

  pub AllValues-lookup :
      (k : String) (m : Dict V) {v : V} → AllValues P m → lookup k m ≡ some v → P v
  unfolding lookup
  AllValues-lookup k [] h e = cc
  AllValues-lookup k ((j, w) ∷ m) {v} h e = elim (Bool-cases (str_eq j k)) [
    | inl here ↦ let same : some w ≡ some v = rw here at e in subst (IsSome P) same h.0
    | inr there ↦ AllValues-lookup k m h.1 (rw there at e)
  ]
