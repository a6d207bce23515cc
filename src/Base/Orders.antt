-- ===== src/Base/Orders.antt =====
-- Rearranged lists, and what is kept of a list.
use sentinel_flow_event_driv.Base.Tests.{if◌then◌else◌, Bool-cases}
use sentinel_flow_event_driv.Base.Lists.{All, length}
use mathlib.Core.Bool.{Bool, true, false, not}
use Prim.Native.Nat.{suc}
use mathlib.Core.Path.{◌≡◌, refl, sym, ap, subst, ◌∙◌}
use mathlib.Core.Logic.{inl, inr}
use mathlib.Core.List.{List, [], ◌∷◌, map, Permᴰ}
use native.Mathlib.Omega.{arith}

module _ {ℓ} {A : Type ℓ} where
  -- The members that pass a test.
  unfoldable pub keep : (A → Bool) → List A → List A
  keep p [] = []
  keep p (x ∷ xs) = let rest = keep p xs in if p x then x ∷ rest else rest

  abbrev pub drop_if : (A → Bool) → List A → List A
  drop_if p = keep (λ x. not (p x))

  -- A member passes the test.
  unfoldable pub any : (A → Bool) → List A → Bool
  any p [] = false
  any p (x ∷ xs) = if p x then true else any p xs

pub length-perm {ℓ} : {A : Type ℓ} {xs ys : List A} → Permᴰ xs ys → length xs ≡ length ys
length-perm Permᴰ.nil = refl
length-perm (Permᴰ.cons e r) = ap suc (length-perm r)
length-perm (Permᴰ.swap {l = l} e f) = refl
length-perm (Permᴰ.trans r s) = length-perm r ∙ length-perm s

module _ {ℓ κ} {A : Type ℓ} (P : A → Type κ) where
  pub All-keep : (p : A → Bool) (xs : List A) → All P xs → All P (keep p xs)
  unfolding keep
  All-keep p [] h = h
  All-keep p (x ∷ xs) h = elim (Bool-cases (p x)) [
    | inl here ↦ rw here (h.0, All-keep p xs h.1)
    | inr out ↦ rw out (All-keep p xs h.1)
  ]

  pub All-perm : {xs ys : List A} → Permᴰ xs ys → All P ys → All P xs
  All-perm Permᴰ.nil h = h
  All-perm (Permᴰ.cons e r) h = (subst P (sym e) h.0, All-perm r h.1)
  All-perm (Permᴰ.swap e f) h = (subst P (sym e) h.1.0, (subst P (sym f) h.0, h.1.1))
  All-perm (Permᴰ.trans r s) h = All-perm r (All-perm s h)

module _ {ℓ κ} {A : Type ℓ} {B : Type κ} (f : A → B) where
  pub keep-map : (p : B → Bool) (xs : List A) → keep p (map f xs) ≡ map f (keep (λ x. p (f x)) xs)
  unfolding keep
  keep-map p [] = refl
  keep-map p (x ∷ xs) = ground (arith, keep-map p xs)

  pub any-map : (p : B → Bool) (xs : List A) → any p (map f xs) ≡ any (λ x. p (f x)) xs
  unfolding any
  any-map p [] = refl
  any-map p (x ∷ xs) = ground (arith, any-map p xs)

  pub length-map : (xs : List A) → length (map f xs) ≡ length xs
  length-map [] = refl
  length-map (x ∷ xs) = ap suc (length-map xs)

  -- A rearrangement of images is the images of a rearrangement.
  pub perm-of-map :
      {ls rs : List B}
      → Permᴰ ls rs
      → (ys : List A) → rs ≡ map f ys
      → (xs : List A) × (ls ≡ map f xs) × Permᴰ xs ys
  perm-of-map Permᴰ.nil [] e = ([], refl, Permᴰ.nil)
  perm-of-map Permᴰ.nil (y ∷ ys) e = cc
  perm-of-map (Permᴰ.cons e r) [] q = cc
  perm-of-map (Permᴰ.cons {b = b} {l₂ = l₂} e r) (y ∷ ys) q =
      let head : b ≡ f y = cc in
      let tail : l₂ ≡ map f ys = cc in
      let (xs, front, r') = perm-of-map r ys tail in
      (y ∷ xs, rw (e, head, front) refl, Permᴰ.cons refl r')
  perm-of-map (Permᴰ.swap e g) [] q = cc
  perm-of-map (Permᴰ.swap e g) (y ∷ []) q = cc
  perm-of-map (Permᴰ.swap {a' = a'} {b' = b'} {l = l} e g) (y ∷ z ∷ ys) q =
      let first : a' ≡ f y = cc in
      let second : b' ≡ f z = cc in
      let tail : l ≡ map f ys = cc in
      (z ∷ y ∷ ys, rw (e, g, first, second, tail) refl, Permᴰ.swap refl refl)
  perm-of-map (Permᴰ.trans r s) ys q =
      let (zs, mid, s') = perm-of-map s ys q in
      let (xs, front, r') = perm-of-map r zs mid in (xs, front, Permᴰ.trans r' s')
