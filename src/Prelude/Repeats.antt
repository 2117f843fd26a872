-- ===== src/Prelude/Repeats.antt =====
-- Lists without repeated elements.
use Prim.Native.Nat.{ℕ, zero, suc}
use mathlib.Core.Path.{◌≡◌, refl, ap}
use mathlib.Core.Logic.{◌≢◌}
use mathlib.Core.List.{List, [], ◌∷◌, ◌++◌, map}
use convergent_routing_analy.Prelude.Lists.{take}

module _ {A : Type 0} where
  abbrev pub NotIn : A → List A → Type 0
  NotIn x [] = Unit
  NotIn x (y ∷ ys) = (x ≢ y) × NotIn x ys

  -- No element of the one is in the other.
  abbrev pub Apart : List A → List A → Type 0
  Apart [] ys = Unit
  Apart (x ∷ xs) ys = NotIn x ys × Apart xs ys

  abbrev pub NoRepeat : List A → Type 0
  NoRepeat [] = Unit
  NoRepeat (x ∷ xs) = NotIn x xs × NoRepeat xs

  pub NotIn-append : (x : A) (xs ys : List A) → NotIn x xs → NotIn x ys → NotIn x (xs ++ ys)
  NotIn-append x [] ys p q = q
  NotIn-append x (z ∷ xs) ys (ne, p) q = (ne, NotIn-append x xs ys p q)

  pub Apart-append : (xs ys zs : List A) → Apart xs ys → Apart xs zs → Apart xs (ys ++ zs)
  Apart-append [] ys zs p q = tt
  Apart-append (x ∷ xs) ys zs (a, p) (b, q) = (NotIn-append x ys zs a b, Apart-append xs ys zs p q)

  pub append-Apart : (xs ys zs : List A) → Apart xs zs → Apart ys zs → Apart (xs ++ ys) zs
  append-Apart [] ys zs p q = q
  append-Apart (x ∷ xs) ys zs (a, p) q = (a, append-Apart xs ys zs p q)

  pub Apart-none : (xs : List A) → Apart xs []
  Apart-none [] = tt
  Apart-none (x ∷ xs) = (tt, Apart-none xs)

  pub NoRepeat-append :
      (xs ys : List A) → NoRepeat xs → NoRepeat ys → Apart xs ys → NoRepeat (xs ++ ys)
  NoRepeat-append [] ys p q a = q
  NoRepeat-append (x ∷ xs) ys (n, p) q (b, a) =
      (NotIn-append x xs ys n b, NoRepeat-append xs ys p q a)

module _ {A B : Type 0} (h : A → B) where
  NotIn-take :
      (x : B) (v : B) (i : ℕ) (p : List A)
      → NotIn x (map h p ++ v ∷ [])
      → NotIn x (map h (take i p)) × (x ≢ v)
  NotIn-take x v zero [] (ne, n) = (tt, ne)
  NotIn-take x v (suc i) [] (ne, n) = (tt, ne)
  NotIn-take x v zero (y ∷ p) (ne, n) = (tt, (NotIn-take x v zero p n).1)
  NotIn-take x v (suc i) (y ∷ p) (ne, n) =
      let (before, last) = NotIn-take x v i p n in ((ne, before), last)

  -- A front of a list without repeats has none, nor the end of the list.
  pub NoRepeat-take :
      (v : B) (i : ℕ) (p : List A)
      → NoRepeat (map h p ++ v ∷ [])
      → NoRepeat (map h (take i p)) × Apart (map h (take i p)) (v ∷ [])
  NoRepeat-take v zero p n = (tt, tt)
  NoRepeat-take v (suc i) [] n = (tt, tt)
  NoRepeat-take v (suc i) (y ∷ p) (a, n) =
      let (rest, apart) = NoRepeat-take v i p n in
      let (before, last) = NotIn-take (h y) v i p a in ((before, rest), ((last, tt), apart))

  pub map-append : (p q : List A) → map h (p ++ q) ≡ map h p ++ map h q
  map-append [] q = refl
  map-append (y ∷ p) q = ap (λ t. h y ∷ t) (map-append p q)
