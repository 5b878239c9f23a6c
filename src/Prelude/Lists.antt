-- ===== src/Prelude/Lists.antt =====
-- Lists measured and indexed by native numbers, under the library's names, and predicates on them.
use Prim.Native.Nat.{ℕ, zero, suc, ◌+◌}
use mathlib.Core.Path.{◌≡◌}
use mathlib.Core.Bool.{Bool, true, false, ◌&&◌, ◌||◌}
use mathlib.Core.Logic.{◌↔◌}
use mathlib.Core.List.{List, [], ◌∷◌, ◌++◌}
use mathlib.Core.Option.{Option, none, some}
use native.Mathlib.Omega.{arith}

module _ {ℓ} {A : Type ℓ} where
  abbrev pub length : List A → ℕ
  length [] = 0
  length (x ∷ xs) = suc (length xs)

  abbrev pub get_elem? : List A → ℕ → Option A
  get_elem? [] i = none
  get_elem? (x ∷ xs) zero = some x
  get_elem? (x ∷ xs) (suc i) = get_elem? xs i

  -- Every element satisfies `P`.
  abbrev pub All {κ} : (A → Type κ) → List A → Type κ
  All P [] = Unit
  All P (x ∷ xs) = P x × All P xs

  pub All-imp {κ μ} :
      {P : A → Type κ} {Q : A → Type μ}
      → ((a : A) → P a → Q a)
      → (xs : List A) → All P xs
      → All Q xs
  All-imp f [] h = tt
  All-imp f (x ∷ xs) (p, h) = (f x p, All-imp f xs h)

  pub All-of {κ} : {P : A → Type κ} → ((a : A) → P a) → (xs : List A) → All P xs
  All-of f [] = tt
  All-of f (x ∷ xs) = (f x, All-of f xs)

  pub All-iff {κ μ} :
      {P : A → Type κ} {Q : A → Type μ}
      → ((a : A) → P a ↔ Q a)
      → (xs : List A) → All P xs ↔ All Q xs
  All-iff f xs = (All-imp (λ a. (f a).0) xs, All-imp (λ a. (f a).1) xs)

  pub All-both {κ μ ν} :
      (P : A → Type κ) (Q : A → Type μ) (R : A → Type ν)
      → ((a : A) → (P a × Q a) ↔ R a)
      → (xs : List A) → (All P xs × All Q xs) ↔ All R xs
  All-both P Q R f [] = (λ _. tt, λ _. (tt, tt))
  All-both P Q R f (x ∷ xs) =
      let (to, of) = f x in
      let (tos, ofs) = All-both P Q R f xs in
      (
        λ ((p, ps), (q, qs)). (to (p, q), tos (ps, qs)),
        λ (r, rs). (let (p, q) = of r in let (ps, qs) = ofs rs in ((p, ps), (q, qs))),
      )

  pub All-append {κ} :
      (P : A → Type κ) (front back : List A) (f : All P front) (b : All P back)
      → All P (front ++ back)
  All-append P [] back f b = b
  All-append P (item ∷ front) back (p, f) b = (p, All-append P front back f b)

  pub length-append : (xs ys : List A) → length (xs ++ ys) ≡ length xs + length ys
  length-append [] ys = omega arith
  length-append (x ∷ xs) ys = omega (arith, length-append xs ys)

  -- The slice from an index on.
  abbrev pub drop : ℕ → List A → List A
  drop zero xs = xs
  drop (suc n) [] = []
  drop (suc n) (x ∷ xs) = drop n xs

  -- `partition_point`: how many leading elements satisfy the test.
  unfoldable pub partition_point : (A → Bool) → List A → ℕ
  partition_point p [] = 0
  partition_point p (x ∷ xs) =
      let rest = partition_point p xs in elim (p x) [ true ↦ suc rest | false ↦ 0 ]

  -- `iter().any` and `iter().all`
  abbrev pub any : (A → Bool) → List A → Bool
  any p [] = false
  any p (x ∷ xs) = p x || any p xs

  abbrev pub all : (A → Bool) → List A → Bool
  all p [] = true
  all p (x ∷ xs) = p x && all p xs

  -- `iter().filter` and `Vec::retain`
  abbrev pub filter : (A → Bool) → List A → List A
  filter p [] = []
  filter p (x ∷ xs) = keep (p x) x (filter p xs)
    where
      keep : Bool → A → List A → List A
      keep true y ys = y ∷ ys
      keep false y ys = ys

-- `iter().filter_map`
abbrev pub push_some {ℓ} : {A : Type ℓ} → Option A → List A → List A
push_some none xs = xs
push_some (some x) xs = x ∷ xs

abbrev pub filter_map {ℓ κ} : {A : Type ℓ} {B : Type κ} → (A → Option B) → List A → List B
filter_map f [] = []
filter_map f (x ∷ xs) = push_some (f x) (filter_map f xs)
