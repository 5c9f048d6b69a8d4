-- ===== src/Base/Lists.antt =====
-- Lists measured and indexed by native numbers, under the library's names.
use Prim.Native.Nat.{ℕ, zero, suc, ◌+◌, ◌-◌, ◌<◌, min}
use mathlib.Core.Path.{◌≡◌, refl, ap}
use mathlib.Core.List.{List, [], ◌∷◌, ◌++◌}
use mathlib.Core.Option.{Option, none, some}
use native.Mathlib.Omega.{arith}

module _ {ℓ} {A : Type ℓ} where
  abbrev pub length : List A → ℕ
  length [] = 0
  length (x ∷ xs) = suc (length xs)

  abbrev pub get_elem? : List A → ℕ → Option A
  get_elem? [] i = none
  get_elem? (x ∷ xs) zero = some x
  get_elem? (x ∷ xs) (suc i) = get_elem? xs i

  -- A write out of bounds changes nothing.
  abbrev pub set : List A → ℕ → A → List A
  set [] i v = []
  set (x ∷ xs) zero v = v ∷ xs
  set (x ∷ xs) (suc i) v = x ∷ set xs i v

  abbrev pub take : ℕ → List A → List A
  take zero xs = []
  take (suc n) [] = []
  take (suc n) (x ∷ xs) = x ∷ take n xs

  abbrev pub drop : ℕ → List A → List A
  drop zero xs = xs
  drop (suc n) [] = []
  drop (suc n) (x ∷ xs) = drop n xs

  abbrev pub replicate : ℕ → A → List A
  replicate zero a = []
  replicate (suc n) a = a ∷ replicate n a

module _ {ℓ κ} {A : Type ℓ} where
  abbrev pub All : (A → Type κ) → List A → Type κ
  All P [] = Unit
  All P (x ∷ xs) = P x × All P xs

  pub All-append : (P : A → Type κ) (xs ys : List A) → All P xs → All P ys → All P (xs ++ ys)
  All-append P [] ys p q = q
  All-append P (x ∷ xs) ys p q = (p.0, All-append P xs ys p.1 q)

module _ {ℓ} {A : Type ℓ} where
  pub length-append : (xs ys : List A) → length (xs ++ ys) ≡ length xs + length ys
  length-append [] ys = omega arith
  length-append (x ∷ xs) ys = omega (arith, length-append xs ys)

  pub length-set : (xs : List A) (i : ℕ) (v : A) → length (set xs i v) ≡ length xs
  length-set [] i v = refl
  length-set (x ∷ xs) zero v = refl
  length-set (x ∷ xs) (suc i) v = ap suc (length-set xs i v)

  pub length-take : (n : ℕ) (xs : List A) → length (take n xs) ≡ min n (length xs)
  length-take zero xs = omega arith
  length-take (suc n) [] = omega arith
  length-take (suc n) (x ∷ xs) = omega (arith, length-take n xs)

  pub length-drop : (n : ℕ) (xs : List A) → length (drop n xs) ≡ length xs - n
  length-drop zero xs = omega arith
  length-drop (suc n) [] = omega arith
  length-drop (suc n) (x ∷ xs) = omega (arith, length-drop n xs)

  pub length-replicate : (n : ℕ) (a : A) → length (replicate n a) ≡ n
  length-replicate zero a = refl
  length-replicate (suc n) a = ap suc (length-replicate n a)

  pub take-append-drop : (n : ℕ) (xs : List A) → take n xs ++ drop n xs ≡ xs
  take-append-drop zero xs = refl
  take-append-drop (suc n) [] = refl
  take-append-drop (suc n) (x ∷ xs) = ap (◌∷◌ x) (take-append-drop n xs)

  -- Past a prefix of known length.
  pub set-append :
      (xs ys : List A) (i n : ℕ) (v : A)
      → length xs ≡ n
      → set (xs ++ ys) (n + i) v ≡ xs ++ set ys i v
  set-append [] ys i zero v h = ap (λ k. set ys k v) (omega arith)
  set-append [] ys i (suc n) v h = absurd (omega arith)
  set-append (x ∷ xs) ys i zero v h = absurd (omega arith)
  set-append (x ∷ xs) ys i (suc n) v h =
      let e : suc n + i ≡ suc (n + i) = omega arith in
      rw e (ap (◌∷◌ x) (set-append xs ys i n v (omega arith)))

  pub set-append_zero :
      (xs ys : List A) (n : ℕ) (v : A) → length xs ≡ n → set (xs ++ ys) n v ≡ xs ++ set ys 0 v
  set-append_zero xs ys n v h =
      let e : n + 0 ≡ n = omega arith in rw e at (set-append xs ys 0 n v h)

  pub set-zero_drop : (l : List A) (v : A) → 0 < length l → set l 0 v ≡ v ∷ drop 1 l
  set-zero_drop [] v h = absurd (omega arith)
  set-zero_drop (x ∷ l) v h = refl

  pub take-append : (xs ys : List A) (n : ℕ) → length xs ≡ n → take n (xs ++ ys) ≡ xs
  take-append [] ys zero h = refl
  take-append [] ys (suc n) h = absurd (omega arith)
  take-append (x ∷ xs) ys zero h = absurd (omega arith)
  take-append (x ∷ xs) ys (suc n) h = ap (◌∷◌ x) (take-append xs ys n (omega arith))

  pub drop-append : (xs ys : List A) (n : ℕ) → length xs ≡ n → drop n (xs ++ ys) ≡ ys
  drop-append [] ys zero h = refl
  drop-append [] ys (suc n) h = absurd (omega arith)
  drop-append (x ∷ xs) ys zero h = absurd (omega arith)
  drop-append (x ∷ xs) ys (suc n) h = drop-append xs ys n (omega arith)

  pub drop-append_add :
      (xs ys : List A) (n k : ℕ) → length xs ≡ n → drop (n + k) (xs ++ ys) ≡ drop k ys
  drop-append_add [] ys zero k h = ap (λ j. drop j ys) (omega arith)
  drop-append_add [] ys (suc n) k h = absurd (omega arith)
  drop-append_add (x ∷ xs) ys zero k h = absurd (omega arith)
  drop-append_add (x ∷ xs) ys (suc n) k h =
      let e : suc n + k ≡ suc (n + k) = omega arith in
      rw e (drop-append_add xs ys n k (omega arith))

  pub get_elem?-append :
      (xs ys : List A) (i n : ℕ) → length xs ≡ n → get_elem? (xs ++ ys) (n + i) ≡ get_elem? ys i
  get_elem?-append [] ys i zero h = ap (get_elem? ys) (omega arith)
  get_elem?-append [] ys i (suc n) h = absurd (omega arith)
  get_elem?-append (x ∷ xs) ys i zero h = absurd (omega arith)
  get_elem?-append (x ∷ xs) ys i (suc n) h =
      let e : suc n + i ≡ suc (n + i) = omega arith in
      rw e (get_elem?-append xs ys i n (omega arith))

  take-nil : (n : ℕ) → take {A = A} n [] ≡ []
  take-nil zero = refl
  take-nil (suc n) = refl

  drop-nil : (n : ℕ) → drop {A = A} n [] ≡ []
  drop-nil zero = refl
  drop-nil (suc n) = refl

  pub take-add : (j k n : ℕ) (xs : List A) → j + k ≡ n → take n xs ≡ take j xs ++ take k (drop j xs)
  take-add zero k n xs h = ap (λ m. take m xs) (omega arith)
  take-add (suc j) zero n [] h = take-nil n
  take-add (suc j) (suc k) n [] h = take-nil n
  take-add (suc j) k zero (x ∷ xs) h = absurd (omega arith)
  take-add (suc j) k (suc n) (x ∷ xs) h = ap (◌∷◌ x) (take-add j k n xs (omega arith))

  pub drop-add : (j k n : ℕ) (xs : List A) → j + k ≡ n → drop n xs ≡ drop k (drop j xs)
  drop-add zero k n xs h = ap (λ m. drop m xs) (omega arith)
  drop-add (suc j) zero n [] h = drop-nil n
  drop-add (suc j) (suc k) n [] h = drop-nil n
  drop-add (suc j) k zero (x ∷ xs) h = absurd (omega arith)
  drop-add (suc j) k (suc n) (x ∷ xs) h = drop-add j k n xs (omega arith)
