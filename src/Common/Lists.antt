-- ===== src/Common/Lists.antt =====
-- Iteration, and lists measured and indexed by native numbers, under the library's names.
use Prim.Native.Nat.{ℕ, zero, suc, ◌+◌, ◌<◌}
use mathlib.Core.Path.{◌≡◌, refl, ap, ◌∙◌}
use native.Mathlib.Omega.{arith}
use mathlib.Core.List.{List, [], ◌∷◌, ◌++◌}

module _ {ℓ} {A : Type ℓ} where
  abbrev pub length : List A → ℕ
  length [] = 0
  length (x ∷ xs) = suc (length xs)

  abbrev pub get_or : List A → ℕ → A → A
  get_or [] i d = d
  get_or (x ∷ xs) zero d = x
  get_or (x ∷ xs) (suc i) d = get_or xs i d

  pub get_or-left :
      (xs ys : List A) (i : ℕ) (d : A) → i < length xs → get_or (xs ++ ys) i d ≡ get_or xs i d
  get_or-left [] ys i d h = absurd (omega arith)
  get_or-left (x ∷ xs) ys zero d h = refl
  get_or-left (x ∷ xs) ys (suc i) d h = get_or-left xs ys i d (omega arith)

  pub get_or-right :
      (xs ys : List A) (i : ℕ) (d : A) → get_or (xs ++ ys) (length xs + i) d ≡ get_or ys i d
  get_or-right [] ys i d = ap (λ (t : ℕ). get_or ys t d) {y = i} (omega arith)
  get_or-right (x ∷ xs) ys i d =
      ap (λ (t : ℕ). get_or (x ∷ (xs ++ ys)) t d) {y = suc (length xs + i)} (omega arith)
      ∙ get_or-right xs ys i d

  pub length-append : (xs ys : List A) → length (xs ++ ys) ≡ length xs + length ys
  length-append [] ys = omega arith
  length-append (x ∷ xs) ys = omega (arith, length-append xs ys)

  pub append_assoc : (xs ys zs : List A) → (xs ++ ys) ++ zs ≡ xs ++ (ys ++ zs)
  append_assoc [] ys zs = refl
  append_assoc (x ∷ xs) ys zs = ap (λ (t : List A). x ∷ t) (append_assoc xs ys zs)

  pub append-nil : (xs : List A) → xs ++ [] ≡ xs
  append-nil [] = refl
  append-nil (x ∷ xs) = ap (λ (t : List A). x ∷ t) (append-nil xs)

-- A function applied `n` times.
unfoldable pub repeat {ℓ} : {A : Type ℓ} → ℕ → (A → A) → A → A
repeat zero f x = x
repeat (suc n) f x = repeat n f (f x)

zero-add : (n : ℕ) → 0 + n ≡ n
zero-add n = omega arith

succ-add : (m n : ℕ) → suc m + n ≡ suc (m + n)
succ-add m n = omega arith

pub repeat_add {ℓ} :
    {A : Type ℓ} (m n : ℕ) (f : A → A) (x : A) → repeat (m + n) f x ≡ repeat n f (repeat m f x)
unfolding repeat
repeat_add zero n f x = ap (λ (t : ℕ). repeat t f x) (zero-add n)
repeat_add (suc m) n f x = ap (λ (t : ℕ). repeat t f x) (succ-add m n) ∙ repeat_add m n f (f x)
