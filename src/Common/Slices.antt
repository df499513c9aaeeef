-- ===== src/Common/Slices.antt =====
-- Pieces of lists: take and drop, one after another.
use Prim.Native.Nat.{ℕ, zero, suc, ◌+◌, ◌-◌, ◌≤◌}
use mathlib.Core.Path.{◌≡◌, refl, sym, ap, ◌∙◌}
use mathlib.Core.List.{List, [], ◌∷◌, ◌++◌}
use native.Mathlib.Omega.{arith}
use adb_server_project.Common.Lists.{length, take, drop}

module _ {ℓ} {A : Type ℓ} where
  pub take_prefix : (n : ℕ) (xs ys : List A) → n ≤ length xs → take n (xs ++ ys) ≡ take n xs
  take_prefix zero xs ys h = refl
  take_prefix (suc n) [] ys h = absurd (omega arith)
  take_prefix (suc n) (x ∷ xs) ys h = ap (◌∷◌ x) (take_prefix n xs ys (omega arith))

  pub drop_prefix : (n : ℕ) (xs ys : List A) → n ≤ length xs → drop n (xs ++ ys) ≡ drop n xs ++ ys
  drop_prefix zero xs ys h = refl
  drop_prefix (suc n) [] ys h = absurd (omega arith)
  drop_prefix (suc n) (x ∷ xs) ys h = drop_prefix n xs ys (omega arith)

  pub take-take : (m n : ℕ) (xs : List A) → m ≤ n → take m (take n xs) ≡ take m xs
  take-take zero n xs h = refl
  take-take (suc m) zero xs h = absurd (omega arith)
  take-take (suc m) (suc n) [] h = refl
  take-take (suc m) (suc n) (x ∷ xs) h = ap (◌∷◌ x) (take-take m n xs (omega arith))

  pub drop-nil : (k : ℕ) → drop {A = A} k [] ≡ []
  drop-nil zero = refl
  drop-nil (suc k) = refl

  pub take-nil : (k : ℕ) → take {A = A} k [] ≡ []
  take-nil zero = refl
  take-nil (suc k) = refl

  pub drop-take : (m n : ℕ) (xs : List A) → drop m (take n xs) ≡ take (n - m) (drop m xs)
  drop-take zero n xs = ap (λ k. take k xs) (omega arith)
  drop-take (suc m) zero xs =
      let none_left : zero - suc m ≡ zero = omega arith in
      sym (ap (λ k. take k (drop (suc m) xs)) none_left)
  drop-take (suc m) (suc n) [] = sym (take-nil (suc n - suc m))
  drop-take (suc m) (suc n) (x ∷ xs) = drop-take m n xs ∙ ap (λ k. take k (drop m xs)) (omega arith)

  pub drop-drop : (m n : ℕ) (xs : List A) → drop n (drop m xs) ≡ drop (m + n) xs
  drop-drop zero n xs = ap (λ k. drop k xs) (omega arith)
  drop-drop (suc m) n [] = drop-nil n ∙ sym (drop-nil (suc m + n))
  drop-drop (suc m) n (x ∷ xs) =
      drop-drop m n xs
      ∙ (let next : suc (m + n) ≡ suc m + n = omega arith in ap (λ k. drop k (x ∷ xs)) next)

  pub take_split : (m n : ℕ) (l : List A) → m ≤ n → take m l ++ take (n - m) (drop m l) ≡ take n l
  take_split zero n l h = ap (λ k. take k l) (omega arith)
  take_split (suc m) zero l h = absurd (omega arith)
  take_split (suc m) (suc n) [] h = take-nil (suc n - suc m)
  take_split (suc m) (suc n) (c ∷ l) h =
      ap (λ k. c ∷ (take m l ++ take k (drop m l))) (omega arith)
      ∙ ap (◌∷◌ c) (take_split m n l (omega arith))
