-- ===== src/Packet/Checksum.antt =====
-- The checksum loop of send_packet and check_data against the sum of the payload's bytes.
use adb_server_project.Common.{
  ℕ, zero, suc, ◌+◌, ◌%◌, ◌^◌, ◌≤◌, ◌<◌, ◌≡◌, refl, List, [], ◌∷◌, none, some, arith, length, set,
  get_elem?, take, ap, ◌∙◌,
}
use adb_server_project.Packet.{checksum}

-- The mathematical sum of the first `n` bytes.
abbrev pub sum_of : ℕ → List ℕ → ℕ
sum_of zero xs = 0
sum_of (suc n) [] = 0
sum_of (suc n) (x ∷ xs) = x + sum_of n xs

pub checksum-eq-sum_of :
    (n s : ℕ) (xs : List ℕ)
    → s < 2 ^ 32
    → n ≤ length xs
    → checksum n s xs ≡ some ((s + sum_of n xs) % 2 ^ 32)
unfolding checksum
checksum-eq-sum_of zero s xs small fits = ground arith
checksum-eq-sum_of (suc n) s [] small fits = absurd (omega arith)
checksum-eq-sum_of (suc n) s (x ∷ xs) small fits =
    ground (arith, checksum-eq-sum_of n ((s + x) % 2 ^ 32) xs (omega arith) (omega arith))

-- Past the array there is no sum.
pub checksum-none : (n s : ℕ) (xs : List ℕ) → length xs < n → checksum n s xs ≡ none
unfolding checksum
checksum-none zero s xs h = absurd (omega arith)
checksum-none (suc n) s [] h = refl
checksum-none (suc n) s (x ∷ xs) h = checksum-none n ((s + x) % 2 ^ 32) xs (omega arith)

-- Changing one byte moves the sum by the difference.
pub sum_of-set :
    (n i b c : ℕ) (xs : List ℕ)
    → i < n
    → get_elem? xs i ≡ some b
    → sum_of n (set xs i c) + b ≡ sum_of n xs + c
sum_of-set zero i b c xs h e = absurd (omega arith)
sum_of-set (suc n) i b c [] h e = ground arith
sum_of-set (suc n) zero b c (x ∷ xs) h e = ground arith
sum_of-set (suc n) (suc i) b c (x ∷ xs) h e = omega (arith, sum_of-set n i b c xs (omega arith) e)

-- The sum depends on the summed bytes only.
pub checksum-take :
    (n s : ℕ) (xs ys : List ℕ)
    → take n xs ≡ take n ys
    → n ≤ length xs
    → n ≤ length ys
    → checksum n s xs ≡ checksum n s ys
unfolding checksum
checksum-take zero s xs ys e hx hy = refl
checksum-take (suc n) s [] ys e hx hy = absurd (omega arith)
checksum-take (suc n) s (x ∷ xs) [] e hx hy = absurd (omega arith)
checksum-take (suc n) s (x ∷ xs) (y ∷ ys) e hx hy =
    let first : x ≡ y = cc in
    let others : take n xs ≡ take n ys = cc in
    ap (λ b. checksum n ((s + b) % 2 ^ 32) xs) first
    ∙ checksum-take n ((s + y) % 2 ^ 32) xs ys others (omega arith) (omega arith)
