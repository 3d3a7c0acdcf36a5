-- ===== src/Bytes/Slices.antt =====
-- Slices of a list, and the parts of a concatenation.
use nasdaq_itch_parser_order.Prelude.{
  ℕ, zero, suc, ◌+◌, ◌-◌, ◌≤◌, ◌≡◌, refl, sym, ap, List, [], ◌∷◌, ◌++◌, arith, length, take, drop,
  slice, append-nil, append_assoc,
}

unfoldable pub concat {ℓ} : {A : Type ℓ} → List (List A) → List A
concat [] = []
concat (x ∷ xs) = x ++ concat xs

module _ {ℓ} {A : Type ℓ} where
  pub slice-take : (i n : ℕ) (xs : List A) → slice i (i + n) xs ≡ take n (drop i xs)
  slice-take i n xs = let e : i + n - i ≡ n = omega arith in rw e

  pub drop-drop : (i n : ℕ) (xs : List A) → drop n (drop i xs) ≡ drop (i + n) xs
  drop-drop zero n xs = let e : 0 + n ≡ n = omega arith in rw e
  drop-drop (suc i) zero [] = let e : suc i + 0 ≡ suc i = omega arith in rw e
  drop-drop (suc i) (suc n) [] = let e : suc i + suc n ≡ suc (i + suc n) = omega arith in rw e
  drop-drop (suc i) n (x ∷ xs) =
      let e : suc i + n ≡ suc (i + n) = omega arith in rw e (drop-drop i n xs)

  pub take_of_append : (n : ℕ) (xs ys : List A) → n ≤ length xs → take n (xs ++ ys) ≡ take n xs
  take_of_append zero xs ys h = refl
  take_of_append (suc n) [] ys h = absurd (omega arith)
  take_of_append (suc n) (x ∷ xs) ys h = ap (◌∷◌ x) (take_of_append n xs ys (omega arith))

  pub concat-append_one : (xs : List (List A)) (y : List A) → concat (xs ++ y ∷ []) ≡ concat xs ++ y
  unfolding concat
  concat-append_one [] y = append-nil y
  concat-append_one (x ∷ xs) y = rw (concat-append_one xs y) (sym (append_assoc x (concat xs) y))

  pub take-take : (n m : ℕ) (xs : List A) → n ≤ m → take n (take m xs) ≡ take n xs
  take-take zero m xs h = refl
  take-take (suc n) zero xs h = absurd (omega arith)
  take-take (suc n) (suc m) [] h = refl
  take-take (suc n) (suc m) (x ∷ xs) h = ap (◌∷◌ x) (take-take n m xs (omega arith))

  pub take-take-drop : (i n : ℕ) (xs : List A) → take i xs ++ take n (drop i xs) ≡ take (i + n) xs
  take-take-drop zero n xs = let e : 0 + n ≡ n = omega arith in rw e
  take-take-drop (suc i) zero [] = let e : suc i + 0 ≡ suc i = omega arith in rw e refl
  take-take-drop (suc i) (suc n) [] =
      let e : suc i + suc n ≡ suc (i + suc n) = omega arith in rw e refl
  take-take-drop (suc i) n (x ∷ xs) =
      let e : suc i + n ≡ suc (i + n) = omega arith in rw e (ap (◌∷◌ x) (take-take-drop i n xs))
