-- ===== src/Dashboard/Pages.antt =====
-- The pages of `paginate` of internal/dashboard/api.go: where they are cut, when cutting panics, and that
-- one after another they are the whole list.
use kubeguard.Prelude.{
  ℕ, zero, suc, ◌+◌, ◌-◌, ◌*◌, ◌≤◌, ◌<◌, min, ℤ, pos, negsuc, List, [], ◌∷◌, ◌++◌, Option, none,
  some, ◌≡◌, refl, sym, ◌∙◌, ap, ◌↔◌, inl, inr, arith, Bool-cases, true, ltb, leb, if◌then◌else◌,
  length,
}
use kubeguard.Dashboard.Paginate.{int_max, wrap_add, end_of, take, drop, slice, paginate}

plus_suc : (k m : ℕ) → suc k + m ≡ suc (k + m)
plus_suc k m = omega arith

zero_plus : (m : ℕ) → 0 + m ≡ m
zero_plus m = omega arith

suc_times : (k m : ℕ) → suc k * m ≡ m + k * m
suc_times k m = grind arith

zero_times : (m : ℕ) → 0 * m ≡ 0
zero_times m = grind arith

plus_minus : (k m : ℕ) → (k + m) - k ≡ m
plus_minus k m = omega arith

leb-true : (a b : ℕ) → a ≤ b → leb a b ≡ true
leb-true a b h = ground arith

-- Without an overflow, the slice up to the clamped end is the cut by the limit.
end_of_lem :
    (limit offset n : ℕ)
    → offset + suc limit ≤ int_max
    → end_of (pos (suc limit)) offset n
      ≡ (if ltb n (offset + suc limit) then pos n else pos (offset + suc limit))
unfolding end_of wrap_add
end_of_lem limit offset n h = rw (leb-true (offset + suc limit) int_max h, end_of) refl

module _ {A : Type 0} where
  take_all : (k : ℕ) (xs : List A) → length xs ≤ k → take k xs ≡ xs
  unfolding take
  take_all k [] h = refl
  take_all zero (x ∷ xs) h = absurd (omega arith)
  take_all (suc k) (x ∷ xs) h = ap (λ r. x ∷ r) (take_all k xs (omega arith))

  take_zero : (xs : List A) → take 0 xs ≡ []
  unfolding take
  take_zero [] = refl
  take_zero (x ∷ xs) = refl

  drop_zero : (xs : List A) → drop 0 xs ≡ xs
  unfolding drop
  drop_zero [] = refl
  drop_zero (x ∷ xs) = refl

  drop_all : (k : ℕ) (xs : List A) → length xs ≤ k → drop k xs ≡ []
  unfolding drop
  drop_all k [] h = refl
  drop_all zero (x ∷ xs) h = absurd (omega arith)
  drop_all (suc k) (x ∷ xs) h = drop_all k xs (omega arith)

  length-drop : (k : ℕ) (xs : List A) → length (drop k xs) ≡ length xs - k
  unfolding drop
  length-drop k [] = omega arith
  length-drop zero (x ∷ xs) = omega arith
  length-drop (suc k) (x ∷ xs) = omega (arith, length-drop k xs)

  length-take : (k : ℕ) (xs : List A) → length (take k xs) ≤ k
  unfolding take
  length-take k [] = omega arith
  length-take zero (x ∷ xs) = omega arith
  length-take (suc k) (x ∷ xs) = omega (arith, length-take k xs)

  -- Two cuts one after another.
  take-plus : (k m : ℕ) (xs : List A) → take (k + m) xs ≡ take k xs ++ take m (drop k xs)
  unfolding take drop
  take-plus k m [] = refl
  take-plus zero m (x ∷ xs) = rw (zero_plus m) refl
  take-plus (suc k) m (x ∷ xs) = rw (plus_suc k m) (ap (λ r. x ∷ r) (take-plus k m xs))

  drop-plus : (k m : ℕ) (xs : List A) → drop m (drop k xs) ≡ drop (k + m) xs
  unfolding drop
  drop-plus k m [] = refl
  drop-plus zero m (x ∷ xs) = rw (zero_plus m) refl
  drop-plus (suc k) m (x ∷ xs) = rw (plus_suc k m) (drop-plus k m xs)

  slice_lem :
      (limit offset : ℕ) (xs : List A)
      → offset ≤ length xs
      → slice xs offset (
          if ltb (length xs) (offset + suc limit)
          then pos (length xs)
          else pos (offset + suc limit))
        ≡ some (take (suc limit) (drop offset xs))
  unfolding slice
  slice_lem limit offset xs h = elim (Bool-cases (ltb (length xs) (offset + suc limit))) [
    | inl y ↦
        rw
          (
            y,
            leb-true offset (length xs) h,
            take_all (length xs - offset) (drop offset xs) (omega (arith, length-drop offset xs)),
            take_all (suc limit) (drop offset xs) (ground (arith, length-drop offset xs)),
          )
          refl
    | inr n ↦
        rw (n, leb-true offset (offset + suc limit) (omega arith), plus_minus offset (suc limit))
          refl
  ]

  drop-min : (o : ℕ) (xs : List A) → drop (min o (length xs)) xs ≡ drop o xs
  drop-min o xs = elim (Bool-cases (leb o (length xs))) [
    | inl y ↦ ap (λ k. drop k xs) (ground arith)
    | inr n ↦
        let e : min o (length xs) ≡ length xs = ground arith in
        rw e (drop_all (length xs) xs (omega arith) ∙ sym (drop_all o xs (ground arith)))
  ]

  -- The page is the cut, unless the sum of its bounds is more than an `int`.
  pub paginate_lem :
      (limit offset : ℕ) (xs : List A)
      → offset + suc limit ≤ int_max
      → paginate xs (pos (suc limit)) (pos offset) ≡ some (take (suc limit) (drop offset xs))
  unfolding paginate
  paginate_lem limit offset xs h =
      rw (end_of_lem limit (min offset (length xs)) (length xs) (omega arith), ← drop-min offset xs)
        (slice_lem limit (min offset (length xs)) xs (omega arith))

-- The offset is negative, or the limit is positive and its sum with the offset, cut to the length n of
-- the list, is more than the largest `int`.
unfoldable pub Overflows : ℕ → ℤ → ℤ → Type 0
Overflows n limit (negsuc o) = Unit
Overflows n (negsuc l) (pos o) = ⊥
Overflows n (pos l) (pos o) = (1 ≤ l) × (int_max < min o n + l)

module _ {A : Type 0} where
  -- Without a limit and an offset, the page is the list.
  pub paginate-whole : (xs : List A) → paginate xs (pos 0) (pos 0) ≡ some xs
  unfolding paginate slice end_of
  paginate-whole xs =
      let start : min 0 (length xs) ≡ 0 = ground arith in
      let ends : length xs - 0 ≡ length xs = omega arith in
      rw
        (
          start,
          leb-true 0 (length xs) (omega arith),
          ends,
          drop_zero xs,
          take_all (length xs) xs (omega arith),
        )
        refl

  -- A page panics exactly if the offset is negative, or the limit is positive and its sum with the
  -- offset, cut to the length of the list, is more than the largest `int`.
  pub paginate-panics :
      (xs : List A) (limit offset : ℤ)
      → (paginate xs limit offset ≡ none) ↔ Overflows (length xs) limit offset
  unfolding paginate Overflows slice end_of wrap_add
  paginate-panics xs limit (negsuc o) = (λ h. tt, λ h. refl)
  paginate-panics xs (negsuc l) (pos o) = ground arith
  paginate-panics xs (pos zero) (pos o) = ground arith
  paginate-panics xs (pos (suc l)) (pos o) = ground arith

  -- `k` pages of `limit` elements, from the offset on.
  unfoldable pub walk : List A → ℕ → ℕ → ℕ → Option (List A)
  unfolding paginate
  walk xs limit zero offset = some []
  walk xs limit (suc k) offset = elim (paginate xs (pos limit) (pos offset)) [
    | none ↦ none
    | some page ↦ elim (walk xs limit k (offset + limit)) [
      | none ↦ none
      | some rest ↦ some (page ++ rest)
    ]
  ]

  walk_from :
      (xs : List A) (l k offset : ℕ)
      → offset + k * suc l ≤ int_max
      → walk xs (suc l) k offset ≡ some (take (k * suc l) (drop offset xs))
  unfolding walk
  walk_from xs l zero offset h = rw (zero_times (suc l), take_zero (drop offset xs)) refl
  walk_from xs l (suc k) offset h =
      rw
        (
          paginate_lem l offset xs (omega (arith, suc_times k (suc l), h)),
          walk,
          walk_from xs l k (offset + suc l) (omega (arith, suc_times k (suc l), h)),
          suc_times k (suc l),
          take-plus (suc l) (k * suc l) (drop offset xs),
          drop-plus offset (suc l) xs,
        )
        refl

  -- The pages of a listing, read one after another with a positive limit until they reach its length,
  -- are the whole listing: nothing is left out, repeated or moved.
  pub walk_lem :
      (xs : List A) (l k : ℕ)
      → k * suc l ≤ int_max
      → length xs ≤ k * suc l
      → walk xs (suc l) k 0 ≡ some xs
  walk_lem xs l k h e =
      walk_from xs l k 0 (omega arith) ∙ rw (drop_zero xs, take_all (k * suc l) xs e) refl
