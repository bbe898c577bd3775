-- ===== src/Report/Requirements.antt =====
-- The control requirements of a finding in internal/report/asff.go.
use kubeguard.Prelude.{
  length-sort_stable, ◌+◌, ◌≤◌, String, false, ◌||◌, List, [], ◌∷◌, ◌++◌, ◌==◌, ◌≡◌, ◌≢◌, sym, inl,
  inr, arith, eq_iff, leb, All, All-append, All-imp, any-false, Bool-cases, length, length-append,
  str_lt, sort_strings, sort_stable-All,
}
use kubeguard.Prelude.Sort.{insert, sort_stable}
use kubeguard.Api.{ControlRef, Finding}
use kubeguard.Report.Asff.{
  asff_max_requirements, has_text, requirement, collect_requirements, asff_requirements,
}

-- No text stands twice in the list.
unfoldable pub NoRepeat : List String → Type 0
NoRepeat [] = Unit
NoRepeat (x ∷ xs) = All (λ y. y ≢ x) xs × NoRepeat xs

NoRepeat-snoc :
    (xs : List String) (s : String) → All (λ y. y ≢ s) xs → NoRepeat xs → NoRepeat (xs ++ s ∷ [])
unfolding NoRepeat
NoRepeat-snoc [] s h n = (tt, tt)
NoRepeat-snoc (x ∷ xs) s h n =
    (All-append (λ y. y ≢ x) xs (s ∷ []) n.0 (λ e. h.0 (sym e), tt), NoRepeat-snoc xs s h.1 n.1)

-- What the loop keeps.
record IsList (out : List String) : Type 0 where
  apart : NoRepeat out
  texts : All (λ s. s ≢ "") out

unseen : (s : String) (out : List String) → has_text s out ≡ false → All (λ y. y ≢ s) out
unfolding has_text
unseen s out h = All-imp (λ y e. ground (arith, eq_iff y s)) out (any-false (λ t. t == s) out h)

module _ (trim : String → String) where
  collect-IsList :
      (refs : List ControlRef) (out : List String)
      → IsList out
      → length out + 1 ≤ asff_max_requirements
      → IsList (collect_requirements trim refs out)
        × (length (collect_requirements trim refs out) ≤ asff_max_requirements)
  unfolding collect_requirements
  collect-IsList [] out w l = (w, omega arith)
  collect-IsList (ref ∷ refs) out w l =
      let s = requirement trim ref in
      elim (Bool-cases (s == "" || has_text s out)) [
        | inl y ↦ rw y (collect-IsList refs out w l)
        | inr n ↦
            let next : IsList (out ++ s ∷ []) = record {
              apart = NoRepeat-snoc out s (unseen s out (ground arith)) w.apart;
              texts =
                  All-append (λ s. s ≢ "") out (s ∷ []) w.texts (ground (arith, eq_iff s ""), tt);
            } in
            let size = length-append out (s ∷ []) in
            elim (Bool-cases (leb asff_max_requirements (length (out ++ s ∷ [])))) [
              | inl f ↦ rw (n, f) (next, omega (arith, size))
              | inr k ↦ rw (n, k) (collect-IsList refs (out ++ s ∷ []) next (ground (arith, size)))
            ]
      ]

insert-All :
    (P : String → Type 0) (x : String) (l : List String) → P x → All P l → All P (insert str_lt x l)
unfolding insert
insert-All P x [] p h = (p, tt)
insert-All P x (y ∷ ys) p h = elim (Bool-cases (str_lt y x)) [
  | inl e ↦ rw e (h.0, insert-All P x ys p h.1)
  | inr e ↦ rw e (p, h)
]

insert-NoRepeat :
    (x : String) (l : List String) → All (λ y. y ≢ x) l → NoRepeat l → NoRepeat (insert str_lt x l)
unfolding insert NoRepeat
insert-NoRepeat x [] a n = (tt, tt)
insert-NoRepeat x (y ∷ ys) a n = elim (Bool-cases (str_lt y x)) [
  | inl e ↦ rw e (insert-All (λ z. z ≢ y) x ys (λ z. a.0 (sym z)) n.0, insert-NoRepeat x ys a.1 n.1)
  | inr e ↦ rw e (a, n)
]

sort_strings-NoRepeat : (l : List String) → NoRepeat l → NoRepeat (sort_strings l)
unfolding sort_strings sort_stable NoRepeat
sort_strings-NoRepeat [] n = tt
sort_strings-NoRepeat (x ∷ xs) n =
    insert-NoRepeat x (sort_strings xs) (sort_stable-All str_lt (λ y. y ≢ x) xs n.0)
      (sort_strings-NoRepeat xs n.1)

length-sort_strings : (l : List String) → length (sort_strings l) ≡ length l
unfolding sort_strings
length-sort_strings = length-sort_stable str_lt

module _ (trim : String → String) (f : Finding) where
  -- The related requirements of a finding are at most 32 texts, none of them empty and none twice.
  pub asff_requirements-bounded :
      (length (asff_requirements trim f) ≤ asff_max_requirements)
      × All (λ s. s ≢ "") (asff_requirements trim f)
      × NoRepeat (asff_requirements trim f)
  unfolding asff_requirements sort_strings
  asff_requirements-bounded =
      let (w, l) =
        collect-IsList trim f.refs [] (record { apart = unfold NoRepeat in tt; texts = tt })
          (omega arith) in
      let out = collect_requirements trim f.refs [] in
      (
        omega (arith, length-sort_strings out, l),
        sort_stable-All str_lt (λ s. s ≢ "") out w.texts,
        sort_strings-NoRepeat out w.apart,
      )
