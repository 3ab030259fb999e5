-- ===== src/Table.antt =====
-- A DynamoDB table as the list of its items. `p` is the test for one key; a put replaces the
-- item at the key where it stands, or adds the item.
use innovation_sandbox_on_aw.Common.{
  ℕ, ◌+◌, ◌≤◌, ◌≡◌, refl, Bool, true, false, Bool-cases, inl, inr, some, none, List, [], ◌∷◌, arith,
  find, keep, length, not, if◌then◌else◌, All,
}

module _ {A : Type 0} where
  unfoldable pub put : (A → Bool) → A → List A → List A
  put p a [] = a ∷ []
  put p a (x ∷ xs) = if p x then a ∷ xs else x ∷ put p a xs

  unfoldable pub erase : (A → Bool) → List A → List A
  erase p xs = keep (λ x. not (p x)) xs

  abbrev pub count : (A → Bool) → List A → ℕ
  count q xs = length (keep q xs)

  pub find-put : (p : A → Bool) (a : A) (xs : List A) → p a ≡ true → find p (put p a xs) ≡ some a
  unfolding put
  find-put p a [] e = ground arith
  find-put p a (x ∷ xs) e = ground (arith, find-put p a xs e)

  pub find-holds : (p : A → Bool) (xs : List A) (a : A) → find p xs ≡ some a → p a ≡ true
  find-holds p [] a e = cc
  find-holds p (x ∷ xs) a e = ground (arith, find-holds p xs a)

  -- Another key's item is not touched.
  pub find-put_ne :
      (p q : A → Bool) (a : A) (xs : List A)
      → q a ≡ false
      → ((x : A) → p x ≡ true → q x ≡ false)
      → find q (put p a xs) ≡ find q xs
  unfolding put
  find-put_ne p q a [] e apart = ground arith
  find-put_ne p q a (x ∷ xs) e apart = ground (arith, find-put_ne p q a xs e apart, apart x)

  pub find-erase : (p : A → Bool) (xs : List A) → find p (erase p xs) ≡ none
  unfolding erase
  find-erase p [] = refl
  find-erase p (x ∷ xs) = ground (arith, find-erase p xs)

  pub find-erase_ne :
      (p q : A → Bool) (xs : List A)
      → ((x : A) → p x ≡ true → q x ≡ false)
      → find q (erase p xs) ≡ find q xs
  unfolding erase
  find-erase_ne p q [] apart = refl
  find-erase_ne p q (x ∷ xs) apart = ground (arith, find-erase_ne p q xs apart, apart x)

  -- Putting back the item that was there restores the table.
  pub put-put :
      (p : A → Bool) (a b : A) (xs : List A) → p b ≡ true → put p a (put p b xs) ≡ put p a xs
  unfolding put
  put-put p a b [] e = ground arith
  put-put p a b (x ∷ xs) e = ground (arith, put-put p a b xs e)

  pub put-find : (p : A → Bool) (a : A) (xs : List A) → find p xs ≡ some a → put p a xs ≡ xs
  unfolding put
  put-find p a [] e = cc
  put-find p a (x ∷ xs) e = ground (arith, put-find p a xs)

  pub erase-put_new :
      (p : A → Bool) (a : A) (xs : List A)
      → p a ≡ true
      → find p xs ≡ none
      → erase p (put p a xs) ≡ xs
  unfolding put erase
  erase-put_new p a [] e free = ground arith
  erase-put_new p a (x ∷ xs) e free = ground (arith, erase-put_new p a xs e)

  pub count-put_new :
      (p q : A → Bool) (a : A) (xs : List A)
      → find p xs ≡ none
      → count q (put p a xs) ≡ count q xs + (if q a then 1 else 0)
  unfolding put
  count-put_new p q a [] free = ground arith
  count-put_new p q a (x ∷ xs) free = ground (arith, count-put_new p q a xs)

  count-put_other :
      (p q : A → Bool) (a : A) (xs : List A)
      → q a ≡ false
      → ((x : A) → p x ≡ true → q x ≡ q a)
      → count q (put p a xs) ≡ count q xs
  unfolding put
  count-put_other p q a [] e agree = ground arith
  count-put_other p q a (x ∷ xs) e agree = ground (arith, count-put_other p q a xs e agree, agree x)

  -- If `q` stands for one key, as `p` does, a put adds no second item at it.
  pub count-put :
      (p q : A → Bool) (a : A) (xs : List A)
      → ((x : A) → p x ≡ true → q x ≡ q a)
      → ((x : A) → q a ≡ true → q x ≡ true → p x ≡ true)
      → count q xs ≤ 1
      → count q (put p a xs) ≤ 1
  unfolding put
  count-put p q a [] agree back few = ground arith
  count-put p q a (x ∷ xs) agree back few = elim (Bool-cases (q a)) [
    | inl e ↦ ground (arith, agree x, back x, count-put p q a xs agree back)
    | inr e ↦ ground (arith, agree x, count-put_other p q a xs e agree)
  ]

  pub count-erase : (p q : A → Bool) (xs : List A) → count q (erase p xs) ≤ count q xs
  unfolding erase
  count-erase p q [] = ground arith
  count-erase p q (x ∷ xs) = ground (arith, count-erase p q xs)

  pub All-put :
      (P : A → Type 0) (p : A → Bool) (a : A) (xs : List A) → P a → All P xs → All P (put p a xs)
  unfolding put
  All-put P p a [] h hs = (h, hs)
  All-put P p a (x ∷ xs) h (k, ks) = elim (Bool-cases (p x)) [
    | inl e ↦ rw e (h, ks)
    | inr e ↦ rw e (k, All-put P p a xs h ks)
  ]

  pub All-erase : (P : A → Type 0) (p : A → Bool) (xs : List A) → All P xs → All P (erase p xs)
  unfolding erase
  All-erase P p [] h = h
  All-erase P p (x ∷ xs) (k, ks) = elim (Bool-cases (p x)) [
    | inl e ↦ rw e (All-erase P p xs ks)
    | inr e ↦ rw e (k, All-erase P p xs ks)
  ]
