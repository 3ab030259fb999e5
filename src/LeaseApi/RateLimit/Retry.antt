-- ===== src/LeaseApi/RateLimit/Retry.antt =====
-- What the time that a refused request is told means.
use innovation_sandbox_on_aw.Common.{
  ℕ, zero, suc, ◌+◌, ◌-◌, ◌≤◌, ◌<◌, ◌≡◌, refl, ap, ◌∙◌, Bool, true, Bool-cases, inl, inr, subst,
  some, List, [], ◌∷◌, keep, length, get_elem?, leb, ltb, All, arith,
}
use innovation_sandbox_on_aw.Table.{count}
use innovation_sandbox_on_aw.LeaseApi.RateLimit.{is_in_window, insert_time, sort_times}

module _ (q : ℕ → Bool) where
  count-insert : (t : ℕ) (xs : List ℕ) → count q (insert_time t xs) ≡ count q (t ∷ xs)
  count-insert t [] = refl
  count-insert t (x ∷ xs) = ground (arith, count-insert t xs)

  pub count-sort : (xs : List ℕ) → count q (sort_times xs) ≡ count q xs
  unfolding sort_times
  count-sort [] = refl
  count-sort (t ∷ ts) = count-insert t (sort_times ts) ∙ ground (arith, count-sort ts)

  count-keep_le : (r : ℕ → Bool) (xs : List ℕ) → count q (keep r xs) ≤ count q xs
  count-keep_le r [] = omega arith
  count-keep_le r (x ∷ xs) = ground (arith, count-keep_le r xs)

  count-length : (xs : List ℕ) → count q xs ≤ length xs
  count-length [] = omega arith
  count-length (x ∷ xs) = ground (arith, count-length xs)

  -- A test that implies another.
  count-le :
      (r : ℕ → Bool) (xs : List ℕ) → ((t : ℕ) → q t ≡ true → r t ≡ true) → count q xs ≤ count r xs
  count-le r [] h = omega arith
  count-le r (x ∷ xs) h = ground (arith, count-le r xs h, h x)

  count-keep :
      (r : ℕ → Bool) (xs : List ℕ)
      → ((t : ℕ) → q t ≡ true → r t ≡ true)
      → count q (keep r xs) ≡ count q xs
  count-keep r [] h = refl
  count-keep r (x ∷ xs) h = ground (arith, count-keep r xs h, h x)

length-insert : (t : ℕ) (xs : List ℕ) → length (insert_time t xs) ≡ suc (length xs)
length-insert t [] = refl
length-insert t (x ∷ xs) = ground (arith, length-insert t xs)

pub length-sort : (xs : List ℕ) → length (sort_times xs) ≡ length xs
unfolding sort_times
length-sort [] = refl
length-sort (t ∷ ts) = length-insert t (sort_times ts) ∙ ap suc (length-sort ts)

abbrev IsSorted : List ℕ → Type 0
IsSorted [] = Unit
IsSorted (x ∷ xs) = All (λ y. x ≤ y) xs × IsSorted xs

All-insert :
    (b t : ℕ) (xs : List ℕ) → b ≤ t → All (λ y. b ≤ y) xs → All (λ y. b ≤ y) (insert_time t xs)
All-insert b t [] h hs = (h, tt)
All-insert b t (x ∷ xs) h (k, ks) = elim (Bool-cases (leb t x)) [
  | inl e ↦ rw e (h, (k, ks))
  | inr e ↦ rw e (k, All-insert b t xs h ks)
]

All-weaken : (b c : ℕ) (xs : List ℕ) → b ≤ c → All (λ y. c ≤ y) xs → All (λ y. b ≤ y) xs
All-weaken b c [] h hs = tt
All-weaken b c (x ∷ xs) h (k, ks) = (omega arith, All-weaken b c xs h ks)

insert_time-IsSorted : (t : ℕ) (xs : List ℕ) → IsSorted xs → IsSorted (insert_time t xs)
insert_time-IsSorted t [] h = (tt, tt)
insert_time-IsSorted t (x ∷ xs) (h, hs) = elim (Bool-cases (leb t x)) [
  | inl e ↦
      let before : t ≤ x = ground (arith, e) in rw e ((before, All-weaken t x xs before h), (h, hs))
  | inr e ↦
      let before : x ≤ t = ground (arith, e) in
      rw e (All-insert x t xs before h, insert_time-IsSorted t xs hs)
]

sort_times-IsSorted : (xs : List ℕ) → IsSorted (sort_times xs)
unfolding sort_times
sort_times-IsSorted [] = tt
sort_times-IsSorted (t ∷ ts) = insert_time-IsSorted t (sort_times ts) (sort_times-IsSorted ts)

-- An entry is there for each index below the length.
pub entry_at : (xs : List ℕ) (i : ℕ) → i < length xs → (p : ℕ) × (get_elem? xs i ≡ some p)
entry_at [] i h = absurd (omega arith)
entry_at (x ∷ xs) zero h = (x, refl)
entry_at (x ∷ xs) (suc i) h = entry_at xs i (omega arith)

All-entry : (b : ℕ) (xs : List ℕ) (i p : ℕ) → All (λ y. b ≤ y) xs → get_elem? xs i ≡ some p → b ≤ p
All-entry b [] i p h e = cc
All-entry b (x ∷ xs) zero p (h, hs) e = let same : x ≡ p = cc in omega arith
All-entry b (x ∷ xs) (suc i) p (h, hs) e = All-entry b xs i p hs e

count-All : (b : ℕ) (xs : List ℕ) → All (λ y. b ≤ y) xs → count (leb b) xs ≡ length xs
count-All b [] h = refl
count-All b (x ∷ xs) (h, hs) = ground (arith, count-All b xs hs)

-- In a sorted list the entries from an index on are no earlier than the one at the index.
at_least :
    (xs : List ℕ) (i p : ℕ)
    → IsSorted xs
    → get_elem? xs i ≡ some p
    → length xs ≤ count (leb p) xs + i
at_least [] i p h e = omega arith
at_least (x ∷ xs) zero p (h, hs) e =
    let same : x ≡ p = cc in
    ground (arith, same, subst (λ b. count (leb b) xs ≡ length xs) same (count-All x xs h))
at_least (x ∷ xs) (suc i) p (h, hs) e = ground (arith, at_least xs i p hs e)

-- Those that are later stand after the index.
fewer_after :
    (xs : List ℕ) (i p : ℕ)
    → IsSorted xs
    → get_elem? xs i ≡ some p
    → count (ltb p) xs + i < length xs
fewer_after [] i p h e = cc
fewer_after (x ∷ xs) zero p (h, hs) e =
    let same : x ≡ p = cc in ground (arith, count-length (ltb p) xs)
fewer_after (x ∷ xs) (suc i) p (h, hs) e =
    let before = All-entry x xs i p h e in ground (arith, fewer_after xs i p hs e)

module _ (limit window now : ℕ) (all : List ℕ) (bounded : 0 < limit) where
  module _ (p : ℕ) (full : limit ≤ length (keep (is_in_window now window) all))
      (at : get_elem?
          (sort_times (keep (is_in_window now window) all))
          (length (keep (is_in_window now window) all) - limit)
        ≡ some p) where
    times : List ℕ
    times = keep (is_in_window now window) all

    entries : length (sort_times times) ≡ length times
    entries = length-sort times

    pub allowed_after :
        (later : ℕ)
        → now ≤ later
        → p + window < later
        → count (is_in_window later window) all < limit
    unfolding times
    allowed_after later ahead past =
        let few = fewer_after (sort_times times) _ p (sort_times-IsSorted times) at in
        let same = count-sort (ltb p) times in
        let within =
          count-keep (is_in_window later window) (is_in_window now window) all
            (λ t h. ground (arith, h)) in
        let young = count-le (is_in_window later window) (ltb p) times (λ t h. ground (arith, h)) in
        omega (arith, few, same, within, young, entries, full)

    pub refused_until : (m : ℕ) → m ≤ p + window → limit ≤ count (is_in_window m window) all
    unfolding times
    refused_until m soon =
        let many = at_least (sort_times times) _ p (sort_times-IsSorted times) at in
        let same = count-sort (leb p) times in
        let within = count-keep_le (is_in_window m window) (is_in_window now window) all in
        let old = count-le (leb p) (is_in_window m window) times (λ t h. ground (arith, h)) in
        omega (arith, many, same, within, old, entries, full)
