-- ===== src/Paging/Pages.antt =====
-- What is collected, and from how many pages.
use innovation_sandbox_on_aw.Common.{
  ℕ, zero, suc, ◌+◌, ◌<◌, ◌≡◌, refl, sym, ap, ◌∙◌, true, false, Option, none, some, Option-cases,
  inl, inr, List, [], ◌∷◌, ◌++◌, length, length-append, arith,
}
use mathlib.Core.List.{append_assoc, append-nil}
use innovation_sandbox_on_aw.Paging.{Page, after_page, stream, is_full, collect_onto, collect}

-- What a query has to do to be read in pages: from a token on there is `remaining`, a page is the
-- front of it, its token goes on after the page, and the pages left get fewer.
pub record IsPaged {Token A : Type 0} (query : Option Token → Page Token A)
    (remaining : Option Token → List A) (pages_left : Option Token → ℕ) : Type 0 where
  pub last_page :
      (token : Option Token)
      → (query token).next_page_identifier ≡ none
      → remaining token ≡ (query token).result
  pub more_pages :
      (token : Option Token) (next : Token)
      → (query token).next_page_identifier ≡ some next
      → (remaining token ≡ (query token).result ++ remaining (some next))
        × (pages_left (some next) < pages_left token)

abbrev pub first : {A : Type 0} → ℕ → List A → List A
first zero xs = []
first (suc n) [] = []
first (suc n) (x ∷ xs) = x ∷ first n xs

-- The first items up to the limit; all of them if there is none, or if it is zero.
abbrev pub limited : {A : Type 0} → Option ℕ → List A → List A
limited none xs = xs
limited (some zero) xs = xs
limited (some (suc n)) xs = first (suc n) xs

module _ {A : Type 0} where
  unlimited :
      (max : Option ℕ) (items xs : List A)
      → ((ys : List A) → is_full max ys ≡ false)
      → collect_onto max items xs ≡ items ++ xs
  unfolding collect_onto
  unlimited max items [] h = sym (append-nil items)
  unlimited max items (x ∷ xs) h =
      rw (h (items ++ x ∷ []))
        (unlimited max (items ++ x ∷ []) xs h ∙ append_assoc items (x ∷ []) xs)

  up_to :
      (max n : ℕ) (items xs : List A)
      → length items + suc n ≡ max
      → collect_onto (some max) items xs ≡ items ++ first (suc n) xs
  unfolding collect_onto
  up_to max n items [] h = sym (append-nil items)
  up_to max zero items (x ∷ xs) h =
      let full : is_full (some max) (items ++ x ∷ []) ≡ true =
        ground (arith, length-append items (x ∷ [])) in
      rw full refl
  up_to max (suc n) items (x ∷ xs) h =
      let open' : is_full (some max) (items ++ x ∷ []) ≡ false =
        ground (arith, length-append items (x ∷ [])) in
      rw open' (
        up_to max n (items ++ x ∷ []) xs (omega (arith, length-append items (x ∷ [])))
        ∙ append_assoc items (x ∷ []) (first (suc n) xs))

  collect_lem : (max : Option ℕ) (xs : List A) → collect max xs ≡ limited max xs
  unfolding collect
  collect_lem none xs = unlimited none [] xs (λ ys. refl)
  collect_lem (some zero) xs = unlimited (some 0) [] xs (λ ys. refl)
  collect_lem (some (suc n)) xs = up_to (suc n) n [] xs (omega arith)

module _ {Token A : Type 0} (query : Option Token → Page Token A)
    (remaining : Option Token → List A) (pages_left : Option Token → ℕ)
    (paged : IsPaged query remaining pages_left) where
  stream-some :
      (fuel : ℕ) (token : Option Token)
      → pages_left token < fuel
      → stream query fuel token ≡ some (remaining token)
  unfolding stream
  stream-some zero token h = absurd (omega arith)
  stream-some (suc fuel) token h = elim (Option-cases (query token).next_page_identifier) [
    | inl e ↦ rw (stream, e) (ap some (sym (paged.last_page token e)))
    | inr (t, e) ↦
        let (is, fewer) = paged.more_pages token t e in
        rw (stream, e)
          (ap (after_page (query token).result) (stream-some fuel (some t) (omega arith))
            ∙ ap some (sym is))
  ]

  -- If the query is read in pages, and the pages left from a token on get fewer from one token to
  -- the next, then reading it ends within that many pages and one more, and what `collect` makes of
  -- it are all items that were left, in order, or the first of them up to a limit that is not zero.
  pub collect-stream :
      (fuel : ℕ) (token : Option Token) (max : Option ℕ)
      → pages_left token < fuel
      → (items : List A) × (stream query fuel token ≡ some items)
        × (collect max items ≡ limited max (remaining token))
  collect-stream fuel token max h =
      (remaining token, stream-some fuel token h, collect_lem max (remaining token))
