-- ===== src/Paging.antt =====
-- `stream` and `collect` of source/common/data/utils.ts: a query that comes in pages is read to its
-- end. The query is a parameter, a page of it a function of the page's token; the fuel counts pages.
pub mod Pages
mod Tests
use innovation_sandbox_on_aw.Common.{
  ℕ, zero, suc, ◌+◌, Option, none, some, Bool, true, false, ◌&&◌, not, List, [], ◌∷◌, ◌++◌, length,
  leb, ◌==◌, if◌then◌else◌,
}

-- `PaginatedQueryResult`
pub record Page (Token A : Type 0) : Type 0 where
  pub result : List A
  pub next_page_identifier : Option Token

abbrev pub after_page : {A : Type 0} → List A → Option (List A) → Option (List A)
after_page items none = none
after_page items (some rest) = some (items ++ rest)

module _ {Token A : Type 0} (query : Option Token → Page Token A) where
  -- `stream`: all that it yields, or `none` if there are more pages than the fuel allows.
  unfoldable pub stream : (fuel : ℕ) → Option Token → Option (List A)
  stream zero token = none
  stream (suc fuel) token =
      let page = query token in
      elim page.next_page_identifier [
        | none ↦ some page.result
        | some next ↦ after_page page.result (stream fuel (some next))
      ]

module _ {A : Type 0} where
  -- `opt?.maxCount && collectedItems.length >= opt.maxCount`: a limit of zero is none.
  abbrev pub is_full : Option ℕ → List A → Bool
  is_full none items = false
  is_full (some max) items = not (max == 0) && leb max (length items)

  -- The loop of `collect`, with what it has collected.
  unfoldable pub collect_onto : Option ℕ → List A → List A → List A
  collect_onto max items [] = items
  collect_onto max items (x ∷ xs) =
      if is_full max (items ++ x ∷ [])
      then items ++ x ∷ []
      else collect_onto max (items ++ x ∷ []) xs

  unfoldable pub collect : Option ℕ → List A → List A
  unfolding collect_onto
  collect max xs = collect_onto max [] xs
