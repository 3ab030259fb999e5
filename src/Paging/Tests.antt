-- ===== src/Paging/Tests.antt =====
-- Four items on two pages of two; the token is the number of the page.
use innovation_sandbox_on_aw.Common.{
  ℕ, ◌<◌, ◌≡◌, refl, Option, none, some, List, [], ◌∷◌, ◌++◌, arith,
}
use innovation_sandbox_on_aw.Paging.{Page, stream, collect}
use innovation_sandbox_on_aw.Paging.Pages.{IsPaged, limited, collect-stream}

abbrev query : Option ℕ → Page ℕ ℕ
query none = record { result = 1 ∷ 2 ∷ []; next_page_identifier = some 1 }
query (some n) = record { result = 3 ∷ 4 ∷ []; next_page_identifier = none }

abbrev remaining : Option ℕ → List ℕ
remaining none = 1 ∷ 2 ∷ 3 ∷ 4 ∷ []
remaining (some n) = 3 ∷ 4 ∷ []

abbrev pages_left : Option ℕ → ℕ
pages_left none = 1
pages_left (some n) = 0

query-IsPaged : IsPaged query remaining pages_left
query-IsPaged = record { last_page = last; more_pages = more }
  where
    last : (t : Option ℕ) → (query t).next_page_identifier ≡ none → remaining t ≡ (query t).result
    last none h = cc
    last (some n) h = refl

    more :
        (t : Option ℕ) (next : ℕ)
        → (query t).next_page_identifier ≡ some next
        → (remaining t ≡ (query t).result ++ remaining (some next))
          × (pages_left (some next) < pages_left t)
    more none next h = (refl, omega arith)
    more (some n) next h = cc

collect-stream_example :
    (items : List ℕ) × (stream query 2 none ≡ some items)
    × (collect (some 3) items ≡ limited (some 3) (remaining none))
collect-stream_example =
    collect-stream query remaining pages_left query-IsPaged 2 none (some 3) (omega arith)
