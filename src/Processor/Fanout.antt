-- ===== src/Processor/Fanout.antt =====
-- Which work items `buildWorkItems` makes.
use innovation_sandbox_on_aw.Common.{
  ◌≡◌, refl, ap, ◌∙◌, String, Bool, true, false, ◌||◌, Bool-cases, inl, inr, List, [], ◌∷◌, ◌++◌,
  map, any, any-append, arith, eq_iff, str_eq,
}
use innovation_sandbox_on_aw.Types.{DesiredAssignment}
use innovation_sandbox_on_aw.World.{Assignment}
use innovation_sandbox_on_aw.Processor.{
  WorkItem, is_for, add_item, add_items, desired_to_work_item, record_to_work_item, union_items,
}

-- No two items are for the same principal.
abbrev pub IsDistinct : List WorkItem → Type 0
IsDistinct [] = Unit
IsDistinct (i ∷ is) = (any (is_for i.principal_id) is ≡ false) × IsDistinct is

IsDistinct-snoc :
    (items : List WorkItem) (i : WorkItem)
    → IsDistinct items
    → any (is_for i.principal_id) items ≡ false
    → IsDistinct (items ++ i ∷ [])
IsDistinct-snoc [] i h new = (refl, tt)
IsDistinct-snoc (x ∷ xs) i (h, hs) new = (
  any-append (is_for x.principal_id) xs (i ∷ [])
      ∙ ground (arith, eq_iff i.principal_id x.principal_id, eq_iff x.principal_id i.principal_id),
  IsDistinct-snoc xs i hs (ground arith),
)

add_item-IsDistinct :
    (items : List WorkItem) (i : WorkItem) → IsDistinct items → IsDistinct (add_item items i)
unfolding add_item
add_item-IsDistinct items i h = elim (Bool-cases (any (is_for i.principal_id) items)) [
  | inl e ↦ rw e h
  | inr e ↦ rw e (IsDistinct-snoc items i h e)
]

add_items-IsDistinct :
    (items is : List WorkItem) → IsDistinct items → IsDistinct (add_items items is)
unfolding add_items
add_items-IsDistinct items [] h = h
add_items-IsDistinct items (i ∷ is) h =
    add_items-IsDistinct (add_item items i) is (add_item-IsDistinct items i h)

pub union_items-IsDistinct :
    (arn : String) (desired : List DesiredAssignment) (records : List Assignment)
    → IsDistinct (union_items arn desired records)
unfolding union_items
union_items-IsDistinct arn desired records =
    let first = map (desired_to_work_item arn) desired in
    add_items-IsDistinct (add_items [] first) (map (record_to_work_item arn) records)
      (add_items-IsDistinct [] first tt)

any-is_for :
    (id id' : String) (items : List WorkItem)
    → str_eq id id' ≡ true
    → any (is_for id) items ≡ any (is_for id') items
any-is_for id id' items e = ap (λ x. any (is_for x) items) ((eq_iff id id').0 e)

any-add_item :
    (id : String) (items : List WorkItem) (i : WorkItem)
    → any (is_for id) (add_item items i) ≡ (any (is_for id) items || is_for id i)
unfolding add_item
any-add_item id items i = elim (Bool-cases (any (is_for i.principal_id) items)) [
  | inl e ↦ rw e (elim (Bool-cases (is_for id i)) [
    | inl p ↦ ground (arith, any-is_for i.principal_id id items p)
    | inr p ↦ ground arith
  ])
  | inr e ↦ rw e (any-append (is_for id) items (i ∷ []) ∙ ground arith)
]

any-add_items :
    (id : String) (items is : List WorkItem)
    → any (is_for id) (add_items items is) ≡ (any (is_for id) items || any (is_for id) is)
unfolding add_items
any-add_items id items [] = ground arith
any-add_items id items (i ∷ is) =
    any-add_items id (add_item items i) is ∙ ground (arith, any-add_item id items i)

abbrev pub is_desired_id : String → DesiredAssignment → Bool
is_desired_id id d = str_eq d.principal_id id

abbrev pub is_record_id : String → Assignment → Bool
is_record_id id a = str_eq a.principal_id id

any-desired :
    (arn id : String) (ds : List DesiredAssignment)
    → any (is_for id) (map (desired_to_work_item arn) ds) ≡ any (is_desired_id id) ds
unfolding desired_to_work_item
any-desired arn id [] = refl
any-desired arn id (d ∷ ds) = ap (λ b. str_eq d.principal_id id || b) (any-desired arn id ds)

any-records :
    (arn id : String) (as' : List Assignment)
    → any (is_for id) (map (record_to_work_item arn) as') ≡ any (is_record_id id) as'
unfolding record_to_work_item
any-records arn id [] = refl
any-records arn id (a ∷ as') = ap (λ b. str_eq a.principal_id id || b) (any-records arn id as')

-- A principal has a work item exactly if it is desired or has a record.
pub any-union_items :
    (arn id : String) (desired : List DesiredAssignment) (records : List Assignment)
    → any (is_for id) (union_items arn desired records)
      ≡ (any (is_desired_id id) desired || any (is_record_id id) records)
unfolding union_items
any-union_items arn id desired records =
    any-add_items id (add_items [] (map (desired_to_work_item arn) desired))
      (map (record_to_work_item arn) records)
    ∙ ground (
      arith,
      any-add_items id [] (map (desired_to_work_item arn) desired),
      any-desired arn id desired,
      any-records arn id records,
    )
