-- ===== src/LeaseApi/Views/Shown.antt =====
-- Which principals the API shows for a lease.
use innovation_sandbox_on_aw.Common.{
  ℕ, ◌≡◌, refl, ap, ◌∙◌, inl, inr, String, Bool, false, Option, is_some, List, [], ◌∷◌, ◌++◌, map,
  any, keep, Bool-cases, or_default, str_eq, eq_iff, ◌+◌, keep-append, length-append, arith,
  if◌then◌else◌,
}
use innovation_sandbox_on_aw.Types.{Lease, Intent, DesiredAssignment}
use innovation_sandbox_on_aw.Table.{count}
use innovation_sandbox_on_aw.World.{Assignment}
use innovation_sandbox_on_aw.LeaseApi.Views.{
  AssignmentView, view_from_desired, view_from_assignment, desired_for, views_from_records,
  desired_only, views_during, operation_in_progress, no_access_expected, is_assigned,
  derive_assignment_view,
}

count-map :
    {A B : Type 0} (q : B → Bool) (f : A → B) (xs : List A)
    → count q (map f xs) ≡ count (λ a. q (f a)) xs
count-map q f [] = refl
count-map q f (x ∷ xs) = ground (arith, count-map q f xs)

count-append :
    {A : Type 0} (q : A → Bool) (xs ys : List A) → count q (xs ++ ys) ≡ count q xs + count q ys
count-append q xs ys = rw (keep-append q xs ys) (length-append (keep q xs) (keep q ys))

-- Of the entries for a principal all are kept if it has no record, and none if it has.
count-desired_only :
    (records : List Assignment) (id : String) (ds : List DesiredAssignment)
    → count (λ (d : DesiredAssignment). str_eq d.principal_id id) (desired_only records ds) ≡ (
        if is_assigned records id
        then 0
        else count (λ (d : DesiredAssignment). str_eq d.principal_id id) ds)
count-desired_only records id [] = ground arith
count-desired_only records id (d ∷ ds) = elim (Bool-cases (str_eq d.principal_id id)) [
  | inl e ↦
      let same : is_assigned records d.principal_id ≡ is_assigned records id =
        ap (is_assigned records) ((eq_iff d.principal_id id).0 e) in
      ground (arith, e, same, count-desired_only records id ds)
  | inr e ↦ ground (arith, e, count-desired_only records id ds)
]

count-none : {A : Type 0} (q : A → Bool) (xs : List A) → any q xs ≡ false → count q xs ≡ 0
count-none q [] h = refl
count-none q (x ∷ xs) h = ground (arith, count-none q xs, h)

count-views_during :
    (l : Lease) (records : List Assignment) (operation : Option Intent) (id : String)
    → count (λ (v : AssignmentView). str_eq v.principal_id id) (views_during l records operation)
      ≡ count (λ (a : Assignment). str_eq a.principal_id id) records
        + count
            (λ (d : DesiredAssignment). str_eq d.principal_id id)
            (desired_only records (or_default l.desired_assignments []))
unfolding views_during view_from_assignment view_from_desired
count-views_during l records operation id =
    count-append shows (views_from_records l desired no_access flight records)
      (map (view_from_desired l no_access flight) (desired_only records desired))
    ∙ ap
        (λ n.
          n
          + count shows (map (view_from_desired l no_access flight) (desired_only records desired)))
        (count-map shows
          (λ (a : Assignment).
            view_from_assignment l no_access flight (desired_for a.principal_id desired) a)
          records)
    ∙ ap (λ n. count (λ (a : Assignment). str_eq a.principal_id id) records + n)
        (count-map shows (view_from_desired l no_access flight) (desired_only records desired))
  where
    shows : AssignmentView → Bool
    shows v = str_eq v.principal_id id

    desired : List DesiredAssignment
    desired = or_default l.desired_assignments []

    no_access : Bool
    no_access = no_access_expected l operation

    flight : Bool
    flight = is_some operation

-- The API shows a principal as often as there are records of it, and one without a record as often
-- as the lease desires it, whatever operation runs.
pub count-derive_assignment_view :
    (l : Lease) (records : List Assignment) (now : ℕ) (id : String)
    → count
        (λ (v : AssignmentView). str_eq v.principal_id id)
        (derive_assignment_view l records now).0
      ≡ (if is_assigned records id
          then count (λ (a : Assignment). str_eq a.principal_id id) records
          else count
              (λ (d : DesiredAssignment). str_eq d.principal_id id)
              (or_default l.desired_assignments []))
unfolding derive_assignment_view
count-derive_assignment_view l records now id =
    let parts = count-views_during l records (operation_in_progress l.resource_lock now) id in
    let rest = count-desired_only records id (or_default l.desired_assignments []) in
    let free = count-none (λ (a : Assignment). str_eq a.principal_id id) records in
    elim (Bool-cases (is_assigned records id)) [
      | inl e ↦ rw e (parts ∙ omega (arith, rw e at rest))
      | inr e ↦ rw e (parts ∙ omega (arith, rw e at rest, free e))
    ]
