-- ===== src/Processor/Completion.antt =====
-- What `handleCompletion` announces, and that it gives the lock back.
use innovation_sandbox_on_aw.Common.{
  ◌≡◌, refl, sym, ap, ◌∙◌, subst, String, Bool, false, ◌&&◌, ◌||◌, not, Bool-cases, inl, inr,
  Option, none, some, List, [], ◌∷◌, map, any, keep, any-append, any-map_none, arith, eq_iff,
  str_eq,
}
use innovation_sandbox_on_aw.Types.{Lease}
use innovation_sandbox_on_aw.LeaseLock.{may_release}
use innovation_sandbox_on_aw.Outcome.{Result, ok, err, swallow, finally, remote_failure}
use innovation_sandbox_on_aw.Events.{Event, assignment_created, assignment_removed}
use innovation_sandbox_on_aw.LeaseStore.{release_lock}
use innovation_sandbox_on_aw.LeaseStore.Laws.{
  lease_in, released, unlocked, get_lease-Triple, release_lock-Triple, release_lock-ok, view-unlock,
}
use innovation_sandbox_on_aw.Sandbox.Parts.{after_events, SentSome, send_events-Triple}
use innovation_sandbox_on_aw.World.{World, Assignment, tick}
use innovation_sandbox_on_aw.World.Triple.{
  View, view, Ended, Triple, Triple-bind, Triple-map, Triple-pure, Triple-view, Triple-gets,
  Triple-finally, Triple-swallow,
}
use innovation_sandbox_on_aw.World.Triple.Bind.{bind_remote}
use innovation_sandbox_on_aw.Processor.{
  CompletionInput, FannedOut, has_string, principal_ids, fanned_out_ids, is_created, is_removed,
  created_event, removed_event, completion_events, desired_principal_ids, assignments_of,
  get_assignments_for_lease, complete_assignments, handle_completion,
}
use innovation_sandbox_on_aw.Processor.Fanout.{is_record_id}
use innovation_sandbox_on_aw.Processor.Settled.{records_in}

abbrev is_created_for : String → Event → Bool
is_created_for id (assignment_created _ p _ _ _ _ _) = str_eq p id
is_created_for id _ = false

abbrev is_removed_for : String → Event → Bool
is_removed_for id (assignment_removed _ p _ _ _ _) = str_eq p id
is_removed_for id _ = false

abbrev pub announces_created : String → List Event → Bool
announces_created id es = any (is_created_for id) es

abbrev pub announces_removed : String → List Event → Bool
announces_removed id es = any (is_removed_for id) es

-- The events that `f` makes of the entries that pass, where the test reads the id alone.
module _ {A : Type 0} (f : A → Event) (id_of : A → String) (test : String → Bool) (id : String)
    (p : Event → Bool) where
  any-made :
      ((x : A) → p (f x) ≡ str_eq (id_of x) id)
      → (xs : List A)
      → any p (map f (keep (λ x. test (id_of x)) xs))
        ≡ (test id && any (λ x. str_eq (id_of x) id) xs)
  any-made is [] = ground arith
  any-made is (x ∷ xs) = elim (Bool-cases (str_eq (id_of x) id)) [
    | inl e ↦
        let same : test (id_of x) ≡ test id = ap test ((eq_iff (id_of x) id).0 e) in
        ground (arith, any-made is xs, is x, same)
    | inr e ↦ ground (arith, any-made is xs, is x)
  ]

any-map_ids :
    {A : Type 0} (id_of : A → String) (id : String) (xs : List A)
    → has_string (map id_of xs) id ≡ any (λ x. str_eq (id_of x) id) xs
any-map_ids id_of id [] = refl
any-map_ids id_of id (x ∷ xs) = ap (λ b. str_eq (id_of x) id || b) (any-map_ids id_of id xs)

module _ (input : CompletionInput) (desired : List String) (records : List Assignment)
    (id : String) where
  abbrev created_id : String → Bool
  created_id i =
      has_string (fanned_out_ids input) i
      && (has_string desired i && not (has_string input.pre_existing i))

  abbrev removed_id : String → Bool
  removed_id i = not (has_string (principal_ids records) i) && not (has_string desired i)

  abbrev created_events : List Event
  created_events = map (created_event input) (keep (is_created input desired) records)

  abbrev removed_events : List Event
  removed_events =
      map (removed_event input) (keep (is_removed (principal_ids records) desired) input.fanned_out)

  created_lem :
      announces_created id (completion_events input desired records)
      ≡ (created_id id && any (is_record_id id) records)
  unfolding completion_events created_event removed_event
  created_lem =
      any-append (is_created_for id) created_events removed_events
      ∙ ground (
        arith,
        any-made (created_event input) (λ (a : Assignment). a.principal_id) created_id id
            (is_created_for id) (λ a. refl) records,
        any-map_none (is_created_for id) (removed_event input) (λ a. refl)
            (keep (is_removed (principal_ids records) desired) input.fanned_out),
      )

  removed_lem :
      announces_removed id (completion_events input desired records)
      ≡ (removed_id id && any (λ (p : FannedOut). str_eq p.principal_id id) input.fanned_out)
  unfolding completion_events created_event removed_event
  removed_lem =
      any-append (is_removed_for id) created_events removed_events
      ∙ ground (
        arith,
        any-map_none (is_removed_for id) (created_event input) (λ a. refl)
            (keep (is_created input desired) records),
        any-made (removed_event input) (λ (p : FannedOut). p.principal_id) removed_id id
            (is_removed_for id) (λ a. refl) input.fanned_out,
      )

-- The ids that the lease wants to have access, and the records that the lease has.
abbrev pub desired_in : CompletionInput → View → List String
desired_in input g =
    desired_principal_ids input.intent
      (assignments_of (lease_in g input.lease_owner_email input.lease_id))

released-sent :
    (input : CompletionInput) (v : View)
    → (released input.lease_owner_email input.lease_id input.lock_owner_id v).sent ≡ v.sent
released-sent input v = unlocked-sent (lease_in v input.lease_owner_email input.lease_id)
  where
    unlocked-sent :
        (found : Option Lease)
        → (unlocked input.lease_owner_email input.lease_id input.lock_owner_id found v).sent
          ≡ v.sent
    unlocked-sent none = refl
    unlocked-sent (some l) = elim (Bool-cases (may_release input.lock_owner_id l.resource_lock)) [
      | inl e ↦ rw e refl
      | inr e ↦ rw e refl
    ]

released-leases :
    (input : CompletionInput) (u g : View)
    → u.leases ≡ g.leases
    → (released input.lease_owner_email input.lease_id input.lock_owner_id u).leases
      ≡ (released input.lease_owner_email input.lease_id input.lock_owner_id g).leases
released-leases input u g p =
    subst
      (λ ls.
        (released input.lease_owner_email input.lease_id input.lock_owner_id u).leases
        ≡ (released input.lease_owner_email input.lease_id input.lock_owner_id
            (record g { leases = ls })).leases)
      p (alike (lease_in u input.lease_owner_email input.lease_id))
  where
    alike :
        (found : Option Lease)
        → (unlocked input.lease_owner_email input.lease_id input.lock_owner_id found u).leases
          ≡ (unlocked input.lease_owner_email input.lease_id input.lock_owner_id found
              (record g { leases = u.leases })).leases
    alike none = refl
    alike (some l) = elim (Bool-cases (may_release input.lock_owner_id l.resource_lock)) [
      | inl e ↦ rw e refl
      | inr e ↦ rw e refl
    ]

Ended-leases :
    {A : Type 0} (ls : List Lease) (r : Result A × World)
    → Ended (λ _ v. v.leases ≡ ls) (λ _ v. v.leases ≡ ls) r
    → r.1.leases ≡ ls
Ended-leases ls (ok a, w) h = h
Ended-leases ls (err e, w) h = h

-- Which principals the events announce, as having got access and as having lost it.
abbrev pub IsAccurate : CompletionInput → View → List Event → Type 0
IsAccurate input g es =
    (id : String)
    → let fanned_out = has_string (fanned_out_ids input) id in
      let wanted = has_string (desired_in input g) id in
      let recorded = any (is_record_id id) (records_in g input.lease_id) in
      (announces_created id es
        ≡ (fanned_out && (wanted && (not (has_string input.pre_existing id) && recorded))))
      × (announces_removed id es ≡ (fanned_out && (not wanted && not recorded)))

completion_events-IsAccurate :
    (input : CompletionInput) (g : View)
    → IsAccurate input g
        (completion_events input (desired_in input g) (records_in g input.lease_id))
completion_events-IsAccurate input g id =
    let desired = desired_in input g in
    let records = records_in g input.lease_id in
    (
      created_lem input desired records id ∙ ground arith,
      removed_lem input desired records id
          ∙ ground (
            arith,
            any-map_ids (λ (p : FannedOut). p.principal_id) id input.fanned_out,
            any-map_ids (λ (a : Assignment). a.principal_id) id records,
          ),
    )

SentSome-tables :
    (es : List Event) (g v : View)
    → SentSome es g v
    → (v.leases ≡ g.leases) × (v.assignments ≡ g.assignments)
SentSome-tables [] g v h = absurd h
SentSome-tables (e ∷ es) g v (inl p) =
    (ap (λ (x : View). x.leases) p, ap (λ (x : View). x.assignments) p)
SentSome-tables (e ∷ es) g v (inr h) = SentSome-tables es _ v h

after_events-leases : (es : List Event) (g : View) → (after_events es g).leases ≡ g.leases
after_events-leases [] g = refl
after_events-leases (e ∷ es) g = after_events-leases es _

complete-Triple :
    (input : CompletionInput) (g : View)
    → Triple g
        (λ es v. IsAccurate input g es × (v ≡ after_events es g))
        (λ e v. (e ≡ remote_failure) × (v.leases ≡ g.leases))
        (complete_assignments input)
unfolding complete_assignments get_assignments_for_lease
complete-Triple input g =
    Triple-bind _ _ (get_lease-Triple input.lease_owner_email input.lease_id g)
      (λ e v h. (h.0, ap (λ (x : View). x.leases) h.1))
      (λ found v (same, is). Triple-view same (
        Triple-bind _ _
          (bind_remote {Q = λ r v. (v ≡ g) × (r ≡ records_in g input.lease_id)}
            {E = λ e v. (e ≡ remote_failure) × (v ≡ g)} _ (refl, refl)
            (Triple-gets _ (λ w p. (refl, ap (λ v. records_in v input.lease_id) p))))
          (λ e v h. (h.0, ap (λ (x : View). x.leases) h.1))
          (λ records v (same', are). Triple-view same' (
            let es =
              completion_events input (desired_principal_ids input.intent (assignments_of found))
                records in
            Triple-bind _ _ (send_events-Triple es g)
              (λ e v h. (h.0, (SentSome-tables es g v h.1).0))
              (λ _ v sent. Triple-pure es (
                subst
                    (λ (x : Option Lease). IsAccurate input g (
                      completion_events input
                        (desired_principal_ids input.intent (assignments_of x)) records))
                    (sym is)
                    (subst
                      (λ rs. IsAccurate input g (completion_events input (desired_in input g) rs))
                      (sym are) (completion_events-IsAccurate input g)),
                sent,
              ))))))

give_back-Triple :
    (input : CompletionInput) (v : View)
    → Triple v
        (λ _ u. u.sent ≡ v.sent)
        (λ _ _. ⊥)
        (swallow (release_lock input.lease_owner_email input.lease_id input.lock_owner_id))
give_back-Triple input v =
    Triple-swallow _
      (release_lock-Triple input.lease_owner_email input.lease_id input.lock_owner_id v)
      (λ _ u p. ap (λ (x : View). x.sent) p ∙ released-sent input v)
      (λ e u h. ap (λ (x : View). x.sent) h.1)

abbrev pub Announced : CompletionInput → View → List Event → View → Type 0
Announced input g es v = IsAccurate input g es × (v.sent ≡ (after_events es g).sent)

completion-Triple :
    (input : CompletionInput) (g : View)
    → Triple g (Announced input g) (λ e v. e ≡ remote_failure) (handle_completion input)
unfolding handle_completion
completion-Triple input g =
    Triple-finally {Q' = Announced input g} {E' = λ e v. e ≡ remote_failure} _ _
      (complete-Triple input g)
      (λ es v (accurate, same).
        Triple-map {Q' = λ _ u. Announced input g es u} _ (give_back-Triple input v)
          (λ _ u p. (accurate, p ∙ ap (λ (x : View). x.sent) same)) (λ e u (h : ⊥). absurd h))
      (λ e v h. Triple-map _ (give_back-Triple input v) (λ _ u p. h.0) (λ e' u (k : ⊥). absurd k))

module _ (input : CompletionInput) (w : World) where
  -- If `handleCompletion` returns, the events that it returns, and no other calls, were sent; they
  -- announce as created exactly the principals that were fanned out, are wanted, have a record and
  -- had none before, and as removed exactly those that were fanned out, are not wanted and have no
  -- record. It throws only if a call of a service fails.
  pub handle_completion_lem :
      Ended (Announced input (view w)) (λ e v. e ≡ remote_failure) (handle_completion input w)
  handle_completion_lem = (completion-Triple input (view w)).at w refl

  -- Whether the processing returns or throws: if the last call of a service, the one that gives
  -- the lock back, does not fail, then the lease table is the old one with the lock of that owner
  -- given back.
  pub handle_completion-release_lock :
      let w' = (complete_assignments input w).1 in
      w'.fails w'.ticks ≡ false
      → (handle_completion input w).1.leases
        ≡ (released input.lease_owner_email input.lease_id input.lock_owner_id (view w)).leases
  unfolding handle_completion finally swallow
  handle_completion-release_lock up =
      let w' = (complete_assignments input w).1 in
      ap (λ (r : Result (Unit {0}) × World). r.1.leases)
        (release_lock-ok input.lease_owner_email input.lease_id input.lock_owner_id w' up)
      ∙ ap (λ (x : View). x.leases)
          (view-unlock input.lease_owner_email input.lease_id input.lock_owner_id
            (lease_in (view w') input.lease_owner_email input.lease_id) (tick w'))
      ∙ released-leases input (view w') (view w) unchanged
    where
      unchanged : (complete_assignments input w).1.leases ≡ w.leases
      unchanged = Ended-leases w.leases (complete_assignments input w) (
          (Triple-map _ (complete-Triple input (view w))
              (λ es v h. ap (λ (x : View). x.leases) h.1 ∙ after_events-leases es (view w))
              (λ e v h. h.1)).at
            w refl)
