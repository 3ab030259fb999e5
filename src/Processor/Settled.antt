-- ===== src/Processor/Settled.antt =====
-- The messages that the step function makes of the work items
-- (source/infrastructure/lib/components/assignment-processing/step-function.ts), and the principal
-- table once the worker has settled all of them.
use innovation_sandbox_on_aw.Common.{
  ◌≡◌, refl, sym, ap, ◌∙◌, String, Bool, false, ◌||◌, ◌&&◌, not, some, is_some, List, [], ◌∷◌, map,
  any, keep, find, All, arith, eq_iff, str_eq, or_default,
}
use innovation_sandbox_on_aw.Types.{Lease, DesiredAssignment}
use innovation_sandbox_on_aw.Outcome.{ok, Action, pure, ◌>>◌}
use innovation_sandbox_on_aw.LeaseLock.{is_critical}
use innovation_sandbox_on_aw.LeaseStore.{is_at}
use innovation_sandbox_on_aw.LeaseStore.Laws.{lease_in, get_lease-Triple}
use innovation_sandbox_on_aw.AssignmentLock.{truthy}
use innovation_sandbox_on_aw.Reconciliation.{Message, is_record, is_desired, settle_assignment}
use innovation_sandbox_on_aw.Reconciliation.Laws.{has_access, wants_access, settle-Triple}
use innovation_sandbox_on_aw.Reconciliation.Frame.{settle_assignment-LeavesOthers}
use innovation_sandbox_on_aw.World.{World, Assignment}
use innovation_sandbox_on_aw.World.Triple.{
  View, view, Triple, Triple-bind, Triple-map, Triple-pure, Triple-view, Triple-returned,
  Triple-gets,
}
use innovation_sandbox_on_aw.World.Triple.Bind.{bind_remote, bind_reads, bind_or_throw}
use innovation_sandbox_on_aw.World.Within.{Triple-Within}
use innovation_sandbox_on_aw.Processor.{
  FanOutInput, WorkItem, is_for, build_work_items, handle_fan_out, get_assignments_for_lease,
}
use innovation_sandbox_on_aw.Processor.Fanout.{
  IsDistinct, union_items-IsDistinct, any-union_items, is_desired_id, is_record_id,
}

-- `SendAssignmentToSQS`
unfoldable pub message_of : FanOutInput → String → WorkItem → Message
message_of input account_id i = record {
  lease_id = input.lease_id;
  intent = input.intent;
  requested_by = input.requested_by;
  principal_id = i.principal_id;
  principal_type = i.principal_type;
  account_id = account_id;
  lease_owner_email = input.lease_owner_email;
  email = some i.email;
  display_name = some i.display_name;
}

-- The worker's body for one message after the other.
unfoldable pub settle_all : List Message → Action World (Unit {0})
settle_all [] = pure tt
settle_all (m ∷ ms) = do settle_assignment m; settle_all ms

abbrev AreOthers : Message → List Message → Type 0
AreOthers n ms = All (λ (m : Message). str_eq n.principal_id m.principal_id ≡ false) ms

abbrev AreApart : List Message → Type 0
AreApart [] = Unit
AreApart (m ∷ ms) = AreOthers m ms × AreApart ms

-- Every message has its way, and the record of every other principal is as it was.
abbrev AllSettled : List Message → View → View → Type 0
AllSettled ms g v =
    (v.leases ≡ g.leases)
    × All (λ m. has_access m v ≡ wants_access m g) ms
    × ((n : Message)
        → AreOthers n ms
        → find (is_record n) v.assignments ≡ find (is_record n) g.assignments)

same_wants : (m : Message) (g h : View) → h.leases ≡ g.leases → wants_access m h ≡ wants_access m g
same_wants m g h p =
    ap
      (λ ls.
        not (is_critical m.intent) && is_desired m (find (is_at m.lease_owner_email m.lease_id) ls))
      p

All-same_wants :
    (ms : List Message) (g h v : View)
    → h.leases ≡ g.leases
    → All (λ m. has_access m v ≡ wants_access m h) ms
    → All (λ m. has_access m v ≡ wants_access m g) ms
All-same_wants [] g h v p k = tt
All-same_wants (m ∷ ms) g h v p (k, ks) = (k ∙ same_wants m g h p, All-same_wants ms g h v p ks)

settle_all-Triple :
    (ms : List Message) (g : View)
    → AreApart ms
    → Triple g (λ _ v. AllSettled ms g v) (λ _ _. Unit {0}) (settle_all ms)
unfolding settle_all
settle_all-Triple [] g h = Triple-pure tt (refl, tt, λ n k. refl)
settle_all-Triple (m ∷ ms) g (others, h) =
    Triple-bind _ _ (Triple-Within _ (settle_assignment-LeavesOthers m) (settle-Triple m g))
      (λ e v k. tt)
      (λ _ u ((_, agrees, _), (leases, rest)).
        Triple-map _ (settle_all-Triple ms u h)
          (λ _ v (leases', settled, rest'). (
            leases' ∙ leases,
            (ap is_some (rest' m others) ∙ agrees, All-same_wants ms g u v leases settled),
            λ n (k, ks). rest' n ks ∙ rest n k,
          ))
          (λ e v k. tt))

-- The records of a lease, as the query finds them.
abbrev pub records_in : View → String → List Assignment
records_in g lease_id = keep (λ a. str_eq a.lease_id lease_id) g.assignments

-- Whether the lease's list, or a record of the lease, names the principal.
abbrev pub is_concerned : FanOutInput → Lease → View → String → Bool
is_concerned input l g id =
    any (is_desired_id id) (or_default l.desired_assignments [])
    || any (is_record_id id) (records_in g input.lease_id)

-- What `handleFanOut` returns: one item for each principal that is concerned.
abbrev pub FannedOutFor : FanOutInput → View → List WorkItem → String → Type 0
FannedOutFor input g items account_id =
    (l : Lease) × (lease_in g input.lease_owner_email input.lease_id ≡ some l)
    × (truthy l.aws_account_id ≡ some account_id)
    × IsDistinct items
    × ((id : String) → any (is_for id) items ≡ is_concerned input l g id)

build-Triple :
    (desired : List DesiredAssignment) (records : List Assignment) (g : View)
    → Triple g
        (λ r v.
          (v ≡ g)
          × IsDistinct r.0
          × ((id : String)
              → any (is_for id) r.0
                ≡ (any (is_desired_id id) desired || any (is_record_id id) records)))
        (λ e v. v ≡ g)
        (build_work_items desired records)
unfolding build_work_items
build-Triple [] [] g = Triple-pure _ (refl, tt, λ id. refl)
build-Triple [] (a ∷ records) g = bind_remote _ refl (
    bind_reads (λ v. v.env.user_permission_set_arn) _
      (Triple-pure _ (
        refl,
        union_items-IsDistinct _ [] (a ∷ records),
        λ id. any-union_items _ id [] (a ∷ records),
      )))
build-Triple (d ∷ desired) records g = bind_remote _ refl (
    bind_reads (λ v. v.env.user_permission_set_arn) _
      (Triple-pure _ (
        refl,
        union_items-IsDistinct _ (d ∷ desired) records,
        λ id. any-union_items _ id (d ∷ desired) records,
      )))

handle_fan_out-Triple :
    (input : FanOutInput) (g : View)
    → Triple g (λ r v. (v ≡ g) × FannedOutFor input g r.0 r.1) (λ e v. v ≡ g) (handle_fan_out input)
unfolding handle_fan_out get_assignments_for_lease
handle_fan_out-Triple input g =
    Triple-bind _ _ (get_lease-Triple input.lease_owner_email input.lease_id g) (λ e v h. h.1)
      (λ found v (same, is). Triple-view same (
        bind_or_throw _ _ _
          (λ l some_l.
            bind_or_throw _ _ _
              (λ account_id is_account.
                Triple-bind _ _
                  (bind_remote {Q = λ r v. (v ≡ g) × (r ≡ records_in g input.lease_id)}
                    {E = λ e v. v ≡ g} _ refl
                    (Triple-gets _ (λ w p. (refl, ap (λ v. records_in v input.lease_id) p))))
                  (λ e v h. h)
                  (λ records v (same', are). Triple-view same' (
                    Triple-bind _ _ (build-Triple (or_default l.desired_assignments []) records g)
                      (λ e v h. h)
                      (λ built v (same'', distinct, covers). Triple-pure _ (
                        same'',
                        (
                          l,
                          sym is ∙ some_l,
                          is_account,
                          distinct,
                          λ id.
                              covers id
                              ∙ ap
                                  (λ rs.
                                    any (is_desired_id id) (or_default l.desired_assignments [])
                                    || any (is_record_id id) rs)
                                  are,
                        ),
                      )))))
              (λ missing. refl))
          (λ missing. refl)))

others_of_items :
    (input : FanOutInput) (account_id : String) (i : WorkItem) (is : List WorkItem)
    → any (is_for i.principal_id) is ≡ false
    → AreOthers (message_of input account_id i) (map (message_of input account_id) is)
unfolding message_of
others_of_items input account_id i [] h = tt
others_of_items input account_id i (x ∷ xs) h = (
  ground (arith, eq_iff x.principal_id i.principal_id, eq_iff i.principal_id x.principal_id),
  others_of_items input account_id i xs (ground arith),
)

messages_apart :
    (input : FanOutInput) (account_id : String) (items : List WorkItem)
    → IsDistinct items
    → AreApart (map (message_of input account_id) items)
messages_apart input account_id [] h = tt
messages_apart input account_id (i ∷ is) (h, hs) =
    (others_of_items input account_id i is h, messages_apart input account_id is hs)

All-items :
    (P : Message → Type 0) (f : WorkItem → Message) (items : List WorkItem)
    → All P (map f items)
    → All (λ i. P (f i)) items
All-items P f [] h = tt
All-items P f (i ∷ is) (h, hs) = (h, All-items P f is hs)

-- The world before the fan-out, the one after it, and what the workers leave.
abbrev pub Swept : FanOutInput → World → World → List WorkItem → String → Type 0
Swept input w u items account_id =
    let v = view (settle_all (map (message_of input account_id) items) u).1 in
    FannedOutFor input (view w) items account_id
    × All (λ i. let m = message_of input account_id i in has_access m v ≡ wants_access m (view w))
        items
    × (v.leases ≡ w.leases)

-- If `handleFanOut` has returned its work items, and then the worker's body has returned for the
-- message of each of them, one after the other, then there is exactly one item for each principal
-- that the lease's list or a record of the lease named, there is none for any other, and the
-- principal table has a record of an item's principal exactly if the intent is neither TERMINATE
-- nor FREEZE and the lease, neither frozen nor ended, lists that principal. The lease table is as
-- it was.
pub handle_fan_out-settle_all :
    (input : FanOutInput) (w u : World) (items : List WorkItem) (account_id : String)
    (pre_existing : List String)
    → (handle_fan_out input w).0 ≡ ok (items, account_id, pre_existing)
    → view u ≡ view (handle_fan_out input w).1
    → (settle_all (map (message_of input account_id) items) u).0 ≡ ok tt
    → Swept input w u items account_id
handle_fan_out-settle_all input w u items account_id pre_existing fanned_out same settled =
    let (unchanged, concerned) =
      Triple-returned (handle_fan_out input) w _ (handle_fan_out-Triple input (view w))
        fanned_out in
    let (l, found, account, distinct, covers) = concerned in
    let ms = map (message_of input account_id) items in
    let (leases, agree, _) =
      Triple-returned (settle_all ms) u tt
        (settle_all-Triple ms (view u) (messages_apart input account_id items distinct)) settled in
    let v = view (settle_all ms u).1 in
    let p : (view u).leases ≡ w.leases = ap (λ (x : View). x.leases) (same ∙ unchanged) in
    (
      concerned,
      All-items (λ m. has_access m v ≡ wants_access m (view w)) (message_of input account_id) items
          (All-same_wants ms (view w) (view u) v p agree),
      leases ∙ p,
    )
