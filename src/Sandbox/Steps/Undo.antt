-- ===== src/Sandbox/Steps/Undo.antt =====
-- The steps of the facade's transactions undo themselves, as far as the leases show.
use innovation_sandbox_on_aw.Common.{
  ℕ, true, eq_iff, ◌≡◌, refl, sym, ap, ◌∙◌, subst, inl, inr, String, List, [], ◌∷◌, map, find, some,
  none, arith,
}
use innovation_sandbox_on_aw.Types.{Lease, Account, Ou}
use innovation_sandbox_on_aw.Outcome.{Error, ok, err}
use innovation_sandbox_on_aw.Transaction.{Step, nested}
use innovation_sandbox_on_aw.Transaction.Atomic.{Undoes}
use innovation_sandbox_on_aw.Transaction.Rules.{nested-Triple}
use innovation_sandbox_on_aw.Table.{put, put-put, put-find, find-holds}
use innovation_sandbox_on_aw.LeaseStore.{
  StepResult, is_at, same_key, edited, update_lease, update_step, transactional_update,
}
use innovation_sandbox_on_aw.LeaseStore.Laws.{Updated, is_at_self, update_lease-Triple}
use innovation_sandbox_on_aw.AccountStore.{move_account_to, move_step, transactional_move_account}
use innovation_sandbox_on_aw.AccountStore.Laws.{move_account_to-Triple}
use innovation_sandbox_on_aw.Transaction.Within.{WithinStep, WithinStep-nested}
use innovation_sandbox_on_aw.World.Within.{
  Within, IsPreorder, Within-Triple, Within-bind, Within-pure,
}
use innovation_sandbox_on_aw.Sandbox.Steps.{roll_lease_back-Triple}
use innovation_sandbox_on_aw.World.{World}
use innovation_sandbox_on_aw.World.Triple.{View, view, Triple-returned, Triple-thrown}

-- The lease table without the stamps of the last write.
abbrev unstamped : Lease → Lease
unstamped l = record l { last_edit_time = none }

abbrev pub seen_leases : World → List Lease
seen_leases w = map unstamped w.leases

unstamped-put :
    (email uuid : String) (l : Lease) (ls : List Lease)
    → map unstamped (put (is_at email uuid) l ls)
      ≡ put (is_at email uuid) (unstamped l) (map unstamped ls)
unfolding put
unstamped-put email uuid l [] = refl
unstamped-put email uuid l (x ∷ xs) = ground (arith, unstamped-put email uuid l xs)

find-unstamped :
    (email uuid : String) (l : Lease) (ls : List Lease)
    → find (is_at email uuid) ls ≡ some l
    → find (is_at email uuid) (map unstamped ls) ≡ some (unstamped l)
find-unstamped email uuid l [] h = cc
find-unstamped email uuid l (x ∷ xs) h = ground (arith, find-unstamped email uuid l xs, h)

-- What was put over an item is replaced by the item.
put_back :
    (email uuid : String) (l old : Lease) (t : ℕ) (ls us : List Lease)
    → find (is_at email uuid) ls ≡ some old
    → is_at email uuid l ≡ true
    → map unstamped us ≡ map unstamped (put (is_at email uuid) l ls)
    → map unstamped (put (is_at email uuid) (edited old t) us) ≡ map unstamped ls
put_back email uuid l old t ls us found at same =
    unstamped-put email uuid (edited old t) us
    ∙ ap (put (is_at email uuid) (unstamped old)) (same ∙ unstamped-put email uuid l ls)
    ∙ put-put (is_at email uuid) (unstamped old) (unstamped l) (map unstamped ls) at
    ∙ put-find (is_at email uuid) (unstamped old) (map unstamped ls)
        (find-unstamped email uuid old ls found)

module _ (l : Lease) where
  begun :
      (s : World) (a : StepResult) (s' : World)
      → update_lease l s ≡ (ok a, s')
      → Updated l (view s) a (view s')
  begun s a s' h =
      subst (λ x. Updated l (view s) a (view x)) (ap (λ r. r.1) h)
        (Triple-returned (update_lease l) s a (update_lease-Triple l (view s)) (ap (λ r. r.0) h))

  untouched_leases :
      (s : World) (e : Error) (s' : World)
      → update_lease l s ≡ (err e, s')
      → seen_leases s' ≡ seen_leases s
  untouched_leases s e s' h =
      let same =
        (Triple-thrown (update_lease l) s e (update_lease-Triple l (view s)) (ap (λ r. r.0) h)).0 in
      ap (λ x. seen_leases x) (sym (ap (λ r. r.1) h))
      ∙ ap (λ (v : View). map unstamped v.leases) same

  undone_leases :
      (s : World) (a : StepResult) (s' u u' : World)
      → update_lease l s ≡ (ok a, s')
      → seen_leases u ≡ seen_leases s'
      → (nested (update_step l)).rollback a u ≡ (ok tt, u')
      → seen_leases u' ≡ seen_leases s
  undone_leases s a s' u u' h same back =
      let (now, old, found, is, after) = begun s a s' h in
      let (t, written) =
        Triple-returned ((nested (update_step l)).rollback a) u tt
          (nested-Triple {E' = λ _ _. Unit {0}} (update_step l) a
            (roll_lease_back-Triple old _ a (view u) is) (λ e v k. tt))
          (ap (λ r. r.0) back) in
      let at = find-holds (same_key l) s.leases old found in
      let email : old.user_email ≡ l.user_email =
        ground (arith, at, eq_iff old.user_email l.user_email) in
      let uuid : old.uuid ≡ l.uuid = ground (arith, at, eq_iff old.uuid l.uuid) in
      ap (λ r. seen_leases r.1) (sym back)
      ∙ ap (λ (v : View). map unstamped v.leases) written
      ∙ ap (λ e. map unstamped (put (is_at e old.uuid) (edited old t) u.leases)) email
      ∙ ap (λ i. map unstamped (put (is_at l.user_email i) (edited old t) u.leases)) uuid
      ∙ put_back l.user_email l.uuid (edited l now) old t s.leases u.leases found (is_at_self l)
          (same ∙ ap (λ (v : View). map unstamped v.leases) after)

pub transactional_update-Undoes : (l : Lease) → Undoes seen_leases (transactional_update l)
unfolding transactional_update
transactional_update-Undoes l = record { untouched = untouched_leases l; undone = undone_leases l }

-- A step that leaves the lease table alone.
abbrev SameLeases : View → View → Type 0
SameLeases g v = v.leases ≡ g.leases

order : IsPreorder SameLeases
order = record { same = λ g. refl; next = λ g h k p q. q ∙ p }

quiet-Undoes : (t : Step World StepResult) → WithinStep order t → Undoes seen_leases t
quiet-Undoes t h = record {
  untouched = λ s e s' p. ap (λ r. seen_leases r.1) (sym p) ∙ ap (map unstamped) (h.begins.at s);
  undone = λ s a s' u u' p same back.
      ap (λ r. seen_leases r.1) (sym back)
      ∙ ap (map unstamped) ((h.undoes a).at u)
      ∙ same
      ∙ ap (λ r. seen_leases r.1) (sym p)
      ∙ ap (map unstamped) (h.begins.at s);
}

move-SameLeases : (a : Account) (s d : Ou) → Within SameLeases (move_account_to a s d)
move-SameLeases a s d =
    Within-Triple order _ (move_account_to-Triple a s d)
      (λ g r v (now, is, same). ap (λ (x : View). x.leases) same)
      (λ g e v h. elim h [
        | inl p ↦ ap (λ (x : View). x.leases) p
        | inr p ↦ ap (λ (x : View). x.leases) p
      ])

pub transactional_move_account-Undoes :
    (a : Account) (s d : Ou) → Undoes seen_leases (transactional_move_account a s d)
unfolding transactional_move_account
transactional_move_account-Undoes a s d = quiet-Undoes _ (
    WithinStep-nested order (move_step a s d) record {
      begins = move-SameLeases a s d;
      undoes = λ _. Within-bind order (move-SameLeases a d s) (λ _. Within-pure order tt);
    })
