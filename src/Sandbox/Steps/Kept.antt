-- ===== src/Sandbox/Steps/Kept.antt =====
-- What a transaction that failed has left as it was.
use innovation_sandbox_on_aw.Common.{
  ℕ, ◌≡◌, ap, ◌∙◌, ◌⊎◌, inl, inr, Option, some, find, eq_refl, arith,
}
use mathlib.Core.Path.{ap₂}
use innovation_sandbox_on_aw.Types.{Lease, Account, Ou}
use innovation_sandbox_on_aw.Outcome.{Error, transaction_failed_and_rolled_back, rollback_failed}
use innovation_sandbox_on_aw.Table.{put, put-put}
use innovation_sandbox_on_aw.LeaseStore.{is_at, same_key, edited}
use innovation_sandbox_on_aw.LeaseStore.Laws.{lease_in, lease_in-key, find-put_lease}
use innovation_sandbox_on_aw.AccountStore.{has_id, touched}
use innovation_sandbox_on_aw.AccountStore.Laws.{in_ou, moved}
use innovation_sandbox_on_aw.Sandbox.Parts.{events_of}
use innovation_sandbox_on_aw.Sandbox.Steps.{MoveFailed, WriteFailed}
use innovation_sandbox_on_aw.World.Triple.{View}

-- The account table with the account's record in `ou`.
abbrev pub AccountIn : Account → Ou → View → View → Type 0
AccountIn a ou g v =
    (t : ℕ) × (v.accounts ≡ put (has_id a.aws_account_id) (touched (in_ou a ou) t) g.accounts)

-- The account table is as it was, or the account's record was written as it had been.
abbrev pub AccountBack : Account → Ou → View → View → Type 0
AccountBack a ou g v = (v.accounts ≡ g.accounts) ⊎ AccountIn a ou g v

-- No event has been sent.
abbrev pub NoEvent : View → View → Type 0
NoEvent g v = events_of v.sent ≡ events_of g.sent

-- After a failed move: the leases are as they were. The account is back where it came from, unless
-- the rollback failed.
abbrev pub MoveKept : Account → Ou → Ou → View → Error → View → Type 0
MoveKept a s d g transaction_failed_and_rolled_back v =
    (v.leases ≡ g.leases) × NoEvent g v × AccountBack a s g v
MoveKept a s d g rollback_failed v = (v.leases ≡ g.leases) × NoEvent g v × AccountIn a d g v
MoveKept a s d g _ v = ⊥

module _ (a : Account) (s d : Ou) (g : View) where
  rewritten :
      (t t' : ℕ)
      → put
          (has_id a.aws_account_id)
          (touched (in_ou a s) t')
          (put (has_id a.aws_account_id) (touched (in_ou a d) t) g.accounts)
        ≡ put (has_id a.aws_account_id) (touched (in_ou a s) t') g.accounts
  rewritten t t' =
      put-put (has_id a.aws_account_id) _ (touched (in_ou a d) t) g.accounts
        (eq_refl a.aws_account_id)

  rolled_back_move :
      (v : View)
      → MoveFailed a s d g transaction_failed_and_rolled_back v
      → MoveKept a s d g transaction_failed_and_rolled_back v
  rolled_back_move v (inl p) = (
    ap (λ (x : View). x.leases) p,
    ap (λ (x : View). events_of x.sent) p,
    inl (ap (λ (x : View). x.accounts) p),
  )
  rolled_back_move v (inr (inl p)) = (
    ap (λ (x : View). x.leases) p,
    ap (λ (x : View). events_of x.sent) p,
    inl (ap (λ (x : View). x.accounts) p),
  )
  rolled_back_move v (inr (inr (t, t', p))) = (
    ap (λ (x : View). x.leases) p,
    ap (λ (x : View). events_of x.sent) p,
    inr (t', ap (λ (x : View). x.accounts) p ∙ rewritten t t'),
  )

  stuck_move :
      (v : View) → MoveFailed a s d g rollback_failed v → MoveKept a s d g rollback_failed v
  stuck_move v (t, inl p) = (
    ap (λ (x : View). x.leases) p,
    ap (λ (x : View). events_of x.sent) p,
    (t, ap (λ (x : View). x.accounts) p),
  )
  stuck_move v (t, inr p) = (
    ap (λ (x : View). x.leases) p,
    ap (λ (x : View). events_of x.sent) p,
    (t, ap (λ (x : View). x.accounts) p),
  )

  pub MoveFailed-MoveKept : (e : Error) (v : View) → MoveFailed a s d g e v → MoveKept a s d g e v
  MoveFailed-MoveKept transaction_failed_and_rolled_back v h = rolled_back_move v h
  MoveFailed-MoveKept rollback_failed v h = stuck_move v h
  MoveFailed-MoveKept _ v h = absurd h

-- The lease's record is as it was, but for the stamp of the last write.
abbrev pub KeepsRecord : Lease → View → View → Type 0
KeepsRecord l g v =
    (old : Lease)
    → lease_in g l.user_email l.uuid ≡ some old
    → (stamp : Option ℕ) × (lease_in v l.user_email l.uuid
        ≡ some (record old { last_edit_time = stamp }))

-- After a failed write and move: the accounts are as they were. The lease's record is too, unless
-- the rollback failed.
abbrev pub WriteKept : Lease → View → Error → View → Type 0
WriteKept l g transaction_failed_and_rolled_back v =
    (v.accounts ≡ g.accounts) × NoEvent g v × KeepsRecord l g v
WriteKept l g rollback_failed v =
    (v.accounts ≡ g.accounts)
    × NoEvent g v
    × ((t : ℕ) × (v.leases ≡ put (same_key l) (edited l t) g.leases))
WriteKept l g _ v = ⊥

module _ (l : Lease) (a : Account) (s d : Ou) (g : View) where
  same_record : (v : View) → v.leases ≡ g.leases → KeepsRecord l g v
  same_record v p old found =
      (old.last_edit_time, ap (λ ls. find (is_at l.user_email l.uuid) ls) p ∙ found)

  restored :
      (old : Lease) (t : ℕ) (v u : View)
      → lease_in g l.user_email l.uuid ≡ some old
      → v.leases ≡ put (same_key old) (edited old t) u.leases
      → KeepsRecord l g v
  restored old t v u found p old' found' =
      let (email, uuid) = lease_in-key g l.user_email l.uuid old found in
      let there : lease_in v old.user_email old.uuid ≡ some (edited old t) =
        ap (λ ls. find (is_at old.user_email old.uuid) ls) p
        ∙ find-put_lease (edited old t) u.leases in
      (some t, ground (arith, ap₂ (λ x y. lease_in v x y) email uuid))

  rolled_back_write :
      (v : View)
      → WriteFailed l a s d g transaction_failed_and_rolled_back v
      → WriteKept l g transaction_failed_and_rolled_back v
  rolled_back_write v (inl p) = (
    ap (λ (x : View). x.accounts) p,
    ap (λ (x : View). events_of x.sent) p,
    same_record v (ap (λ (x : View). x.leases) p),
  )
  rolled_back_write v (inr (old, t, u, (t', found, same), inl p)) = (
    ap (λ (x : View). x.accounts) p ∙ ap (λ (x : View). x.accounts) same,
    ap (λ (x : View). events_of x.sent) p ∙ ap (λ (x : View). events_of x.sent) same,
    restored old t v u found (ap (λ (x : View). x.leases) p),
  )
  rolled_back_write v (inr (old, t, u, (t', found, same), inr p)) = (
    ap (λ (x : View). x.accounts) p ∙ ap (λ (x : View). x.accounts) same,
    ap (λ (x : View). events_of x.sent) p ∙ ap (λ (x : View). events_of x.sent) same,
    restored old t v u found (ap (λ (x : View). x.leases) p),
  )

  stuck_write :
      (v : View) → WriteFailed l a s d g rollback_failed v → WriteKept l g rollback_failed v
  stuck_write v (old, u, (t, found, same), inl p) = (
    ap (λ (x : View). x.accounts) (p ∙ same),
    ap (λ (x : View). events_of x.sent) (p ∙ same),
    (t, ap (λ (x : View). x.leases) (p ∙ same)),
  )
  stuck_write v (old, u, (t, found, same), inr p) =
      let q = p ∙ ap (moved a s d) same in
      (
        ap (λ (x : View). x.accounts) q,
        ap (λ (x : View). events_of x.sent) q,
        (t, ap (λ (x : View). x.leases) q),
      )

  pub WriteFailed-WriteKept : (e : Error) (v : View) → WriteFailed l a s d g e v → WriteKept l g e v
  WriteFailed-WriteKept transaction_failed_and_rolled_back v h = rolled_back_write v h
  WriteFailed-WriteKept rollback_failed v h = stuck_write v h
  WriteFailed-WriteKept _ v h = absurd h
