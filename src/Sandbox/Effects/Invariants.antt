-- ===== src/Sandbox/Effects/Invariants.antt =====
-- What holds of the tables after any requests.
use innovation_sandbox_on_aw.Common.{◌≤◌, ◌≡◌, ◌∙◌, String, true, List, All, arith, eq_iff}
use native.Mathlib.Nat.{le_trans}
use innovation_sandbox_on_aw.Types.{Lease, Account}
use innovation_sandbox_on_aw.Table.{count, count-put, count-erase, All-put, All-erase}
use innovation_sandbox_on_aw.LeaseStore.{is_at}
use innovation_sandbox_on_aw.AccountStore.{has_id, is_account_status}
use innovation_sandbox_on_aw.World.{World}
use innovation_sandbox_on_aw.World.Triple.{View, view}
use innovation_sandbox_on_aw.Sandbox.Effects.{Allows}
use innovation_sandbox_on_aw.Sandbox.Effects.Requests.{Request, serve_all, serve_all-Allows}

-- A lease has one record at most, and so has an account; every account has a status that its
-- schema allows.
pub record IsWellFormed (g : View) : Type 0 where
  pub lease_keys : (email uuid : String) → count (is_at email uuid) g.leases ≤ 1
  pub account_ids : (id : String) → count (has_id id) g.accounts ≤ 1
  pub statuses : All (λ (a : Account). is_account_status a.status ≡ true) g.accounts

abbrev KeepsWellFormed : View → View → Type 0
KeepsWellFormed g h = IsWellFormed g → IsWellFormed h

same_key_agrees :
    (email uuid email' uuid' : String) (l : Lease)
    → is_at email uuid l ≡ true
    → (x : Lease) → is_at email uuid x ≡ true
    → is_at email' uuid' x ≡ is_at email' uuid' l
same_key_agrees email uuid email' uuid' l at x at' = ground (
  arith,
  eq_iff l.user_email email,
  eq_iff l.uuid uuid,
  eq_iff x.user_email email,
  eq_iff x.uuid uuid,
)

same_key_back :
    (email uuid email' uuid' : String) (l : Lease)
    → is_at email uuid l ≡ true
    → (x : Lease) → is_at email' uuid' l ≡ true
    → is_at email' uuid' x ≡ true
    → is_at email uuid x ≡ true
same_key_back email uuid email' uuid' l at x there there' =
    same_key_agrees email' uuid' email uuid l there x there' ∙ at

same_id_agrees :
    (a : Account) (id : String) (x : Account)
    → has_id a.aws_account_id x ≡ true
    → has_id id x ≡ has_id id a
same_id_agrees a id x h = ground (arith, eq_iff x.aws_account_id a.aws_account_id)

same_id_back :
    (a : Account) (id : String) (x : Account)
    → has_id id a ≡ true
    → has_id id x ≡ true
    → has_id a.aws_account_id x ≡ true
same_id_back a id x h k = ground (
  arith,
  eq_iff a.aws_account_id id,
  eq_iff x.aws_account_id id,
  eq_iff x.aws_account_id a.aws_account_id,
)

pub well_formed-Allows : Allows KeepsWellFormed
well_formed-Allows = record {
  order = record { same = λ g h. h; next = λ g h k p q x. q (p x) };
  lease_write = λ email uuid l g at ok'. record {
    lease_keys = λ email' uuid'.
        count-put (is_at email uuid) (is_at email' uuid') l g.leases
          (same_key_agrees email uuid email' uuid' l at)
          (same_key_back email uuid email' uuid' l at) (ok'.lease_keys email' uuid');
    account_ids = ok'.account_ids;
    statuses = ok'.statuses;
  };
  lease_deletion = λ email uuid g ok'. record {
    lease_keys = λ email' uuid'. le_trans (count-erase _ _ g.leases) (ok'.lease_keys email' uuid');
    account_ids = ok'.account_ids;
    statuses = ok'.statuses;
  };
  account_write = λ a g valid ok'. record {
    lease_keys = ok'.lease_keys;
    account_ids = λ id.
        count-put (has_id a.aws_account_id) (has_id id) a g.accounts (same_id_agrees a id)
          (same_id_back a id) (ok'.account_ids id);
    statuses = All-put _ _ a g.accounts valid ok'.statuses;
  };
  account_deletion = λ id g ok'. record {
    lease_keys = ok'.lease_keys;
    account_ids = λ id'. le_trans (count-erase _ _ g.accounts) (ok'.account_ids id');
    statuses = All-erase _ _ g.accounts ok'.statuses;
  };
  assignment_write = λ m g valid ok'. record {
    lease_keys = ok'.lease_keys;
    account_ids = ok'.account_ids;
    statuses = ok'.statuses;
  };
  assignment_deletion = λ m g ok'. record {
    lease_keys = ok'.lease_keys;
    account_ids = ok'.account_ids;
    statuses = ok'.statuses;
  };
  call = λ c g ok'. record {
    lease_keys = ok'.lease_keys;
    account_ids = ok'.account_ids;
    statuses = ok'.statuses;
  };
}

-- If no lease has two records, no account has two records, and every account has a status that
-- its schema allows, then this is so after any sequence of requests, whether they return or throw.
pub serve_all-IsWellFormed :
    (rs : List Request) (w : World) → IsWellFormed (view w) → IsWellFormed (view (serve_all rs w))
serve_all-IsWellFormed rs w = serve_all-Allows well_formed-Allows rs w
