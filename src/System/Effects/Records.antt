-- ===== src/System/Effects/Records.antt =====
-- The three tables together: the invariant of the stores, with the records of the principal table.
use innovation_sandbox_on_aw.Common.{◌≤◌, ◌≡◌, ◌↔◌, true, All, arith, eq_iff}
use native.Mathlib.Nat.{le_trans}
use innovation_sandbox_on_aw.Types.{PrincipalType, user, group}
use innovation_sandbox_on_aw.Table.{count, count-put, count-erase, All-put, All-erase}
use innovation_sandbox_on_aw.Reconciliation.{Message, is_record, same_type, grant_record}
use innovation_sandbox_on_aw.World.{Assignment}
use innovation_sandbox_on_aw.World.Triple.{View}
use innovation_sandbox_on_aw.Sandbox.Effects.{Allows}
use innovation_sandbox_on_aw.Sandbox.Effects.Invariants.{IsWellFormed, well_formed-Allows}

-- The lease and account tables are well formed; a principal has one record at most for a lease, and
-- every record is one that the schema of the principal table accepts.
pub record IsConsistent (g : View) : Type 0 where
  pub tables : IsWellFormed g
  pub record_keys : (m : Message) → count (is_record m) g.assignments ≤ 1
  pub valid_records : All (λ (a : Assignment). g.env.assignment_is_valid a ≡ true) g.assignments

abbrev KeepsConsistent : View → View → Type 0
KeepsConsistent g h = IsConsistent g → IsConsistent h

same_type_iff : (s t : PrincipalType) → (same_type s t ≡ true) ↔ (s ≡ t)
same_type_iff user user = ground arith
same_type_iff user group = ground arith
same_type_iff group user = ground arith
same_type_iff group group = ground arith

granted_agrees :
    (m n : Message) (x : Assignment)
    → is_record m x ≡ true
    → is_record n x ≡ is_record n (grant_record m)
unfolding grant_record
granted_agrees m n x h = ground (
  arith,
  same_type_iff x.principal_type m.principal_type,
  eq_iff x.principal_id m.principal_id,
  eq_iff x.lease_id m.lease_id,
)

granted_back :
    (m n : Message) (x : Assignment)
    → is_record n (grant_record m) ≡ true
    → is_record n x ≡ true
    → is_record m x ≡ true
unfolding grant_record
granted_back m n x h k = ground (
  arith,
  same_type_iff m.principal_type n.principal_type,
  eq_iff m.principal_id n.principal_id,
  eq_iff m.lease_id n.lease_id,
)

pub consistent-Allows : Allows KeepsConsistent
consistent-Allows = record {
  order = record { same = λ g h. h; next = λ g h k p q x. q (p x) };
  lease_write = λ email uuid l g at h. record {
    tables = well_formed-Allows.lease_write email uuid l g at h.tables;
    record_keys = h.record_keys;
    valid_records = h.valid_records;
  };
  lease_deletion = λ email uuid g h. record {
    tables = well_formed-Allows.lease_deletion email uuid g h.tables;
    record_keys = h.record_keys;
    valid_records = h.valid_records;
  };
  account_write = λ a g valid h. record {
    tables = well_formed-Allows.account_write a g valid h.tables;
    record_keys = h.record_keys;
    valid_records = h.valid_records;
  };
  account_deletion = λ id g h. record {
    tables = well_formed-Allows.account_deletion id g h.tables;
    record_keys = h.record_keys;
    valid_records = h.valid_records;
  };
  assignment_write = λ m g valid h. record {
    tables = well_formed-Allows.assignment_write m g valid h.tables;
    record_keys = λ n.
        count-put (is_record m) (is_record n) (grant_record m) g.assignments (granted_agrees m n)
          (granted_back m n) (h.record_keys n);
    valid_records = All-put _ _ (grant_record m) g.assignments valid h.valid_records;
  };
  assignment_deletion = λ m g h. record {
    tables = well_formed-Allows.assignment_deletion m g h.tables;
    record_keys = λ n. le_trans (count-erase _ _ g.assignments) (h.record_keys n);
    valid_records = All-erase _ _ g.assignments h.valid_records;
  };
  call = λ c g h. record {
    tables = well_formed-Allows.call c g h.tables;
    record_keys = h.record_keys;
    valid_records = h.valid_records;
  };
}
