-- ===== src/Gate/Store/Invariant.antt =====
-- The invariant of the store of gate/store.go: every request is in one stage of its life, and the
-- index by request agrees with the gates that wait.
use ironclaw_go.Shared.{
  ℕ, String, ◌≡◌, ◌≢◌, none, some, Params, get, put, remove, dict_laws, eq_iff, arith,
}
use ironclaw_go.Gate.{PendingGate}
use ironclaw_go.Gate.Store.{PendingStore, new_pending_store, create, drop_pending, clear_resolved}

pub record IsConsistent (s : PendingStore) : Type 0 where
  pub keyed : (k : String) (pg : PendingGate) → get k s.by_key ≡ some pg → pg.thread_id ≡ k
  pub indexed :
      (k : String) (pg : PendingGate)
      → get k s.by_key ≡ some pg
      → get pg.request_id s.by_req_id ≡ some k
  pub unspent :
      (k : String) (pg : PendingGate)
      → get k s.by_key ≡ some pg
      → get pg.request_id s.consumed ≡ none
  pub approved_keyed :
      (k : String) (pg : PendingGate) → get k s.resolved ≡ some pg → pg.thread_id ≡ k
  pub approved_unindexed :
      (k : String) (pg : PendingGate)
      → get k s.resolved ≡ some pg
      → get pg.request_id s.by_req_id ≡ none
  pub approved_unspent :
      (k : String) (pg : PendingGate)
      → get k s.resolved ≡ some pg
      → get pg.request_id s.consumed ≡ none
  pub approved_once :
      (k j : String) (pg qg : PendingGate)
      → get k s.resolved ≡ some pg
      → get j s.resolved ≡ some qg
      → pg.request_id ≡ qg.request_id
      → k ≡ j

-- A UUID that the store has not seen.
pub record IsNew (req_id : String) (s : PendingStore) : Type 0 where
  pub not_indexed : get req_id s.by_req_id ≡ none
  pub not_spent : get req_id s.consumed ≡ none
  pub not_approved :
      (k : String) (pg : PendingGate) → get k s.resolved ≡ some pg → pg.request_id ≢ req_id

pub new_pending_store-IsConsistent : IsConsistent new_pending_store
unfolding new_pending_store get
new_pending_store-IsConsistent = record {
  keyed = λ k pg h. cc;
  indexed = λ k pg h. cc;
  unspent = λ k pg h. cc;
  approved_keyed = λ k pg h. cc;
  approved_unindexed = λ k pg h. cc;
  approved_unspent = λ k pg h. cc;
  approved_once = λ k j pg qg h i e. cc;
}

module _ (s : PendingStore) (c : IsConsistent s) where
  pub drop_pending-IsConsistent :
      (k rid : String) → get rid s.by_req_id ≡ some k → IsConsistent (drop_pending k rid s)
  unfolding drop_pending
  drop_pending-IsConsistent k rid at_rid = record {
    keyed = λ j pg. simp dict_laws (ground (arith, eq_iff k j, c.keyed j pg));
    indexed = λ j pg.
        simp dict_laws (ground (arith, eq_iff k j, eq_iff rid pg.request_id, c.indexed j pg));
    unspent = λ j pg. simp dict_laws (ground (arith, c.unspent j pg));
    approved_keyed = c.approved_keyed;
    approved_unindexed = λ j pg. simp dict_laws (ground (arith, c.approved_unindexed j pg));
    approved_unspent = c.approved_unspent;
    approved_once = c.approved_once;
  }

  pub create-IsConsistent :
      (now : ℕ) (rid user thread tool : String) (params : Params) (source : String)
      → IsNew rid s
      → IsConsistent (create now rid user thread tool params source s).0
  unfolding create
  create-IsConsistent now rid user thread tool params source n = record {
    keyed = λ j pg. simp dict_laws (ground (arith, eq_iff thread j, c.keyed j pg));
    indexed = λ j pg.
        simp dict_laws (
          ground (arith, eq_iff thread j, eq_iff rid pg.request_id, c.indexed j pg, n.not_indexed));
    unspent = λ j pg. simp dict_laws (ground (arith, eq_iff thread j, c.unspent j pg, n.not_spent));
    approved_keyed = c.approved_keyed;
    approved_unindexed = λ j pg.
        simp dict_laws (
          ground (arith, eq_iff rid pg.request_id, c.approved_unindexed j pg, n.not_approved j pg));
    approved_unspent = λ j pg. simp dict_laws (ground (arith, c.approved_unspent j pg));
    approved_once = c.approved_once;
  }

  pub approve-IsConsistent :
      (k : String) (pg : PendingGate)
      → get k s.by_key ≡ some pg
      → IsConsistent (record (drop_pending k pg.request_id s) { resolved = put k pg s.resolved })
  unfolding drop_pending
  approve-IsConsistent k pg here = record {
    keyed = d.keyed;
    indexed = d.indexed;
    unspent = d.unspent;
    approved_keyed = λ j qg.
        simp dict_laws (ground (arith, eq_iff k j, c.approved_keyed j qg, c.keyed k pg here));
    approved_unindexed = λ j qg.
        simp dict_laws (
          ground
            (arith, eq_iff k j, eq_iff pg.request_id qg.request_id, c.approved_unindexed j qg));
    approved_unspent = λ j qg.
        simp dict_laws (ground (arith, eq_iff k j, c.approved_unspent j qg, c.unspent k pg here));
    approved_once = λ i j qg rg. simp dict_laws (
        ground (
          arith,
          eq_iff k i,
          eq_iff k j,
          c.indexed k pg here,
          c.approved_unindexed i qg,
          c.approved_unindexed j rg,
          c.approved_once i j qg rg,
        ));
  }
    where
      d : IsConsistent (drop_pending k pg.request_id s)
      d = drop_pending-IsConsistent k pg.request_id (c.indexed k pg here)

  pub spend-IsConsistent :
      (k : String) (pg : PendingGate) (now : ℕ)
      → get k s.by_key ≡ some pg
      → IsConsistent
          (record (drop_pending k pg.request_id s) { consumed = put pg.request_id now s.consumed })
  unfolding drop_pending
  spend-IsConsistent k pg now here = record {
    keyed = d.keyed;
    indexed = d.indexed;
    unspent = λ j qg. simp dict_laws (
        ground (
          arith,
          eq_iff k j,
          eq_iff pg.request_id qg.request_id,
          c.indexed k pg here,
          c.indexed j qg,
          c.unspent j qg,
        ));
    approved_keyed = c.approved_keyed;
    approved_unindexed = d.approved_unindexed;
    approved_unspent = λ j qg. simp dict_laws (
        ground (
          arith,
          eq_iff pg.request_id qg.request_id,
          c.indexed k pg here,
          c.approved_unindexed j qg,
          c.approved_unspent j qg,
        ));
    approved_once = c.approved_once;
  }
    where
      d : IsConsistent (drop_pending k pg.request_id s)
      d = drop_pending-IsConsistent k pg.request_id (c.indexed k pg here)

  pub consume-IsConsistent :
      (k : String) (pg : PendingGate) (now : ℕ)
      → get k s.resolved ≡ some pg
      → IsConsistent
          (record s { resolved = remove k s.resolved; consumed = put pg.request_id now s.consumed })
  consume-IsConsistent k pg now here = record {
    keyed = c.keyed;
    indexed = c.indexed;
    unspent = λ j qg. simp dict_laws (
        ground (
          arith,
          eq_iff pg.request_id qg.request_id,
          c.indexed j qg,
          c.approved_unindexed k pg here,
          c.unspent j qg,
        ));
    approved_keyed = λ j qg. simp dict_laws (ground (arith, c.approved_keyed j qg));
    approved_unindexed = λ j qg. simp dict_laws (ground (arith, c.approved_unindexed j qg));
    approved_unspent = λ j qg. simp dict_laws (
        ground (
          arith,
          eq_iff k j,
          eq_iff pg.request_id qg.request_id,
          c.approved_once k j pg qg here,
          c.approved_unspent j qg,
        ));
    approved_once = λ i j qg rg. simp dict_laws (ground (arith, c.approved_once i j qg rg));
  }

  pub clear_resolved-IsConsistent :
      (user thread : String) → IsConsistent (clear_resolved user thread s)
  unfolding clear_resolved
  clear_resolved-IsConsistent user thread = record {
    keyed = c.keyed;
    indexed = c.indexed;
    unspent = c.unspent;
    approved_keyed = λ j qg. simp dict_laws (ground (arith, c.approved_keyed j qg));
    approved_unindexed = λ j qg. simp dict_laws (ground (arith, c.approved_unindexed j qg));
    approved_unspent = λ j qg. simp dict_laws (ground (arith, c.approved_unspent j qg));
    approved_once = λ i j qg rg. simp dict_laws (ground (arith, c.approved_once i j qg rg));
  }

  -- An index entry whose gate is gone.
  pub forget-IsConsistent :
      (k rid : String)
      → get rid s.by_req_id ≡ some k
      → get k s.by_key ≡ none
      → IsConsistent (record s { by_req_id = remove rid s.by_req_id })
  forget-IsConsistent k rid at_rid gone = record {
    keyed = c.keyed;
    indexed = λ j pg. simp dict_laws (ground (arith, eq_iff rid pg.request_id, c.indexed j pg));
    unspent = c.unspent;
    approved_keyed = c.approved_keyed;
    approved_unindexed = λ j pg. simp dict_laws (ground (arith, c.approved_unindexed j pg));
    approved_unspent = c.approved_unspent;
    approved_once = c.approved_once;
  }
