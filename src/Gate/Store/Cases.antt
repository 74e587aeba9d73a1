-- ===== src/Gate/Store/Cases.antt =====
-- What each operation of gate/store.go does, case by case: the branches of Resolve and Deny with the
-- store and the result of each.
use ironclaw_go.Shared.{
  ℕ, String, true, false, ◌≡◌, ◌≢◌, refl, ◌∙◌, ◌⊎◌, inl, inr, Option, none, some, get, put,
  Option-cases, Bool-cases, ok, err, is_some, ◌==◌, eq_iff, eq_refl, arith,
}
use ironclaw_go.Gate.{PendingGate, is_expired, GateError}
use ironclaw_go.Gate.Store.{
  PendingStore, drop_pending, claim, settle_resolved, approved_now, resolve, settle_denied,
  deny_pending, no_pending, stale_approval, has_expired,
}

-- Why a request is refused: no gate waits at the key, or the one that waits is of another request.
abbrev pub Refuses : String → Option PendingGate → GateError → Type 0
Refuses rid none e = e ≡ no_pending
Refuses rid (some pg) e = (pg.request_id ≢ rid) × (e ≡ stale_approval)

-- What `claim` does with the gate that waits at `k`.
pub data Claimed (now : ℕ) (k rid : String) (s : PendingStore) : Type 0 where
  refused :
      (e : GateError)
      → Refuses rid (get k s.by_key) e
      → claim now k rid (get k s.by_key) s ≡ (s, err e)
      → Claimed now k rid s
  ran_out :
      (pg : PendingGate)
      → get k s.by_key ≡ some pg
      → pg.request_id ≡ rid
      → is_expired now pg ≡ true
      → claim now k rid (get k s.by_key) s ≡ (drop_pending k pg.request_id s, err has_expired)
      → Claimed now k rid s
  taken :
      (pg : PendingGate)
      → get k s.by_key ≡ some pg
      → pg.request_id ≡ rid
      → is_expired now pg ≡ false
      → claim now k rid (get k s.by_key) s ≡ (drop_pending k pg.request_id s, ok pg)
      → Claimed now k rid s

pub claim-Claimed : (now : ℕ) (k rid : String) (s : PendingStore) → Claimed now k rid s
unfolding claim
claim-Claimed now k rid s = elim (Option-cases (get k s.by_key)) [
  | inl gone ↦ refused no_pending (rw gone refl) (rw (gone, claim) refl)
  | inr (pg, here) ↦ elim (Bool-cases (pg.request_id == rid)) [
    | inr other ↦
        refused stale_approval (rw here (λ e. ground (arith, eq_iff pg.request_id rid), refl))
          (rw (here, claim) (rw (other, claim) refl))
    | inl same ↦
        let e : pg.request_id ≡ rid = (eq_iff pg.request_id rid).0 same in
        elim (Bool-cases (is_expired now pg)) [
          | inl old ↦ ran_out pg here e old (ground (arith, here, same, old))
          | inr fresh ↦ taken pg here e fresh (ground (arith, here, same, fresh))
        ]
  ]
]

-- Whether the request is approved and waits to run at the key.
abbrev pub IsApproved : String → Option PendingGate → Type 0
IsApproved rid none = ⊥
IsApproved rid (some pg) = pg.request_id ≡ rid

-- The ways in which Resolve ends, each with the condition on which it does.
pub data Resolves (now : ℕ) (user k rid : String) (s : PendingStore) : Type 0 where
  waits_to_run :
      (pg : PendingGate)
      → get k s.resolved ≡ some pg
      → pg.request_id ≡ rid
      → resolve now user k rid s ≡ (s, ok (some pg))
      → Resolves now user k rid s
  dealt_with :
      ¬ (IsApproved rid (get k s.resolved))
      → is_some (get rid s.consumed) ≡ true
      → resolve now user k rid s ≡ (s, ok none)
      → Resolves now user k rid s
  refused :
      (e : GateError)
      → ¬ (IsApproved rid (get k s.resolved))
      → get rid s.consumed ≡ none
      → Refuses rid (get k s.by_key) e
      → resolve now user k rid s ≡ (s, err e)
      → Resolves now user k rid s
  ran_out :
      (pg : PendingGate)
      → ¬ (IsApproved rid (get k s.resolved))
      → get rid s.consumed ≡ none
      → get k s.by_key ≡ some pg
      → pg.request_id ≡ rid
      → is_expired now pg ≡ true
      → resolve now user k rid s ≡ (drop_pending k pg.request_id s, err has_expired)
      → Resolves now user k rid s
  granted :
      (pg : PendingGate)
      → ¬ (IsApproved rid (get k s.resolved))
      → get rid s.consumed ≡ none
      → get k s.by_key ≡ some pg
      → pg.request_id ≡ rid
      → is_expired now pg ≡ false
      → resolve now user k rid s
        ≡ (record (drop_pending k pg.request_id s) { resolved = put k pg s.resolved }, ok (some pg))
      → Resolves now user k rid s

approved_now-none :
    (rid : String) (o : Option PendingGate) → approved_now rid o ≡ none → ¬ (IsApproved rid o)
unfolding approved_now
approved_now-none rid none h a = a
approved_now-none rid (some pg) h a = absurd (ground (arith, eq_iff pg.request_id rid))

not_spent :
    (rid : String) (s : PendingStore)
    → is_some (get rid s.consumed) ≡ false
    → get rid s.consumed ≡ none
not_spent rid s h = elim (Option-cases (get rid s.consumed)) [
  | inl e ↦ e
  | inr (t, e) ↦ absurd (ground arith)
]

pub approved_now_cases :
    (rid : String) (o : Option PendingGate)
    → (approved_now rid o ≡ none)
      ⊎ ((pg : PendingGate) × (o ≡ some pg)
          × (pg.request_id ≡ rid)
          × (approved_now rid o ≡ some pg))
unfolding approved_now
approved_now_cases rid none = inl refl
approved_now_cases rid (some pg) = elim (Bool-cases (pg.request_id == rid)) [
  | inl same ↦ inr (pg, refl, (eq_iff pg.request_id rid).0 same, rw same)
  | inr other ↦ inl (rw other)
]

resolve-claims :
    (now : ℕ) (user k rid : String) (s : PendingStore)
    → approved_now rid (get k s.resolved) ≡ none
    → is_some (get rid s.consumed) ≡ false
    → resolve now user k rid s ≡ settle_resolved k (claim now k rid (get k s.by_key) s)
unfolding resolve
resolve-claims now user k rid s a b = rw (a, resolve) (rw (b, resolve) refl)

-- Resolve ends in one of five ways. Where the request is approved and waits to run, it answers that gate,
-- and where it is not but is among the spent ones, it answers nothing, both without a change. Otherwise
-- it is refused without a change where no gate waits for the thread or the one that waits is of another
-- request; a gate of the request that has run out is dropped, with an error; and one that has not is
-- moved among the approved ones and returned.
pub resolve-Resolves :
    (now : ℕ) (user k rid : String) (s : PendingStore) → Resolves now user k rid s
resolve-Resolves now user k rid s = elim (approved_now_cases rid (get k s.resolved)) [
  | inr (pg, here, same, a) ↦ waits_to_run pg here same (unfold resolve in rw (a, resolve) refl)
  | inl a ↦
      let new = approved_now-none rid (get k s.resolved) a in
      elim (Bool-cases (is_some (get rid s.consumed))) [
        | inl b ↦ dealt_with new b (unfold resolve in rw (a, resolve) (rw (b, resolve) refl))
        | inr b ↦
            let at_claim = resolve-claims now user k rid s a b in
            let open_yet = not_spent rid s b in
            elim (claim-Claimed now k rid s) [
              | Claimed.refused e why q ↦
                  refused e new open_yet why (at_claim ∙ rw q (unfold settle_resolved in refl))
              | Claimed.ran_out pg here same old q ↦
                  ran_out pg new open_yet here same old
                    (at_claim ∙ rw q (unfold settle_resolved in refl))
              | taken pg here same fresh q ↦
                  granted pg new open_yet here same fresh
                    (at_claim ∙ rw q (unfold settle_resolved drop_pending in refl))
            ]
      ]
]

-- The ways in which Deny ends.
pub data Denies (now : ℕ) (user k rid : String) (s : PendingStore) : Type 0 where
  dealt_with :
      is_some (get rid s.consumed) ≡ true
      → deny_pending now user k rid s ≡ (s, ok tt)
      → Denies now user k rid s
  refused : (e : GateError) → deny_pending now user k rid s ≡ (s, err e) → Denies now user k rid s
  ran_out :
      (pg : PendingGate) (e : GateError)
      → get k s.by_key ≡ some pg
      → pg.request_id ≡ rid
      → deny_pending now user k rid s ≡ (drop_pending k pg.request_id s, err e)
      → Denies now user k rid s
  denied :
      (pg : PendingGate)
      → get k s.by_key ≡ some pg
      → pg.request_id ≡ rid
      → is_expired now pg ≡ false
      → deny_pending now user k rid s ≡ (
        record (drop_pending k pg.request_id s) { consumed = put pg.request_id now s.consumed },
        ok tt,
      )
      → Denies now user k rid s

deny_pending-claims :
    (now : ℕ) (user k rid : String) (s : PendingStore)
    → is_some (get rid s.consumed) ≡ false
    → deny_pending now user k rid s ≡ settle_denied now rid (claim now k rid (get k s.by_key) s)
unfolding deny_pending
deny_pending-claims now user k rid s b = rw (b, deny_pending) refl

-- Deny ends in one of four ways, with the store and the answer of each: the request was dealt with
-- before, it is refused without a change, its gate ran out and is dropped, or its gate is dropped and
-- its request is marked as spent.
pub deny_pending-Denies :
    (now : ℕ) (user k rid : String) (s : PendingStore) → Denies now user k rid s
deny_pending-Denies now user k rid s = elim (Bool-cases (is_some (get rid s.consumed))) [
  | inl b ↦ dealt_with b (unfold deny_pending in rw (b, deny_pending) refl)
  | inr b ↦
      let at_claim = deny_pending-claims now user k rid s b in
      elim (claim-Claimed now k rid s) [
        | Claimed.refused e why q ↦ refused e (at_claim ∙ rw q (unfold settle_denied in refl))
        | Claimed.ran_out pg here same old q ↦
            ran_out pg has_expired here same (at_claim ∙ rw q (unfold settle_denied in refl))
        | taken pg here same fresh q ↦
            denied pg here same fresh
              (at_claim ∙ rw (q, ← same) (unfold settle_denied drop_pending in refl))
      ]
]

-- Resolve of a gate that waits and has not run out, by the request that made it.
pub resolve-granted :
    (now : ℕ) (user k : String) (s : PendingStore) (pg : PendingGate)
    → approved_now pg.request_id (get k s.resolved) ≡ none
    → get pg.request_id s.consumed ≡ none
    → get k s.by_key ≡ some pg
    → is_expired now pg ≡ false
    → resolve now user k pg.request_id s
      ≡ (record (drop_pending k pg.request_id s) { resolved = put k pg s.resolved }, ok (some pg))
unfolding claim settle_resolved drop_pending
resolve-granted now user k s pg a b here fresh =
    resolve-claims now user k pg.request_id s a (rw b)
    ∙ rw here (ground (arith, eq_refl pg.request_id, fresh))
