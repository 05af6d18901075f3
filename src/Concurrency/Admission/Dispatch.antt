-- ===== src/Concurrency/Admission/Dispatch.antt =====
-- The loop of `dispatch`: the invariant of the loop is that the waiting set is the items passed over,
-- whose partitions stay blocked, followed by the items still to visit.
use ja3proxy.Base.{
  ℕ, ◌+◌, ◌≡◌, refl, sym, ◌∙◌, Bool, true, false, List, [], ◌∷◌, ◌++◌, String, eq_iff, some, arith,
  or_else, Bool-cases, inl, inr, All, append_assoc, append-nil, subst,
}
use ja3proxy.Concurrency.Counter.{get, increment, get-set}
use ja3proxy.Concurrency.Admission.{
  Limits, Waiting, Admission, find, remove_id, waiting_id, available, occupy, remove, settle,
  DeadlineError, admit, visit, dispatch_from, dispatch,
}
use ja3proxy.Concurrency.Admission.Ledger.{remove_id-split}
use ja3proxy.Concurrency.Admission.Invariant.{Inv, occupy-Inv, remove-Inv, settle-Inv}

-- The partition cannot take a slot now.
abbrev pub IsBlocked : Admission → String → Type 0
IsBlocked s p = available s p ≡ false

-- No waiting item could be admitted.
abbrev pub IsStalled : Admission → List Waiting → Type 0
IsStalled s = All (λ w. IsBlocked s w.partition)

abbrev pub IsDispatched : Limits → Admission → Type 0
IsDispatched c s = Inv c s × IsStalled s s.waiting

-- A change that frees no partition.
pub IsStalled-mono :
    (s t : Admission) (xs : List Waiting)
    → ((p : String) → IsBlocked s p → IsBlocked t p)
    → IsStalled s xs
    → IsStalled t xs
IsStalled-mono s t [] f h = tt
IsStalled-mono s t (x ∷ xs) f h = (f x.partition h.0, IsStalled-mono s t xs f h.1)

pub IsStalled-append :
    (s : Admission) (xs : List Waiting) (w : Waiting)
    → IsStalled s xs
    → IsBlocked s w.partition
    → IsStalled s (xs ++ w ∷ [])
IsStalled-append s [] w h b = (b, tt)
IsStalled-append s (x ∷ xs) w h b = (h.0, IsStalled-append s xs w h.1 b)

pub occupy-IsBlocked :
    (k : String) (s : Admission) (p : String) → IsBlocked s p → IsBlocked (occupy k s).1 p
unfolding available occupy increment
occupy-IsBlocked k s p b =
    ground (arith, get-set k p (or_else (get k s.by_partition) 0 + 1) s.by_partition, eq_iff k p)

module _ (aborted : ℕ → Bool) (err : DeadlineError) where
  pub admit-IsBlocked :
      (w : Waiting) (s : Admission) (p : String)
      → IsBlocked s p
      → IsBlocked (admit aborted err w (remove w s)) p
  unfolding admit remove available settle
  admit-IsBlocked w s p b = ground (arith, occupy-IsBlocked w.partition (remove w s) p)

  -- The two ways of a round.
  pub visit_cases {ℓ} :
      (P : Admission → Type ℓ) (w : Waiting) (s : Admission)
      → (available s w.partition ≡ true → P (admit aborted err w (remove w s)))
      → (IsBlocked s w.partition → P s)
      → P (visit aborted err w s)
  unfolding visit
  visit_cases P w s free blocked = elim (Bool-cases (available s w.partition)) [
    | inl e ↦ rw (e, visit) (free e)
    | inr e ↦ rw (e, visit) (blocked e)
  ]

  pub admit-Inv :
      {c : Limits} (w : Waiting) (s : Admission)
      → find waiting_id w.id s.waiting ≡ some w
      → available s w.partition ≡ true
      → Inv c s
      → Inv c (admit aborted err w (remove w s))
  unfolding admit
  admit-Inv w s here free v = elim (Bool-cases (aborted w.deadline)) [
    | inl e ↦ rw e (settle-Inv w.id _ (remove w s) (remove-Inv w s here v))
    | inr e ↦ rw e (
        settle-Inv w.id _ _ (
          occupy-Inv w.partition (remove w s) (unfold remove available in free)
            (remove-Inv w s here v)))
  ]

  pub admit-waiting :
      (w : Waiting) (s : Admission)
      → (admit aborted err w (remove w s)).waiting ≡ remove_id waiting_id w.id s.waiting
  unfolding admit remove occupy settle
  admit-waiting w s = ground arith

  module _ {c : Limits} where
    -- What the list of items tells of the item that the loop is at.
    pub at_item :
        (kept ws : List Waiting) (w : Waiting) (s : Admission)
        → s.waiting ≡ kept ++ w ∷ ws
        → Inv c s
        → (remove_id waiting_id w.id s.waiting ≡ kept ++ ws)
          × (find waiting_id w.id s.waiting ≡ some w)
    at_item kept ws w s e v =
        rw e (remove_id-split waiting_id 0 s.next_id kept w ws (rw e at v.queue.ids))

    dispatch_from_lem :
        (ws kept : List Waiting) (s : Admission)
        → s.waiting ≡ kept ++ ws
        → IsStalled s kept
        → Inv c s
        → IsDispatched c (dispatch_from aborted err ws s)
    unfolding dispatch_from
    dispatch_from_lem [] kept s e h v = (v, subst (IsStalled s) (sym (e ∙ append-nil kept)) h)
    dispatch_from_lem (w ∷ ws) kept s e h v =
        let (gone, here) = at_item kept ws w s e v in
        visit_cases (λ t. IsDispatched c (dispatch_from aborted err ws t)) w s
          (λ free.
            dispatch_from_lem ws kept _ (admit-waiting w s ∙ gone)
              (IsStalled-mono s _ kept (admit-IsBlocked w s) h) (admit-Inv w s here free v))
          (λ blocked.
            dispatch_from_lem ws (kept ++ w ∷ []) s (e ∙ sym (append_assoc kept (w ∷ []) ws))
              (IsStalled-append s kept w h blocked) v)

    -- `dispatch` keeps the invariant and leaves no item that could be admitted.
    pub dispatch_lem : (s : Admission) → Inv c s → IsDispatched c (dispatch aborted err s)
    unfolding dispatch
    dispatch_lem s v = dispatch_from_lem s.waiting [] s refl tt v
