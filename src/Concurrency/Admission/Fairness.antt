-- ===== src/Concurrency/Admission/Fairness.antt =====
-- The order in which `dispatch` serves the waiting set.
use mathlib.Core.List.{reverse, reverse-cons}
use ja3proxy.Base.{
  suc, Bool-cases, append-nil, inl, inr, some, false, All, ℕ, ◌≡◌, refl, sym, ap, ◌∙◌, Bool, true,
  List, [], ◌∷◌, ◌++◌, String, str_eq, eq_iff, arith, if◌then◌else◌, append_assoc, subst,
}
use ja3proxy.Concurrency.Admission.{
  Permit, Outcome, resolved, rejected, find, remove_id, permit_id, Limits, Waiting, Admission,
  available, occupy, remove, settle, DeadlineError, admit, dispatch_from, dispatch, release, vacate,
}
use ja3proxy.Concurrency.Admission.Invariant.{Inv, vacate-Inv}
use ja3proxy.Concurrency.Admission.Dispatch.{
  IsStalled, IsStalled-mono, IsStalled-append, admit-IsBlocked, admit-Inv, admit-waiting, at_item,
  visit_cases, dispatch_lem,
}
use ja3proxy.Concurrency.Admission.Ledger.{find_self, find-ident}

-- The waiting items of one partition, oldest first.
pub queue_of : String → List Waiting → List Waiting
queue_of p [] = []
queue_of p (w ∷ ws) = if str_eq w.partition p then w ∷ queue_of p ws else queue_of p ws

queue_of-append :
    (p : String) (xs ys : List Waiting) → queue_of p (xs ++ ys) ≡ queue_of p xs ++ queue_of p ys
unfolding queue_of
queue_of-append p [] ys = refl
queue_of-append p (x ∷ xs) ys = ground (arith, queue_of-append p xs ys)

-- No item that was passed over is of a partition with room.
queue_of-stalled :
    (s : Admission) (p : String) (xs : List Waiting)
    → IsStalled s xs
    → available s p ≡ true
    → queue_of p xs ≡ []
unfolding queue_of
queue_of-stalled s p [] h free = refl
queue_of-stalled s p (x ∷ xs) h free =
    ground (arith, eq_iff x.partition p, queue_of-stalled s p xs h.1)

-- The list with an item of a free partition behind stalled ones.
queue_of-serve :
    (s : Admission) (p : String) (kept ws : List Waiting) (w : Waiting)
    → IsStalled s kept
    → available s w.partition ≡ true
    → queue_of p (kept ++ w ∷ ws) ≡ queue_of p (w ∷ []) ++ queue_of p (kept ++ ws)
unfolding queue_of
queue_of-serve s p kept ws w h free = ground (
  arith,
  queue_of-append p kept (w ∷ ws),
  queue_of-append p kept ws,
  eq_iff w.partition p,
  queue_of-stalled s p kept h,
)

-- What becomes of waiting items that leave one after the other, `n` being the next free identity: an
-- item whose deadline is aborted is rejected with the error of that deadline; another is given a new
-- slot of its partition.
module _ (aborted : ℕ → Bool) (err : DeadlineError) where
  abbrev pub answer : ℕ → Waiting → Outcome
  answer n w =
      if aborted w.deadline
      then rejected (err w.deadline w.diag w.used_proxy)
      else resolved (record { id = n; partition = w.partition })

  abbrev pub after : ℕ → Waiting → ℕ
  after n w = if aborted w.deadline then n else suc n

  abbrev pub slots : ℕ → Waiting → List Permit
  slots n w = if aborted w.deadline then [] else record { id = n; partition = w.partition } ∷ []

  pub answers : ℕ → List Waiting → List (ℕ × Outcome)
  answers n [] = []
  answers n (w ∷ ws) = (w.id, answer n w) ∷ answers (after n w) ws

  pub grants : ℕ → List Waiting → List Permit
  grants n [] = []
  grants n (w ∷ ws) = slots n w ++ grants (after n w) ws

  -- Items left in the order `gone`, from a state with the slots `held` and the settled promises of `s`.
  pub record Served (s : Admission) (held : List Permit) (before : List Waiting) (t : Admission)
      : Type 0 where
    pub gone : List Waiting
    pub outcomes : t.outcomes ≡ reverse (answers s.next_id gone) ++ s.outcomes
    pub held_after : t.held ≡ held ++ grants s.next_id gone
    pub order : (p : String) → queue_of p before ≡ queue_of p gone ++ queue_of p t.waiting

  record Admitted (w : Waiting) (s t : Admission) : Type 0 where
    outcomes : t.outcomes ≡ (w.id, answer s.next_id w) ∷ s.outcomes
    held : t.held ≡ s.held ++ slots s.next_id w
    next : t.next_id ≡ after s.next_id w

  admit-Admitted : (w : Waiting) (s : Admission) → Admitted w s (admit aborted err w (remove w s))
  unfolding admit remove occupy settle
  admit-Admitted w s = elim (Bool-cases (aborted w.deadline)) [
    | inl e ↦
        rw e
          (record { outcomes = rw e refl; held = rw (e, append-nil s.held) refl; next = rw e refl })
    | inr e ↦ rw e (record { outcomes = rw e refl; held = rw e refl; next = rw e refl })
  ]

  none_gone : (s : Admission) (ws : List Waiting) → s.waiting ≡ ws → Served s s.held ws s
  unfolding answers grants queue_of
  none_gone s ws e = record {
    gone = [];
    outcomes = refl;
    held_after = sym (append-nil s.held);
    order = λ p. ap (queue_of p) (sym e);
  }

  -- One more item in front.
  serve_one :
      (s : Admission) (kept ws : List Waiting) (w : Waiting) (s' t : Admission)
      → IsStalled s kept
      → available s w.partition ≡ true
      → Admitted w s s'
      → Served s' s'.held (kept ++ ws) t
      → Served s s.held (kept ++ w ∷ ws) t
  unfolding queue_of answers grants
  serve_one s kept ws w s' t h free a v = record {
    gone = w ∷ v.gone;
    outcomes =
        v.outcomes
        ∙ rw
            (
              a.outcomes,
              a.next,
              reverse-cons (w.id, answer s.next_id w) (answers (after s.next_id w) v.gone),
              append_assoc,
            )
            refl;
    held_after = v.held_after ∙ rw (a.held, a.next, append_assoc) refl;
    order = λ p. ground (arith, queue_of-serve s p kept ws w h free, v.order p);
  }

  vacated :
      (permit : Permit) (s t : Admission)
      → Served (vacate permit s) (vacate permit s).held s.waiting t
      → Served s (remove_id permit_id permit.id s.held) s.waiting t
  unfolding vacate
  vacated permit s t v = record {
    gone = v.gone;
    outcomes = v.outcomes;
    held_after = v.held_after;
    order = v.order;
  }

module _ (aborted : ℕ → Bool) (err : DeadlineError) {c : Limits} where
  dispatch_from-Served :
      (ws kept : List Waiting) (s : Admission)
      → s.waiting ≡ kept ++ ws
      → IsStalled s kept
      → Inv c s
      → Served aborted err s s.held (kept ++ ws) (dispatch_from aborted err ws s)
  unfolding dispatch_from
  dispatch_from-Served [] kept s e h v = none_gone aborted err s (kept ++ []) e
  dispatch_from-Served (w ∷ ws) kept s e h v =
      let (gone, here) = at_item aborted err kept ws w s e v in
      visit_cases aborted err
        (λ t. Served aborted err s s.held (kept ++ w ∷ ws) (dispatch_from aborted err ws t)) w s
        (λ free.
          serve_one aborted err s kept ws w (admit aborted err w (remove w s))
            (dispatch_from aborted err ws (admit aborted err w (remove w s))) h free
            (admit-Admitted aborted err w s)
            (dispatch_from-Served ws kept _ (admit-waiting aborted err w s ∙ gone)
              (IsStalled-mono s _ kept (admit-IsBlocked aborted err w s) h)
              (admit-Inv aborted err w s here free v)))
        (λ blocked.
          subst (λ ws'. Served aborted err s s.held ws' (dispatch_from aborted err ws s))
            (append_assoc kept (w ∷ []) ws)
            (dispatch_from-Served ws (kept ++ w ∷ []) s (e ∙ sym (append_assoc kept (w ∷ []) ws))
              (IsStalled-append s kept w h blocked) v))

  -- `dispatch` serves in the order of arrival.
  dispatch-Served :
      (s : Admission) → Inv c s → Served aborted err s s.held s.waiting (dispatch aborted err s)
  unfolding dispatch
  dispatch-Served s v = dispatch_from-Served s.waiting [] s refl tt v

  -- The closure of a slot that is held, called in any state that the invariant admits, gives up that slot
  -- and serves the waiting requests. Each partition's requests leave in the order of their arrival: its
  -- queue before the call is those that leave, followed by its queue after it. Each request that leaves
  -- is settled once, in that order: with a new slot of its partition, or, if its signal is aborted,
  -- with the error of its deadline. The slots held afterwards are the others from before and the new
  -- ones. And no request that still waits could be admitted.
  pub release-Served :
      (permit : Permit) (i : ℕ) (s : Admission)
      → Inv c s
      → find permit_id i s.held ≡ some permit
      → Served aborted err s (remove_id permit_id i s.held) s.waiting (release aborted err i s)
        × All
            (λ w. available (release aborted err i s) w.partition ≡ false)
            (release aborted err i s).waiting
  unfolding release vacate
  release-Served permit i s v e =
      let held = find_self permit_id i s.held permit e in
      let inv = vacate-Inv permit s held v in
      (
        rw (e, release)
            (subst
              (λ k.
                Served aborted err s (remove_id permit_id k s.held) s.waiting
                  (dispatch aborted err (vacate permit s)))
              (find-ident permit_id i s.held permit e)
              (vacated aborted err permit s _ (dispatch-Served (vacate permit s) inv))),
        rw (e, release) (dispatch_lem aborted err (vacate permit s) inv).1,
      )
