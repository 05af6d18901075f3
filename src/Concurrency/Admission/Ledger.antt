-- ===== src/Concurrency/Admission/Ledger.antt =====
-- A list of entries, found, added and removed by identity, with a Map that counts them by partition.
use mathlib.Core.List.{map-append}
use ja3proxy.Base.{
  subst, sym, ℕ, suc, ◌+◌, ◌≤◌, ◌<◌, ◌≡◌, refl, sym, ap, List, [], ◌∷◌, ◌++◌, map, String, str_eq,
  eq_iff, none, some, arith, ◌==◌, length, length-append, Bool-cases, inl, inr,
}
use ja3proxy.Concurrency.Counter.{
  increment, decrement, count, count-append, Counts, one_if, increment-Counts, decrement-Counts,
}
use ja3proxy.Concurrency.Admission.{find, remove_id}

-- Identities rise along the list, from `lo` and below `hi`.
module _ {A : Type 0} (ident : A → ℕ) where
  abbrev pub Between : ℕ → ℕ → List A → Type 0
  Between lo hi [] = lo ≤ hi
  Between lo hi (x ∷ xs) = (lo ≤ ident x) × Between (suc (ident x)) hi xs

module _ {A : Type 0} (ident : A → ℕ) where
  Between-below :
      {lo lo' : ℕ} (hi : ℕ) (xs : List A)
      → lo' ≤ lo
      → Between ident lo hi xs
      → Between ident lo' hi xs
  Between-below hi [] h b = omega arith
  Between-below hi (x ∷ xs) h b = (omega arith, b.1)

  pub Between-snoc :
      (lo hi : ℕ) (xs : List A) (x : A)
      → Between ident lo hi xs
      → ident x ≡ hi
      → Between ident lo (suc hi) (xs ++ x ∷ [])
  Between-snoc lo hi [] x b e = (omega arith, omega arith)
  Between-snoc lo hi (y ∷ xs) x b e = (b.0, Between-snoc (suc (ident y)) hi xs x b.1 e)

  pub remove_id-Between :
      (lo hi i : ℕ) (xs : List A)
      → Between ident lo hi xs
      → Between ident lo hi (remove_id ident i xs)
  unfolding remove_id
  remove_id-Between lo hi i [] b = b
  remove_id-Between lo hi i (x ∷ xs) b = elim (Bool-cases (ident x == i)) [
    | inl e ↦
        rw e (Between-below hi _ (omega arith) (remove_id-Between (suc (ident x)) hi i xs b.1))
    | inr e ↦ rw e (b.0, remove_id-Between (suc (ident x)) hi i xs b.1)
  ]

  pub Between-raise :
      (lo hi : ℕ) (xs : List A) → Between ident lo hi xs → Between ident lo (suc hi) xs
  Between-raise lo hi [] b = omega arith
  Between-raise lo hi (x ∷ xs) b = (b.0, Between-raise (suc (ident x)) hi xs b.1)

  pub remove_id_above :
      (lo hi i : ℕ) (xs : List A) → Between ident lo hi xs → i < lo → remove_id ident i xs ≡ xs
  unfolding remove_id
  remove_id_above lo hi i [] b h = refl
  remove_id_above lo hi i (x ∷ xs) b h = ground (arith, remove_id_above (suc (ident x)) hi i xs b.1)

  pub find_above :
      (lo hi i : ℕ) (xs : List A) → Between ident lo hi xs → i < lo → find ident i xs ≡ none
  unfolding find
  find_above lo hi i [] b h = refl
  find_above lo hi i (x ∷ xs) b h = ground (arith, find_above (suc (ident x)) hi i xs b.1)

  Between-middle :
      (lo hi : ℕ) (xs : List A) (x : A) (ys : List A)
      → Between ident lo hi (xs ++ x ∷ ys)
      → lo ≤ ident x
  Between-middle lo hi [] x ys b = b.0
  Between-middle lo hi (y ∷ xs) x ys b =
      omega (arith, Between-middle (suc (ident y)) hi xs x ys b.1)

  pub find-ident : (i : ℕ) (xs : List A) (x : A) → find ident i xs ≡ some x → ident x ≡ i
  unfolding find
  find-ident i [] x e = absurd (ground arith)
  find-ident i (y ∷ xs) x e = ground (arith, find-ident i xs x)

  pub find_self :
      (i : ℕ) (xs : List A) (x : A) → find ident i xs ≡ some x → find ident (ident x) xs ≡ some x
  find_self i xs x e = subst (λ k. find ident k xs ≡ some x) (sym (find-ident i xs x e)) e

  -- Removing an entry that a split of the list shows.
  pub remove_id-split :
      (lo hi : ℕ) (xs : List A) (x : A) (ys : List A)
      → Between ident lo hi (xs ++ x ∷ ys)
      → (remove_id ident (ident x) (xs ++ x ∷ ys) ≡ xs ++ ys)
        × (find ident (ident x) (xs ++ x ∷ ys) ≡ some x)
  unfolding remove_id find
  remove_id-split lo hi [] x ys b =
      ground (arith, remove_id_above (suc (ident x)) hi (ident x) ys b.1)
  remove_id-split lo hi (y ∷ xs) x ys b =
      let above : ident y < ident x = Between-middle (suc (ident y)) hi xs x ys b.1 in
      ground (arith, remove_id-split (suc (ident y)) hi xs x ys b.1)

module _ {A : Type 0} (ident : A → ℕ) (key : A → String) where
  -- A found entry is removed, once.
  pub remove_id-count :
      (lo hi i : ℕ) (xs : List A) (x : A)
      → Between ident lo hi xs
      → find ident i xs ≡ some x
      → (length xs ≡ suc (length (remove_id ident i xs)))
        × ((q : String)
            → count q (map key xs)
              ≡ count q (map key (remove_id ident i xs)) + one_if (str_eq (key x) q))
  unfolding remove_id find count
  remove_id-count lo hi i [] x b e = absurd (ground arith)
  remove_id-count lo hi i (y ∷ xs) x b e = elim (Bool-cases (ident y == i)) [
    | inl hit ↦
        let above = remove_id_above ident (suc (ident y)) hi i xs b.1 (ground arith) in
        rw hit (rw above (refl, λ q. ground arith))
    | inr miss ↦
        let (n, c) = remove_id-count (suc (ident y)) hi i xs x b.1 (ground arith) in
        rw miss (ap suc n, λ q. ground (arith, c q))
  ]

  pub record Ledger (cap cap_each next : ℕ) (m : List (String × ℕ)) (xs : List A) : Type 0 where
    pub counts : Counts m (map key xs)
    pub ids : Between ident 0 next xs
    pub total : length xs ≤ cap
    pub each : (q : String) → count q (map key xs) ≤ cap_each

  pub Ledger-raise :
      {cap cap_each next : ℕ} {m : List (String × ℕ)} {xs : List A}
      → Ledger cap cap_each next m xs
      → Ledger cap cap_each (suc next) m xs
  Ledger-raise {next} {xs} l = record {
    counts = l.counts;
    ids = Between-raise ident 0 next xs l.ids;
    total = l.total;
    each = l.each;
  }

  count-snoc :
      (q : String) (xs : List A) (x : A)
      → count q (map key (xs ++ x ∷ [])) ≡ count q (map key xs) + one_if (str_eq (key x) q)
  unfolding count
  count-snoc q xs x = rw (map-append key xs, count-append q (map key xs)) (ground arith)

  pub Ledger-add :
      {cap cap_each next : ℕ} {m : List (String × ℕ)} {xs : List A} (x : A)
      → ident x ≡ next
      → length xs < cap
      → count (key x) (map key xs) < cap_each
      → Ledger cap cap_each next m xs
      → Ledger cap cap_each (suc next) (increment (key x) m) (xs ++ x ∷ [])
  Ledger-add {next} {m} {xs} x e room room_each l = record {
    counts = increment-Counts (key x) m _ _ (λ q. count-snoc q xs x) l.counts;
    ids = Between-snoc ident 0 next xs x l.ids e;
    total = omega (arith, length-append xs (x ∷ []));
    each = λ q. ground (arith, count-snoc q xs x, l.each q, eq_iff (key x) q);
  }

  pub Ledger-remove :
      {cap cap_each next : ℕ} {m : List (String × ℕ)} {xs : List A} (i : ℕ) (x : A)
      → find ident i xs ≡ some x
      → Ledger cap cap_each next m xs
      → Ledger cap cap_each next (decrement (key x) m) (remove_id ident i xs)
  Ledger-remove {next} {m} {xs} i x e l =
      let (n, c) = remove_id-count 0 next i xs x l.ids e in
      record {
        counts = decrement-Counts (key x) m _ _ c l.counts;
        ids = remove_id-Between ident 0 next i xs l.ids;
        total = omega arith;
        each = λ q. omega (arith, c q, l.each q);
      }
