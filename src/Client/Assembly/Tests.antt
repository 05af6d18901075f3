-- ===== src/Client/Assembly/Tests.antt =====
-- Bodies that are collected, and one that the budget refuses.
use ja3proxy.Base.{ℕ, ◌≡◌, refl, true, false, List, [], ◌∷◌, arith}
use ja3proxy.Client.Assembly.{
  BufferBudget, create, reserve, release, flush, place, grow, copy, append, buffered, too_large,
  failed, buffer_from, buffer, chunk_taken, joined,
}
use ja3proxy.Client.Assembly.Content.{Buffers, buffer-Buffers}

runs : Unit {0}
unfolding create reserve release flush place grow copy append chunk_taken buffer_from buffer
runs = tt

abbrev budget : BufferBudget
budget = record { limit = 20; retained = 4 }

abbrev chunks : List (List ℕ)
chunks = (1 ∷ 2 ∷ []) ∷ [] ∷ (3 ∷ []) ∷ (4 ∷ 5 ∷ 6 ∷ []) ∷ []

bodies :
    (buffer chunks true budget ≡ buffered (1 ∷ 2 ∷ 3 ∷ 4 ∷ 5 ∷ 6 ∷ []) budget)
    × (buffer chunks false budget ≡ failed budget)
    × (buffer ((7 ∷ 7 ∷ 7 ∷ 7 ∷ 7 ∷ 7 ∷ []) ∷ chunks) true budget ≡ too_large budget)
unfolding runs
bodies = (refl, refl, refl)

buffer-Buffers_example : Buffers (joined chunks) true budget (buffer chunks true budget)
buffer-Buffers_example =
    buffer-Buffers chunks true budget (omega arith, (omega arith, (omega arith, (omega arith, tt))))
