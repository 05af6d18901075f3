-- ===== src/Sync.antt =====
-- packages/typescript/src/sync: the synchronous client, its worker, and the messages between them.
pub mod Ipc
pub mod Batch
pub mod Calls
pub mod Worker
pub mod Exchange
use ja3proxy.Errors.{Outcome, returned, threw}

-- Synchronous code that may throw.
infixl 5 ◌>>=◌ ◌>>◌
abbrev pub ◌>>=◌ : {A B : Type 0} → Outcome A → (A → Outcome B) → Outcome B
returned a >>= f = f a
threw e >>= f = threw e

abbrev pub ◌>>◌ : {B : Type 0} → Outcome (Unit {0}) → Outcome B → Outcome B
m >> k = m >>= λ _. k
