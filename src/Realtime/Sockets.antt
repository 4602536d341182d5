-- ===== src/Realtime/Sockets.antt =====
-- Whether a set of sockets has one of them.
pub mod Index
use backend_sketch.Prelude.{ℕ, Bool, List, any, ◌==◌, nat_eq}

abbrev pub holds : ℕ → List ℕ → Bool
holds ws = any (λ x. x == ws)
