-- ===== src/Logship/Retry.antt =====
-- The batch that drain sends again after a transient failure, and the room that a batch fills.
use quarry.Base.{ℕ, List, [], ◌∷◌, ◌++◌, ◌≡◌}
use quarry.Logship.Buffer.{Chunk, Config, Shipper, write}

abbrev Grown : Shipper → Shipper → Type 0
Grown s t = (more : List Chunk) × (t.pending ≡ s.pending ++ more)

abbrev pub write_all : Config → List (List ℕ) → Shipper → Shipper
write_all cfg [] s = s
write_all cfg (p ∷ ps) s = write_all cfg ps (write cfg p s)
