-- ===== src/Balancer.antt =====
-- grav/tunnel/balancer.go: a round-robin list of UUIDs. The mutex makes each call one step.
pub mod Valid
pub mod RoundRobin
use grav.Common.{
  ℕ, zero, suc, ◌+◌, ◌-◌, ◌/◌, String, List, [], ◌∷◌, ◌++◌, Option, some, ite, dec_le,
  string_discrete, length, get_elem?, ◌>>=◌,
}

pub record Balancer : Type 0 where
  pub uuids : List String
  pub index : ℕ

unfoldable pub new_balancer : Balancer
new_balancer = record { uuids = []; index = 0 }

unfoldable pub add : Balancer → String → Balancer
add b uuid = record b { uuids = b.uuids ++ (uuid ∷ []) }

-- The loop of `Remove` over `b.uuids`.
unfoldable pub without : String → List String → List String
without uuid [] = []
without uuid (x ∷ xs) = ite (string_discrete x uuid) (without uuid xs) (x ∷ without uuid xs)

-- Go's `len(b.uuids)-1` is -1 for the empty list, where `index >= -1` holds, as `0 ≤ index` does.
unfoldable pub clamp : Balancer → Balancer
clamp b = ite (dec_le (length b.uuids - 1) b.index) (record b { index = length b.uuids / 2 }) b

unfoldable pub remove : Balancer → String → Balancer
unfolding without clamp
remove b uuid = clamp (record b { uuids = without uuid b.uuids })

-- `none` is the panic of an index out of range.
unfoldable pub next : Balancer → Option (String × Balancer)
next b = do
  uuid ← get_elem? b.uuids b.index
  some (uuid, record b { index = ite (dec_le (length b.uuids - 1) b.index) 0 (b.index + 1) })

-- `n` calls of `Next`, one after another.
unfoldable pub nexts : ℕ → Balancer → Option (List String × Balancer)
nexts zero b = some ([], b)
nexts (suc n) b = do (uuid, b') ← next b; (rest, b'') ← nexts n b'; some (uuid ∷ rest, b'')
