-- ===== src/Balancer/RoundRobin.antt =====
-- Consecutive calls of `Next`.
use grav.Common.{
  ℕ, zero, suc, ◌<◌, ◌≡◌, refl, String, some, arith, length, get_elem?, get_elem?_of_lt, advance,
  advance-lt, walk, rotate, turns, turns_lem, walk-rotate,
}
use grav.Balancer.{Balancer, next, nexts}

next_lem :
    (b : Balancer) (x : String)
    → get_elem? b.uuids b.index ≡ some x
    → b.index < length b.uuids
    → next b ≡ some (x, record b { index = advance (length b.uuids) b.index })
unfolding next advance
next_lem b x g h = ground arith

nexts_lem :
    (n : ℕ) (b : Balancer)
    → b.index < length b.uuids
    → nexts n b
      ≡ some (walk b.uuids b.index n, record b { index = turns (length b.uuids) b.index n })
unfolding nexts walk turns
nexts_lem zero b h = refl
nexts_lem (suc n) b h =
    let (x, g) = get_elem?_of_lt b.uuids b.index h in
    ground (
      arith,
      g,
      next_lem b x g h,
      nexts_lem n (record b { index = advance (length b.uuids) b.index })
          (advance-lt (length b.uuids) b.index h),
    )

-- As many calls of Next as a balancer has UUIDs, from an index in range, return every UUID of the
-- list once, in order from the index on and round the end, and leave the balancer as it was.
pub nexts_round :
    (b : Balancer)
    → b.index < length b.uuids
    → nexts (length b.uuids) b ≡ some (rotate b.index b.uuids, b)
nexts_round b h = ground (
  arith,
  nexts_lem (length b.uuids) b h,
  walk-rotate b.uuids b.index h,
  turns_lem (length b.uuids) b.index h,
)
