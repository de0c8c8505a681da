-- ===== src/Tests/Balancers.antt =====
-- The balancer on the UUIDs of balancer_test.go.
use grav.Common.{◌≡◌, refl, [], ◌∷◌, some, arith, string_discrete, dec_le}
use grav.Balancer.{Balancer, new_balancer, add, remove, nexts}
use grav.Balancer.RoundRobin.{nexts_round}

abbrev three : Balancer
three = record { uuids = "asdf" ∷ "hjkl" ∷ "qwer" ∷ []; index = 1 }

built : add (add (add new_balancer "asdf") "hjkl") "qwer" ≡ record three { index = 0 }
unfolding add new_balancer
built = refl

removed : (remove (remove three "asdf") "hjkl").uuids ≡ "qwer" ∷ []
unfolding remove string_discrete dec_le
removed = refl

nexts_round_example : nexts 3 three ≡ some ("hjkl" ∷ "qwer" ∷ "asdf" ∷ [], three)
nexts_round_example = nexts_round three (omega arith)
