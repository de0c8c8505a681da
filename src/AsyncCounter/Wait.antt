-- ===== src/AsyncCounter/Wait.antt =====
-- What Wait returns, and when.
use grav.Common.{
  ℕ, zero, suc, ◌+◌, ◌-◌, ◌≤◌, ◌≡◌, refl, ap, ◌∙◌, arith, true, false, List, [], ◌∷◌, ◌++◌, none,
  some, ite, ℕ_discrete, length, All,
}
use grav.AsyncCounter.{
  AsyncCounter, Round, count, arrive, receive, times, is_over, timeout_ms, wait_round, wait_loop,
  wait,
}

abbrev called : List Round → ℕ
called [] = 0
called (r ∷ rs) = r.calls + called rs

abbrev Quiet : List Round → Type 0
Quiet = All (λ r. r.calls ≡ 0)

abbrev Within : ℕ → List Round → Type 0
Within limit = All (λ r. is_over r.elapsed limit ≡ false)

-- Some rounds, none of which is the last.
abbrev play : List Round → ℕ → AsyncCounter → ℕ × AsyncCounter
play [] n a = (n, a)
play (r ∷ rs) n a = let s = wait_round r n a in play rs s.0 s.1

abbrev held : AsyncCounter → ℕ
held a = a.count_chan + a.counting

held-count : (k : ℕ) (a : AsyncCounter) → held (times k count a) ≡ held a + k
unfolding count
held-count zero a = omega arith
held-count (suc k) a = omega (arith, held-count k (count a))

arrive_lem : (a : AsyncCounter) → held (arrive a) ≡ held a
unfolding arrive
arrive_lem a = ground arith

held-arrive : (k : ℕ) (a : AsyncCounter) → held (times k arrive a) ≡ held a
held-arrive zero a = refl
held-arrive (suc k) a = held-arrive k (arrive a) ∙ arrive_lem a

receive_lem : (n : ℕ) (a : AsyncCounter) → (receive n a).0 + held (receive n a).1 ≡ n + held a
unfolding receive
receive_lem n a = ground arith

wait_round_lem :
    (r : Round) (n : ℕ) (a : AsyncCounter)
    → (wait_round r n a).0 + held (wait_round r n a).1 ≡ n + held a + r.calls
unfolding wait_round
wait_round_lem r n a = omega (
  arith,
  receive_lem n (times r.arrivals arrive (times r.calls count a)),
  held-arrive r.arrivals (times r.calls count a),
  held-count r.calls a,
)

-- No value is lost and none counted twice.
play_lem :
    (rs : List Round) (n : ℕ) (a : AsyncCounter)
    → (play rs n a).0 + held (play rs n a).1 ≡ n + held a + called rs
play_lem [] n a = omega arith
play_lem (r ∷ rs) n a =
    let s = wait_round r n a in omega (arith, play_lem rs s.0 s.1, wait_round_lem r n a)

arrive_idle : (k : ℕ) (a : AsyncCounter) → a.counting ≡ 0 → times k arrive a ≡ a
unfolding arrive
arrive_idle zero a z = refl
arrive_idle (suc k) a z =
    let here : arrive a ≡ a = ground (arith, z) in
    arrive_idle k (arrive a) (ap (λ (b : AsyncCounter). b.counting) here ∙ z) ∙ here

wait_round_quiet :
    (r : Round) (n : ℕ) (a : AsyncCounter)
    → a.counting ≡ 0
    → r.calls ≡ 0
    → wait_round r n a ≡ receive n a
unfolding wait_round
wait_round_quiet r n a z q =
    ap (λ k. receive n (times r.arrivals arrive (times k count a))) q
    ∙ ap (receive n) (arrive_idle r.arrivals a z)

receive_quiet :
    (n : ℕ) (a : AsyncCounter)
    → ((receive n a).1.counting ≡ a.counting) × ((receive n a).1.count_chan ≡ a.count_chan - 1)
unfolding receive
receive_quiet n a = (ground arith, ground arith)

-- Where nothing is called and every goroutine has come to the channel, the rounds empty it.
play-Quiet :
    (rs : List Round) (n : ℕ) (a : AsyncCounter)
    → a.counting ≡ 0
    → Quiet rs
    → a.count_chan ≤ length rs
    → held (play rs n a).1 ≡ 0
play-Quiet [] n a z q l = omega arith
play-Quiet (r ∷ rs) n a z (q, qs) l =
    let s = receive n a in
    let (z', c) = receive_quiet n a in
    ap (λ (t : ℕ × AsyncCounter). held (play rs t.0 t.1).1) (wait_round_quiet r n a z q)
    ∙ play-Quiet rs s.0 s.1 (z' ∙ z) qs (omega (arith, l, c))

wait_loop_lem :
    (rs : List Round) (last : Round) (after : List Round) (limit n : ℕ) (a : AsyncCounter)
    → Within limit rs
    → is_over last.elapsed limit ≡ true
    → let s = play rs n a in
      wait_loop (rs ++ (last ∷ after)) limit n a ≡ some (wait_round last s.0 s.1)
unfolding wait_loop
wait_loop_lem [] last after limit n a w o = ground (arith, o)
wait_loop_lem (r ∷ rs) last after limit n a (w, ws) o =
    let s = wait_round r n a in ground (arith, w, wait_loop_lem rs last after limit s.0 s.1 ws o)

-- It runs on while the time is not over, whatever it has counted.
wait_loop-Within :
    (rs : List Round) (limit n : ℕ) (a : AsyncCounter)
    → Within limit rs
    → wait_loop rs limit n a ≡ none
unfolding wait_loop
wait_loop-Within [] limit n a w = refl
wait_loop-Within (r ∷ rs) limit n a (w, ws) =
    let s = wait_round r n a in ground (arith, w, wait_loop-Within rs limit s.0 s.1 ws)

play-append :
    (rs ss : List Round) (n : ℕ) (a : AsyncCounter)
    → let s = play rs n a in play (rs ++ ss) n a ≡ play ss s.0 s.1
play-append [] ss n a = refl
play-append (r ∷ rs) ss n a = let s = wait_round r n a in play-append rs ss s.0 s.1

receive_none : (n : ℕ) (a : AsyncCounter) → a.count_chan ≡ 0 → (receive n a).0 ≡ n
unfolding receive
receive_none n a z = ground (arith, z)

called-append : (rs ss : List Round) → called (rs ++ ss) ≡ called rs + called ss
called-append [] ss = omega arith
called-append (r ∷ rs) ss = omega (arith, called-append rs ss)

called-Quiet : (rs : List Round) → Quiet rs → called rs ≡ 0
called-Quiet [] q = refl
called-Quiet (r ∷ rs) (q, qs) = omega (arith, q, called-Quiet rs qs)

module _ (early late : List Round) (last : Round) (a : AsyncCounter) where
  -- After `early`, Count is called no more, every goroutine has come to the channel, and there are
  -- rounds enough for what lies in it.
  pub record Calm : Type 0 where
    no_calls : Quiet late
    last_quiet : last.calls ≡ 0
    arrived : (play early 0 a).1.counting ≡ 0
    enough : (play early 0 a).1.count_chan ≤ length late

  abbrev all_counted : ℕ
  all_counted = held a + called early

  abbrev at_end : ℕ × AsyncCounter
  at_end = play (early ++ late) 0 a

  emptied : Calm → held at_end.1 ≡ 0
  emptied c =
      let s = play early 0 a in
      ap (λ (t : ℕ × AsyncCounter). held t.1) (play-append early late 0 a)
      ∙ play-Quiet late s.0 s.1 c.arrived c.no_calls c.enough

  counted : Calm → (wait_round last at_end.0 at_end.1).0 ≡ all_counted
  counted c =
      let e = emptied c in
      ap (λ (t : ℕ × AsyncCounter). t.0)
        (wait_round_quiet last at_end.0 at_end.1 (omega (arith, e)) c.last_quiet)
      ∙ receive_none at_end.0 at_end.1 (omega (arith, e))
      ∙ omega (
        arith,
        e,
        play_lem (early ++ late) 0 a,
        called-append early late,
        called-Quiet late c.no_calls,
      )

  -- Wait does not return before the time is over, and then returns nil exactly where the total is
  -- the number of all calls of Count, else the error with that number.
  pub wait_lem :
      (after : List Round) (total seconds : ℕ)
      → Calm
      → Within (timeout_ms seconds) (early ++ late)
      → is_over last.elapsed (timeout_ms seconds) ≡ true
      → (wait (early ++ late) total seconds a ≡ none)
        × (a' : AsyncCounter) × (wait ((early ++ late) ++ (last ∷ after)) total seconds a
            ≡ some (ite (ℕ_discrete all_counted total) none (some all_counted), a'))
  unfolding wait
  wait_lem after total seconds c w o =
      let end = wait_round last at_end.0 at_end.1 in
      (
        ground (arith, wait_loop-Within (early ++ late) (timeout_ms seconds) 0 a w),
        end.1,
        rw (wait_loop_lem (early ++ late) last after (timeout_ms seconds) 0 a w o)
            (ap (λ n. some (ite (ℕ_discrete n total) none (some n), end.1)) (counted c)),
      )
