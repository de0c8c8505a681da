-- ===== src/Hub/Counting.antt =====
-- The goroutine of `withdraw` that counts the connections whose withdraw is complete, and that goes on
-- after `withdraw` has returned.
use grav.Common.{
  ℕ, zero, suc, sym, ◌+◌, ◌-◌, ◌≤◌, ◌≡◌, ◌≢◌, refl, arith, Bool, true, false, List, [], ◌∷◌, ◌++◌,
}

-- The doneChan of a connection: nothing was put into it yet, it holds its value, or that was taken.
pub data DoneChan : Type 0 where
  empty full taken : DoneChan

-- Whether the connection is still in the table, and its doneChan.
abbrev pub Entry : Type 0
Entry = Bool × DoneChan

-- One round over the table, with the count.
unfoldable pub count_round : List Entry → ℕ → List Entry × ℕ
count_round [] count = ([], count)
count_round ((true, full) ∷ es) count =
    let (es', count') = count_round es (count - 1) in ((true, taken) ∷ es', count')
count_round (e ∷ es) count = let (es', count') = count_round es count in (e ∷ es', count')

pub record Counter : Type 0 where
  pub entries : List Entry
  pub count : ℕ

-- A connection calls Done, the scan removes it, or addConnection puts its UUID back into the table, after
-- which the goroutine looks at the same doneChan again: the number is that of the UUIDs put back. A UUID
-- that was not in the table at the withdraw has no doneChan, and a round passes over it. A round is made
-- as long as the count is not 0.
pub data CountStep (s : Counter) : ℕ → Counter → Type 0 where
  finished :
      (es es' : List Entry) (present : Bool)
      → s.entries ≡ es ++ ((present, empty) ∷ es')
      → CountStep s 0 (record s { entries = es ++ ((present, full) ∷ es') })
  removed :
      (es es' : List Entry) (present : Bool) (d : DoneChan)
      → s.entries ≡ es ++ ((present, d) ∷ es')
      → CountStep s 0 (record s { entries = es ++ ((false, d) ∷ es') })
  put_back :
      (es es' : List Entry) (d : DoneChan)
      → s.entries ≡ es ++ ((false, d) ∷ es')
      → CountStep s 1 (record s { entries = es ++ ((true, d) ∷ es') })
  round :
      s.count ≢ 0
      → CountStep s 0 (record {
        entries = (count_round s.entries s.count).0;
        count = (count_round s.entries s.count).1;
      })

-- With the number of the UUIDs that were put back on the way.
pub data CountReach (s : Counter) : ℕ → Counter → Type 0 where
  here : CountReach s 0 s
  later : {k n : ℕ} {t u : Counter} → CountReach s k t → CountStep t n u → CountReach s (k + n) u

-- How many of the doneChans have not been read.
abbrev pub unread : List Entry → ℕ
unread [] = 0
unread ((present, taken) ∷ es) = unread es
unread ((present, empty) ∷ es) = 1 + unread es
unread ((present, full) ∷ es) = 1 + unread es

-- How many of them will not be, since the connection is not in the table any more.
abbrev pub lost : List Entry → ℕ
lost [] = 0
lost ((true, d) ∷ es) = lost es
lost ((false, taken) ∷ es) = lost es
lost ((false, empty) ∷ es) = 1 + lost es
lost ((false, full) ∷ es) = 1 + lost es

round_lem :
    (es : List Entry) (n k : ℕ)
    → n ≡ unread es + k
    → ((count_round es n).1 ≡ unread (count_round es n).0 + k)
      × (lost (count_round es n).0 ≡ lost es)
unfolding count_round
round_lem [] n k e = (e, refl)
round_lem ((true, full) ∷ es) n k e = ground (arith, e, round_lem es (n - 1) k (omega (arith, e)))
round_lem ((true, empty) ∷ es) n k e = ground (arith, e, round_lem es n (1 + k) (omega (arith, e)))
round_lem ((true, taken) ∷ es) n k e = ground (arith, e, round_lem es n k e)
round_lem ((false, full) ∷ es) n k e = ground (arith, e, round_lem es n (1 + k) (omega (arith, e)))
round_lem ((false, empty) ∷ es) n k e = ground (arith, e, round_lem es n (1 + k) (omega (arith, e)))
round_lem ((false, taken) ∷ es) n k e = ground (arith, e, round_lem es n k e)

lost_le : (es : List Entry) → lost es ≤ unread es
lost_le [] = omega arith
lost_le ((true, full) ∷ es) = omega (arith, lost_le es)
lost_le ((true, empty) ∷ es) = omega (arith, lost_le es)
lost_le ((true, taken) ∷ es) = lost_le es
lost_le ((false, full) ∷ es) = omega (arith, lost_le es)
lost_le ((false, empty) ∷ es) = omega (arith, lost_le es)
lost_le ((false, taken) ∷ es) = lost_le es

unread-append : (es es' : List Entry) → unread (es ++ es') ≡ unread es + unread es'
unread-append [] es' = omega arith
unread-append ((present, taken) ∷ es) es' = unread-append es es'
unread-append ((present, empty) ∷ es) es' = ground (arith, unread-append es es')
unread-append ((present, full) ∷ es) es' = ground (arith, unread-append es es')

lost-append : (es es' : List Entry) → lost (es ++ es') ≡ lost es + lost es'
lost-append [] es' = omega arith
lost-append ((true, d) ∷ es) es' = lost-append es es'
lost-append ((false, taken) ∷ es) es' = lost-append es es'
lost-append ((false, empty) ∷ es) es' = ground (arith, lost-append es es')
lost-append ((false, full) ∷ es) es' = ground (arith, lost-append es es')

-- The count is that of the doneChans that have not been read, of which at least `n` are lost, but for
-- `k`.
record Counts (n k : ℕ) (s : Counter) : Type 0 where
  exact : s.count ≡ unread s.entries
  at_least : n ≤ lost s.entries + k

finish_lem :
    (present : Bool) (es : List Entry)
    → (unread ((present, full) ∷ es) ≡ unread ((present, empty) ∷ es))
      × (lost ((present, full) ∷ es) ≡ lost ((present, empty) ∷ es))
finish_lem true es = (refl, refl)
finish_lem false es = (refl, refl)

remove_lem :
    (present : Bool) (d : DoneChan) (es : List Entry)
    → (unread ((false, d) ∷ es) ≡ unread ((present, d) ∷ es))
      × (lost ((present, d) ∷ es) ≤ lost ((false, d) ∷ es))
remove_lem true taken es = (refl, omega arith)
remove_lem true empty es = (refl, omega arith)
remove_lem true full es = (refl, omega arith)
remove_lem false taken es = (refl, omega arith)
remove_lem false empty es = (refl, omega arith)
remove_lem false full es = (refl, omega arith)

back_lem :
    (d : DoneChan) (es : List Entry)
    → (unread ((true, d) ∷ es) ≡ unread ((false, d) ∷ es))
      × (lost ((false, d) ∷ es) ≤ lost ((true, d) ∷ es) + 1)
back_lem taken es = (refl, omega arith)
back_lem empty es = (refl, omega arith)
back_lem full es = (refl, omega arith)

step-Counts :
    (n k : ℕ) {m : ℕ} {s t : Counter} → CountStep s m t → Counts n k s → Counts n (k + m) t
step-Counts n k (finished es es' present e) c =
    let before = (present, empty) ∷ es' in
    let after = (present, full) ∷ es' in
    let (same, same') = finish_lem present es' in
    record {
      exact = ground (arith, c.exact, e, same, unread-append es before, unread-append es after);
      at_least = ground (arith, c.at_least, e, same', lost-append es before, lost-append es after);
    }
step-Counts n k (removed es es' present d e) c =
    let before = (present, d) ∷ es' in
    let after = (false, d) ∷ es' in
    let (same, more) = remove_lem present d es' in
    record {
      exact = ground (arith, c.exact, e, same, unread-append es before, unread-append es after);
      at_least = ground (arith, c.at_least, e, more, lost-append es before, lost-append es after);
    }
step-Counts n k (put_back es es' d e) c =
    let before = (false, d) ∷ es' in
    let after = (true, d) ∷ es' in
    let (same, less) = back_lem d es' in
    record {
      exact = ground (arith, c.exact, e, same, unread-append es before, unread-append es after);
      at_least = ground (arith, c.at_least, e, less, lost-append es before, lost-append es after);
    }
step-Counts n k {s = s} (round some_left) c =
    let (counted, kept) = round_lem s.entries s.count 0 (omega (arith, c.exact)) in
    record { exact = omega (arith, counted); at_least = ground (arith, kept, c.at_least) }

reach-Counts :
    (n : ℕ) {s : Counter} {k : ℕ} {t : Counter} → CountReach s k t → Counts n 0 s → Counts n k t
reach-Counts n here c = c
reach-Counts n (later {k = k} r step) c = step-Counts n k step (reach-Counts n r c)

-- `n` connections, each of which was signalled.
abbrev pub entries_of : ℕ → List Entry
entries_of zero = []
entries_of (suc n) = (true, empty) ∷ entries_of n

unread-entries_of : (n : ℕ) → unread (entries_of n) ≡ n
unread-entries_of zero = refl
unread-entries_of (suc n) = ground (arith, unread-entries_of n)

abbrev pub begun : ℕ → Counter
begun n = record { entries = entries_of n; count = n }

-- In all that can follow a withdraw of n connections, the count is the number of the doneChans that
-- have not been read. Once some connections were removed from the table before their doneChans were
-- read, the count stays at least as high as their number less the number of removed UUIDs that are
-- put back into the table later: its goroutine does not end while more are out than came back.
pub withdraw_count :
    (n : ℕ) {k k' : ℕ} {s t : Counter}
    → CountReach (begun n) k s
    → CountReach s k' t
    → (t.count ≡ unread t.entries) × (lost s.entries ≤ t.count + k')
withdraw_count n {s = s} {t = t} r r' =
    let before =
      reach-Counts 0 r (record { exact = sym (unread-entries_of n); at_least = omega arith }) in
    let after =
      reach-Counts (lost s.entries) r' (record { exact = before.exact; at_least = omega arith }) in
    (after.exact, omega (arith, after.exact, after.at_least, lost_le t.entries))
