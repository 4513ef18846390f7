-- ===== src/History/Tests.antt =====
-- Runs of the ring buffer.
use first_fork.Common.{ℕ, ◌≡◌, refl, [], ◌∷◌, arith}
use first_fork.History.{RingBuf, new, push, push_all}
use first_fork.History.Window.{IsBounded, newest, push_all-newest, new-IsBounded}

abbrev three : RingBuf ℕ
unfolding new
three = new 3 (omega arith)

evicts_oldest : (push_all three (1 ∷ 2 ∷ 3 ∷ 4 ∷ [])).items ≡ 2 ∷ 3 ∷ 4 ∷ []
unfolding push_all push new
evicts_oldest = refl

push_all-newest_example :
    ((push_all three (1 ∷ 2 ∷ 3 ∷ 4 ∷ 5 ∷ [])).items ≡ newest 3 (1 ∷ 2 ∷ 3 ∷ 4 ∷ 5 ∷ []))
    × IsBounded (push_all three (1 ∷ 2 ∷ 3 ∷ 4 ∷ 5 ∷ []))
unfolding new
push_all-newest_example =
    push_all-newest three (1 ∷ 2 ∷ 3 ∷ 4 ∷ 5 ∷ []) (new-IsBounded 3 (omega arith))
