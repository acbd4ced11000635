-- ===== src/Tests/Turns.antt =====
-- The mutex and the transforms of bytes, lines and records at concrete inputs.
use datapm.Common.{ℕ, ◌*◌, ◌≤◌, true, none, some, List, [], ◌∷◌, ◌++◌, length, all, ◌≡◌, refl, All}
use datapm.Mutex.Chain
use datapm.Mutex.Chain.{
  waits, holds, settled, Chain, Event, dispatch, microtask, settles, Outcome, returns, throws,
}
use datapm.Mutex.Turns.{is_waiting, is_settled, run-exclusive}
use datapm.Mutex.Finish.{turns, finished, run-finishes}
use datapm.Transforms.Chunks.{concat, drop}
use datapm.Transforms.LineOffset
use datapm.Transforms.LineOffset.{flush}
use datapm.Transforms.Lines.{lines_of, run-drops_lines}
use datapm.Transforms.ByteBatching
use datapm.Transforms.ByteBatching.{ByteBatching}
use datapm.Transforms.Separated.{restored, pushed_of, IsLoss, run-keeps_bytes}

-- Three calls, of which the first has thrown and the second runs.
abbrev three_calls : List Event
three_calls = dispatch ∷ microtask ∷ dispatch ∷ dispatch ∷ settles 0 throws ∷ microtask ∷ []

abbrev three : Chain
three = settled throws ∷ holds ∷ waits ∷ []

three_called : Chain.run three_calls [] ≡ some three
unfolding Chain.run
three_called = refl

run-exclusive_example :
    (all is_settled (settled throws ∷ []) ≡ true) × (all is_waiting (waits ∷ []) ≡ true)
run-exclusive_example = run-exclusive three_calls (settled throws ∷ []) (waits ∷ []) three_called

run-finishes_example :
    (Chain.run (turns (λ n. returns) 0 three) three ≡ some (finished (λ n. returns) 0 three))
    × (all is_settled (finished (λ n. returns) 0 three) ≡ true)
    × (length (turns (λ n. returns) 0 three) ≤ 2 * length three)
run-finishes_example = run-finishes (λ n. returns) three_calls three three_called

-- "a\nb" and "\nc"
run-drops_lines_example :
    (final : LineOffset.LineOffset) × (LineOffset.run
        ((97 ∷ 10 ∷ 98 ∷ []) ∷ (10 ∷ 99 ∷ []) ∷ [])
        (record { start_offset = 1; current_offset = 0; buffer = none })
      ≡ some
          (drop 1 (lines_of (concat ((97 ∷ 10 ∷ 98 ∷ []) ∷ (10 ∷ 99 ∷ []) ∷ []))).complete, final))
    × (flush final ≡ (lines_of (concat ((97 ∷ 10 ∷ 98 ∷ []) ∷ (10 ∷ 99 ∷ []) ∷ []))).rest ∷ [])
run-drops_lines_example = run-drops_lines 1 (97 ∷ 10 ∷ 98 ∷ []) ((10 ∷ 99 ∷ []) ∷ [])

abbrev batching : ByteBatching
batching = record { buffers = []; max_size = 3; buffer_size = 0; separator = 10 }

run-keeps_bytes_example :
    (stretches : List (List ℕ × List ℕ)) × ((ByteBatching.run ((97 ∷ 10 ∷ 98 ∷ []) ∷ []) batching).0
        ++ ByteBatching.flush (ByteBatching.run ((97 ∷ 10 ∷ 98 ∷ []) ∷ []) batching).1
      ≡ pushed_of stretches)
    × All (IsLoss 10) stretches
    × (concat {A = ℕ} ((97 ∷ 10 ∷ 98 ∷ []) ∷ []) ≡ restored stretches)
    × ((ByteBatching.run ((97 ∷ 10 ∷ 98 ∷ []) ∷ []) batching).1.buffer_size
        ≡ length {A = ℕ} (concat {A = ℕ} ((97 ∷ 10 ∷ 98 ∷ []) ∷ [])))
run-keeps_bytes_example = run-keeps_bytes 10 3 ((97 ∷ 10 ∷ 98 ∷ []) ∷ [])
