-- ===== src/Mutex/Chain.antt =====
-- client-lib/src/util/Mutex.ts: the chain of promises that `lock` builds, with a link for each call of
-- `dispatch` in the order of the calls, and what can happen to it.
use datapm.Common.{ℕ, zero, suc, Option, none, some, List, [], ◌∷◌, ◌++◌}

-- How the promise of `fn()` settles.
pub data Outcome : Type 0 where
  returns throws : Outcome

-- A call waits until the link before it has been resolved. Then its link's promise is made, which
-- resolves `begin` with `unlock`, and `fn` runs. At its end, `finally` calls `unlock`, which
-- resolves the link, whether `fn` returned or threw.
pub data Link : Type 0 where
  waits holds : Link
  settled : Outcome → Link

abbrev pub Chain : Type 0
Chain = List Link

-- `dispatch` is called, a microtask calls the executor of a link's promise, or the `fn` of a call settles.
pub data Event : Type 0 where
  dispatch microtask : Event
  settles : ℕ → Outcome → Event

abbrev pub behind : Link → Option Chain → Option Chain
behind link none = none
behind link (some rest) = some (link ∷ rest)

-- The first link that is not resolved begins, if its executor has not been called.
unfoldable pub begin : Chain → Option Chain
begin [] = none
begin (settled outcome ∷ links) = behind (settled outcome) (begin links)
begin (holds ∷ links) = none
begin (waits ∷ links) = some (holds ∷ links)

-- The call of that number, which must be running, settles.
unfoldable pub settle : ℕ → Outcome → Chain → Option Chain
settle n outcome [] = none
settle zero outcome (holds ∷ links) = some (settled outcome ∷ links)
settle zero outcome (waits ∷ links) = none
settle zero outcome (settled before ∷ links) = none
settle (suc n) outcome (link ∷ links) = behind link (settle n outcome links)

-- The chain after an event, `none` where the event cannot happen.
unfoldable pub step : Event → Chain → Option Chain
unfolding begin settle
step dispatch chain = some (chain ++ (waits ∷ []))
step microtask chain = begin chain
step (settles n outcome) chain = settle n outcome chain

unfoldable pub run : List Event → Chain → Option Chain
unfolding step
run [] chain = some chain
run (event ∷ events) chain = elim (step event chain) [ none ↦ none | some next ↦ run events next ]
