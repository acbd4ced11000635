-- ===== src/Mutex/Finish.antt =====
-- client-lib/src/util/Mutex.ts: every call of `dispatch` has its turn.
use datapm.Common.{
  ℕ, suc, ◌*◌, ◌≤◌, true, some, List, [], ◌∷◌, ◌++◌, ◌≡◌, refl, ap, ◌∙◌, length, all, arith,
}
use datapm.Transforms.Chunks.{append_assoc, length-append}
use datapm.Mutex.Chain.{
  waits, holds, settled, Chain, Event, microtask, settles, Outcome, begin, settle, step, run,
  behind,
}
use datapm.Mutex.Turns.{is_settled, IsOrdered, run-IsOrdered, waiting-IsOrdered}

-- The turns that are left, from the call of a number on: what each `fn` settles with is given.
unfoldable pub turns : (ℕ → Outcome) → ℕ → Chain → List Event
turns outcome n [] = []
turns outcome n (settled before ∷ links) = turns outcome (suc n) links
turns outcome n (holds ∷ links) = settles n (outcome n) ∷ turns outcome (suc n) links
turns outcome n (waits ∷ links) = microtask ∷ settles n (outcome n) ∷ turns outcome (suc n) links

-- Each call that has not settled settles with its outcome.
unfoldable pub finished : (ℕ → Outcome) → ℕ → Chain → Chain
finished outcome n [] = []
finished outcome n (settled before ∷ links) = settled before ∷ finished outcome (suc n) links
finished outcome n (holds ∷ links) = settled (outcome n) ∷ finished outcome (suc n) links
finished outcome n (waits ∷ links) = settled (outcome n) ∷ finished outcome (suc n) links

-- Links that have settled are passed over.
begin_behind :
    (before links next : Chain)
    → all is_settled before ≡ true
    → begin links ≡ some next
    → begin (before ++ links) ≡ some (before ++ next)
unfolding begin
begin_behind [] links next h e = e
begin_behind (settled o ∷ before) links next h e =
    ap (behind (settled o)) (begin_behind before links next h e)
begin_behind (holds ∷ before) links next h e = cc
begin_behind (waits ∷ before) links next h e = cc

settle_behind :
    (before links : Chain) (o : Outcome)
    → settle (length before) o (before ++ (holds ∷ links)) ≡ some (before ++ (settled o ∷ links))
unfolding settle
settle_behind [] links o = refl
settle_behind (link ∷ before) links o = ap (behind link) (settle_behind before links o)

all_settled-append :
    (before : Chain) (o : Outcome)
    → all is_settled before ≡ true
    → all is_settled (before ++ (settled o ∷ [])) ≡ true
all_settled-append [] o h = refl
all_settled-append (settled b ∷ before) o h = all_settled-append before o h
all_settled-append (holds ∷ before) o h = cc
all_settled-append (waits ∷ before) o h = cc

-- The links after one that has settled, which is then one of those before.
passed_over :
    (outcome : ℕ → Outcome) (before links : Chain) (o : Outcome)
    → let n = length (before ++ (settled o ∷ [])) in
      run (turns outcome n links) ((before ++ (settled o ∷ [])) ++ links)
        ≡ some ((before ++ (settled o ∷ [])) ++ finished outcome n links)
      → run (turns outcome (suc (length before)) links) (before ++ (settled o ∷ links))
        ≡ some (before ++ (settled o ∷ finished outcome (suc (length before)) links))
passed_over outcome before links o h =
    let n : length (before ++ (settled o ∷ [])) ≡ suc (length before) =
      length-append before (settled o ∷ []) ∙ omega arith in
    rw
      (
        n,
        append_assoc before (settled o ∷ []) links,
        append_assoc before (settled o ∷ []) (finished outcome (suc (length before)) links),
      )
      at h

finished-all_settled :
    (outcome : ℕ → Outcome) (n : ℕ) (links : Chain)
    → all is_settled (finished outcome n links) ≡ true
unfolding finished
finished-all_settled outcome n [] = refl
finished-all_settled outcome n (settled b ∷ links) = finished-all_settled outcome (suc n) links
finished-all_settled outcome n (holds ∷ links) = finished-all_settled outcome (suc n) links
finished-all_settled outcome n (waits ∷ links) = finished-all_settled outcome (suc n) links

run-step :
    (event : Event) (events : List Event) (chain next : Chain)
    → step event chain ≡ some next
    → run (event ∷ events) chain ≡ run events next
unfolding run
run-step event events chain next moved = rw (moved, run) refl

run-turns_behind :
    (outcome : ℕ → Outcome) (before links : Chain)
    → all is_settled before ≡ true
    → IsOrdered links
    → run (turns outcome (length before) links) (before ++ links)
      ≡ some (before ++ finished outcome (length before) links)
unfolding run step begin turns finished
run-turns_behind outcome before [] h o = refl
run-turns_behind outcome before (settled b ∷ links) h o =
    passed_over outcome before links b (
      run-turns_behind outcome (before ++ (settled b ∷ [])) links (all_settled-append before b h) o)
run-turns_behind outcome before (holds ∷ links) h o =
    let now = outcome (length before) in
    let n = length before in
    run-step (settles n now) (turns outcome (suc n) links) (before ++ (holds ∷ links))
      (before ++ (settled now ∷ links)) (settle_behind before links now)
    ∙ passed_over outcome before links now (
        run-turns_behind outcome (before ++ (settled now ∷ [])) links
          (all_settled-append before now h) (waiting-IsOrdered links o))
run-turns_behind outcome before (waits ∷ links) h o =
    let now = outcome (length before) in
    let n = length before in
    run-step microtask (settles n now ∷ turns outcome (suc n) links) (before ++ (waits ∷ links))
      (before ++ (holds ∷ links)) (begin_behind before (waits ∷ links) (holds ∷ links) h refl)
    ∙ run-step (settles n now) (turns outcome (suc n) links) (before ++ (holds ∷ links))
        (before ++ (settled now ∷ links)) (settle_behind before links now)
    ∙ passed_over outcome before links now (
        run-turns_behind outcome (before ++ (settled now ∷ [])) links
          (all_settled-append before now h) (waiting-IsOrdered links o))

length-turns :
    (outcome : ℕ → Outcome) (n : ℕ) (links : Chain)
    → length (turns outcome n links) ≤ 2 * length links
unfolding turns
length-turns outcome n [] = omega arith
length-turns outcome n (settled b ∷ links) =
    let h = length-turns outcome (suc n) links in omega arith
length-turns outcome n (holds ∷ links) = let h = length-turns outcome (suc n) links in omega arith
length-turns outcome n (waits ∷ links) = let h = length-turns outcome (suc n) links in omega arith

-- Whatever has happened since the mutex was made, and whatever each `fn` will settle with, also
-- where it throws: the calls that are left can take their turns, each of them settles with the outcome of its `fn`, and
-- this takes two events for each call at most.
pub run-finishes :
    (outcome : ℕ → Outcome) (events : List Event) (chain : Chain)
    → run events [] ≡ some chain
    → (run (turns outcome 0 chain) chain ≡ some (finished outcome 0 chain))
      × (all is_settled (finished outcome 0 chain) ≡ true)
      × (length (turns outcome 0 chain) ≤ 2 * length chain)
run-finishes outcome events chain e = (
  run-turns_behind outcome [] chain refl (run-IsOrdered events [] chain tt e),
  finished-all_settled outcome 0 chain,
  length-turns outcome 0 chain,
)
