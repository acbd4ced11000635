-- ===== src/Mutex/Turns.antt =====
-- client-lib/src/util/Mutex.ts: who runs, and who has run before.
use datapm.Common.{
  ℕ, zero, suc, Bool, true, false, Option, none, some, List, [], ◌∷◌, ◌++◌, ◌≡◌, refl, ap, subst,
  Option-cases, inl, inr, all, arith,
}
use datapm.Mutex.Chain.{
  Link, waits, holds, settled, Chain, Event, dispatch, microtask, settles, Outcome, begin, settle,
  step, run, behind,
}

abbrev pub is_waiting : Link → Bool
is_waiting waits = true
is_waiting _ = false

abbrev pub is_settled : Link → Bool
is_settled (settled outcome) = true
is_settled _ = false

-- Settled links first, one that holds at most, then those that wait.
abbrev pub IsOrdered : Chain → Type 0
IsOrdered [] = Unit
IsOrdered (settled outcome ∷ links) = IsOrdered links
IsOrdered (holds ∷ links) = all is_waiting links ≡ true
IsOrdered (waits ∷ links) = all is_waiting links ≡ true

all_waiting-append :
    (links : Chain) → all is_waiting links ≡ true → all is_waiting (links ++ (waits ∷ [])) ≡ true
all_waiting-append [] h = refl
all_waiting-append (waits ∷ links) h = all_waiting-append links h
all_waiting-append (holds ∷ links) h = cc
all_waiting-append (settled o ∷ links) h = cc

pub waiting-IsOrdered : (links : Chain) → all is_waiting links ≡ true → IsOrdered links
waiting-IsOrdered [] h = tt
waiting-IsOrdered (waits ∷ links) h = h
waiting-IsOrdered (holds ∷ links) h = cc
waiting-IsOrdered (settled o ∷ links) h = cc

dispatch-IsOrdered : (links : Chain) → IsOrdered links → IsOrdered (links ++ (waits ∷ []))
dispatch-IsOrdered [] h = refl
dispatch-IsOrdered (settled o ∷ links) h = dispatch-IsOrdered links h
dispatch-IsOrdered (holds ∷ links) h = all_waiting-append links h
dispatch-IsOrdered (waits ∷ links) h = all_waiting-append links h

-- What an event that can happen leaves is in order.
abbrev Leaves : Option Chain → Type 0
Leaves none = Unit
Leaves (some links) = IsOrdered links

behind-Leaves :
    (o : Outcome) (found : Option Chain) → Leaves found → Leaves (behind (settled o) found)
behind-Leaves o none h = tt
behind-Leaves o (some links) h = h

begin-Leaves : (links : Chain) → IsOrdered links → Leaves (begin links)
unfolding begin
begin-Leaves [] h = tt
begin-Leaves (settled o ∷ links) h = behind-Leaves o (begin links) (begin-Leaves links h)
begin-Leaves (holds ∷ links) h = tt
begin-Leaves (waits ∷ links) h = h

-- None of the links that wait can settle.
settle_waiting :
    (n : ℕ) (o : Outcome) (links : Chain) → all is_waiting links ≡ true → settle n o links ≡ none
unfolding settle
settle_waiting n o [] h = refl
settle_waiting zero o (waits ∷ links) h = refl
settle_waiting (suc n) o (waits ∷ links) h = ap (behind waits) (settle_waiting n o links h)
settle_waiting n o (holds ∷ links) h = cc
settle_waiting n o (settled b ∷ links) h = cc

settle-Leaves : (n : ℕ) (o : Outcome) (links : Chain) → IsOrdered links → Leaves (settle n o links)
unfolding settle
settle-Leaves n o [] h = tt
settle-Leaves zero o (settled b ∷ links) h = tt
settle-Leaves (suc n) o (settled b ∷ links) h =
    behind-Leaves b (settle n o links) (settle-Leaves n o links h)
settle-Leaves zero o (holds ∷ links) h = waiting-IsOrdered links h
settle-Leaves (suc n) o (holds ∷ links) h = rw (settle_waiting n o links h) tt
settle-Leaves zero o (waits ∷ links) h = tt
settle-Leaves (suc n) o (waits ∷ links) h = rw (settle_waiting n o links h) tt

step-Leaves : (event : Event) (links : Chain) → IsOrdered links → Leaves (step event links)
unfolding step
step-Leaves dispatch links h = dispatch-IsOrdered links h
step-Leaves microtask links h = begin-Leaves links h
step-Leaves (settles n o) links h = settle-Leaves n o links h

pub run-IsOrdered :
    (events : List Event) (links final : Chain)
    → IsOrdered links
    → run events links ≡ some final
    → IsOrdered final
unfolding run
run-IsOrdered [] links final h e = subst (λ o. Leaves o) e h
run-IsOrdered (event ∷ events) links final h e = elim (Option-cases (step event links)) [
  | inl stuck ↦ ground (arith, stuck)
  | inr (next, moved) ↦
      run-IsOrdered events next final (subst (λ o. Leaves o) moved (step-Leaves event links h))
        (ground (arith, moved))
]

waiting_holder : (before after : Chain) → all is_waiting (before ++ (holds ∷ after)) ≡ false
waiting_holder [] after = refl
waiting_holder (waits ∷ before) after = waiting_holder before after
waiting_holder (holds ∷ before) after = refl
waiting_holder (settled o ∷ before) after = refl

holder_lem :
    (before after : Chain)
    → IsOrdered (before ++ (holds ∷ after))
    → (all is_settled before ≡ true) × (all is_waiting after ≡ true)
holder_lem [] after h = (refl, h)
holder_lem (settled o ∷ before) after h = holder_lem before after h
holder_lem (holds ∷ before) after h = let none_waits = waiting_holder before after in cc
holder_lem (waits ∷ before) after h = let none_waits = waiting_holder before after in cc

-- Whatever has happened since the mutex was made: while the `fn` of one call runs, each call that asked
-- before it has settled, and each call that asked after it waits.
pub run-exclusive :
    (events : List Event) (before after : Chain)
    → run events [] ≡ some (before ++ (holds ∷ after))
    → (all is_settled before ≡ true) × (all is_waiting after ≡ true)
run-exclusive events before after e =
    holder_lem before after (run-IsOrdered events [] (before ++ (holds ∷ after)) tt e)
