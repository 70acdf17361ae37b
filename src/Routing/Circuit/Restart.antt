-- ===== src/Routing/Circuit/Restart.antt =====
-- The breakers through calls, time and a restart (models/router/circuit.py).
use nova_ai_agent.Prelude.{
  ℕ, ◌≡◌, refl, String, true, Option, some, List, [], ◌∷◌, lookup, insert, lookup-insert, str_eq,
  str_eq_refl, ◌+◌, ltb, leb, ◌||◌, Bool-cases, inl, inr, ◌∙◌,
}
use nova_ai_agent.Routing.Provider.{ErrorCategory, Breaker, State, Router}
use nova_ai_agent.Routing.Circuit.{
  is_rate_limit, transient, in_probe, closed, breaker_or, get_breaker, save, set_breaker, success,
  open_circuit, count_failure, failure, restart,
}

-- What the breaker is told.
pub data Event : Type 0 where
  succeeded : String → Event
  failed : String → Option ErrorCategory → Option ℕ → Event
  elapsed : ℕ → Event

unfoldable pub tell_breaker : Router → Event → State → State
tell_breaker r (succeeded name) st = success r name st
tell_breaker r (failed name category retry_after) st = (failure r name category retry_after st).1
tell_breaker r (elapsed n) st = record st { clock = st.clock + n }

unfoldable pub tell_all : Router → List Event → State → State
unfolding tell_breaker
tell_all r [] st = st
tell_all r (e ∷ es) st = tell_all r es (tell_breaker r e st)

-- Memory and table agree on every provider.
abbrev pub Agrees : State → Type 0
Agrees st =
    (name : String) → breaker_or (lookup name st.saved) ≡ breaker_or (lookup name st.breakers)

saved-Agrees :
    (r : Router) (name : String) (b : Breaker) (st : State)
    → r.has_history ≡ true
    → Agrees st
    → Agrees (save r name (set_breaker name b st))
unfolding save get_breaker breaker_or
saved-Agrees r name b st h a other =
    let own : lookup name (insert name b st.breakers) ≡ some b =
      lookup-insert name name b st.breakers ∙ rw (str_eq_refl name) refl in
    rw h (
      rw own (
        rw (lookup-insert name other b st.saved, lookup-insert name other b st.breakers)
          (elim (Bool-cases (str_eq name other)) [ inl c ↦ rw c refl | inr c ↦ rw c (a other) ])))

success-Agrees :
    (r : Router) (name : String) (st : State)
    → r.has_history ≡ true
    → Agrees st
    → Agrees (success r name st)
unfolding success
success-Agrees r name st h a =
    let b = get_breaker name st in
    elim (Bool-cases (ltb 0 b.failures || (ltb 0 b.trips || ltb 0 b.cooldown_until))) [
      | inl c ↦ rw c (saved-Agrees r name closed st h a)
      | inr c ↦ rw c a
    ]

failure-Agrees :
    (r : Router) (name : String) (category : Option ErrorCategory) (retry_after : Option ℕ)
    (st : State)
    → r.has_history ≡ true
    → Agrees st
    → Agrees (failure r name category retry_after st).1
unfolding failure count_failure open_circuit
failure-Agrees r name category retry_after st h a =
    let b = get_breaker name st in
    let more = record b { failures = b.failures + 1 } in
    elim (Bool-cases (is_rate_limit category)) [
      | inl l ↦ rw l (saved-Agrees r name _ st h a)
      | inr l ↦ elim (Bool-cases (transient category)) [
        | inl t ↦
            elim (Bool-cases (leb r.settings.threshold (b.failures + 1) || in_probe name st)) [
              | inl c ↦ rw (l, t, c) (saved-Agrees r name _ st h a)
              | inr c ↦ rw (l, t, c) (saved-Agrees r name more st h a)
            ]
        | inr t ↦ rw (l, t) a
      ]
    ]

tell_breaker-Agrees :
    (r : Router) (e : Event) (st : State)
    → r.has_history ≡ true
    → Agrees st
    → Agrees (tell_breaker r e st)
unfolding tell_breaker
tell_breaker-Agrees r (succeeded name) st h a = success-Agrees r name st h a
tell_breaker-Agrees r (failed name category retry_after) st h a =
    failure-Agrees r name category retry_after st h a
tell_breaker-Agrees r (elapsed n) st h a = a

restart_loads :
    (r : Router) (st : State)
    → r.has_history ≡ true
    → ((restart r st).breakers ≡ st.saved) × ((restart r st).saved ≡ st.saved)
unfolding restart
restart_loads r st h = (rw h refl, refl)

tell_all-Agrees :
    (r : Router) (es : List Event) (st : State)
    → r.has_history ≡ true
    → Agrees st
    → Agrees (tell_all r es st)
unfolding tell_all
tell_all-Agrees r [] st h a = a
tell_all-Agrees r (e ∷ es) st h a =
    tell_all-Agrees r es (tell_breaker r e st) h (tell_breaker-Agrees r e st h a)

-- A router with a history that starts, is told of any calls and any time, and starts again, has the
-- breaker of every provider as it was, with its failures, its trips and the end of its cooldown.
pub restart_keeps_breakers :
    (r : Router) (es : List Event) (st : State) (name : String)
    → r.has_history ≡ true
    → let before = tell_all r es (restart r st) in
      get_breaker name (restart r before) ≡ get_breaker name before
unfolding get_breaker
restart_keeps_breakers r es st name h =
    let (b, k) = restart_loads r st h in
    let before = tell_all r es (restart r st) in
    let agrees = tell_all-Agrees r es (restart r st) h (λ other. rw (b, k) refl) in
    rw ((restart_loads r before h).0) (agrees name)
