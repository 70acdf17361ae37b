-- ===== src/Routing/Router/Serving.antt =====
-- Whether `complete` of models/router/router.py returns.
use nova_ai_agent.Prelude.{
  ℕ, zero, suc, ◌≡◌, refl, String, Bool, Option, none, some, List, [], ◌∷◌, arith, ltb, lookup, All,
  Bool-cases, inl, inr, insert_by, sort_by, ◌||◌,
}
use nova_ai_agent.Exec.{Exec, Result, ok, pure, proceed}
use nova_ai_agent.Routing.Provider.{
  Request, Outcome, Entry, Settings, State, Router, Adapter, usable,
}
use nova_ai_agent.Routing.Circuit.{open_for, in_probe}
use nova_ai_agent.Routing.Registry.{Candidate, offered, collect, candidates}
use nova_ai_agent.Routing.Router.{
  Handoff, Left, settle, onward, attempt_loop, attempt, no_switch, fresh_health, after_attempt,
  try_adapter, try_one, may_see, serve, complete, ranked, none_served,
}

-- A result that is not an exception.
abbrev pub Returns {ℓ} : {A : Type ℓ} → Result A → Type ℓ
Returns {A = A} r = (a : A) × (r ≡ ok a)

-- The adapter never raises.
abbrev pub IsSafe : Adapter → Type 0
IsSafe x = (req : Request) (st : State) → Returns (x.complete req st).0

proceed-Returns :
    (a : Result Outcome) (f : Outcome → Exec State Outcome) (st : State)
    → Returns a
    → ((o : Outcome) (st : State) → Returns (f o st).0)
    → Returns (proceed a f st).0
proceed-Returns a f st (o, e) h = rw e (h o st)

module _ (r : Router) (x : Adapter) (name : String) (req : Request) (safe : IsSafe x) where
  onward-Returns :
      (again : Left → Exec State Outcome) (o : Outcome) (s : Option Left × State)
      → ((left : Left) (st : State) → Returns (again left st).0)
      → Returns (onward again o s).0
  unfolding onward
  onward-Returns again o (none, st) h = (o, refl)
  onward-Returns again o (some left, st) h = h left st

  attempt_loop-Returns :
      (n : ℕ) (left : Left) (st : State) → Returns (attempt_loop r x name req n left st).0
  unfolding attempt_loop
  attempt_loop-Returns zero left st =
      proceed-Returns (x.complete req st).0 _ (x.complete req st).1 (safe req st)
        (λ o st. onward-Returns (λ _. pure o) o (settle r name req left o st) (λ _ _. (o, refl)))
  attempt_loop-Returns (suc n) left st =
      proceed-Returns (x.complete req st).0 _ (x.complete req st).1 (safe req st) (λ o st.
        onward-Returns (attempt_loop r x name req n) o (settle r name req left o st)
          (attempt_loop-Returns n))

insert_by-All :
    {A : Type 0} (P : A → Type 0) (first : A → A → Bool) (x : A) (ys : List A)
    → P x
    → All P ys
    → All P (insert_by first x ys)
insert_by-All P first x [] p h = (p, tt)
insert_by-All P first x (y ∷ ys) p h = elim (Bool-cases (first x y)) [
  | inl c ↦ rw (c, insert_by) (p, h)
  | inr c ↦ rw (c, insert_by) (h.0, insert_by-All P first x ys p h.1)
]

sort_by-All :
    {A : Type 0} (P : A → Type 0) (first : A → A → Bool) (xs : List A)
    → All P xs
    → All P (sort_by first xs)
sort_by-All P first [] h = tt
sort_by-All P first (x ∷ xs) h =
    insert_by-All P first x (sort_by first xs) h.0 (sort_by-All P first xs h.1)

-- The candidate has an adapter.
abbrev HasAdapter : List (String × Adapter) → Candidate → Type 0
HasAdapter xs c = (x : Adapter) × (lookup c.provider xs ≡ some x)

offered-HasAdapter :
    (s : Settings) (task name : String) (e : Entry) (xs : List (String × Adapter))
    (o : Option Adapter) (c : Candidate)
    → lookup name xs ≡ o
    → offered s task name e o ≡ some c
    → HasAdapter xs c
unfolding offered
offered-HasAdapter s task name e xs none c l h = cc
offered-HasAdapter s task name e xs (some x) c l h =
    let same : c.provider ≡ name = ground arith in (x, rw same l)

collect-All :
    (s : Settings) (xs : List (String × Adapter)) (task : String) (es : List (String × Entry))
    → All (HasAdapter xs) (collect s xs task es)
unfolding collect
collect-All s xs task [] = tt
collect-All s xs task ((name, e) ∷ es) =
    by_offer (offered s task name e (lookup name xs)) refl (collect-All s xs task es)
  where
    by_offer :
        (o : Option Candidate)
        → offered s task name e (lookup name xs) ≡ o
        → All (HasAdapter xs) (collect s xs task es)
        → All
            (HasAdapter xs)
            (elim o [ none ↦ collect s xs task es | some c ↦ c ∷ collect s xs task es ])
    by_offer none h k = k
    by_offer (some c) h k = (offered-HasAdapter s task name e xs (lookup name xs) c refl h, k)

module _ (r : Router) (handoff : Handoff)
    (safe : (name : String) (x : Adapter) → lookup name r.adapters ≡ some x → IsSafe x) where
  after_attempt-Returns :
      (name : String) (next : Request → Exec State Outcome) (req : Request) (o : Outcome)
      (st : State)
      → ((req : Request) (st : State) → Returns (next req st).0)
      → Returns (after_attempt r handoff name next req o st).0
  unfolding after_attempt
  after_attempt-Returns name next req o st h =
      elim (Bool-cases (o.succeeded || no_switch o.category)) [
        | inl c ↦ rw c (o, refl)
        | inr c ↦ rw c (h (handoff req name o) st)
      ]

  try_adapter-Returns :
      (c : Candidate) (x : Adapter) (next : Request → Exec State Outcome) (req : Request)
      (st : State)
      → lookup c.provider r.adapters ≡ some x
      → ((req : Request) (st : State) → Returns (next req st).0)
      → Returns (try_adapter r handoff c (some x) next req st).0
  unfolding try_adapter attempt
  try_adapter-Returns c x next req st l h = elim (Bool-cases (ltb 0 (open_for c.provider st))) [
    | inl o ↦ rw o (h req st)
    | inr o ↦
        let f = fresh_health x c.provider (in_probe c.provider st) st in
        elim (Bool-cases (usable f.0)) [
          | inl u ↦
              rw (o, u)
                (proceed-Returns (attempt r x c.provider req f.1).0
                  (after_attempt r handoff c.provider next req) (attempt r x c.provider req f.1).1
                  (attempt_loop-Returns r x c.provider req (safe c.provider x l) _ _ f.1)
                  (λ o st. after_attempt-Returns c.provider next req o st h))
          | inr u ↦ rw (o, u) (h req f.1)
        ]
  ]

  serve-Returns :
      (local : Bool) (exclude : List String) (cs : List Candidate)
      → All (HasAdapter r.adapters) cs
      → (req : Request) (st : State) → Returns (serve r handoff local exclude cs req st).0
  unfolding serve try_one
  serve-Returns local exclude [] a req st = (none_served, refl)
  serve-Returns local exclude (c ∷ cs) ((x, l), a) req st =
      elim (Bool-cases (may_see r handoff local exclude c)) [
        | inl m ↦
            rw (m, l)
              (try_adapter-Returns c x (serve r handoff local exclude cs) req st l
                (serve-Returns local exclude cs a))
        | inr m ↦ rw m (serve-Returns local exclude cs a req st)
      ]

  -- When no adapter raises, `complete` returns a result, whatever fails.
  pub complete-Returns :
      (exclude : List String) (req : Request) (st : State)
      → Returns (complete r handoff exclude req st).0
  unfolding complete ranked candidates
  complete-Returns exclude req st =
      serve-Returns _ exclude _
        (sort_by-All (HasAdapter r.adapters) _ _ (
          sort_by-All (HasAdapter r.adapters) _ _
            (collect-All r.settings r.adapters req.task_type r.settings.providers)))
        _ st
