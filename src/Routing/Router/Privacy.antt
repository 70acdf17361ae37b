-- ===== src/Routing/Router/Privacy.antt =====
-- Which providers can have a part in the answer to a request (models/router/router.py).
use mathlib.Core.List.{Memᴰ}
use nova_ai_agent.Prelude.{
  ◌≡◌, ◌⊎◌, refl, ap, String, Bool, true, false, some, List, [], ◌∷◌, arith, if◌then◌else◌, lookup,
  keep,
}
use nova_ai_agent.Routing.Provider.{on_this_pc, Entry, Request, State, Router}
use nova_ai_agent.Routing.Registry.{Candidate, text_mem}
use nova_ai_agent.Routing.Router.{Handoff, may_see, try_adapter, try_one, serve}

-- The request must stay on this PC: it says so, or it has a screenshot and these must stay.
abbrev pub StaysHere : Router → Request → Type 0
StaysHere r req =
    (req.local_only ≡ true) ⊎ ((req.has_images ≡ true) × (r.settings.screenshots_local_only ≡ true))

-- The provider is not excluded, and is configured to run on this PC if the request must stay there.
pub record MaySee (r : Router) (exclude : List String) (req : Request) (c : Candidate)
    : Type 0 where
  pub included : Memᴰ c.provider exclude → ⊥
  pub local :
      StaysHere r req
      → (e : Entry) × (lookup c.provider r.settings.providers ≡ some e) × (e.mode ≡ on_this_pc)

module _ (r : Router) (handoff : Handoff) (exclude : List String) where
  module _ (local : Bool) where
    abbrev visible : List Candidate → List Candidate
    visible cs = keep (may_see r handoff local exclude) cs

    serve_first :
        (c : Candidate) (cs : List Candidate) (b : Bool)
        → may_see r handoff local exclude c ≡ b
        → serve r handoff local exclude cs ≡ serve r handoff false [] (visible cs)
        → (req : Request) (st : State)
        → serve r handoff local exclude (c ∷ cs) req st
          ≡ serve r handoff false [] (if b then c ∷ visible cs else visible cs) req st
    unfolding serve try_one may_see text_mem
    serve_first c cs true m h req st =
        rw m (ap (λ next. try_adapter r handoff c (lookup c.provider r.adapters) next req st) h)
    serve_first c cs false m h req st = rw m (ap (λ next. next req st) h)

    keep_first :
        (c : Candidate) (cs : List Candidate)
        → visible (c ∷ cs)
          ≡ (if may_see r handoff local exclude c then c ∷ visible cs else visible cs)
    keep_first c cs = ground arith

    -- The loop serves a request as the loop without any restriction serves it by the candidates that
    -- may see it.
    pub serve-visible :
        (cs : List Candidate)
        → serve r handoff local exclude cs ≡ serve r handoff false [] (visible cs)
    unfolding serve
    serve-visible [] = refl
    serve-visible (c ∷ cs) = rw (keep_first c cs) (λ i req st.
        serve_first c cs (may_see r handoff local exclude c) refl (serve-visible cs) req st i)

  -- A candidate is in the list, or it may not see the request.
  abbrev pub Considered : Request → List Candidate → Candidate → Type 0
  Considered req vs c = Memᴰ c vs ⊎ (MaySee r exclude req c → ⊥)
