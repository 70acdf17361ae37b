-- ===== src/Updater/Settled.antt =====
-- How an update ends.
use nova_ai_agent.Prelude.{
  ◌≡◌, ◌⊎◌, refl, ◌∙◌, String, Bool, true, false, not, ◌&&◌, Option, some, List, [], ◌∷◌, arith,
  str_eq, eq_iff, if_holds, Bool-cases, inl, inr,
}
use nova_ai_agent.Updater.{
  Plan, pending_health, updated, rolled_back, Outcome, Host, new_outcome, same_revision, reset,
  start_old, restore_database, sync_old, reset_head, rollback, fail, come_back, judge_health,
  start_new, step, unit_tests, preflight, checkout, after_backup, make_backup, check_ancestor,
  check_clean, apply_update,
}

-- `Live` says that the children run, `Ancestor` that the old commit is an ancestor of the new one.
module _ {W : Type 0} (host : Host W) (plan : Plan) (Live : W → Type 0) (Ancestor : Type 0) where
  -- What the code relies on: starting the children makes them live, and asking for their health or
  -- writing the result leaves them so; git knows an ancestor; only a merge or a reset moves HEAD. A
  -- merge that succeeds moves it from an ancestor to the commit that it names, as does a reset from
  -- anywhere.
  pub record Behaves : Type 0 where
    pub starts : (w : W) → Live (host.start_all w)
    pub healthy_live : (c : String) (w : W) → Live w → Live (host.healthy c w).1
    pub write_live : (o : Outcome) (w : W) → Live w → Live (host.write_result o w)
    pub start_head : (w : W) → host.head (host.start_all w) ≡ host.head w
    pub stop_head : (w : W) → host.head (host.stop_all w) ≡ host.head w
    pub healthy_head : (c : String) (w : W) → host.head (host.healthy c w).1 ≡ host.head w
    pub write_head : (o : Outcome) (w : W) → host.head (host.write_result o w) ≡ host.head w
    pub run_head : (argv : List String) (w : W) → host.head (host.run argv w).1 ≡ host.head w
    pub backup_head : (w : W) → host.head (host.backup w).1 ≡ host.head w
    pub restore_head : (w : W) → host.head (host.restore w).1 ≡ host.head w
    pub status_head :
        (w : W)
        → host.head (host.git ("status" ∷ "--porcelain" ∷ "--untracked-files=no" ∷ []) w).1
          ≡ host.head w
    pub fetch_head :
        (w : W)
        → host.head (host.git ("fetch" ∷ "--quiet" ∷ plan.remote ∷ plan.branch ∷ []) w).1
          ≡ host.head w
    pub ancestor_head :
        (w : W)
        → host.head
            (host.git ("merge-base" ∷ "--is-ancestor" ∷ plan.from_commit ∷ plan.to_commit ∷ []) w).1
          ≡ host.head w
    pub ancestor_known :
        (w : W)
        → (host.git ("merge-base" ∷ "--is-ancestor" ∷ plan.from_commit ∷ plan.to_commit ∷ []) w).0.0
          ≡ true
        → Ancestor
    pub merge_head :
        (w : W)
        → Ancestor
        → host.head w ≡ plan.from_commit
        → (host.git ("merge" ∷ "--ff-only" ∷ plan.to_commit ∷ []) w).0.0 ≡ true
        → host.head (host.git ("merge" ∷ "--ff-only" ∷ plan.to_commit ∷ []) w).1 ≡ plan.to_commit
    pub reset_moves :
        (w : W)
        → (host.git (reset host plan) w).0.0 ≡ true
        → host.head (host.git (reset host plan) w).1 ≡ plan.from_commit

  -- The update stands and the new version proved healthy, or the result says rolled back, and then,
  -- unless it also says that there were problems, HEAD is the old commit or where it was at the start.
  pub data Ended (head : String) (r : Outcome × W) : Type 0 where
    new_version :
        r.0.status ≡ updated
        → host.head r.1 ≡ plan.to_commit
        → (w : W) → (host.healthy plan.to_commit w).0 ≡ true
        → Ended head r
    old_version :
        r.0.status ≡ rolled_back
        → (r.0.rollback_ok ≡ some true
            → (host.head r.1 ≡ plan.from_commit) ⊎ (host.head r.1 ≡ head))
        → Ended head r

  pub record Settled (head : String) (r : Outcome × W) : Type 0 where
    pub live : Live r.1
    pub ended : Ended head r

  module _ (b : Behaves) (head : String) where
    start_old-Settled :
        (out : Outcome) (well : Bool) (w : W)
        → out.status ≡ rolled_back
        → (well ≡ true → host.head w ≡ plan.from_commit)
        → Settled head (start_old host plan out well w)
    unfolding start_old
    start_old-Settled out well w s h = record {
      live = b.write_live _ _ (b.healthy_live plan.from_commit _ (b.starts _));
      ended = old_version s (λ e. inl (
          b.write_head _ _
          ∙ b.healthy_head plan.from_commit _
          ∙ b.start_head _
          ∙ b.write_head _ _
          ∙ h (ground arith)));
    }

    restore_database-Settled :
        (out : Outcome) (before : Option String) (well : Bool) (w : W)
        → out.status ≡ rolled_back
        → (well ≡ true → host.head w ≡ plan.from_commit)
        → Settled head (restore_database host plan out before well w)
    unfolding restore_database
    restore_database-Settled out before well w s h =
        if_holds (Settled head) (out.db_backup && not (same_revision (host.revision w) before)) _ _
          (start_old-Settled _ _ _ s (λ e. b.restore_head w ∙ h (ground arith)))
          (start_old-Settled out well w s h)

    sync_old-Settled :
        (out : Outcome) (before : Option String) (well : Bool) (w : W)
        → out.status ≡ rolled_back
        → (well ≡ true → host.head w ≡ plan.from_commit)
        → Settled head (sync_old host plan out before well w)
    unfolding sync_old
    sync_old-Settled out before well w s h =
        restore_database-Settled out before _ _ s (λ e. b.run_head _ w ∙ h (ground arith))

    fail-Settled :
        (name : String) (out : Outcome) (before : Option String) (w : W)
        → Settled head (fail host plan name out before w)
    unfolding fail rollback reset_head
    fail-Settled name out before w = elim (Bool-cases (str_eq (host.head w) plan.from_commit)) [
      | inl c ↦ rw c (
          sync_old-Settled _ before true w refl
            (λ e. ground (arith, eq_iff (host.head w) plan.from_commit)))
      | inr c ↦ rw c (sync_old-Settled _ before _ _ refl (b.reset_moves w))
    ]

    come_back-Settled :
        (name : String) (out : Outcome) (w : W)
        → host.head w ≡ head
        → Settled head (come_back host plan name out w)
    unfolding come_back
    come_back-Settled name out w h = record {
      live = b.write_live _ _ (b.starts w);
      ended = old_version refl (λ e. inr (b.write_head _ _ ∙ b.start_head w ∙ h));
    }

    -- A stage that settles once HEAD is the new commit.
    abbrev Settles : (Outcome → Option String → W → Outcome × W) → Type 0
    Settles next =
        (out : Outcome) (before : Option String) (w : W)
        → host.head w ≡ plan.to_commit
        → Settled head (next out before w)

    start_new-Settles : Settles (start_new host plan)
    unfolding start_new judge_health
    start_new-Settles out before w h = by_health _ (record out { status = pending_health }) refl
      where
        started : W
        started = host.start_all (host.write_result (record out { status = pending_health }) w)

        by_health :
            (ok : Bool) (o : Outcome)
            → (host.healthy plan.to_commit started).0 ≡ ok
            → Settled head
                (judge_health host plan o before (ok, (host.healthy plan.to_commit started).1))
        by_health true o e = record {
          live = b.write_live _ _ (b.healthy_live plan.to_commit started (b.starts _));
          ended =
              new_version refl
                (b.write_head _ _
                  ∙ b.healthy_head plan.to_commit started
                  ∙ b.start_head _
                  ∙ b.write_head _ w
                  ∙ h)
                started e;
        }
        by_health false o e = fail-Settled "health" o before _

    step-Settles :
        (name : String) (argv : List String) (next : Outcome → Option String → W → Outcome × W)
        → Settles next
        → Settles (step host plan name argv next)
    unfolding step
    step-Settles name argv next s out before w h =
        if_holds (Settled head) (host.run argv w).0 _ _ (s out before _ (b.run_head argv w ∙ h))
          (fail-Settled name out before _)

    unit_tests-Settles : Settles (unit_tests host plan)
    unfolding unit_tests
    unit_tests-Settles out before w h =
        if_holds (Settled head) plan.run_unit_tests _ _
          (step-Settles _ _ _ start_new-Settles out before w h) (start_new-Settles out before w h)

    module _ (same : head ≡ plan.from_commit) where
      checkout-Settled :
          (a : Ancestor) (out : Outcome) (before : Option String) (w : W)
          → host.head w ≡ head
          → Settled head (checkout host plan out before w)
      unfolding checkout preflight
      checkout-Settled a out before w h =
          elim (Bool-cases (host.git ("merge" ∷ "--ff-only" ∷ plan.to_commit ∷ []) w).0.0) [
            | inl c ↦ rw c (
                step-Settles _ _ _ (step-Settles _ _ _ unit_tests-Settles) out before _
                  (b.merge_head w a (h ∙ same) c))
            | inr c ↦ rw c (fail-Settled "checkout" out before _)
          ]

      make_backup-Settled :
          (a : Ancestor) (out : Outcome) (before : Option String) (w : W)
          → host.head w ≡ head
          → Settled head (make_backup host plan out before w)
      unfolding make_backup after_backup
      make_backup-Settled a out before w h =
          if_holds (Settled head) (host.has_database w) _ _
            (by_backup (host.backup w).0 (host.backup w).1 (b.backup_head w ∙ h))
            (checkout-Settled a out before w h)
        where
          by_backup :
              (ok : Bool) (v : W)
              → host.head v ≡ head
              → Settled head (after_backup host plan out before (ok, v))
          by_backup true v k = checkout-Settled a (record out { db_backup = true }) before v k
          by_backup false v k = come_back-Settled "backup" out v k

      check_ancestor-Settled :
          (out : Outcome) (before : Option String) (w : W)
          → host.head w ≡ head
          → Settled head (check_ancestor host plan out before w)
      unfolding check_ancestor
      check_ancestor-Settled out before w h = elim (Bool-cases (host.git asked fetched).0.0) [
        | inl c ↦ rw c (
            make_backup-Settled (b.ancestor_known fetched c) out before _
              (b.ancestor_head _ ∙ b.fetch_head w ∙ h))
        | inr c ↦ rw c (fail-Settled "check" out before _)
      ]
        where
          asked : List String
          asked = "merge-base" ∷ "--is-ancestor" ∷ plan.from_commit ∷ plan.to_commit ∷ []

          fetched : W
          fetched = (host.git ("fetch" ∷ "--quiet" ∷ plan.remote ∷ plan.branch ∷ []) w).1

      check_clean-Settled :
          (out : Outcome) (before : Option String) (w : W)
          → host.head w ≡ head
          → Settled head (check_clean host plan out before w)
      unfolding check_clean
      check_clean-Settled out before w h =
          if_holds (Settled head) _ _ _ (check_ancestor-Settled out before _ (b.status_head w ∙ h))
            (come_back-Settled "check" out _ (b.status_head w ∙ h))

  -- When git, the hooks and the files behave as documented, then whatever fails, an update ends with
  -- the children started again, and either says updated, with HEAD at the approved commit and its
  -- health seen, or says rolled back; and then, if it reports no problem of the rollback, HEAD is the
  -- old commit or where it was at the start.
  pub apply_update-Settled : (w : W) → Behaves → Settled (host.head w) (apply_update host plan w)
  unfolding apply_update
  apply_update-Settled w b = elim (Bool-cases (str_eq (host.head w) plan.from_commit)) [
    | inl c ↦ rw c (
        check_clean-Settled b (host.head w) (ground (arith, eq_iff (host.head w) plan.from_commit))
          new_outcome _ w refl)
    | inr c ↦ rw c (come_back-Settled b (host.head w) "check" new_outcome w refl)
  ]
