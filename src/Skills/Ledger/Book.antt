-- ===== src/Skills/Ledger/Book.antt =====
-- The ledger of core/skills/ledger.py against its abstract view: for each task and key, the status and
-- the summary of the last attempt. The view forgets ids, order, actions, targets and times.
use nova_ai_agent.Prelude.{
  ℕ, ◌≡◌, refl, ◌∙◌, String, Bool, false, Option, none, some, List, [], ◌∷◌, cut, arith, Bool-cases,
  inl, inr, if◌then◌else◌, eq_iff, ap, sym,
}
use nova_ai_agent.Db.{EffectStatus, pending, Db}
use nova_ai_agent.Skills.Ledger.{Entry, by_key, entry_of, lookup_effect, begin, finish}
use nova_ai_agent.Skills.Ledger.Writes.{
  HasLedger, same, Started, begin-Started, begin-other, status_of, finish-Ended, finish-other,
}

abbrev pub Book : Type 0
Book = ℕ → String → Option (EffectStatus × String)

abbrev shown : Option Entry → Option (EffectStatus × String)
shown none = none
shown (some e) = some (e.status, e.summary)

-- What the ledger shows of an effect.
unfoldable pub book : Db → Book
book db task_id key = shown (lookup_effect task_id key db)

-- An attempt of an effect: it begins, and its outcome is recorded unless it is cut off.
pub record Attempt : Type 0 where
  pub task_id : ℕ
  pub key : String
  pub action : String
  pub target : String
  pub outcome : Option (Bool × String)

abbrev record_outcome : Option (Bool × String) → ℕ × Db → Db
record_outcome none (id, db) = db
record_outcome (some (ok, summary)) (id, db) = finish id ok summary db

unfoldable pub attempt : Attempt → Db → Db
attempt a db = record_outcome a.outcome (begin a.task_id a.key a.action a.target db)

unfoldable pub attempt_all : List Attempt → Db → Db
attempt_all [] db = db
attempt_all (a ∷ rest) db = attempt_all rest (attempt a db)

abbrev entered : Option (Bool × String) → EffectStatus × String
entered none = (pending, "")
entered (some (ok, summary)) = (status_of ok, cut 2000 summary)

-- An attempt in the abstract view.
unfoldable pub enter : Attempt → Book → Book
enter a b task_id key =
    if same a.task_id a.key task_id key then some (entered a.outcome) else b task_id key

unfoldable pub enter_all : List Attempt → Book → Book
enter_all [] b = b
enter_all (a ∷ rest) b = enter_all rest (enter a b)

book_of : (db : Db) (i : ℕ) (k : String) → book db i k ≡ shown (entry_of (by_key i k db.effects))
unfolding book lookup_effect
book_of db i k = refl

-- One attempt, as the ledger stores it.
record Refines (a : Attempt) (db db' : Db) : Type 0 where
  ordered : HasLedger db'
  own : book db' a.task_id a.key ≡ some (entered a.outcome)
  others : (i : ℕ) (k : String) → same a.task_id a.key i k ≡ false → book db' i k ≡ book db i k

module _ (a : Attempt) (db : Db) (h : HasLedger db) where
  abbrev begun : ℕ × Db
  begun = begin a.task_id a.key a.action a.target db

  begun-Started : Started a.task_id a.key begun.0 begun.1
  begun-Started = begin-Started a.task_id a.key a.action a.target db h

  begun-other :
      (i : ℕ) (k : String)
      → same a.task_id a.key i k ≡ false
      → by_key i k begun.1.effects ≡ by_key i k db.effects
  begun-other i k n = begin-other a.task_id a.key a.action a.target db h i k n

  recorded-Refines :
      (o : Option (Bool × String)) → Refines (record a { outcome = o }) db (record_outcome o begun)
  recorded-Refines none = record {
    ordered = begun-Started.ordered;
    own =
        rw (book_of begun.1 a.task_id a.key)
          (rw begun-Started.stands (rw (begun-Started.is_pending, begun-Started.no_summary) refl));
    others = λ i k n.
        book_of begun.1 i k
        ∙ ap (λ r. shown (entry_of r)) (begun-other i k n)
        ∙ sym (book_of db i k);
  }
  recorded-Refines (some (ok, summary)) =
      let ended = finish-Ended a.task_id a.key begun.0 ok summary begun.1 begun-Started in
      record {
        ordered = ended.ordered;
        own =
            rw (book_of (finish begun.0 ok summary begun.1) a.task_id a.key)
              (rw ended.stands (rw (ended.status, ended.summary_kept) refl));
        others = λ i k n.
            book_of (finish begun.0 ok summary begun.1) i k
            ∙ ap (λ r. shown (entry_of r))
                (finish-other a.task_id a.key begun.0 ok summary begun.1 i k begun-Started n
                  ∙ begun-other i k n)
            ∙ sym (book_of db i k);
      }

  attempt-Refines : Refines a db (attempt a db)
  unfolding attempt
  attempt-Refines = recorded-Refines a.outcome

  attempt-book : book (attempt a db) ≡ enter a (book db)
  unfolding enter
  attempt-book = λ t i k. at_effect i k t
    where
      at_effect :
          (i : ℕ) (k : String)
          → book (attempt a db) i k
            ≡ (if same a.task_id a.key i k then some (entered a.outcome) else book db i k)
      at_effect i k = elim (Bool-cases (same a.task_id a.key i k)) [
        | inl c ↦ ground (arith, attempt-Refines.own, eq_iff a.key k)
        | inr c ↦ rw c (attempt-Refines.others i k c)
      ]

-- Whatever attempts of effects are made, cut off or not, in a table that is in the order of its ids,
-- the ledger shows for each task and key what the abstract view enters for the same attempts: the
-- outcome of the last attempt of that task and key, and what was there before if there is none. The
-- table stays in the order of its ids.
pub attempt_all-book :
    (attempts : List Attempt) (db : Db)
    → HasLedger db
    → (book (attempt_all attempts db) ≡ enter_all attempts (book db))
      × HasLedger (attempt_all attempts db)
unfolding attempt_all enter_all
attempt_all-book [] db h = (refl, h)
attempt_all-book (a ∷ rest) db h =
    let (e, o) = attempt_all-book rest (attempt a db) (attempt-Refines a db h).ordered in
    (e ∙ ap (enter_all rest) (attempt-book a db h), o)
