-- ===== src/Skills/Ledger/Writes.antt =====
-- What `begin` and `finish` of core/skills/ledger.py leave in the table of side effects.
use nova_ai_agent.Prelude.{
  ℕ, ◌≡◌, refl, String, Bool, true, false, ◌&&◌, Option, none, some, arith, ◌==◌, ==_refl, str_eq,
  str_eq_refl, cut, eq_iff,
}
use nova_ai_agent.Db.{EffectStatus, pending, done, failed, SideEffect, Db, find_effect, put_effect}
use nova_ai_agent.Skills.Ledger.{
  by_key, new_effect, retried, begin_row, begin, finished_row, finish_row, finish,
}
use nova_ai_agent.Skills.Ledger.Rows.{
  IsLedger, by_key-matches, by_key-find, by_key-put, by_key-put_own, by_key-append, append-IsLedger,
  put-IsLedger,
}

-- The table of a database is in the order of its ids, which are below the next one.
abbrev pub HasLedger : Db → Type 0
HasLedger db = IsLedger 0 db.effects db.next_effect

-- Two names of effects are the same.
abbrev pub same : ℕ → String → ℕ → String → Bool
same i k j l = (i == j) && str_eq k l

pub same_refl : (i : ℕ) (k : String) → same i k i k ≡ true
same_refl i k = rw (==_refl i, str_eq_refl k) refl

-- The row of an effect that has been started: it stands at its key and at the id.
pub record Started (i : ℕ) (k : String) (id : ℕ) (db : Db) : Type 0 where
  pub row : SideEffect
  pub stands : by_key i k db.effects ≡ some row
  pub at_id : row.id ≡ id
  pub is_pending : row.status ≡ pending
  pub no_summary : row.summary ≡ none
  pub ordered : HasLedger db

module _ (i : ℕ) (k action target : String) (db : Db) (h : HasLedger db) where
  begin_row-Started :
      (o : Option SideEffect)
      → by_key i k db.effects ≡ o
      → Started i k
          (begin_row o (new_effect i k action target db) db).0
          (begin_row o (new_effect i k action target db) db).1
  unfolding begin_row
  begin_row-Started none e = record {
    row = new_effect i k action target db;
    stands =
        rw (by_key-append i k db.effects (new_effect i k action target db))
          (rw (e, same_refl i k) refl);
    at_id = refl;
    is_pending = refl;
    no_summary = refl;
    ordered = append-IsLedger 0 db.effects (new_effect i k action target db) h;
  }
  begin_row-Started (some row) e = record {
    row = retried row;
    stands =
        by_key-put_own i k (retried row) row 0 db.effects db.next_effect h e refl
          (by_key-matches i k db.effects row e);
    at_id = refl;
    is_pending = refl;
    no_summary = refl;
    ordered = put-IsLedger (retried row) 0 db.effects db.next_effect h;
  }

  pub begin-Started : Started i k (begin i k action target db).0 (begin i k action target db).1
  unfolding begin
  begin-Started = begin_row-Started (by_key i k db.effects) refl

  begin_row-other :
      (j : ℕ) (l : String) (o : Option SideEffect)
      → by_key i k db.effects ≡ o
      → same i k j l ≡ false
      → by_key j l (begin_row o (new_effect i k action target db) db).1.effects
        ≡ by_key j l db.effects
  unfolding begin_row
  begin_row-other j l none e n =
      ground (arith, by_key-append j l db.effects (new_effect i k action target db))
  begin_row-other j l (some row) e n =
      by_key-put j l (retried row) row db.effects
        (by_key-find i k 0 db.effects db.next_effect row h e).1 refl refl
        (ground (arith, by_key-matches i k db.effects row e, eq_iff row.key k, eq_iff row.key l))

  -- Starting an effect leaves the rows of the others.
  pub begin-other :
      (j : ℕ) (l : String)
      → same i k j l ≡ false
      → by_key j l (begin i k action target db).1.effects ≡ by_key j l db.effects
  unfolding begin
  begin-other j l n = begin_row-other j l (by_key i k db.effects) refl n

abbrev pub status_of : Bool → EffectStatus
status_of true = done
status_of false = failed

-- The row of an effect whose outcome was recorded.
pub record Ended (i : ℕ) (k : String) (ok : Bool) (summary : String) (db : Db) : Type 0 where
  pub row : SideEffect
  pub stands : by_key i k db.effects ≡ some row
  pub status : row.status ≡ status_of ok
  pub summary_kept : row.summary ≡ some (cut 2000 summary)
  pub ordered : HasLedger db

module _ (i : ℕ) (k : String) (id : ℕ) (ok : Bool) (summary : String) (db : Db) where
  finished_row-same :
      (row : SideEffect)
      → ((finished_row ok summary db.clock row).id ≡ row.id)
        × ((finished_row ok summary db.clock row).task_id ≡ row.task_id)
        × ((finished_row ok summary db.clock row).key ≡ row.key)
        × ((finished_row ok summary db.clock row).status ≡ status_of ok)
        × ((finished_row ok summary db.clock row).summary ≡ some (cut 2000 summary))
  unfolding finished_row
  finished_row-same row = ground arith

  finish_found :
      (row : SideEffect)
      → find_effect id db.effects ≡ some row
      → finish id ok summary db
        ≡ record db { effects = put_effect (finished_row ok summary db.clock row) db.effects }
  unfolding finish finish_row
  finish_found row f = rw f refl

  Started-find : (s : Started i k id db) → find_effect id db.effects ≡ some s.row
  Started-find s =
      rw (← s.at_id) (by_key-find i k 0 db.effects db.next_effect s.row s.ordered s.stands).1

  pub finish-Ended : Started i k id db → Ended i k ok summary (finish id ok summary db)
  finish-Ended s = rw (finish_found s.row (Started-find s)) (record {
    row = finished_row ok summary db.clock s.row;
    stands =
        by_key-put_own i k (finished_row ok summary db.clock s.row) s.row 0 db.effects
          db.next_effect s.ordered s.stands (finished_row-same s.row).0
          (ground (arith, finished_row-same s.row, by_key-matches i k db.effects s.row s.stands));
    status = (finished_row-same s.row).3;
    summary_kept = (finished_row-same s.row).4;
    ordered = put-IsLedger _ 0 db.effects db.next_effect s.ordered;
  })

  -- Recording the outcome of an effect leaves the rows of the others.
  pub finish-other :
      (j : ℕ) (l : String)
      → Started i k id db
      → same i k j l ≡ false
      → by_key j l (finish id ok summary db).effects ≡ by_key j l db.effects
  finish-other j l s n = rw (finish_found s.row (Started-find s)) (
      by_key-put j l (finished_row ok summary db.clock s.row) s.row db.effects
        (ground (arith, finished_row-same s.row, s.at_id, Started-find s))
        (finished_row-same s.row).1 (finished_row-same s.row).2
        (ground (
          arith,
          finished_row-same s.row,
          by_key-matches i k db.effects s.row s.stands,
          eq_iff s.row.key k,
          eq_iff s.row.key l,
        )))
