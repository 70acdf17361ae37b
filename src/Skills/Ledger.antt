-- ===== src/Skills/Ledger.antt =====
-- core/skills/ledger.py: the ledger that keeps a side effect of a task from happening twice. Session
-- failures are left out.
pub mod Rows
pub mod Writes
pub mod Book
use nova_ai_agent.Prelude.{
  ℕ, suc, String, Bool, true, false, ◌&&◌, ◌||◌, Option, none, some, List, [], ◌∷◌, ◌++◌, ◌==◌,
  str_eq, cut, starts_with, if◌then◌else◌,
}
use nova_ai_agent.Json.{text, obj, Fields, end, field}
use nova_ai_agent.Db.{EffectStatus, pending, done, failed, SideEffect, Db, find_effect, put_effect}
use nova_ai_agent.Permissions.Env.{Env}

abbrev pub side_effect_prefixes : List String
side_effect_prefixes =
    "file.delete" ∷ "file.move" ∷ "file.overwrite" ∷ "file.organize" ∷ "process.kill"
    ∷ "powershell.run" ∷ "terminal.run" ∷ "package.install" ∷ "git.commit" ∷ "git.push"
    ∷ "message.send" ∷ "system." ∷ "account." ∷ "admin." ∷ "app.close" ∷ "config.change"
    ∷ "download" ∷ []

-- s.startswith(prefixes) of a tuple of texts
unfoldable pub starts_with_any : List String → String → Bool
starts_with_any [] s = false
starts_with_any (p ∷ ps) s = starts_with p s || starts_with_any ps s

unfoldable pub is_side_effect : String → Bool
unfolding starts_with_any
is_side_effect action = starts_with_any side_effect_prefixes action

unfoldable pub effect_key : Env → String → String → Fields → String
effect_key env action target params =
    env.digest
      (obj (field "a" (text action) (field "t" (text target) (field "p" (obj params) end))))

pub record Entry : Type 0 where
  pub id : ℕ
  pub status : EffectStatus
  pub summary : String

-- s.scalar(select(SideEffect).where(SideEffect.task_id == task_id, SideEffect.key == key))
unfoldable pub by_key : ℕ → String → List SideEffect → Option SideEffect
by_key task_id key [] = none
by_key task_id key (e ∷ es) =
    if (e.task_id == task_id) && str_eq e.key key then some e else by_key task_id key es

abbrev or_empty : Option String → String
or_empty none = ""
or_empty (some s) = s

abbrev pub entry_of : Option SideEffect → Option Entry
entry_of none = none
entry_of (some row) =
    some (record { id = row.id; status = row.status; summary = or_empty row.summary })

-- SideEffectLedger.lookup
unfoldable pub lookup_effect : ℕ → String → Db → Option Entry
unfolding by_key
lookup_effect task_id key db = entry_of (by_key task_id key db.effects)

abbrev pub new_effect : ℕ → String → String → String → Db → SideEffect
new_effect task_id key action target db = record {
  id = db.next_effect;
  task_id = task_id;
  key = key;
  action = action;
  target = cut 300 target;
  status = pending;
  summary = none;
  created_at = db.clock;
  completed_at = none;
}

abbrev pub retried : SideEffect → SideEffect
retried row = record row { status = pending; completed_at = none; summary = none }

unfoldable pub begin_row : Option SideEffect → SideEffect → Db → ℕ × Db
begin_row none new db =
    (new.id, record db { effects = db.effects ++ new ∷ []; next_effect = suc new.id })
begin_row (some row) new db = (row.id, record db { effects = put_effect (retried row) db.effects })

-- SideEffectLedger.begin
unfoldable pub begin : ℕ → String → (action target : String) → Db → ℕ × Db
unfolding begin_row
begin task_id key action target db =
    begin_row (by_key task_id key db.effects) (new_effect task_id key action target db) db

unfoldable pub finished_row : Bool → String → ℕ → SideEffect → SideEffect
finished_row true summary now row = record row {
  status = done;
  summary = some (cut 2000 summary);
  completed_at = some now;
}
finished_row false summary now row = record row {
  status = failed;
  summary = some (cut 2000 summary);
  completed_at = some now;
}

unfoldable pub finish_row : Option SideEffect → Bool → String → Db → Db
unfolding finished_row
finish_row none ok summary db = db
finish_row (some row) ok summary db = record db {
  effects = put_effect (finished_row ok summary db.clock row) db.effects;
}

-- SideEffectLedger.finish
unfoldable pub finish : ℕ → Bool → String → Db → Db
unfolding finish_row
finish entry_id ok summary db = finish_row (find_effect entry_id db.effects) ok summary db
