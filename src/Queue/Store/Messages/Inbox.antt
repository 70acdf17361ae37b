-- ===== src/Queue/Store/Messages/Inbox.antt =====
-- Messages that arrive twice (core/queue/store.py).
use mathlib.Core.List.{Memᴰ}
use nova_ai_agent.Prelude.{
  ◌⊎◌, true, false, ◌&&◌, Option, none, str_eq, eq_iff, Bool-cases, All, ℕ, suc, ◌≡◌, refl, ap,
  String, some, List, [], ◌∷◌, arith, length, Option-cases, inl, inr,
}
use nova_ai_agent.Db.{Direction, inbound, Message, Db}
use nova_ai_agent.Queue.Store.Messages.{
  same_external, is_inbound, is_message, is_inbound_message, any_inbound, seen_inbound, link_newest,
  link_message, count_messages,
}

-- Giving a message its task does not change what a message is known by.
linked-is_inbound :
    (c h e : String) (m : Message) (i : ℕ)
    → is_inbound_message c h e (record m { task_id = some i }) ≡ is_inbound_message c h e m
unfolding is_inbound_message is_message
linked-is_inbound c h e m i = refl

link_newest_same :
    (c h e : String) (i : ℕ) (ms ns : List Message)
    → link_newest c h e i ms ≡ some ns
    → ((c' h' e' : String) → any_inbound c' h' e' ns ≡ any_inbound c' h' e' ms)
      × (length ns ≡ length ms)
unfolding link_newest any_inbound
link_newest_same c h e i [] ns p = cc
link_newest_same c h e i (m ∷ ms) ns p = elim (Option-cases (link_newest c h e i ms)) [
  | inl q ↦
      let same : record m { task_id = some i } ∷ ms ≡ ns = ground arith in
      (λ c' h' e'. rw (← same) (rw linked-is_inbound), rw (← same))
  | inr (ns', q) ↦
      let same : m ∷ ns' ≡ ns = ground arith in
      let ih = link_newest_same c h e i ms ns' q in
      (λ c' h' e'. rw (← same) (rw (ih.0 c' h' e')), rw (← same) (ap suc ih.1))
]

link_message_same :
    (db : Db) (c h e c' h' e' : String) (i : ℕ)
    → (seen_inbound c h e (link_message c' h' e' i db) ≡ seen_inbound c h e db)
      × (count_messages (link_message c' h' e' i db) ≡ count_messages db)
unfolding seen_inbound count_messages link_message
link_message_same db c h e c' h' e' i = elim (Option-cases (link_newest c' h' e' i db.messages)) [
  | inl q ↦ (rw (q, link_message), rw (q, link_message))
  | inr (ns, q) ↦
      let same = link_newest_same c' h' e' i db.messages ns q in
      (rw (q, link_message) (same.0 c h e), rw (q, link_message) same.1)
]

-- A message that came in, under that channel, chat and id.
pub record CameIn (channel chat_id external_id : String) (m : Message) : Type 0 where
  pub by_channel : m.channel ≡ channel
  pub by_chat : m.chat_id ≡ chat_id
  pub by_id : m.external_id ≡ some external_id
  pub inwards : m.direction ≡ inbound

external-some : (o : Option String) (e : String) → same_external o e ≡ true → o ≡ some e
external-some none e h = cc
external-some (some x) e h = ap some (ground (arith, eq_iff x e))

some-external : (o : Option String) (e : String) → o ≡ some e → same_external o e ≡ true
some-external none e h = cc
some-external (some x) e h = ground (arith, eq_iff x e)

inbound_only : (d : Direction) → is_inbound d ≡ true → d ≡ inbound
inbound_only d h = ground arith

module _ (c h e : String) where
  inbound-CameIn : (m : Message) → is_inbound_message c h e m ≡ true → CameIn c h e m
  unfolding is_inbound_message is_message
  inbound-CameIn m k = record {
    by_channel = ground (arith, eq_iff m.channel c);
    by_chat = ground (arith, eq_iff m.chat_id h);
    by_id = external-some m.external_id e (ground arith);
    inwards = inbound_only m.direction (ground arith);
  }

  CameIn-inbound : (m : Message) → CameIn c h e m → is_inbound_message c h e m ≡ true
  unfolding is_inbound_message is_message
  CameIn-inbound m k = by_parts (some-external m.external_id e k.by_id)
    where
      by_parts :
          same_external m.external_id e ≡ true
          → ((str_eq m.channel c && str_eq m.chat_id h)
              && same_external m.external_id e
              && is_inbound m.direction)
            ≡ true
      by_parts x =
          rw (x, k.inwards)
            (ground (arith, eq_iff m.channel c, eq_iff m.chat_id h, k.by_channel, k.by_chat))

  any_inbound-cases :
      (ms : List Message)
      → (((m : Message) × Memᴰ m ms × CameIn c h e m) × (any_inbound c h e ms ≡ true))
        ⊎ (All (λ m. CameIn c h e m → ⊥) ms × (any_inbound c h e ms ≡ false))
  unfolding any_inbound
  any_inbound-cases [] = inr (tt, refl)
  any_inbound-cases (m ∷ ms) = elim (Bool-cases (is_inbound_message c h e m)) [
    | inl k ↦ inl ((m, Memᴰ.head refl, inbound-CameIn m k), rw k refl)
    | inr k ↦ elim (any_inbound-cases ms) [
      | inl ((n, i, p), s) ↦ inl ((n, Memᴰ.tail i, p), rw (k, s) refl)
      | inr (a, s) ↦ inr (((λ p. let q = CameIn-inbound m p in cc), a), rw (k, s) refl)
    ]
  ]

-- A message counts as seen exactly when the table holds one that came in under its channel, chat and id;
-- linking any message to a task changes that for none.
pub seen_inbound-CameIn :
    (db : Db) (c h e : String)
    → ((((m : Message) × Memᴰ m db.messages × CameIn c h e m) × (seen_inbound c h e db ≡ true))
        ⊎ (All (λ m. CameIn c h e m → ⊥) db.messages × (seen_inbound c h e db ≡ false)))
      × ((c' h' e' : String) (i : ℕ)
          → seen_inbound c h e (link_message c' h' e' i db) ≡ seen_inbound c h e db)
unfolding seen_inbound
seen_inbound-CameIn db c h e =
    (any_inbound-cases c h e db.messages, λ c' h' e' i. (link_message_same db c h e c' h' e' i).0)
