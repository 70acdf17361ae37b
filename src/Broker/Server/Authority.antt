-- ===== src/Broker/Server/Authority.antt =====
-- What a request has to have before `Broker.handle` runs an operation for it.
use mathlib.Core.Path.{subst}
use nova_ai_agent.Prelude.{
  ℕ, ◌≡◌, refl, ap, String, Bool, true, false, not, ◌||◌, Option, some, arith, str_eq, if_holds,
  Bool-cases, inl, inr,
}
use nova_ai_agent.Json.{Json, null, flag, num, text, arr, obj, Fields, get_field}
use nova_ai_agent.Permissions.Env.{Env}
use nova_ai_agent.Broker.Ops.{Op, validate}
use nova_ai_agent.Broker.Server.{
  Broker, text_of, is_id, is_task_id, is_version, or_empty, is_token, current_token, token_ok,
  Admission, answered, admitted, check_params, set_lockdown, by_operation, check_request,
  admit_token, admit,
}
use nova_ai_agent.Broker.Server.Cleared.{
  Cleared, Cleared-token, Authentic, is_token-Authentic, Backed, Clear, check_operation-Clear,
}

module _ (env : Env) (show : Json → String) where
  -- What a request has that is admitted: the token of the broker's file, a valid request id and task,
  -- this protocol version, parameters that are an object, and a cleared operation.
  pub record Authority (req : Fields) (b : Broker) (op : Op) (params : Fields)
      (approval_id : Option ℕ) : Type 0 where
    pub authentic :
        Authentic (current_token b.token b.token_file) (text_of show (get_field "token" req))
    pub identified : is_id (get_field "request_id" req) ≡ true
    pub tasked : is_task_id (text_of show (get_field "task_id" req)) ≡ true
    pub version : is_version b.policy.protocol_version (get_field "protocol_version" req) ≡ true
    pub given : or_empty (get_field "params" req) ≡ obj params
    pub cleared :
        Cleared env
          (text_of show (get_field "task_id" req))
          (text_of show (get_field "target" req))
          params
          b
          (text_of show (get_field "action" req))
          op
          approval_id

  module _ (task target name : String) (b : Broker) where
    abbrev Given : Json → Op → Fields → Option ℕ → Type 0
    Given v op ps approval_id = (v ≡ obj ps) × Cleared env task target ps b name op approval_id

    check_params-Given :
        (v : Json) → Backed (Given v) (check_params env show task target name v b).0
    unfolding check_params
    check_params-Given (obj params) =
        by_clear _
          (check_operation-Clear env show task target params b name (validate name params) refl)
      where
        by_clear :
            (a : Admission)
            → Backed (Clear env show task target params b name) a
            → Backed (Given (obj params)) a
        by_clear (answered r) h = tt
        by_clear (admitted op ps i) (e, c) =
            (ap obj e, subst (λ q. Cleared env task target q b name op i) e c)
    check_params-Given null = tt
    check_params-Given (flag x) = tt
    check_params-Given (num x) = tt
    check_params-Given (text x) = tt
    check_params-Given (arr x) = tt

    set_lockdown-Given :
        (v : Json) (P : Op → Fields → Option ℕ → Type 0) → Backed P (set_lockdown env show v b).0
    unfolding set_lockdown
    set_lockdown-Given (obj params) P = tt
    set_lockdown-Given null P = tt
    set_lockdown-Given (flag x) P = tt
    set_lockdown-Given (num x) P = tt
    set_lockdown-Given (text x) P = tt
    set_lockdown-Given (arr x) P = tt

    by_operation-Given :
        (v : Json) → Backed (Given v) (by_operation env show task target name v b).0
    unfolding by_operation
    by_operation-Given v = if_holds At (str_eq name "ping") _ _ tt (
        if_holds At (str_eq name "status") _ _ tt (
          if_holds At (str_eq name "lockdown") _ _ (set_lockdown-Given v (Given v))
            (check_params-Given v)))
      where
        At : Admission × Broker → Type 0
        At a = Backed (Given v) a.0

  module _ (req : Fields) (b : Broker) where
    abbrev name_of : String → String
    name_of key = text_of show (get_field key req)

    abbrev request_wrong : Bool
    request_wrong = not (is_id (get_field "request_id" req)) || not (is_task_id (name_of "task_id"))

    abbrev version_wrong : Bool
    version_wrong = not (is_version b.policy.protocol_version (get_field "protocol_version" req))

    by_answer :
        (cached : Option (ℕ × String)) (a : Admission)
        → is_token (current_token b.token b.token_file) (name_of "token") ≡ true
        → request_wrong ≡ false
        → version_wrong ≡ false
        → Backed
            (Given
              (name_of "task_id")
              (name_of "target")
              (name_of "action")
              (record b { token = cached })
              (or_empty (get_field "params" req)))
            a
        → Backed (Authority req b) a
    by_answer cached (answered r) t w v h = tt
    by_answer cached (admitted op ps i) t w v (e, c) = record {
      authentic = is_token-Authentic _ _ t;
      identified = ground arith;
      tasked = ground arith;
      version = ground arith;
      given = e;
      cleared =
          Cleared-token env (name_of "task_id") (name_of "target") ps b cached (name_of "action") op
            i c;
    }

    check_request-Authority :
        (t : Option (ℕ × String))
        → is_token (current_token b.token b.token_file) (name_of "token") ≡ true
        → Backed (Authority req b) (check_request env show req (record b { token = t })).0
    unfolding check_request
    check_request-Authority t k = elim (Bool-cases request_wrong) [
      | inl c ↦ rw c tt
      | inr c ↦ elim (Bool-cases version_wrong) [
        | inl d ↦ rw (c, d) tt
        | inr d ↦
            rw (c, d)
              (by_answer t _ k c d (
                by_operation-Given (name_of "task_id") (name_of "target") (name_of "action")
                  (record b { token = t }) (or_empty (get_field "params" req))))
      ]
    ]

    admit_token-Authority :
        (ok : Bool) (t : Option (ℕ × String))
        → is_token (current_token b.token b.token_file) (name_of "token") ≡ ok
        → Backed (Authority req b) (admit_token env show req (ok, record b { token = t })).0
    unfolding admit_token
    admit_token-Authority false t k = tt
    admit_token-Authority true t k = check_request-Authority t k

    -- An operation is admitted only with the token of the broker's file, of at least 32 characters, a
    -- valid request id and task, this protocol version and valid parameters; without a lockdown or to
    -- cancel; and unless it is the status, the state of a service, the list of rules or to cancel, then
    -- on an approval of this task that was used, for exactly this action, target and parameters, that an
    -- owner decided no longer ago than the policy allows, that stands in Nova's table, and not in the
    -- broker's ledger before but after, while the broker is elevated if its policy asks for it.
    pub admit-Authority :
        (op : Op) (params : Fields) (approval_id : Option ℕ)
        → (admit env show (some (obj req)) b).0 ≡ admitted op params approval_id
        → Authority req b op params approval_id
    unfolding admit token_ok
    admit-Authority op params approval_id h = subst (Backed (Authority req b)) h (
        admit_token-Authority (is_token (current_token b.token b.token_file) (name_of "token")) _
          refl)
