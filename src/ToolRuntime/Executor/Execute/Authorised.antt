-- ===== src/ToolRuntime/Executor/Execute/Authorised.antt =====
-- executor.rs: a handler runs at most once, after its intent is persisted, and only if permitted.
use git_client.Prelude.{
  ℕ, ◌*◌, min, sym, ◌≡◌, refl, ap, ◌∙◌, ◌⊎◌, inl, inr, Bool, true, false, [], ◌∷◌, Option, none,
  some, Text, lookup, Result, ok, err, Bool-cases, arith,
}
use git_client.ToolRuntime.{
  ToolIntent, ToolHandlerOutput, PermissionDecision, allow, deny, ask, ToolApprovalRequest,
  ToolCall, ToolOutcome, ToolIntentPrecondition, ToolReceipt,
}
use git_client.ToolRuntime.Schema.{ToolExecutionError}
use git_client.ToolRuntime.Policy.{decide}
use git_client.ToolRuntime.RunLimits.{ToolRunCounters, effective_timeout}
use git_client.ToolRuntime.Executor.{
  Waited, interrupted, elapsed, resolved, RegisteredTool, ToolRun, ToolExecutor, Surroundings,
  Effect, record_intent, ◌>>=◌, lift, effect, fail_unless,
}
use git_client.ToolRuntime.Executor.Execute.{
  settled, waited, report_invalid, validated, resolve_approval, permitted, refused, unprepared,
  without_effect, deliver, handled, call_handler, start_persisted, journaled, prepared, decided,
  execute, intent_of, emit_completed, is_read_only, request_of, time_cap,
}
use git_client.ToolRuntime.Executor.Effects.{
  is_call, Guarded, ok_or-some, Quiet, Guards, Returns, Quiet-bind, Guards-bind, Returns-bind,
  Quiet-Guards, effect-Quiet, pure-Quiet, lift-Quiet, counting-Quiet, fail_unless-Quiet,
  Returns-lift, Returns-pure,
}

module _ {V : Type 0} where
  module _ (executor : ToolExecutor V) (run : ToolRun) (env : Surroundings V) where
    module _ (tool : RegisteredTool V) (call : ToolCall V) where
      report_invalid-Quiet :
          (r : Result ToolExecutionError (Unit {0}))
          → Quiet (report_invalid executor run env tool call r)
      unfolding report_invalid
      report_invalid-Quiet (ok _) = pure-Quiet _ tt
      report_invalid-Quiet (err e) = Quiet-bind _ _ (effect-Quiet _ refl) λ _. lift-Quiet _ _

      -- What `validated` returns is what the schema said.
      report_invalid-valid :
          (r : Result ToolExecutionError (Unit {0})) (u : Unit {0})
          → Returns (report_invalid executor run env tool call r) u
          → r ≡ ok tt
      unfolding report_invalid Returns ◌>>=◌ effect lift
      report_invalid-valid (ok _) u (c, h) = refl
      report_invalid-valid (err e) u (c, h) = absurd (cc)

      resolve_approval-Quiet : Quiet (resolve_approval executor run env tool call)
      unfolding resolve_approval
      resolve_approval-Quiet = Quiet-bind _ _ (lift-Quiet _ _) λ timeout.
          Quiet-bind _ _ (counting-Quiet _ _) λ id. Quiet-bind _ _ (effect-Quiet _ refl) λ _.
            Quiet-bind _ _ (lift-Quiet _ _)
              λ answer. Quiet-bind _ _ (effect-Quiet _ refl) λ _. pure-Quiet _ _

      permitted-Quiet : (d : PermissionDecision) → Quiet (permitted executor run env tool call d)
      unfolding permitted
      permitted-Quiet allow = pure-Quiet _ _
      permitted-Quiet deny = pure-Quiet _ _
      permitted-Quiet ask = resolve_approval-Quiet

      refused-Quiet : Quiet (refused executor run env tool call)
      unfolding refused emit_completed
      refused-Quiet = Quiet-bind _ _ (effect-Quiet _ refl) λ _. pure-Quiet _ _

      unprepared-Quiet : Quiet (unprepared executor run env tool call)
      unfolding unprepared emit_completed
      unprepared-Quiet =
          Quiet-bind _ _ (counting-Quiet _ _)
            λ _. Quiet-bind _ _ (effect-Quiet _ refl) λ _. pure-Quiet _ _

      without_effect-Quiet :
          (intent : ToolIntent V) (o : ToolOutcome)
          → Quiet (without_effect executor run env tool call intent o)
      unfolding without_effect
      without_effect-Quiet intent o = elim (Bool-cases (is_read_only intent.risk)) [
        | inl reads ↦ rw reads (Quiet-bind _ _ (effect-Quiet _ refl) λ _. fail_unless-Quiet _ _ _)
        | inr writes ↦ rw writes (pure-Quiet _ tt)
      ]

      deliver-Quiet :
          (o : ToolOutcome) (content : Text) (receipt : Option ToolReceipt)
          → Quiet (deliver executor run env tool call o content receipt)
      unfolding deliver emit_completed
      deliver-Quiet o content receipt = Quiet-bind _ _ (counting-Quiet _ _) λ cap.
          Quiet-bind _ _ (fail_unless-Quiet _ _ _) λ _.
            Quiet-bind _ _ (counting-Quiet _ _)
              λ _. Quiet-bind _ _ (effect-Quiet _ refl) λ _. pure-Quiet _ _

      handled-Quiet :
          (intent : ToolIntent V) (w : Waited (Result (Option Text) ToolHandlerOutput))
          → Quiet (handled executor run env tool call intent w)
      unfolding handled emit_completed
      handled-Quiet intent interrupted =
          Quiet-bind _ _ (without_effect-Quiet intent _)
            λ _. Quiet-bind _ _ (effect-Quiet _ refl) λ _. lift-Quiet _ _
      handled-Quiet intent elapsed =
          Quiet-bind _ _ (without_effect-Quiet intent _)
            λ _. Quiet-bind _ _ (effect-Quiet _ refl) λ _. lift-Quiet _ _
      handled-Quiet intent (resolved (ok output)) =
          Quiet-bind _ _ (effect-Quiet _ refl)
            λ _. Quiet-bind _ _ (fail_unless-Quiet _ _ _) λ _. deliver-Quiet _ _ _
      handled-Quiet intent (resolved (err none)) =
          Quiet-bind _ _ (without_effect-Quiet intent _) λ _. deliver-Quiet _ _ _
      handled-Quiet intent (resolved (err (some content))) =
          Quiet-bind _ _ (without_effect-Quiet intent _) λ _. deliver-Quiet _ _ _

      call_handler-Called :
          (P : ToolIntent V → Type 0) (intent : ToolIntent V) (r : Result ToolExecutionError ℕ)
          (event : Effect V) (c : ToolRunCounters)
          → is_call event ≡ false
          → P intent
          → Guarded P (
              record_intent intent true
              ∷ event
              ∷ (call_handler executor run env tool call intent r c).1)
      unfolding call_handler Quiet ◌>>=◌ effect lift
      call_handler-Called P intent (err e) event c h p = inl (refl, (h, tt))
      call_handler-Called P intent (ok t) event c h p = inr (
        [],
        intent,
        event,
        (handled executor run env tool call intent (env.handler intent t) c).1,
        refl,
        tt,
        h,
        handled-Quiet intent (env.handler intent t) c,
        p,
      )

      start_persisted-Guards :
          (P : ToolIntent V → Type 0) (intent : ToolIntent V) (persists : Bool)
          → P intent
          → Guards P (start_persisted executor run env tool call intent persists)
      unfolding start_persisted Guards ◌>>=◌ effect fail_unless
      start_persisted-Guards P intent true p c = call_handler-Called P intent _ _ c refl p
      start_persisted-Guards P intent false p c = inl (refl, tt)

      prepared-Guards :
          (P : ToolIntent V → Type 0) (id : Option Text) (o : Option ToolIntentPrecondition)
          → ((p : ToolIntentPrecondition) → P (intent_of executor run env tool call id p))
          → Guards P (prepared executor run env tool call id o)
      unfolding prepared journaled
      prepared-Guards P id none h = Quiet-Guards P _ unprepared-Quiet
      prepared-Guards P id (some p) h = start_persisted-Guards P _ _ (h p)

      -- The approver was asked about this very call and, in the time it was given, allowed it.
      abbrev pub Approved : Option Text → Type 0
      Approved id =
          (request : ToolApprovalRequest) × (limit : ℕ) × (id ≡ some request.approval_id)
          × (request.run_id ≡ run.run_id)
          × (request.call_id ≡ call.call_id)
          × (request.tool_name ≡ call.name)
          × (request.risk ≡ tool.definition.risk)
          × (effective_timeout run.limits env.approving env.approving_later
                (min (tool.definition.timeout_ms * 1000000) run.limits.max_tool_timeout)
              ≡ ok limit)
          × (env.approval request limit ≡ resolved allow)

      -- What permits the handler to run.
      abbrev pub Permission : Option Text → Type 0
      Permission id =
          (lookup call.name executor.registry ≡ some tool)
          × (tool.validate call.arguments ≡ ok tt)
          × (((decide executor.policy run.run_policy call.name tool.definition.risk ≡ allow)
                × (id ≡ none))
              ⊎ ((decide executor.policy run.run_policy call.name tool.definition.risk ≡ ask)
                  × Approved id))

      settled-allow : (d : PermissionDecision) → settled d ≡ allow → d ≡ allow
      unfolding settled
      settled-allow allow h = refl
      settled-allow deny h = absurd (cc)
      settled-allow ask h = absurd (cc)

      waited-resolved : {A : Type 0} (w : Waited A) (a : A) → waited w ≡ ok a → w ≡ resolved a
      unfolding waited
      waited-resolved interrupted a h = absurd (cc)
      waited-resolved elapsed a h = absurd (cc)
      waited-resolved (resolved b) a h = ground arith

      -- An approval that allows was given.
      resolve_approval-allow :
          (id : Option Text)
          → Returns (resolve_approval executor run env tool call) (allow, id)
          → Approved id
      unfolding resolve_approval request_of time_cap
      resolve_approval-allow id h =
          let (limit, timed, h1) = Returns-bind _ _ _ h in
          let (approval_id, _, h2) = Returns-bind _ _ _ h1 in
          let (_, _, h3) = Returns-bind _ _ _ h2 in
          let (answer, answered, h4) = Returns-bind _ _ _ h3 in
          let (_, _, h5) = Returns-bind _ _ _ h4 in
          let said : waited (env.approval _ limit) ≡ ok answer = Returns-lift _ _ _ answered in
          let pair = Returns-pure _ _ _ h5 in
          let same : settled answer ≡ allow = ap (λ p. p.0) pair in
          (
            request_of executor run env tool call approval_id,
            limit,
            sym (ap (λ p. p.1) pair),
            refl,
            refl,
            refl,
            refl,
            Returns-lift _ _ _ timed,
            waited-resolved _ _ said ∙ ap resolved (settled-allow answer same),
          )

      permitted-allow :
          (d : PermissionDecision) (id : Option Text)
          → Returns (permitted executor run env tool call d) (allow, id)
          → ((d ≡ allow) × (id ≡ none)) ⊎ ((d ≡ ask) × Approved id)
      unfolding permitted
      permitted-allow allow id h = inl (refl, sym (ap (λ p. p.1) (Returns-pure _ _ _ h)))
      permitted-allow deny id h = absurd (let e = ap (λ p. p.0) (Returns-pure _ _ _ h) in cc)
      permitted-allow ask id h = inr (refl, resolve_approval-allow id h)

      permitted-first :
          (d : PermissionDecision) (p : PermissionDecision × Option Text)
          → Returns (permitted executor run env tool call d) p
          → p.0 ≡ allow
          → ((d ≡ allow) × (p.1 ≡ none)) ⊎ ((d ≡ ask) × Approved p.1)
      permitted-first d (allow, id) h e = permitted-allow d id h
      permitted-first d (deny, id) h e = absurd (cc)
      permitted-first d (ask, id) h e = absurd (cc)

      decided-Guards :
          (P : ToolIntent V → Type 0) (d : PermissionDecision) (id : Option Text)
          → (d ≡ allow
              → (p : ToolIntentPrecondition) → P (intent_of executor run env tool call id p))
          → Guards P (decided executor run env tool call (d, id))
      unfolding decided prepared
      decided-Guards P deny id h = Quiet-Guards P _ refused-Quiet
      decided-Guards P ask id h = Quiet-Guards P _ refused-Quiet
      decided-Guards P allow id h =
          Guards-bind P _ _ (lift-Quiet _ _)
            λ _ _. prepared-Guards P id (tool.prepare_intent _ call.arguments) (h refl)

    -- The intent says what the call says and was permitted.
    abbrev pub Authorised : ToolCall V → ToolIntent V → Type 0
    Authorised call intent =
        (tool : RegisteredTool V) × Permission tool call intent.approval_id
        × (intent.run_id ≡ run.run_id)
        × (intent.call_id ≡ call.call_id)
        × (intent.tool_name ≡ call.name)
        × (intent.arguments ≡ call.arguments)
        × (intent.risk ≡ tool.definition.risk)
        × (intent.approved ≡ true)

    execute-Guards : (call : ToolCall V) → Guards (Authorised call) (execute executor run env call)
    unfolding execute validated
    execute-Guards call = Guards-bind _ _ _ (fail_unless-Quiet _ _ _) λ _ _.
        Guards-bind _ _ _ (lift-Quiet _ _) λ tool found.
          Guards-bind _ _ _ (counting-Quiet _ _) λ _ _.
            Guards-bind _ _ _ (report_invalid-Quiet tool call _) λ u valid.
              Guards-bind _ _ _ (permitted-Quiet tool call _) λ p permission.
                decided-Guards tool call (Authorised call) p.0 p.1 λ allowed q.
                  unfold intent_of in
                  (
                    tool,
                    (
                      ok_or-some _ _ tool (Returns-lift _ _ _ found),
                      report_invalid-valid tool call _ u valid,
                      permitted-first tool call _ p permission allowed,
                    ),
                    refl,
                    refl,
                    refl,
                    refl,
                    refl,
                    refl,
                  )

    -- Whatever happens around an execution, the handler runs at most once, right behind the event that
    -- follows its persisted intent. That intent has the run, the identifier, the name and the arguments
    -- of the call and the risk of the tool registered under that name, whose schema takes the
    -- arguments. Either the policies allow the call, or they ask, and the approver, asked with a request
    -- of the same run, call, name, risk and approval identifier and for the effective timeout, allowed it.
    pub execute-Guarded :
        (call : ToolCall V) (c : ToolRunCounters)
        → Guarded (Authorised call) (execute executor run env call c).1
    unfolding Guards
    execute-Guarded call c = execute-Guards call c
