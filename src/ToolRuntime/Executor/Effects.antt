-- ===== src/ToolRuntime/Executor/Effects.antt =====
-- executor.rs: a small logic of the effects of a step: whether it runs a handler, and after what.
use git_client.Prelude.{
  ◌≡◌, refl, sym, ap, ◌∙◌, ◌⊎◌, inl, inr, Bool, true, false, List, [], ◌∷◌, ◌++◌, append_assoc,
  Option, none, some, Result, ok, err, ok_or, All, arith,
}
use git_client.ToolRuntime.{ToolIntent}
use git_client.ToolRuntime.Schema.{ToolExecutionError}
use git_client.ToolRuntime.RunLimits.{ToolRunCounters}
use git_client.ToolRuntime.Executor.{
  Effect, record_intent, record_receipt, record_no_effect, handler_execute, emit, Output, Exec,
  behind, ◌>>=◌, pure, lift, effect, counting, fail_unless,
}

pub ok_or-some :
    {A : Type 0} (o : Option A) (e : ToolExecutionError) (a : A) → ok_or o e ≡ ok a → o ≡ some a
ok_or-some none e a h = absurd (cc)
ok_or-some (some b) e a h = ground arith

module _ {V : Type 0} where
  abbrev pub is_call : Effect V → Bool
  is_call (record_intent i p) = false
  is_call (record_receipt i r p) = false
  is_call (record_no_effect i o p) = false
  is_call (handler_execute i) = true
  is_call (emit e) = false

  abbrev pub NoCalls : List (Effect V) → Type 0
  NoCalls t = All (λ e. is_call e ≡ false) t

  -- The handler runs once, right behind its persisted intent; `P` holds of that intent.
  abbrev pub Called : (ToolIntent V → Type 0) → List (Effect V) → Type 0
  Called P t =
      (before : List (Effect V)) × (intent : ToolIntent V) × (event : Effect V) × (after : List
        (Effect V))
      × (t ≡ before ++ record_intent intent true ∷ event ∷ handler_execute intent ∷ after)
      × NoCalls before
      × (is_call event ≡ false)
      × NoCalls after
      × P intent

  abbrev pub Guarded : (ToolIntent V → Type 0) → List (Effect V) → Type 0
  Guarded P t = NoCalls t ⊎ Called P t

  pub NoCalls-append : (t u : List (Effect V)) → NoCalls t → NoCalls u → NoCalls (t ++ u)
  NoCalls-append [] u h k = k
  NoCalls-append (e ∷ t) u h k = (h.0, NoCalls-append t u h.1 k)

  pub Guarded-append :
      (P : ToolIntent V → Type 0) (t u : List (Effect V))
      → NoCalls t
      → Guarded P u
      → Guarded P (t ++ u)
  Guarded-append P t u h (inl k) = inl (NoCalls-append t u h k)
  Guarded-append P t u h (inr (before, intent, event, after, e, b, n, a, p)) = inr (
    t ++ before,
    intent,
    event,
    after,
    ap (λ x. t ++ x) e ∙ sym (append_assoc t before _),
    NoCalls-append t before h b,
    n,
    a,
    p,
  )

  -- A step that never runs a handler, and one that runs it as `Called` says, if at all.
  unfoldable pub Quiet : {A : Type 0} → Exec V A → Type 0
  Quiet m = (c : ToolRunCounters) → NoCalls (m c).1

  unfoldable pub Guards : {A : Type 0} → (ToolIntent V → Type 0) → Exec V A → Type 0
  Guards P m = (c : ToolRunCounters) → Guarded P (m c).1

  -- What a step can return.
  unfoldable pub Returns : {A : Type 0} → Exec V A → A → Type 0
  Returns m a = (c : ToolRunCounters) × ((m c).2 ≡ ok a)

  pub Quiet-behind :
      {A B : Type 0} (o : Output V A) (f : A → Exec V B)
      → NoCalls o.1
      → ((a : A) → Quiet (f a))
      → NoCalls (behind o f).1
  unfolding Quiet
  Quiet-behind (c, t, err e) f h k = h
  Quiet-behind (c, t, ok a) f h k = NoCalls-append t _ h (k a c)

  pub Quiet-bind :
      {A B : Type 0} (m : Exec V A) (f : A → Exec V B)
      → Quiet m
      → ((a : A) → Quiet (f a))
      → Quiet (m >>= f)
  unfolding Quiet ◌>>=◌
  Quiet-bind m f h k = λ c. Quiet-behind (m c) f (h c) k

  pub Guards-behind :
      {A B : Type 0} (P : ToolIntent V → Type 0) (o : Output V A) (f : A → Exec V B)
      → NoCalls o.1
      → ((a : A) → o.2 ≡ ok a → Guards P (f a))
      → Guarded P (behind o f).1
  unfolding Guards
  Guards-behind P (c, t, err e) f h k = inl h
  Guards-behind P (c, t, ok a) f h k = Guarded-append P t _ h (k a refl c)

  pub Guards-bind :
      {A B : Type 0} (P : ToolIntent V → Type 0) (m : Exec V A) (f : A → Exec V B)
      → Quiet m
      → ((a : A) → Returns m a → Guards P (f a))
      → Guards P (m >>= f)
  unfolding Quiet Guards Returns ◌>>=◌
  Guards-bind P m f h k = λ c. Guards-behind P (m c) f (h c) (λ a e. k a (c, e))

  pub ok-behind :
      {A B : Type 0} (o : Output V A) (f : A → Exec V B) (b : B)
      → (behind o f).2 ≡ ok b
      → (a : A) × (o.2 ≡ ok a) × ((f a o.0).2 ≡ ok b)
  ok-behind (c, t, err e) f b h = absurd (cc)
  ok-behind (c, t, ok a) f b h = (a, refl, h)

  pub Returns-bind :
      {A B : Type 0} (m : Exec V A) (f : A → Exec V B) (b : B)
      → Returns (m >>= f) b
      → (a : A) × Returns m a × Returns (f a) b
  unfolding Returns ◌>>=◌
  Returns-bind m f b (c, h) = let (a, e, k) = ok-behind (m c) f b h in (a, (c, e), ((m c).0, k))

  pub Quiet-Guards : {A : Type 0} (P : ToolIntent V → Type 0) (m : Exec V A) → Quiet m → Guards P m
  unfolding Quiet Guards
  Quiet-Guards P m h = λ c. inl (h c)

  pub effect-Quiet : (e : Effect V) → is_call e ≡ false → Quiet (effect e)
  unfolding Quiet effect
  effect-Quiet e h = λ c. (h, tt)

module _ (V : Type 0) where
  pub pure-Quiet : {A : Type 0} (a : A) → Quiet (pure {V = V} a)
  unfolding Quiet pure
  pure-Quiet a = λ c. tt

  pub lift-Quiet : {A : Type 0} (r : Result ToolExecutionError A) → Quiet (lift {V = V} r)
  unfolding Quiet lift
  lift-Quiet r = λ c. tt

  pub counting-Quiet :
      {A : Type 0} (f : ToolRunCounters → ToolRunCounters × Result ToolExecutionError A)
      → Quiet (counting {V = V} f)
  unfolding Quiet counting
  counting-Quiet f = λ c. tt

  pub fail_unless-Quiet : (b : Bool) (e : ToolExecutionError) → Quiet (fail_unless {V = V} b e)
  unfolding Quiet fail_unless
  fail_unless-Quiet true e = λ c. tt
  fail_unless-Quiet false e = λ c. tt

  pub Returns-lift :
      {A : Type 0} (r : Result ToolExecutionError A) (a : A) → Returns (lift {V = V} r) a → r ≡ ok a
  unfolding Returns lift
  Returns-lift r a (c, h) = h

  pub Returns-pure : {A : Type 0} (a b : A) → Returns (pure {V = V} a) b → a ≡ b
  unfolding Returns pure
  Returns-pure a b (c, h) = ground arith
