-- ===== src/Agent/Loop/Rounds.antt =====
-- The loops over tool calls of agent/agent.go: which calls they dispatch, and where they stop.
use ironclaw_go.Shared.{
  Bytes, bytes, ◌≢◌, append_assoc, subst, take, ℕ, suc, ◌+◌, String, ◌≡◌, refl, sym, ap, ◌∙◌, ◌⊎◌,
  inl, inr, some, List, [], ◌∷◌, ◌++◌, append-nil, get_elem?, Result, ok, err, arith,
}
use ironclaw_go.Gate.{PauseError}
use ironclaw_go.Llm.{Message, ToolCall, role_tool}
use ironclaw_go.Tools.{ToolOutput}
use ironclaw_go.Tools.Dispatch.{
  Dispatcher, dispatch, DispatchError, paused, not_allowed, not_found, rate_limited, denied,
  unsafe_output, failed,
}
use ironclaw_go.Agent.Loop.{
  Tick, error_message, call_params, job_of, Runtime, Agent, Round, answers, stops, settle_call,
  Outcome, finished, stopped, each_call,
}

-- A round stops only at a pause.
pub settle_call-stops :
    (rt : Runtime) (call : ToolCall) (r : Result DispatchError ToolOutput)
    → settle_call rt call r ≡ stops
    → (pe : PauseError) × (r ≡ err (paused pe))
unfolding settle_call
settle_call-stops rt call (ok out) h = absurd (ground arith)
settle_call-stops rt call (err (paused pe)) h = (pe, refl)
settle_call-stops rt call (err (not_allowed tool)) h = absurd (ground arith)
settle_call-stops rt call (err (not_found tool)) h = absurd (ground arith)
settle_call-stops rt call (err (rate_limited tool)) h = absurd (ground arith)
settle_call-stops rt call (err (denied tool gate)) h = absurd (ground arith)
settle_call-stops rt call (err (unsafe_output e)) h = absurd (ground arith)
settle_call-stops rt call (err (failed e)) h = absurd (ground arith)

Round-cases : (r : Round) → (r ≡ stops) ⊎ ((m : Message) × (r ≡ answers m))
Round-cases stops = inl refl
Round-cases (answers m) = inr (m, refl)

pub Outcome-cases :
    (o : Outcome) → ((i : ℕ) × (o ≡ stopped i)) ⊎ ((ms : List Message) × (o ≡ finished ms))
Outcome-cases (stopped i) = inl (i, refl)
Outcome-cases (finished ms) = inr (ms, refl)

module _ (round : ℕ → ToolCall → Agent → Agent × Round) where
  each_call-stops :
      (i : ℕ) (call : ToolCall) (calls : List ToolCall) (acc : List Message) (a : Agent)
      → (round i call a).1 ≡ stops
      → each_call round i (call ∷ calls) acc a ≡ ((round i call a).0, stopped i)
  unfolding each_call
  each_call-stops i call calls acc a h = rw (h, each_call) refl

  each_call-answers :
      (i : ℕ) (call : ToolCall) (calls : List ToolCall) (acc : List Message) (a : Agent)
      (m : Message)
      → (round i call a).1 ≡ answers m
      → each_call round i (call ∷ calls) acc a
        ≡ each_call round (suc i) calls (acc ++ m ∷ []) (round i call a).0
  unfolding each_call
  each_call-answers i call calls acc a m h = rw (h, each_call) refl

-- The message of a call to the model.
abbrev pub told : ToolCall → Bytes → Message
told call content = record {
  role = role_tool;
  content = content;
  tool_calls = [];
  tool_name = call.function.name;
  tool_id = call.id;
}

-- What the model is told of a call that was not paused: the output, or the text of the error.
abbrev pub Reply : Runtime → ToolCall → Result DispatchError ToolOutput → Message → Type 0
Reply rt call (ok out) m = m ≡ told call out.content
Reply rt call (err e) m =
    ((pe : PauseError) → e ≢ paused pe)
    × (m ≡ told call (bytes "错误: " ++ bytes (error_message rt e)))

answers_inj : (m n : Message) → answers m ≡ answers n → n ≡ m
answers_inj m n h = cc

settle_call-Reply :
    (rt : Runtime) (call : ToolCall) (r : Result DispatchError ToolOutput) (m : Message)
    → settle_call rt call r ≡ answers m
    → Reply rt call r m
unfolding settle_call
settle_call-Reply rt call (ok out) m h = answers_inj _ m h
settle_call-Reply rt call (err (paused pe)) m h = absurd (ground arith)
settle_call-Reply rt call (err (not_allowed tool)) m h = (λ pe e. ground arith, answers_inj _ m h)
settle_call-Reply rt call (err (not_found tool)) m h = (λ pe e. ground arith, answers_inj _ m h)
settle_call-Reply rt call (err (rate_limited tool)) m h = (λ pe e. ground arith, answers_inj _ m h)
settle_call-Reply rt call (err (denied tool gate)) m h = (λ pe e. ground arith, answers_inj _ m h)
settle_call-Reply rt call (err (unsafe_output x)) m h = (λ pe e. ground arith, answers_inj _ m h)
settle_call-Reply rt call (err (failed x)) m h = (λ pe e. ground arith, answers_inj _ m h)

module _ (ticks : ℕ → Tick) (user thread : String) (rt : Runtime) where
  -- The call of Dispatch for the call at place `i`.
  abbrev pub dispatched_at :
      ℕ → ToolCall → Dispatcher → Dispatcher × Result DispatchError ToolOutput
  dispatched_at i call d =
      dispatch (ticks i).now (ticks i).elapsed (ticks i).uuid call.function.name
        (call_params rt call) (job_of user thread) d

  -- Each of the calls, from place `i` on and in order, was dispatched once, in the state of the dispatcher
  -- that the call before it left, none of them was paused, and the messages are what the model is told.
  abbrev pub Dispatched : ℕ → List ToolCall → Dispatcher → List Message → Dispatcher → Type 0
  Dispatched i [] d ms after = (ms ≡ []) × (after ≡ d)
  Dispatched i (call ∷ calls) d ms after =
      (m : Message) × (rest : List Message) × (ms ≡ m ∷ rest)
      × Reply rt call (dispatched_at i call d).1 m
      × Dispatched (suc i) calls (dispatched_at i call d).0 rest after

  -- What a round is to do: call Dispatch, settle what it answered, and leave the sessions alone.
  pub record Dispatches (round : ℕ → ToolCall → Agent → Agent × Round) (i : ℕ) (call : ToolCall)
      (a : Agent) : Type 0 where
    pub dispatcher : (round i call a).0.dispatcher ≡ (dispatched_at i call a.dispatcher).0
    pub runtime : (round i call a).0.runtime ≡ rt
    pub sessions : (round i call a).0.sessions ≡ a.sessions
    pub result : (round i call a).1 ≡ settle_call rt call (dispatched_at i call a.dispatcher).1

  module _ (round : ℕ → ToolCall → Agent → Agent × Round)
      (does : (i : ℕ) (call : ToolCall) (a : Agent)
        → a.runtime ≡ rt
        → Dispatches round i call a) where
    -- A loop that ends has dispatched each of its calls.
    pub each_call-Dispatched :
        (i : ℕ) (calls : List ToolCall) (acc : List Message) (a : Agent) (results : List Message)
        → a.runtime ≡ rt
        → (each_call round i calls acc a).1 ≡ finished results
        → ((each_call round i calls acc a).0.sessions ≡ a.sessions)
          × ((ms : List Message) × (results ≡ acc ++ ms)
              × Dispatched i calls a.dispatcher ms (each_call round i calls acc a).0.dispatcher)
    unfolding each_call
    each_call-Dispatched i [] acc a results same = λ h.
        let e : results ≡ acc = ground arith in (refl, ([], e ∙ sym (append-nil acc), (refl, refl)))
    each_call-Dispatched i (call ∷ calls) acc a results same =
        let d = does i call a same in
        elim (Round-cases (round i call a).1) [
          | inl halt ↦
              rw (each_call-stops round i call calls acc a halt) (λ h. absurd (ground arith))
          | inr (m, go) ↦ rw (each_call-answers round i call calls acc a m go) (λ h.
              let (kept, (ms, whole, rest)) =
                each_call-Dispatched (suc i) calls (acc ++ m ∷ []) (round i call a).0 results
                  d.runtime h in
              (
                kept ∙ d.sessions,
                (
                  m ∷ ms,
                  whole ∙ append_assoc acc (m ∷ []) ms,
                  (
                    m,
                    ms,
                    refl,
                    settle_call-Reply rt call _ m (sym d.result ∙ go),
                    subst
                        (λ (b : Dispatcher).
                          Dispatched (suc i) calls b ms
                            (each_call round (suc i) calls (acc ++ m ∷ [])
                              (round i call a).0).0.dispatcher)
                        d.dispatcher rest,
                  ),
                ),
              ))
        ]

    -- A loop that stops has dispatched the calls before the place where it stopped, and then the call at
    -- that place, which was paused.
    pub each_call-paused :
        (i : ℕ) (calls : List ToolCall) (acc : List Message) (a : Agent) (j : ℕ)
        → a.runtime ≡ rt
        → (each_call round i calls acc a).1 ≡ stopped j
        → (k : ℕ) × (call : ToolCall) × (ms : List Message) × (d : Dispatcher) × (pe : PauseError)
          × (j ≡ i + k)
          × (get_elem? calls k ≡ some call)
          × Dispatched i (take k calls) a.dispatcher ms d
          × ((dispatched_at j call d).1 ≡ err (paused pe))
          × ((each_call round i calls acc a).0.dispatcher ≡ (dispatched_at j call d).0)
    unfolding each_call get_elem?
    each_call-paused i [] acc a j same = λ h. absurd (ground arith)
    each_call-paused i (call ∷ calls) acc a j same =
        let d = does i call a same in
        elim (Round-cases (round i call a).1) [
          | inl halt ↦ rw (each_call-stops round i call calls acc a halt) (λ h.
              let e : i ≡ j = ground arith in
              let (pe, stop) = settle_call-stops rt call _ (sym d.result ∙ halt) in
              (
                0,
                call,
                [],
                a.dispatcher,
                pe,
                omega arith,
                refl,
                (refl, refl),
                subst (λ (n : ℕ). (dispatched_at n call a.dispatcher).1 ≡ err (paused pe)) e stop,
                d.dispatcher ∙ ap (λ (n : ℕ). (dispatched_at n call a.dispatcher).0) e,
              ))
          | inr (m, go) ↦ rw (each_call-answers round i call calls acc a m go) (λ h.
              let (k, found, ms, b, pe, at, here, before, stop, left) =
                each_call-paused (suc i) calls (acc ++ m ∷ []) (round i call a).0 j d.runtime h in
              (
                suc k,
                found,
                m ∷ ms,
                b,
                pe,
                omega (arith, at),
                here,
                (
                  m,
                  ms,
                  refl,
                  settle_call-Reply rt call _ m (sym d.result ∙ go),
                  subst (λ (x : Dispatcher). Dispatched (suc i) (take k calls) x ms b) d.dispatcher
                      before,
                ),
                stop,
                left,
              ))
        ]
