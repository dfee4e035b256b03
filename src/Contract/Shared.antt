-- ===== src/Contract/Shared.antt =====
-- The intent registry on the execution engine's bus: the two are built with one EventBus, so what the
-- registry publishes is seen by the handlers that see the engine's events.
use intent_execution_layer.Common.{
  ℕ, ◌≡◌, refl, subst, Bool, true, false, List, [], ◌∷◌, All, if◌then◌else◌, arith, sym,
}
use intent_execution_layer.Text.{Text, text}
use intent_execution_layer.Event.{Event, publish}
use intent_execution_layer.Engine.{published, logged, EngineState, emit, log_all}
use intent_execution_layer.Engine.Execute.{Surroundings}
use intent_execution_layer.Engine.Execute.Events.{
  is_counted, endings_from, endings-emit, endings-log_all,
}
use intent_execution_layer.Intents.{CapabilityAdapter, IntentsState, RegistryPort}
use intent_execution_layer.Intents.Refresh.{refresh}
use intent_execution_layer.Intents.Refresh.Keeps.{KeepsIt, refresh-measure}

-- A call that acts on the world of the engine
in_world : {W A : Type 0} → (W → A × W) → EngineState W → A × EngineState W
in_world f s = let (a, w) = f s.world in (a, record s { world = w })

module _ {W : Type 0} (env : Surroundings W) where
  -- EventBus::Publish of an event that has its time
  publish_on_bus : Event → EngineState W → EngineState W
  publish_on_bus event s =
      let (w, messages) = publish event event.timestamp env.bus s.world in
      log_all messages (emit (published event) (record s { world = w }))

  adapters_in_world :
      {G : Type 0} → List (CapabilityAdapter W G) → List (CapabilityAdapter (EngineState W) G)
  unfolding in_world
  adapters_in_world [] = []
  adapters_in_world (a ∷ adapters) =
      record {
        name = a.name;
        get_capabilities = λ snapshot graph. in_world (a.get_capabilities snapshot graph);
      }
      ∷ adapters_in_world adapters

  -- The observer, the graph builder, the adapters, the telemetry and the resolver's arithmetic of a
  -- registry, with the clocks, the logger and the bus of the engine
  unfoldable pub registry_port : {G : Type 0} → RegistryPort W G → RegistryPort (EngineState W) G
  unfolding in_world publish_on_bus adapters_in_world
  registry_port p = record {
    capture = in_world p.capture;
    build_graph = p.build_graph;
    adapters = adapters_in_world p.adapters;
    publish = publish_on_bus;
    system_now = in_world env.machine.system_now;
    steady_now = in_world env.machine.steady_now;
    log = λ message s. emit (logged message) s;
    log_resolution_timing = λ ms s. record s { world = p.log_resolution_timing ms s.world };
    scoring = record {
      platform = p.scoring.platform;
      floats = p.scoring.floats;
      doubles = p.scoring.doubles;
      tick_count = in_world p.scoring.tick_count;
    };
  }

  -- A refresh publishes only under its own source.
  module _ (from : Text → Bool) (own : from (text "ExecutionEngine") ≡ true)
      (other : from (text "IntentRegistry") ≡ false) where
    publish_on_bus-endings :
        (event : Event) (s : EngineState W)
        → event.source ≡ text "IntentRegistry"
        → endings_from from (publish_on_bus event s) ≡ endings_from from s
    unfolding publish_on_bus
    publish_on_bus-endings event s h =
        let (w, messages) = publish event event.timestamp env.bus s.world in
        let unseen : from event.source ≡ false = subst (λ x. from x ≡ false) (sym h) other in
        let s' : EngineState W = record s { world = w } in
        let uncounted : ◌≡◌ {A = ℕ} (if is_counted from (published event) then 1 else 0) 0 =
          rw unseen refl in
        omega (
          arith,
          endings-log_all from own messages (emit (published event) s'),
          endings-emit from own (published event) s',
          uncounted,
        )

    adapters_in_world-KeepsIt :
        {G : Type 0} (p : RegistryPort W G) (adapters : List (CapabilityAdapter W G))
        → All (KeepsIt (registry_port p) (endings_from from)) (adapters_in_world adapters)
    unfolding adapters_in_world in_world
    adapters_in_world-KeepsIt p [] = tt
    adapters_in_world-KeepsIt p (a ∷ adapters) =
        (λ snapshot graph s. refl, adapters_in_world-KeepsIt p adapters)

    pub endings_from-refresh :
        {G : Type 0} (p : RegistryPort W G) (s : IntentsState (EngineState W) G)
        → endings_from from (refresh (registry_port p) s).world ≡ endings_from from s.world
    unfolding registry_port in_world
    endings_from-refresh p s =
        refresh-measure (registry_port p) (endings_from from) (λ s. refl) (λ s. refl)
          (λ message s. endings-emit_logged message s) publish_on_bus-endings s
          (adapters_in_world-KeepsIt p p.adapters)
      where
        endings-emit_logged :
            (message : Text) (s : EngineState W)
            → endings_from from (emit (logged message) s) ≡ endings_from from s
        endings-emit_logged message s = omega (arith, endings-emit from own (logged message) s)
