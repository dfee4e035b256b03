-- ===== src/Intents/Refresh/Keeps.antt =====
-- A full refresh keeps what all calls that it makes keep.
use intent_execution_layer.Common.{ℕ, ◌≡◌, refl, ◌∙◌, List, [], ◌∷◌, All, inl, inr, Bool-cases}
use intent_execution_layer.Outcome.{Outcome, ok, error, Outcome-cases}
use intent_execution_layer.Text.{Text, text}
use intent_execution_layer.Intent.{Intent}
use intent_execution_layer.Event.{Event, EventType, EventPriority}
use intent_execution_layer.Intents.{
  RegistrySnapshot, CapabilityAdapter, IntentsState, RegistryPort, next_epoch,
}
use intent_execution_layer.Intents.Refresh.{
  collect_all, publish_event, refresh_failed, apply_refresh, refresh_with, refresh,
}

module _ {W G : Type 0} (port : RegistryPort W G) (measure : W → ℕ) where
  -- An adapter that keeps the measure
  abbrev pub KeepsIt : CapabilityAdapter W G → Type 0
  KeepsIt a =
      (snapshot : RegistrySnapshot) (graph : G) (w : W)
      → measure (a.get_capabilities snapshot graph w).1 ≡ measure w

  collect_all-measure :
      (adapters : List (CapabilityAdapter W G)) (snapshot : RegistrySnapshot) (graph : G) (w : W)
      → All KeepsIt adapters
      → measure (collect_all port adapters snapshot graph w).1 ≡ measure w
  unfolding collect_all
  collect_all-measure [] snapshot graph w h = refl
  collect_all-measure (a ∷ adapters) snapshot graph w (kept, h) =
      let (offered, w1) = a.get_capabilities snapshot graph w in
      let (rest, w2) = collect_all port adapters snapshot graph w1 in
      let first = kept snapshot graph w in
      let both = collect_all-measure adapters snapshot graph w1 h ∙ first in
      elim (Outcome-cases offered) [
        | inl (why, e) ↦ rw (e, collect_all) first
        | inr (intents, e) ↦ elim (Outcome-cases rest) [
          | inl (why, f) ↦ rw (e, f, collect_all) both
          | inr (more, f) ↦ rw (e, f, collect_all) both
        ]
      ]

  module _ (capture_kept : (w : W) → measure (port.capture w).1 ≡ measure w)
      (now_kept : (w : W) → measure (port.system_now w).1 ≡ measure w)
      (log_kept : (message : Text) (w : W) → measure (port.log message w) ≡ measure w)
      (publish_kept : (event : Event) (w : W)
        → event.source ≡ text "IntentRegistry"
        → measure (port.publish event w) ≡ measure w) where
    publish_event-measure :
        (type : EventType) (message : Text) (priority : EventPriority) (w : W)
        → measure (publish_event port type message priority w) ≡ measure w
    unfolding publish_event
    publish_event-measure type message priority w =
        publish_kept _ (port.system_now w).1 refl ∙ now_kept w

    refresh_failed-measure :
        (why : Text) (s : IntentsState W G)
        → measure (refresh_failed port why s).world ≡ measure s.world
    unfolding refresh_failed
    refresh_failed-measure why s = publish_event-measure _ _ _ (port.log _ s.world) ∙ log_kept _ _

    apply_refresh-measure :
        (snapshot : RegistrySnapshot) (graph : G) (offered : Outcome (List Intent))
        (s : IntentsState W G)
        → measure (apply_refresh port snapshot graph offered s).world ≡ measure s.world
    unfolding apply_refresh next_epoch
    apply_refresh-measure snapshot graph (error why) s = refresh_failed-measure why s
    apply_refresh-measure snapshot graph (ok offered) s =
        log_kept _ _ ∙ publish_event-measure _ _ _ s.world

    refresh_with-measure :
        (snapshot : RegistrySnapshot) (built : Outcome G) (s : IntentsState W G)
        → All KeepsIt port.adapters
        → measure (refresh_with port snapshot built s).world ≡ measure s.world
    unfolding refresh_with
    refresh_with-measure snapshot (error why) s h = refresh_failed-measure why s
    refresh_with-measure snapshot (ok graph) s h =
        let (offered, w) = collect_all port port.adapters snapshot graph s.world in
        apply_refresh-measure snapshot graph offered (record s { world = w })
        ∙ collect_all-measure port.adapters snapshot graph s.world h

    pub refresh-measure :
        (s : IntentsState W G)
        → All KeepsIt port.adapters
        → measure (refresh port s).world ≡ measure s.world
    unfolding refresh
    refresh-measure s h =
        let (snapshot, w) = port.capture s.world in
        elim (Bool-cases snapshot.valid) [
          | inl e ↦
              rw (e, refresh)
                (refresh_with-measure snapshot (port.build_graph snapshot) (record s { world = w })
                    h
                  ∙ capture_kept s.world)
          | inr e ↦ rw (e, refresh) (log_kept _ w ∙ capture_kept s.world)
        ]
