-- ===== src/Intents/Refresh.antt =====
-- The refreshes of the intent registry (core/intent/src/IntentRegistry.cpp).
pub mod Laws
pub mod Keeps
use intent_execution_layer.Common.{
  ℕ, Bool, true, false, not, List, [], ◌∷◌, ◌++◌, map, if◌then◌else◌,
}
use intent_execution_layer.Common.Sort.{sort}
use intent_execution_layer.Outcome.{Outcome, ok, error}
use intent_execution_layer.Text.{Text, text, text_eq}
use intent_execution_layer.Platform.{Platform}
use intent_execution_layer.Intent.{Intent}
use intent_execution_layer.Event.{Event, EventType, EventPriority, registry_updated}
use intent_execution_layer.Intents.{
  RegistrySnapshot, CapabilityAdapter, IntentsState, RegistryPort, intent_less, with_id,
  with_target_type, replace_intents_by_source, next_epoch,
}

module _ {W G : Type 0} (port : RegistryPort W G) where
  platform : Platform
  platform = port.scoring.platform

  -- The loop over the adapters with the name: their intents, or the first exception
  unfoldable pub collect_named :
      Text → List (CapabilityAdapter W G) → RegistrySnapshot → G → W → Outcome (List Intent) × W
  unfolding platform
  collect_named name [] snapshot graph w = (ok [], w)
  collect_named name (adapter ∷ adapters) snapshot graph w = elim (text_eq adapter.name name) [
    | false ↦ collect_named name adapters snapshot graph w
    | true ↦
        let (offered, w1) = adapter.get_capabilities snapshot graph w in
        elim offered [
          | error message ↦ (error message, w1)
          | ok intents ↦
              let (rest, w2) = collect_named name adapters snapshot graph w1 in
              elim rest [
                | error message ↦ (error message, w2)
                | ok more ↦ (ok (map (with_id platform) intents ++ more), w2)
              ]
        ]
  ]

  -- The loop over all adapters
  unfoldable pub collect_all :
      List (CapabilityAdapter W G) → RegistrySnapshot → G → W → Outcome (List Intent) × W
  unfolding platform
  collect_all [] snapshot graph w = (ok [], w)
  collect_all (adapter ∷ adapters) snapshot graph w =
      let (offered, w1) = adapter.get_capabilities snapshot graph w in
      elim offered [
        | error message ↦ (error message, w1)
        | ok intents ↦
            let (rest, w2) = collect_all adapters snapshot graph w1 in
            elim rest [
              | error message ↦ (error message, w2)
              | ok more ↦
                  (ok (map (λ i. with_target_type (with_id platform i)) intents ++ more), w2)
            ]
      ]

  unfoldable pub publish_event : EventType → Text → EventPriority → W → W
  publish_event type message priority w =
      let (now, w') = port.system_now w in
      port.publish
        (record {
          type = type;
          source = text "IntentRegistry";
          message = message;
          timestamp = now;
          priority = priority;
        })
        w'

  -- What an incremental refresh does after the adapters answered
  unfoldable pub apply_incremental :
      Text
      → Text
      → Text
      → EventPriority
      → RegistrySnapshot
      → Outcome (List Intent)
      → IntentsState W G
      → IntentsState W G
  apply_incremental source failure success priority snapshot (error message) s = record s {
    world = port.log (failure ++ message) s.world;
  }
  apply_incremental source failure success priority snapshot (ok offered) s =
      let applied = next_epoch (record s {
        last_snapshot = snapshot;
        intents = replace_intents_by_source source offered s.intents;
      }) in
      record applied { world = publish_event registry_updated success priority applied.world }

  refresh_source : Text → Text → Text → Text → EventPriority → IntentsState W G → IntentsState W G
  refresh_source name source failure success priority s =
      let (snapshot, w1) = port.capture s.world in
      elim snapshot.valid [
        | false ↦ record s { world = w1 }
        | true ↦
            let (offered, w2) = collect_named name port.adapters snapshot s.graph w1 in
            apply_incremental source failure success priority snapshot offered
              (record s { world = w2 })
      ]

  -- RefreshUiIncremental
  unfoldable pub refresh_ui_incremental : IntentsState W G → IntentsState W G
  unfolding refresh_source
  refresh_ui_incremental s =
      refresh_source (text "UIAAdapter") (text "uia") (text "UI refresh failed: ")
        (text "Incremental UI intent refresh applied") EventPriority.high s

  -- RefreshFileSystemIncremental
  unfoldable pub refresh_file_system_incremental : IntentsState W G → IntentsState W G
  unfolding refresh_source
  refresh_file_system_incremental s =
      refresh_source (text "FileSystemAdapter") (text "filesystem")
        (text "Filesystem refresh failed: ") (text "Incremental filesystem intent refresh applied")
        EventPriority.low s

  -- An exception of a full refresh; the event has the default priority.
  refresh_failed : Text → IntentsState W G → IntentsState W G
  refresh_failed why s =
      let message = text "Registry refresh failed: " ++ why in
      record s {
        world =
            publish_event EventType.error message EventPriority.medium (port.log message s.world);
      }

  apply_refresh : RegistrySnapshot → G → Outcome (List Intent) → IntentsState W G → IntentsState W G
  unfolding refresh_failed
  apply_refresh snapshot graph (error why) s = refresh_failed why s
  apply_refresh snapshot graph (ok offered) s =
      let applied = next_epoch (record s {
        last_snapshot = snapshot;
        graph = graph;
        intents = sort intent_less offered;
      }) in
      record applied {
        world = port.log (text "Refreshed intent registry") (
            publish_event registry_updated (text "Intent registry refreshed") EventPriority.medium
              applied.world);
      }

  refresh_with : RegistrySnapshot → Outcome G → IntentsState W G → IntentsState W G
  unfolding apply_refresh refresh_failed
  refresh_with snapshot (error why) s = refresh_failed why s
  refresh_with snapshot (ok graph) s =
      let (offered, w) = collect_all port.adapters snapshot graph s.world in
      apply_refresh snapshot graph offered (record s { world = w })

  -- Refresh
  unfoldable pub refresh : IntentsState W G → IntentsState W G
  unfolding refresh_with
  refresh s =
      let (snapshot, w) = port.capture s.world in
      elim snapshot.valid [
        | false ↦ record s { world = port.log (text "Snapshot invalid; skipping refresh") w }
        | true ↦ refresh_with snapshot (port.build_graph snapshot) (record s { world = w })
      ]
