-- ===== src/Control/Loop.antt =====
-- RunLoop of core/execution/src/ControlRuntime.cpp: frames, until a stop is requested or as many as
-- the configuration allows are executed. The loop is on fuel; a runtime with a limit of frames needs
-- one round for each frame that is left and one more.
pub mod Ends
use intent_execution_layer.Common.{
  ℕ, zero, suc, ◌+◌, ◌*◌, Bool, true, false, ◌&&◌, Option, none, some, if◌then◌else◌, ltb, leb, ℤ,
  pos, ltb_ℤ, pos_part,
}
use intent_execution_layer.Double.{DoubleOps}
use intent_execution_layer.Execution.{ns_per_ms}
use intent_execution_layer.Control.{ControlRuntimeConfig, RuntimeState}
use intent_execution_layer.Control.Frame.{FramePort, run_frame}

-- std::max(1, config_.targetFrameMs)
unfoldable pub frame_ms_of : ControlRuntimeConfig → ℤ
frame_ms_of config = if ltb_ℤ (pos 1) config.target_frame_ms then config.target_frame_ms else pos 1

-- The configured number of frames is executed.
unfoldable pub is_exhausted : RuntimeState → Bool
is_exhausted s = ltb 0 s.config.max_frames && leb s.config.max_frames s.frames_executed

module _ {W : Type 0} (ops : DoubleOps) (port : FramePort W) where
  -- The wait at the end of a frame, and when the next one begins
  unfoldable pub pace : ℤ → ℕ → W → ℕ × W
  pace frame_ms next_frame w =
      let (now, w') = port.steady_now (port.wait_until next_frame w) in
      (if ltb (next_frame + pos_part frame_ms * ns_per_ms) now then now else next_frame, w')

  unfoldable pub run_rounds : ℕ → ℤ → ℕ → RuntimeState → W → Option (RuntimeState × W)
  run_rounds zero frame_ms next_frame s w = none
  run_rounds (suc fuel) frame_ms next_frame s w = elim s.stop_requested [
    | true ↦ some (record s { running = false }, w)
    | false ↦ elim (is_exhausted s) [
      | true ↦ some (record s { stop_requested = true; running = false }, w)
      | false ↦
          let (s1, w1) = run_frame ops port frame_ms s w in
          elim s1.stop_requested [
            | true ↦ some (record s1 { running = false }, w1)
            | false ↦
                let (next, w2) = pace frame_ms (next_frame + pos_part frame_ms * ns_per_ms) w1 in
                run_rounds fuel frame_ms next s1 w2
          ]
    ]
  ]

  -- RunLoop
  unfoldable pub run_loop : ℕ → RuntimeState → W → Option (RuntimeState × W)
  run_loop fuel s w =
      let (now, w') = port.steady_now w in run_rounds fuel (frame_ms_of s.config) now s w'
