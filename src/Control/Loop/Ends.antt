-- ===== src/Control/Loop/Ends.antt =====
-- The loop ends at its limit of frames.
use intent_execution_layer.Common.{
  ℕ, zero, suc, ◌+◌, ◌-◌, ◌*◌, ◌^◌, ◌≤◌, ◌<◌, ◌≡◌, refl, ap, subst, ◌∙◌, true, false, Option, some,
  ℤ, pos_part, arith, inl, inr, Bool-cases,
}
use intent_execution_layer.Double.{DoubleOps}
use intent_execution_layer.Execution.{ns_per_ms}
use intent_execution_layer.Control.{ControlRuntimeConfig, RuntimeState, bump}
use intent_execution_layer.Control.Frame.{FramePort, run_frame}
use intent_execution_layer.Control.Frame.Keeps.{run_frame-CountsFrame}
use intent_execution_layer.Control.Loop.{frame_ms_of, is_exhausted, pace, run_rounds, run_loop}

-- The loop ended because all frames were executed.
abbrev EndsAt {ℓ} : {W : Type ℓ} → ℕ → Option (RuntimeState × W) → Type ℓ
EndsAt {W} n end =
    (s' : RuntimeState) × (w' : W) × (end ≡ some (s', w'))
    × (s'.frames_executed ≡ n)
    × (s'.running ≡ false)
    × (s'.stop_requested ≡ true)

module _ {W : Type 0} (ops : DoubleOps) (port : FramePort W) where
  run_rounds-EndsAt :
      (fuel : ℕ) (frame_ms : ℤ) (next_frame : ℕ) (s : RuntimeState) (w : W)
      → s.stop_requested ≡ false
      → 0 < s.config.max_frames
      → s.config.max_frames < 2 ^ 64
      → s.frames_executed ≤ s.config.max_frames
      → s.config.max_frames - s.frames_executed < fuel
      → EndsAt s.config.max_frames (run_rounds ops port fuel frame_ms next_frame s w)
  unfolding run_rounds is_exhausted bump
  run_rounds-EndsAt zero frame_ms next_frame s w go limited small begun enough =
      absurd (omega (arith, enough))
  run_rounds-EndsAt (suc fuel) frame_ms next_frame s w go limited small begun enough =
      elim (Bool-cases (is_exhausted s)) [
        | inl e ↦ simp (run_rounds, go, e) (_, _, refl, ground (arith, e, begun), refl, refl)
        | inr e ↦
            let (s1, w1) = run_frame ops port frame_ms s w in
            let (running, stop, config, frames) = run_frame-CountsFrame ops port frame_ms s w in
            let stop1 : s1.stop_requested ≡ false = stop ∙ go in
            let limit : s1.config.max_frames ≡ s.config.max_frames =
              ap (λ (c : ControlRuntimeConfig). c.max_frames) config in
            let open_frames : s.frames_executed < s.config.max_frames =
              ground (arith, e, limited) in
            let counted : s1.frames_executed ≡ s.frames_executed + 1 =
              omega (arith, frames, small, open_frames) in
            let (next, w2) =
              pace ops port frame_ms (next_frame + pos_part frame_ms * ns_per_ms) w1 in
            let rest =
              run_rounds-EndsAt fuel frame_ms next s1 w2 stop1 (omega (arith, limit, limited))
                (omega (arith, limit, small)) (omega (arith, limit, counted, open_frames))
                (omega (arith, limit, counted, open_frames, enough)) in
            simp (run_rounds, go, e, stop1)
              (subst (λ n. EndsAt n (run_rounds ops port fuel frame_ms next s1 w2)) limit rest)
      ]

  -- A loop that is not told to stop, with a limit of frames that is not 0 and not yet passed, ends
  -- after one round for each frame that is left and one more: exactly as many frames are executed as
  -- the limit says, the runtime no longer runs, and a stop is requested.
  pub run_loop_ends :
      (s : RuntimeState) (w : W)
      → s.stop_requested ≡ false
      → 0 < s.config.max_frames
      → s.config.max_frames < 2 ^ 64
      → s.frames_executed ≤ s.config.max_frames
      → (s' : RuntimeState) × (w' : W) × (run_loop ops port
            (s.config.max_frames - s.frames_executed + 1)
            s
            w
          ≡ some (s', w'))
        × (s'.frames_executed ≡ s.config.max_frames)
        × (s'.running ≡ false)
        × (s'.stop_requested ≡ true)
  unfolding run_loop
  run_loop_ends s w go limited small begun =
      run_rounds-EndsAt (s.config.max_frames - s.frames_executed + 1) (frame_ms_of s.config)
        (port.steady_now w).0 s (port.steady_now w).1 go limited small begun (omega arith)
