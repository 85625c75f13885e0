-- ===== src/Lume/FanOut.antt =====
-- src/modes/lume_mode.cpp: the fan-out of an order to the active bindings. The null slots, which enter()
-- never leaves, are left out.
use nocturnation_stickc.Prelude.{
  ◌==◌, if◌then◌else◌, ℕ, ◌+◌, ◌%◌, ◌^◌, Bool, not, ◌&&◌, ◌||◌, List, [], ◌∷◌,
}
use nocturnation_stickc.Frame.Light.{
  LightPulsePayload, LightWashPayload, LightWashEndPayload, LightWashPulsePayload,
}
use nocturnation_stickc.Lume.Types.{
  Binding, Order, LumeCall, Lume, ordered, do_pulse, do_wash, do_wash_end, do_wash_pulse,
  fallback_started, fallback_faded, fallback_recovered, fallback_fade_ticks,
  fallback_recovery_ticks,
}

-- The group test.
abbrev pub in_group : ℕ → ℕ → Bool
in_group target_group group = target_group == 0 || target_group == group

-- The class and group tests of the light family; a relay is not filtered by group.
unfoldable pub addressed : ℕ → ℕ → ℕ → Binding → Bool
addressed target_class target_group group b =
    (target_class == 0 || target_class == b.device_class)
    && (b.is_relay || in_group target_group group)

-- The loop over the bindings, from index `i` on, with the test of the slots and the call.
unfoldable pub fan_from : (Binding → Bool) → (ℕ → LumeCall) → ℕ → List Binding → List LumeCall
fan_from takes call i [] = []
fan_from takes call i (b ∷ bs) =
    let rest = fan_from takes call (i + 1) bs in if takes b then call i ∷ rest else rest

abbrev pub fan_out : (Binding → Bool) → (ℕ → LumeCall) → Lume → List LumeCall
fan_out takes call s = fan_from takes call 0 s.bindings

-- set_current_target and the handler of the binding; the group is narrowed to a byte.
abbrev pub to_binding : ℕ → ℕ → Order → ℕ → LumeCall
to_binding target_class target_group order i = ordered i target_class (target_group % 2 ^ 8) order

unfoldable pub fan_out_light_pulse : LightPulsePayload → Lume → List LumeCall
fan_out_light_pulse p s =
    fan_out (λ b. not b.in_callback && addressed p.target_class p.target_group s.group b)
      (to_binding p.target_class p.target_group (do_pulse p)) s

unfoldable pub fan_out_light_pulse_inline : LightPulsePayload → Lume → List LumeCall
fan_out_light_pulse_inline p s =
    fan_out (λ b. b.in_callback && addressed p.target_class p.target_group s.group b)
      (to_binding p.target_class p.target_group (do_pulse p)) s

unfoldable pub fan_out_light_wash : LightWashPayload → Lume → List LumeCall
fan_out_light_wash p s =
    fan_out (λ b. b.can_wash && addressed p.target_class p.target_group s.group b)
      (to_binding p.target_class p.target_group (do_wash p)) s

unfoldable pub fan_out_light_wash_end : LightWashEndPayload → Lume → List LumeCall
fan_out_light_wash_end p s =
    fan_out (λ b. b.can_wash && addressed p.target_class p.target_group s.group b)
      (to_binding p.target_class p.target_group
        (do_wash_end p.release_time p.led_mode p.led_modifier1 p.led_modifier2))
      s

unfoldable pub fan_out_light_wash_pulse : LightWashPulsePayload → Lume → List LumeCall
fan_out_light_wash_pulse p s =
    fan_out (λ b. b.can_wash && addressed p.target_class p.target_group s.group b)
      (to_binding p.target_class p.target_group (do_wash_pulse p)) s

-- hal::DeviceClass::Display
abbrev pub display_class : ℕ
display_class = 0x04

-- The display family goes to the bindings of the Display class in the group.
unfoldable pub fan_out_display : ℕ → Order → Lume → List LumeCall
fan_out_display target_group order s =
    fan_out (λ b. b.device_class == display_class && in_group target_group s.group)
      (to_binding display_class target_group order) s

-- The fallback washes, which no Director sent.
abbrev pub fallback_wash : LightWashPayload
fallback_wash = record {
  target_class = 0;
  target_group = 0;
  r1 = 20;
  g1 = 0;
  b1 = 80;
  r2 = 0;
  g2 = 20;
  b2 = 80;
  attack = 30;
  release = 50;
  intensity = 60;
  cycle_ms = 10000;
  ttl_seconds = 0;
  pulse_response = 0;
  led_mode = 0;
  led_modifier1 = 0;
  led_modifier2 = 0;
}

abbrev pub fallback_end : ℕ → LightWashEndPayload
fallback_end release_time = record {
  target_class = 0;
  target_group = 0;
  release_time = release_time;
  led_mode = 0;
  led_modifier1 = 0;
  led_modifier2 = 0;
}

unfoldable pub emit_fallback_wash_start : Lume → List LumeCall
emit_fallback_wash_start s = fallback_started ∷ fan_out_light_wash fallback_wash s

unfoldable pub emit_fallback_wash_fade : Lume → List LumeCall
emit_fallback_wash_fade s =
    fallback_faded ∷ fan_out_light_wash_end (fallback_end fallback_fade_ticks) s

unfoldable pub emit_fallback_wash_recovery : Lume → List LumeCall
emit_fallback_wash_recovery s =
    fallback_recovered ∷ fan_out_light_wash_end (fallback_end fallback_recovery_ticks) s
