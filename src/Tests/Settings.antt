-- ===== src/Tests/Settings.antt =====
-- Configuration frames and the settings that they leave.
use nocturnation_stickc.ConfigChannel.Refusals.{refusal_keeps}
use nocturnation_stickc.Frame.Config.{decode_config_write}
use nocturnation_stickc.Frame.Wire.{decode_header, read_u16_le, read_u32_le}
use nocturnation_stickc.Numonce.{fresh_table}
use nocturnation_stickc.ConfigChannel.{process_config_write, bad_target}
use nocturnation_stickc.Prelude.{replicate, ◌≡◌, refl, inl, false, none, [], ◌∷◌, arith}
use nocturnation_stickc.Frame.Types.{Bytes, known_message_type}
use nocturnation_stickc.ConfigApply.Walks.{config_write-IsProper}
use nocturnation_stickc.ConfigApply.Ranges.{IsInRange, IsProper}
use nocturnation_stickc.ConfigApply.{
  lume, Settings, ApplyCtx, apply_config_entry, apply_lume, apply_u8, read_u8,
  save_strip_brightness, key_led_power,
}

abbrev secret_key : Bytes
secret_key = replicate 16 5

-- A CONFIG_WRITE from source 5 for the Lume 0x04030201, with numonce 9, an empty bag and no MAC.
abbrev unsigned_frame : Bytes
unsigned_frame =
    0x4E ∷ 0x4E ∷ 4 ∷ 5 ∷ 0 ∷ 7 ∷ 0 ∷ 0x0F ∷ 21 ∷ 1 ∷ 2 ∷ 3 ∷ 4 ∷ 9 ∷ 0 ∷ 0 ∷ 0 ∷ 0 ∷ 0 ∷ 0 ∷ 0 ∷ 0
    ∷ 0 ∷ 0 ∷ 0 ∷ 0 ∷ 0 ∷ 0 ∷ 0 ∷ 0 ∷ []

abbrev factory : Settings
factory = record {
  mst_pid = 0x40;
  retx_count = 3;
  slv_group = 0;
  strip_bri = 50;
  slv_chan = 0;
  strip_cnt = 29;
  strip_grp = 1;
  pair_win_s = 30;
  friendly_name = none;
}

abbrev lume_ctx : ApplyCtx
lume_ctx = record { role = lume; value_out_of_range = false; settings = factory }

factory-IsInRange : IsInRange factory
factory-IsInRange = record {
  mst_pid_range = (omega arith, omega arith);
  retx_count_range = (omega arith, omega arith);
  strip_bri_range = omega arith;
  slv_chan_range = inl refl;
  strip_cnt_range = (omega arith, omega arith);
  strip_grp_range = omega arith;
  pair_win_s_range = (omega arith, omega arith);
}

config_write-IsProper_example :
    IsProper lume factory
      (process_config_write
        (apply_config_entry 29)
        unsigned_frame
        0x04030201
        secret_key
        fresh_table
        lume_ctx).2
config_write-IsProper_example =
    config_write-IsProper 29 unsigned_frame 0x04030201 secret_key fresh_table lume_ctx (omega arith)
      factory-IsInRange

-- One entry applied: a brightness above 100 is clamped, under "led_power".
led_power_test :
    (apply_config_entry 29
      (record { key = key_led_power; key_len = 9; kind = 0; value = 200 ∷ []; value_len = 1 })
      lume_ctx).1
    ≡ record lume_ctx { settings = record factory { strip_bri = 100 } }
unfolding apply_config_entry apply_lume apply_u8 read_u8 save_strip_brightness
led_power_test = refl

for_another :
    (process_config_write
      (apply_config_entry 29)
      unsigned_frame
      1
      secret_key
      fresh_table
      lume_ctx).0.result
    ≡ bad_target
unfolding process_config_write decode_header decode_config_write known_message_type read_u16_le
    read_u32_le
for_another = refl

refusal_keeps_example :
    (process_config_write
      (apply_config_entry 29)
      unsigned_frame
      1
      secret_key
      fresh_table
      lume_ctx).2
    ≡ lume_ctx
refusal_keeps_example =
    refusal_keeps (apply_config_entry 29) lume_ctx unsigned_frame 1 secret_key fresh_table
      (λ e. absurd (ground (arith, e, for_another))) (λ e. absurd (ground (arith, e, for_another)))
