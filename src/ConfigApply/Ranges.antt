-- ===== src/ConfigApply/Ranges.antt =====
-- ble/config_apply.cpp: the settings stay in range, and each role keeps to its own.
use nocturnation_stickc.Frame.Wire.{byte}
use nocturnation_stickc.Prelude.{
  if◌then◌else◌, Option-cases, set, ℕ, ◌≤◌, ◌≡◌, ◌⊎◌, inl, inr, Bool, true, false, arith, ◌!=◌, ◌+◌,
  ◌*◌, ◌^◌, ◌||◌, refl,
}
use nocturnation_stickc.Frame.Types.{Bytes}
use nocturnation_stickc.Tlv.{TlvEntry, type_byte, ValueType}
use nocturnation_stickc.ConfigApply.{
  Role, Settings, ApplyCtx, save_director_perf_source_id, save_retx_count, lume,
  save_strip_brightness, save_lume_channel, save_strip_group_size, save_strip_chain_size,
  save_pair_win_s, save_friendly_name, out_of_range, apply_u8, apply_friendly_name, apply_common,
  apply_director, apply_lume, apply_config_entry, director, save_lume_group, read_u8,
  apply_dir_sid_perf, apply_strip_chain, same_bytes, key_group, key_led_power, key_channel_pref,
  key_strip_chain, key_strip_group_size,
}

-- What the setters promise of flash.
pub record IsInRange (s : Settings) : Type 0 where
  pub mst_pid_range : (0x40 ≤ s.mst_pid) × (s.mst_pid ≤ 0xFE)
  pub retx_count_range : (1 ≤ s.retx_count) × (s.retx_count ≤ 5)
  pub strip_bri_range : s.strip_bri ≤ 100
  pub slv_chan_range :
      (s.slv_chan ≡ 0) ⊎ ((s.slv_chan ≡ 1) ⊎ ((s.slv_chan ≡ 6) ⊎ (s.slv_chan ≡ 11)))
  pub strip_cnt_range : (1 ≤ s.strip_cnt) × (s.strip_cnt ≤ 288)
  pub strip_grp_range : 1 ≤ s.strip_grp
  pub pair_win_s_range : (5 ≤ s.pair_win_s) × (s.pair_win_s ≤ 255)

-- The settings of the other role are as they were.
abbrev pub OthersKept : Role → Settings → Settings → Type 0
OthersKept lume old s = (s.mst_pid ≡ old.mst_pid) × (s.retx_count ≡ old.retx_count)
OthersKept director old s =
    (s.slv_group ≡ old.slv_group)
    × (s.strip_bri ≡ old.strip_bri)
    × (s.slv_chan ≡ old.slv_chan)
    × (s.strip_cnt ≡ old.strip_cnt)
    × (s.strip_grp ≡ old.strip_grp)

-- A context that a bag may leave behind.
pub record IsProper (role : Role) (old : Settings) (ctx : ApplyCtx) : Type 0 where
  pub same_role : ctx.role ≡ role
  pub in_range : IsInRange ctx.settings
  pub others_kept : OthersKept role old ctx.settings

pub OthersKept-refl : (role : Role) (s : Settings) → OthersKept role s s
OthersKept-refl lume s = (refl, refl)
OthersKept-refl director s = (refl, refl, refl, refl, refl)

-- A setter that keeps the ranges and the settings of the other role.
record IsSetter (role : Role) (save : Settings → Settings) : Type 0 where
  keeps_range : (s : Settings) → IsInRange s → IsInRange (save s)
  keeps_others : (old s : Settings) → OthersKept role old s → OthersKept role old (save s)

dir_sid_perf-IsSetter : (v : ℕ) → IsSetter director (save_director_perf_source_id v)
unfolding save_director_perf_source_id
dir_sid_perf-IsSetter v = record {
  keeps_range = λ s h. ground (arith, h);
  keeps_others = λ old s k. ground (arith, k);
}

retx_count-IsSetter : (v : ℕ) → IsSetter director (save_retx_count v)
unfolding save_retx_count
retx_count-IsSetter v = record {
  keeps_range = λ s h. ground (arith, h);
  keeps_others = λ old s k. k;
}

group-IsSetter : (v : ℕ) → IsSetter lume (save_lume_group v)
group-IsSetter v = record { keeps_range = λ s h. ground (arith, h); keeps_others = λ old s k. k }

led_power-IsSetter : (v : ℕ) → IsSetter lume (save_strip_brightness v)
unfolding save_strip_brightness
led_power-IsSetter v = record {
  keeps_range = λ s h. ground (arith, h);
  keeps_others = λ old s k. k;
}

channel_pref-IsSetter : (v : ℕ) → IsSetter lume (save_lume_channel v)
unfolding save_lume_channel
channel_pref-IsSetter v = record {
  keeps_range = λ s h. ground (arith, h);
  keeps_others = λ old s k. k;
}

strip_group_size-IsSetter : (v : ℕ) → IsSetter lume (save_strip_group_size v)
unfolding save_strip_group_size
strip_group_size-IsSetter v = record {
  keeps_range = λ s h. ground (arith, h);
  keeps_others = λ old s k. k;
}

strip_chain-IsSetter : (d v : ℕ) → 1 ≤ d → IsSetter lume (save_strip_chain_size d v)
unfolding save_strip_chain_size
strip_chain-IsSetter d v some_d = record {
  keeps_range = λ s h. ground (arith, h, some_d);
  keeps_others = λ old s k. k;
}

pair_win_s-IsSetter : (role : Role) (v : ℕ) → IsSetter role (save_pair_win_s v)
unfolding save_pair_win_s
pair_win_s-IsSetter director v = record {
  keeps_range = λ s h. ground (arith, h);
  keeps_others = λ old s k. k;
}
pair_win_s-IsSetter lume v = record {
  keeps_range = λ s h. ground (arith, h);
  keeps_others = λ old s k. k;
}

friendly_name-IsSetter : (role : Role) (name : Bytes) → IsSetter role (save_friendly_name name)
unfolding save_friendly_name
friendly_name-IsSetter director name = record {
  keeps_range = λ s h. ground (arith, h);
  keeps_others = λ old s k. k;
}
friendly_name-IsSetter lume name = record {
  keeps_range = λ s h. ground (arith, h);
  keeps_others = λ old s k. k;
}

module _ (role : Role) (old : Settings) (ctx : ApplyCtx) (h : IsProper role old ctx) where
  out_of_range-IsProper : IsProper role old (out_of_range ctx)
  out_of_range-IsProper = record {
    same_role = h.same_role;
    in_range = h.in_range;
    others_kept = h.others_kept;
  }

  saved-IsProper :
      (save : Settings → Settings)
      → IsSetter role save
      → IsProper role old (record ctx { settings = save ctx.settings })
  saved-IsProper save set = record {
    same_role = h.same_role;
    in_range = set.keeps_range ctx.settings h.in_range;
    others_kept = set.keeps_others old ctx.settings h.others_kept;
  }

  apply_u8-IsProper :
      (save : ℕ → Settings → Settings) (e : TlvEntry)
      → ((v : ℕ) → IsSetter role (save v))
      → IsProper role old (apply_u8 save e ctx)
  unfolding apply_u8
  apply_u8-IsProper save e set = elim (Option-cases (read_u8 e)) [
    | inl bad ↦ rw (apply_u8, bad) out_of_range-IsProper
    | inr (v, good) ↦ rw (apply_u8, good) (saved-IsProper (save v) (set v))
  ]

  pick :
      (b : Bool) (c1 c2 : ApplyCtx)
      → IsProper role old c1
      → IsProper role old c2
      → IsProper role old (if b then c1 else c2)
  pick true c1 c2 p1 p2 = p1
  pick false c1 c2 p1 p2 = p2

  apply_friendly_name-IsProper : (e : TlvEntry) → IsProper role old (apply_friendly_name e ctx)
  unfolding apply_friendly_name
  apply_friendly_name-IsProper e =
      pick _ _ _ out_of_range-IsProper (saved-IsProper _ (friendly_name-IsSetter role _))

  apply_common-IsProper :
      (d : ℕ) (key : Bytes) (e : TlvEntry) → IsProper role old (apply_common d key e ctx)
  unfolding apply_common
  apply_common-IsProper d key e =
      pick _ _ _ (apply_u8-IsProper save_pair_win_s e (pair_win_s-IsSetter role))
        (pick _ _ _ (apply_friendly_name-IsProper e) h)

module _ (old : Settings) (ctx : ApplyCtx) where
  apply_director-IsProper :
      (d : ℕ) (key : Bytes) (e : TlvEntry)
      → IsProper director old ctx
      → IsProper director old (apply_director d key e ctx)
  unfolding apply_director apply_dir_sid_perf
  apply_director-IsProper d key e h =
      let or = pick director old ctx h in
      let sid : IsProper director old (apply_dir_sid_perf e ctx) = elim (Option-cases (read_u8 e)) [
        | inl bad ↦ rw (apply_dir_sid_perf, bad) (out_of_range-IsProper director old ctx h)
        | inr (v, good) ↦
            rw (apply_dir_sid_perf, good)
              (or _ _ _ (out_of_range-IsProper director old ctx h) (
                saved-IsProper director old ctx h (save_director_perf_source_id v)
                  (dir_sid_perf-IsSetter v)))
      ] in
      or _ _ _ sid (
        or _ _ _ (apply_u8-IsProper director old ctx h save_retx_count e retx_count-IsSetter)
          (apply_common-IsProper director old ctx h d key e))

  apply_lume-IsProper :
      (d : ℕ) (key : Bytes) (e : TlvEntry)
      → 1 ≤ d
      → IsProper lume old ctx
      → IsProper lume old (apply_lume d key e ctx)
  unfolding apply_lume apply_strip_chain
  apply_lume-IsProper d key e some_d h =
      let or = pick lume old ctx h in
      let is = same_bytes key in
      let byte_key = apply_u8-IsProper lume old ctx h in
      let v = byte e.value 0 + byte e.value 1 * 2 ^ 8 in
      let chain =
        or (e.kind != type_byte ValueType.u16 || e.value_len != 2) _ _
          (out_of_range-IsProper lume old ctx h)
          (saved-IsProper lume old ctx h (save_strip_chain_size d v)
            (strip_chain-IsSetter d v some_d)) in
      or (is key_group) _ _ (byte_key save_lume_group e group-IsSetter) (
        or (is key_led_power) _ _ (byte_key save_strip_brightness e led_power-IsSetter) (
          or (is key_channel_pref) _ _ (byte_key save_lume_channel e channel_pref-IsSetter) (
            or (is key_strip_chain) _ _ chain (
              or (is key_strip_group_size) _ _
                (byte_key save_strip_group_size e strip_group_size-IsSetter)
                (apply_common-IsProper lume old ctx h d key e)))))

pub apply_config_entry-IsProper :
    (d : ℕ) (role : Role) (old : Settings) (e : TlvEntry) (ctx : ApplyCtx)
    → 1 ≤ d
    → IsProper role old ctx
    → IsProper role old (apply_config_entry d e ctx).1
unfolding apply_config_entry
apply_config_entry-IsProper d director old e ctx some_d h =
    rw h.same_role (apply_director-IsProper old ctx d _ e h)
apply_config_entry-IsProper d lume old e ctx some_d h =
    rw h.same_role (apply_lume-IsProper old ctx d _ e some_d h)
