-- ===== src/ConfigApply.antt =====
-- ble/config_apply.cpp and the setters of modes/persistence.cpp that it calls: a property bag turned
-- into settings. Flash is a record of the values last put; the keys are the bytes of their names.
pub mod Ranges
pub mod Walks
use nocturnation_stickc.Frame.Wire.{byte}
use nocturnation_stickc.Prelude.{
  ltb, ◌==◌, ◌!=◌, if◌then◌else◌, length, take, ℕ, ◌+◌, ◌*◌, ◌^◌, Bool, true, false, ◌&&◌, ◌||◌,
  Option, none, some, [], ◌∷◌,
}
use nocturnation_stickc.Frame.Types.{Bytes}
use nocturnation_stickc.Tlv.{u8, u16, utf8, TlvEntry, type_byte}

pub data Role : Type 0 where
  director lume : Role

-- The values in flash that the setters write, under the names of their keys. The native build keeps them in
-- statics, `s_native_lume_channel` and so on, those of the strip further down; `friendly_name` is none
-- once removed.
pub record Settings : Type 0 where
  pub mst_pid : ℕ
  pub retx_count : ℕ
  pub slv_group : ℕ
  pub strip_bri : ℕ
  pub slv_chan : ℕ
  pub strip_cnt : ℕ
  pub strip_grp : ℕ
  pub pair_win_s : ℕ
  pub friendly_name : Option Bytes

-- ApplyCtx, with the flash that the callback writes.
pub record ApplyCtx : Type 0 where
  pub role : Role
  pub value_out_of_range : Bool
  pub settings : Settings

-- The bytes before the first NUL.
abbrev pub c_string : Bytes → Bytes
c_string [] = []
c_string (b ∷ bs) = let rest = c_string bs in if b == 0 then [] else b ∷ rest

-- strcmp(a, b) == 0
abbrev pub same_bytes : Bytes → Bytes → Bool
same_bytes [] [] = true
same_bytes [] (y ∷ ys) = false
same_bytes (x ∷ xs) [] = false
same_bytes (x ∷ xs) (y ∷ ys) = x == y && same_bytes xs ys

-- "dir_sid_perf"
abbrev pub key_dir_sid_perf : Bytes
key_dir_sid_perf = 100 ∷ 105 ∷ 114 ∷ 95 ∷ 115 ∷ 105 ∷ 100 ∷ 95 ∷ 112 ∷ 101 ∷ 114 ∷ 102 ∷ []

-- "retx_count"
abbrev pub key_retx_count : Bytes
key_retx_count = 114 ∷ 101 ∷ 116 ∷ 120 ∷ 95 ∷ 99 ∷ 111 ∷ 117 ∷ 110 ∷ 116 ∷ []

-- "group"
abbrev pub key_group : Bytes
key_group = 103 ∷ 114 ∷ 111 ∷ 117 ∷ 112 ∷ []

-- "led_power"
abbrev pub key_led_power : Bytes
key_led_power = 108 ∷ 101 ∷ 100 ∷ 95 ∷ 112 ∷ 111 ∷ 119 ∷ 101 ∷ 114 ∷ []

-- "channel_pref"
abbrev pub key_channel_pref : Bytes
key_channel_pref = 99 ∷ 104 ∷ 97 ∷ 110 ∷ 110 ∷ 101 ∷ 108 ∷ 95 ∷ 112 ∷ 114 ∷ 101 ∷ 102 ∷ []

-- "strip_chain"
abbrev pub key_strip_chain : Bytes
key_strip_chain = 115 ∷ 116 ∷ 114 ∷ 105 ∷ 112 ∷ 95 ∷ 99 ∷ 104 ∷ 97 ∷ 105 ∷ 110 ∷ []

-- "strip_group_size"
abbrev pub key_strip_group_size : Bytes
key_strip_group_size =
    115 ∷ 116 ∷ 114 ∷ 105 ∷ 112 ∷ 95 ∷ 103 ∷ 114 ∷ 111 ∷ 117 ∷ 112 ∷ 95 ∷ 115 ∷ 105 ∷ 122 ∷ 101 ∷ []

-- "pair_win_s"
abbrev pub key_pair_win_s : Bytes
key_pair_win_s = 112 ∷ 97 ∷ 105 ∷ 114 ∷ 95 ∷ 119 ∷ 105 ∷ 110 ∷ 95 ∷ 115 ∷ []

-- "friendly_name"
abbrev pub key_friendly_name : Bytes
key_friendly_name = 102 ∷ 114 ∷ 105 ∷ 101 ∷ 110 ∷ 100 ∷ 108 ∷ 121 ∷ 95 ∷ 110 ∷ 97 ∷ 109 ∷ 101 ∷ []

unfoldable pub save_director_perf_source_id : ℕ → Settings → Settings
save_director_perf_source_id id s =
    if ltb id 0x40 || ltb 0xFE id then s else record s { mst_pid = id }

unfoldable pub save_retx_count : ℕ → Settings → Settings
save_retx_count n s =
    let low = if ltb n 1 then 1 else n in record s { retx_count = if ltb 5 low then 5 else low }

abbrev pub save_lume_group : ℕ → Settings → Settings
save_lume_group g s = record s { slv_group = g }

unfoldable pub save_strip_brightness : ℕ → Settings → Settings
save_strip_brightness pct s = record s { strip_bri = if ltb 100 pct then 100 else pct }

unfoldable pub save_lume_channel : ℕ → Settings → Settings
save_lume_channel c s = record s {
  slv_chan = if c != 0 && c != 1 && c != 6 && c != 11 then 0 else c;
}

unfoldable pub save_strip_group_size : ℕ → Settings → Settings
save_strip_group_size n s = record s { strip_grp = if n == 0 then 1 else n }

unfoldable pub save_pair_win_s : ℕ → Settings → Settings
save_pair_win_s n s =
    let low = if ltb n 5 then 5 else n in record s { pair_win_s = if ltb 255 low then 255 else low }

-- `name` is no null pointer; it ends at its first NUL.
unfoldable pub save_friendly_name : Bytes → Settings → Settings
save_friendly_name name s = record s {
  friendly_name = if length (c_string name) == 0 then none else some (take 20 (c_string name));
}

-- `read_u8`; a value of length 1 has a pointer.
unfoldable pub read_u8 : TlvEntry → Option ℕ
read_u8 e = if e.kind != type_byte u8 || e.value_len != 1 then none else some (byte e.value 0)

abbrev pub out_of_range : ApplyCtx → ApplyCtx
out_of_range ctx = record ctx { value_out_of_range = true }

-- A key with a one-byte value: the value is read and saved.
unfoldable pub apply_u8 : (ℕ → Settings → Settings) → TlvEntry → ApplyCtx → ApplyCtx
apply_u8 save e ctx = elim (read_u8 e) [
  | none ↦ out_of_range ctx
  | some v ↦ record ctx { settings = save v ctx.settings }
]

unfoldable pub apply_dir_sid_perf : TlvEntry → ApplyCtx → ApplyCtx
apply_dir_sid_perf e ctx = elim (read_u8 e) [
  | none ↦ out_of_range ctx
  | some v ↦
      if ltb v 0x40 || ltb 0xFE v
      then out_of_range ctx
      else record ctx { settings = save_director_perf_source_id v ctx.settings }
]

unfoldable pub apply_friendly_name : TlvEntry → ApplyCtx → ApplyCtx
apply_friendly_name e ctx = if e.kind != type_byte utf8 then out_of_range ctx else record ctx {
  settings =
      save_friendly_name (take (if ltb e.value_len 20 then e.value_len else 20) e.value)
        ctx.settings;
}

-- `default_chain` is kDefaultStripChainSize, which the build sets.
module _ (default_chain : ℕ) where
  unfoldable pub save_strip_chain_size : ℕ → Settings → Settings
  save_strip_chain_size n s =
      let size = if n == 0 then default_chain else n in
      record s { strip_cnt = if ltb 288 size then 288 else size }

  unfoldable pub apply_strip_chain : TlvEntry → ApplyCtx → ApplyCtx
  apply_strip_chain e ctx =
      let v = byte e.value 0 + byte e.value 1 * 2 ^ 8 in
      if e.kind != type_byte u16 || e.value_len != 2
      then out_of_range ctx
      else record ctx { settings = save_strip_chain_size v ctx.settings }

  -- The keys common to both roles; an unknown key is passed over.
  unfoldable pub apply_common : Bytes → TlvEntry → ApplyCtx → ApplyCtx
  apply_common key e ctx =
      if same_bytes key key_pair_win_s
      then apply_u8 save_pair_win_s e ctx
      else if same_bytes key key_friendly_name
      then apply_friendly_name e ctx
      else ctx

  unfoldable pub apply_director : Bytes → TlvEntry → ApplyCtx → ApplyCtx
  apply_director key e ctx =
      if same_bytes key key_dir_sid_perf
      then apply_dir_sid_perf e ctx
      else if same_bytes key key_retx_count
      then apply_u8 save_retx_count e ctx
      else apply_common key e ctx

  unfoldable pub apply_lume : Bytes → TlvEntry → ApplyCtx → ApplyCtx
  apply_lume key e ctx =
      if same_bytes key key_group
      then apply_u8 save_lume_group e ctx
      else if same_bytes key key_led_power
      then apply_u8 save_strip_brightness e ctx
      else if same_bytes key key_channel_pref
      then apply_u8 save_lume_channel e ctx
      else if same_bytes key key_strip_chain
      then apply_strip_chain e ctx
      else if same_bytes key key_strip_group_size
      then apply_u8 save_strip_group_size e ctx
      else apply_common key e ctx

  unfoldable pub apply_config_entry : TlvEntry → ApplyCtx → Bool × ApplyCtx
  apply_config_entry e ctx =
      let key = c_string (take (if ltb e.key_len 31 then e.key_len else 31) e.key) in
      (true, elim ctx.role [ director ↦ apply_director key e ctx | lume ↦ apply_lume key e ctx ])
