-- ===== src/ConfigApply/Walks.antt =====
-- ble/config_apply.cpp under the walk of ble/property_bag_tlv.cpp and the receiver of
-- ble/config_rx.cpp.
use nocturnation_stickc.Hmac.{hmac_sha256_verify_t8}
use nocturnation_stickc.ConfigApply.Ranges.{
  IsInRange, IsProper, apply_config_entry-IsProper, OthersKept-refl,
}
use nocturnation_stickc.ConfigApply.{ApplyCtx, apply_config_entry}
use nocturnation_stickc.Frame.Wire.{byte, decode_header}
use nocturnation_stickc.ConfigChannel.{
  apply_bag, counting_cb, ConfigRxDetail, walk_ok, process_config_write, empty_header,
  empty_config_write, read_u64_le, decode_ok,
}
use nocturnation_stickc.Prelude.{
  ◌==◌, Bool-cases, Option-cases, ℕ, zero, suc, inl, inr, Bool, ltb, ◌!=◌, if◌then◌else◌, length,
  take, drop, ◌-◌, ◌≤◌, refl, true, false, not,
}
use nocturnation_stickc.Frame.Types.{Bytes, header_size, same_type, config_write}
use nocturnation_stickc.Frame.Config.{
  ConfigWritePayload, decode_config_write, config_write_hmac_len,
}
use nocturnation_stickc.Tlv.{TlvEntry, decode_entries, decode_property_bag, read_entry}
use nocturnation_stickc.Numonce.{NumonceLru, check_and_update}

module _ {S : Type 0} (cb : TlvEntry → S → Bool × S) (P : S → Type 0)
    (step : (e : TlvEntry) (s : S) → P s → P (cb e s).1) where
  -- What the callback keeps, the walk keeps.
  decode_entries_kept :
      (n : ℕ) (buf : Bytes) (buflen off : ℕ) (s : S)
      → P s
      → P (decode_entries cb n buf buflen off s).1
  unfolding decode_entries
  decode_entries_kept zero buf buflen off s p = p
  decode_entries_kept (suc n) buf buflen off s p = elim (Option-cases (read_entry buf buflen off)) [
    | inl bad ↦ rw (decode_entries, bad) p
    | inr ((e, off'), good) ↦ elim (Bool-cases (cb e s).0) [
      | inl go_on ↦
          rw (decode_entries, good, go_on)
            (decode_entries_kept n buf buflen off' (cb e s).1 (step e s p))
      | inr abort ↦ rw (decode_entries, good, abort) (step e s p)
    ]
  ]

  decode_property_bag_kept :
      (buf : Bytes) (buflen : ℕ) (s : S) → P s → P (decode_property_bag cb buf buflen s).1
  unfolding decode_property_bag
  decode_property_bag_kept buf buflen s p = elim (Bool-cases (buflen == 0)) [
    | inl empty ↦ rw empty p
    | inr some_bytes ↦ rw some_bytes (decode_entries_kept (byte buf 0) buf buflen 1 s p)
  ]

module _ {S : Type 0} (apply_fn : TlvEntry → S → Bool × S) (P : S → Type 0)
    (step : (e : TlvEntry) (s : S) → P s → P (apply_fn e s).1) where
  -- One outcome or the other.
  either :
      (b : Bool) (r1 r2 : ConfigRxDetail × NumonceLru × S)
      → P r1.2
      → P r2.2
      → P (if b then r1 else r2).2
  either true r1 r2 p1 p2 = p1
  either false r1 r2 p1 p2 = p2

  apply_bag_kept :
      (numonces : NumonceLru) (incoming : ℕ) (cw : ConfigWritePayload) (ctx : S)
      → P ctx
      → P (apply_bag apply_fn numonces incoming cw ctx).2
  unfolding apply_bag
  apply_bag_kept numonces incoming cw ctx p =
      let walk = decode_property_bag (counting_cb apply_fn) cw.bag_tlv cw.bag_len (ctx, 0) in
      let kept : P walk.1.0 =
        decode_property_bag_kept (counting_cb apply_fn) (λ s. P s.0) (λ e s q. step e s.0 q)
          cw.bag_tlv cw.bag_len (ctx, 0) p in
      either (not (walk_ok walk.0)) _ _ kept kept

  process_kept :
      (frame : Bytes) (self_uid : ℕ) (secret : Bytes) (numonces : NumonceLru) (ctx : S)
      → P ctx
      → P (process_config_write apply_fn frame self_uid secret numonces ctx).2
  unfolding process_config_write
  process_kept frame self_uid secret numonces ctx p =
      let head = decode_header frame (length frame) empty_header in
      let body =
        decode_config_write head.1 (drop header_size frame) head.1.payload_len empty_config_write in
      let n = read_u64_le body.1.numonce in
      let checked = check_and_update numonces head.1.source_id n in
      let signed_len = length frame - config_write_hmac_len in
      either (not (decode_ok head.0)) _ _ p (
        either (not (same_type head.1.message_type config_write)) _ _ p (
          either (not (decode_ok body.0)) _ _ p (
            either (body.1.target_uid != self_uid) _ _ p (
              either (not checked.1) _ _ p (
                either (ltb (length frame) config_write_hmac_len) _ _ p (
                  either (not (hmac_sha256_verify_t8 secret (take signed_len frame) body.1.hmac)) _
                    _ p (apply_bag_kept checked.0 n body.1 ctx p)))))))

-- Whatever bytes arrive as a CONFIG_WRITE, and whether they are accepted or not, the settings that were in range
-- stay in range, the role stays, a Lume keeps the settings of a Director and a Director those of a Lume,
-- if the build's default strip length is not 0.
pub config_write-IsProper :
    (default_chain : ℕ) (frame : Bytes) (self_uid : ℕ) (secret : Bytes) (numonces : NumonceLru)
    (ctx : ApplyCtx)
    → 1 ≤ default_chain
    → IsInRange ctx.settings
    → IsProper ctx.role ctx.settings
        (process_config_write
          (apply_config_entry default_chain)
          frame
          self_uid
          secret
          numonces
          ctx).2
config_write-IsProper default_chain frame self_uid secret numonces ctx some_default h =
    process_kept (apply_config_entry default_chain) (IsProper ctx.role ctx.settings)
      (λ e s p. apply_config_entry-IsProper default_chain ctx.role ctx.settings e s some_default p)
      frame self_uid secret numonces ctx
      (record {
        same_role = refl;
        in_range = h;
        others_kept = OthersKept-refl ctx.role ctx.settings;
      })
