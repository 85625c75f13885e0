-- ===== src/Tlv.antt =====
-- src/ble/property_bag_tlv.cpp and property_bag_tlv.h: the property-bag codec. A C string is the list
-- of its characters without the NUL; `value` is no null pointer, nor are `buf` and `cb`. The decoder's
-- callback takes the caller's context and returns whether to go on, with the context as it leaves it.
pub mod Reading
use nocturnation_stickc.Frame.Wire.{byte}
use nocturnation_stickc.Prelude.{
  ltb, leb, ◌==◌, if◌then◌else◌, length, set, take, drop, slice, store, ℕ, zero, suc, ◌+◌, ◌/◌, ◌%◌,
  ◌^◌, Bool, true, false, Option, none, some, [], ◌∷◌, ◌++◌,
}
use nocturnation_stickc.Frame.Types.{Bytes}

pub data ValueType : Type 0 where
  u8 u16 u32 bytes utf8 boolean : ValueType

-- static_cast<uint8_t>(type)
abbrev pub type_byte : ValueType → ℕ
type_byte u8 = 0x00
type_byte u16 = 0x01
type_byte u32 = 0x02
type_byte bytes = 0x03
type_byte utf8 = 0x04
type_byte boolean = 0x05

pub data DecodeError : Type 0 where
  ok malformed empty_buffer callback_abort : DecodeError

-- `kind` is the type byte, which the decoder does not check.
pub record TlvEntry : Type 0 where
  pub key : Bytes
  pub key_len : ℕ
  pub kind : ℕ
  pub value : Bytes
  pub value_len : ℕ

-- `buf_` and `buflen_` are one list; `len_` and `count_`.
pub record TlvEncoder : Type 0 where
  pub buf : Bytes
  pub len : ℕ
  pub count : ℕ

-- The constructor.
unfoldable pub tlv_encoder : Bytes → TlvEncoder
tlv_encoder buf =
    if leb 1 (length buf)
    then record { buf = set buf 0 0; len = 1; count = 0 }
    else record { buf = buf; len = 0; count = 0 }

-- The bytes of `src` stored from offset `o` on.
abbrev pub store_at : Bytes → ℕ → Bytes → Bytes
store_at dst o src = take o dst ++ store (drop o dst) src

unfoldable pub write_entry : TlvEncoder → Bytes → ValueType → Bytes → ℕ → TlvEncoder × Bool
write_entry e key kind value value_len =
    let key_len = length key in
    let need = 1 + key_len + 1 + 1 + value_len in
    let entry = key_len ∷ (key ++ (type_byte kind ∷ value_len ∷ take value_len value)) in
    if length e.buf == 0
    then (e, false)
    else if e.count == 0xFF
    then (e, false)
    else if ltb 0xFF key_len
    then (e, false)
    else if key_len == 0
    then (e, false)
    else if ltb (length e.buf) (e.len + need)
    then (e, false)
    else (
      record {
        buf = set (store_at e.buf e.len entry) 0 (e.count + 1);
        len = e.len + need;
        count = e.count + 1;
      },
      true,
    )

unfoldable pub add_u8 : TlvEncoder → Bytes → ℕ → TlvEncoder × Bool
add_u8 e key value = write_entry e key u8 (value ∷ []) 1

unfoldable pub add_u16 : TlvEncoder → Bytes → ℕ → TlvEncoder × Bool
add_u16 e key value = write_entry e key u16 ((value % 2 ^ 8) ∷ (value / 2 ^ 8 % 2 ^ 8) ∷ []) 2

unfoldable pub add_u32 : TlvEncoder → Bytes → ℕ → TlvEncoder × Bool
add_u32 e key value =
    write_entry e key u32
      ((value % 2 ^ 8)
        ∷ (value / 2 ^ 8 % 2 ^ 8)
        ∷ (value / 2 ^ 16 % 2 ^ 8)
        ∷ (value / 2 ^ 24 % 2 ^ 8)
        ∷ [])
      4

unfoldable pub add_bool : TlvEncoder → Bytes → Bool → TlvEncoder × Bool
add_bool e key value = write_entry e key boolean ((if value then 0x01 else 0x00) ∷ []) 1

unfoldable pub add_bytes : TlvEncoder → Bytes → Bytes → ℕ → TlvEncoder × Bool
add_bytes e key value value_len = write_entry e key bytes value value_len

-- The overload for a NUL-terminated value.
unfoldable pub add_utf8 : TlvEncoder → Bytes → Bytes → TlvEncoder × Bool
add_utf8 e key value =
    if ltb 0xFF (length value) then (e, false) else write_entry e key utf8 value (length value)

-- One round of the decoder's loop up to the callback: the entry at `off` and the offset behind it.
unfoldable pub read_entry : Bytes → ℕ → ℕ → Option (TlvEntry × ℕ)
read_entry buf buflen off =
    let key_len = byte buf off in
    let key_off = off + 1 in
    let type_off = key_off + key_len in
    let value_len = byte buf (type_off + 1) in
    let value_off = type_off + 1 + 1 in
    if ltb buflen (off + 1)
    then none
    else if key_len == 0
    then none
    else if ltb buflen (key_off + key_len)
    then none
    else if ltb buflen (type_off + 1)
    then none
    else if ltb buflen (type_off + 1 + 1)
    then none
    else if ltb buflen (value_off + value_len)
    then none
    else some (
      record {
        key = slice buf key_off key_len;
        key_len = key_len;
        kind = byte buf type_off;
        value = slice buf value_off value_len;
        value_len = value_len;
      },
      value_off + value_len,
    )

module _ {S : Type 0} (cb : TlvEntry → S → Bool × S) where
  -- The loop, with the number of entries left.
  unfoldable pub decode_entries : ℕ → Bytes → ℕ → ℕ → S → DecodeError × S
  decode_entries zero buf buflen off ctx = (ok, ctx)
  decode_entries (suc n) buf buflen off ctx = elim (read_entry buf buflen off) [
    | none ↦ (malformed, ctx)
    | some (e, off') ↦
        let (go_on, ctx') = cb e ctx in
        elim go_on [ true ↦ decode_entries n buf buflen off' ctx' | false ↦ (callback_abort, ctx') ]
  ]

  unfoldable pub decode_property_bag : Bytes → ℕ → S → DecodeError × S
  decode_property_bag buf buflen ctx =
      if buflen == 0 then (empty_buffer, ctx) else decode_entries (byte buf 0) buf buflen 1 ctx
