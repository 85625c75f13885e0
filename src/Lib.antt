-- ===== src/Lib.antt =====
-- NocturNation StickC firmware: the ESP-NOW frames that Directors, Repeaters and Lumes exchange,
-- and the state machines that decide which frames and bytes take effect.
--
-- A Director broadcasts frames of a nine-byte header and a payload. A Lume decodes the header,
-- asks its source lock whether the frame is of the Director that it follows, decodes the payload
-- by its type and renders it; a Lume that repeats patches the hop count and relays the frame. A
-- CONFIG_WRITE frame carries a property bag, a numonce, which the replay guard checks, and a
-- truncated HMAC; the Lume that it is for checks these in turn and then walks the bag, which sets
-- its settings. A Director keeps the Lumes that it has paired with in a register of 20 entries. A
-- Director counts the repeaters whose beacons it hears. A DMX bridge finds Enttec Pro frames in a
-- byte stream and maps the channels of a block to pulse and wash events. A headless Repeater
-- relays what it hears as it came, scans the channels for traffic and broadcasts a census of
-- itself.
--
--   Frame, Frame/*   src/transport/espnow/frame.cpp, include/transport/espnow/frame.h
--                    (encode_* and decode_* by their names; Frame.Wire has the byte helpers,
--                    write_header, decode_header and set_hop_count)
--   Tofu             src/transport/espnow/tofu_lock.cpp, include/transport/espnow/tofu_lock.h
--                    (TofuLock::admit, tick, clear)
--   Numonce          src/transport/espnow/numonce_lru.cpp, numonce_lru.h
--                    (NumonceLru::check_and_update, slots_in_use, last_seen_for)
--   DmxParser        src/dal/drivers/dmx_input_parser.cpp, dmx_input_parser.h
--                    (DmxInputParser::feed_byte is feed_byte, its switch feed_in)
--   Tlv              src/ble/property_bag_tlv.cpp, property_bag_tlv.h
--                    (TlvEncoder::write_entry and add_*, decode_property_bag)
--   Hmac             src/crypto/hmac_sha256.cpp (SHA-256, HMAC, hmac_sha256_sign_t8 and _verify_t8)
--   ConfigChannel    src/ble/config_tx.cpp (build_signed_config_write), src/ble/config_rx.cpp
--                    (process_config_write, over Frame, Numonce, Hmac and Tlv)
--   Census           src/dal/drivers/repeater_census.cpp, repeater_census.h
--                    (RepeaterCensus::note, count_online)
--   DmxMapper        src/dal/drivers/dmx_channel_mapper.cpp, dmx_channel_mapper.h
--                    (DmxChannelMapper::process and the methods that it calls)
--   Repeater         src/modes/repeater_mode.cpp, repeater_mode.h (RepeaterMode::on_recv, loop_tick),
--                    and the channel setting of src/modes/persistence.cpp
--   Broadcaster      src/dal/drivers/espnow_broadcast_driver.cpp, espnow_broadcast_driver.h
--                    (EspNowBroadcastDriver: Air and Senders have the sends, Ticks loop_tick,
--                    Startup start_broadcast, stop_broadcast and on_recv)
--   Lume             src/modes/lume_mode.cpp, lume_mode.h (LumeMode::on_recv is receive, with FanOut
--                    for fan_out_*; Ticking has enter, loop_tick and emit_repeat_census) and
--                    src/transport/quality.cpp (SignalQuality, in Quality)
--   PairRegister     src/ble/pair_register.cpp, pair_register.h (PairRegister::add, remove, find,
--                    mark_configured, update_snapshot, list_sorted_by_captured_at)
--   ConfigApply      src/ble/config_apply.cpp, config_apply.h (apply_config_entry) and the setters
--                    of src/modes/persistence.cpp that it calls
--   Prelude          Boolean tests, lists over the native numbers, memcpy
--
-- Numbers are natural numbers; a store into w bits that can wrap is written `% 2 ^ w`, and where
-- the C++ subtracts it checks first. A buffer is the list of its bytes and its length the list's;
-- a pointer with a length is a list and the number that the code is told, and a read outside the
-- list gives 0. An out-parameter is an argument and a component of the result, so what an
-- operation leaves behind on an error path is there to see. An object is a record that a method
-- takes and returns. Loops are recursions on the list or on the number of rounds, so no fuel is
-- needed. What comes from outside is an argument: the radio, which accepts or refuses a frame,
-- the button, the clock and the random numbers; flash is a record of the values last put; the
-- default strip length, which the build sets, is a parameter that is not 0.
--
-- Not modelled: preemption between the WiFi task and the main loop, since a receive callback and
-- a loop tick are one step each; null pointers; the flash image of the pairing register and its
-- nth_sorted; the sending of a signed frame and the wait for its acknowledgement; the labels that
-- format_tofu_lock_label and format_status_label print; the radio, the BLE service, the displays,
-- the other settings in flash and the clocks, which call vendor libraries; the floating-point
-- analyser and shows; the pairing windows, the drawing and the output bindings of a Lume, whose
-- handlers are calls here; and the remaining modes and drivers.
pub mod Broadcaster
pub mod Lume
pub mod Prelude
pub mod Frame
pub mod Tofu
pub mod Tlv
pub mod Census
pub mod ConfigChannel
pub mod Hmac
mod Tests
pub mod Numonce
pub mod DmxParser
pub mod DmxMapper
pub mod Repeater
pub mod PairRegister
pub mod ConfigApply
