-- ===== src/Frame.antt =====
-- src/transport/espnow/frame.cpp and include/transport/espnow/frame.h: the ESP-NOW frame codec.
-- A buffer is the list of its bytes, so `buf_len` of an encoder is the list's length. An encoder
-- returns what the C++ returns together with the buffer as it leaves it; a decoder takes the memory
-- behind its pointer and the length that it is told, and returns its verdict and the out-parameter.
pub mod Types
pub mod Wire
pub mod Light
pub mod Status
pub mod Display
pub mod Bitmap
pub mod Config
pub mod Bounds
pub mod Families
pub mod Containment
