-- ===== src/Census.antt =====
-- src/dal/drivers/repeater_census.cpp and repeater_census.h: the Director's tally of the repeaters it
-- hears. `uid[3]` is three fields; time is a 32-bit count of milliseconds that wraps.
pub mod Distinct
use mathlib.Core.Option
use nocturnation_stickc.Prelude.{
  leb, ◌==◌, if◌then◌else◌, get_or, set, replicate, ℕ, suc, ◌+◌, ◌-◌, ◌%◌, ◌^◌, Bool, true, false,
  ◌&&◌, Option, none, some, List, [], ◌∷◌,
}

pub record Entry : Type 0 where
  pub uid0 : ℕ
  pub uid1 : ℕ
  pub uid2 : ℕ
  pub channel : ℕ
  pub relayed : ℕ
  pub uptime_s : ℕ
  pub last_seen_ms : ℕ
  pub used : Bool

-- The in-class initialisers.
abbrev pub unused_entry : Entry
unused_entry = record {
  uid0 = 0;
  uid1 = 0;
  uid2 = 0;
  channel = 0;
  relayed = 0;
  uptime_s = 0;
  last_seen_ms = 0;
  used = false;
}

abbrev pub max_repeaters : ℕ
max_repeaters = 16

abbrev pub online_window_ms : ℕ
online_window_ms = 5000

abbrev pub no_repeaters : List Entry
no_repeaters = replicate max_repeaters unused_entry

-- uid_eq on the uids of two entries.
abbrev pub uid_eq : Entry → Entry → Bool
uid_eq a b = a.uid0 == b.uid0 && a.uid1 == b.uid1 && a.uid2 == b.uid2

-- The first loop: the index of the entry in use that has the beacon's uid.
unfoldable pub known_at : Entry → List Entry → Option ℕ
known_at beacon [] = none
known_at beacon (e ∷ es) =
    let rest = Option.map suc (known_at beacon es) in
    if e.used && uid_eq e beacon then some 0 else rest

-- now_ms - last_seen_ms on uint32_t.
abbrev pub age_ms : ℕ → ℕ → ℕ
age_ms now_ms last_seen_ms = (now_ms + 2 ^ 32 - last_seen_ms) % 2 ^ 32

-- The second loop, from index `i` on, with `oldest` and `victim` so far.
unfoldable pub victim_from : ℕ → ℕ → ℕ → ℕ → List Entry → ℕ
victim_from now_ms i oldest victim [] = victim
victim_from now_ms i oldest victim (e ∷ es) =
    let age = age_ms now_ms e.last_seen_ms in
    let older = leb oldest age in
    let rest =
      victim_from now_ms (i + 1) (if older then age else oldest) (if older then i else victim) es in
    if e.used then rest else i

-- `beacon` holds the arguments. A known entry keeps its uid, which is the beacon's.
unfoldable pub note : List Entry → Entry → List Entry
note entries beacon = elim (known_at beacon entries) [
  | some i ↦ set entries i (record (get_or entries i unused_entry) {
    channel = beacon.channel;
    relayed = beacon.relayed;
    uptime_s = beacon.uptime_s;
    last_seen_ms = beacon.last_seen_ms;
  })
  | none ↦
      set entries (victim_from beacon.last_seen_ms 0 0 0 entries) (record beacon { used = true })
]

unfoldable pub count_online : List Entry → ℕ → ℕ
count_online [] now_ms = 0
count_online (e ∷ es) now_ms =
    (if e.used && leb (age_ms now_ms e.last_seen_ms) online_window_ms then 1 else 0)
    + count_online es now_ms
