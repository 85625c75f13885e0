-- ===== src/Lume/Matching.antt =====
-- src/modes/lume_mode.cpp: each binding that a pulse addresses is told of it once.
use nocturnation_stickc.Frame.Types.{ok}
use nocturnation_stickc.Lume.Blank.{no_light_pulse}
use nocturnation_stickc.Lume.Ticking.{drain_light}
use nocturnation_stickc.Lume.Receive.{render_pulse}
use nocturnation_stickc.Lume.FanOut.{
  fan_from, to_binding, fan_out_light_pulse, fan_out_light_pulse_inline, addressed, in_group,
}
use nocturnation_stickc.Prelude.{
  ◌==◌, if◌then◌else◌, Bool-cases, length, get_or, drop, ℕ, zero, suc, ◌+◌, ◌-◌, ◌<◌, ◌≡◌, refl, ap,
  ap₂, subst, ◌∙◌, inl, inr, Bool, true, false, not, ◌&&◌, List, [], ◌∷◌, ◌++◌, arith, ◌%◌, ◌^◌,
}
use nocturnation_stickc.Frame.Light.{LightPulsePayload, light_pulse_payload_len, decode_light_pulse}
use nocturnation_stickc.Frame.Types.{IsByte, Bytes, Header, same_type, light_pulse, header_size}
use nocturnation_stickc.Lume.Types.{
  fallback_started, fallback_faded, fallback_recovered, Binding, Order, LumeCall, Lume, ordered,
  broadcast, tuned, config_received, do_pulse,
}

-- The orders among the calls that binding `i` gets.
unfoldable pub orders_to : ℕ → List LumeCall → List LumeCall
orders_to i [] = []
orders_to i (ordered j c g order ∷ calls) =
    let rest = orders_to i calls in if j == i then ordered j c g order ∷ rest else rest
orders_to i (fallback_started ∷ calls) = orders_to i calls
orders_to i (fallback_faded ∷ calls) = orders_to i calls
orders_to i (fallback_recovered ∷ calls) = orders_to i calls
orders_to i (broadcast _ ∷ calls) = orders_to i calls
orders_to i (tuned _ ∷ calls) = orders_to i calls
orders_to i (config_received _ ∷ calls) = orders_to i calls

orders_to-append :
    (i : ℕ) (xs ys : List LumeCall) → orders_to i (xs ++ ys) ≡ orders_to i xs ++ orders_to i ys
unfolding orders_to
orders_to-append i [] ys = refl
orders_to-append i (ordered j c g order ∷ xs) ys = elim (Bool-cases (j == i)) [
  | inl e ↦ rw e (ap (◌∷◌ (ordered j c g order)) (orders_to-append i xs ys))
  | inr e ↦ rw e (orders_to-append i xs ys)
]
orders_to-append i (fallback_started ∷ xs) ys = orders_to-append i xs ys
orders_to-append i (fallback_faded ∷ xs) ys = orders_to-append i xs ys
orders_to-append i (fallback_recovered ∷ xs) ys = orders_to-append i xs ys
orders_to-append i (broadcast _ ∷ xs) ys = orders_to-append i xs ys
orders_to-append i (tuned _ ∷ xs) ys = orders_to-append i xs ys
orders_to-append i (config_received _ ∷ xs) ys = orders_to-append i xs ys

-- A binding that stands for one that is not there.
abbrev pub no_binding : Binding
no_binding = record { in_callback = false; device_class = 0; is_relay = false; can_wash = false }

-- What one binding gets of an order.
abbrev pub share : Bool → LumeCall → List LumeCall
share takes call = if takes then call ∷ [] else []

fan_from_before :
    (takes : Binding → Bool) (c g : ℕ) (order : Order) (k i : ℕ) (bs : List Binding)
    → i < k
    → orders_to i (fan_from takes (to_binding c g order) k bs) ≡ []
unfolding fan_from orders_to
fan_from_before takes c g order k i [] h = refl
fan_from_before takes c g order k i (b ∷ bs) h =
    let rest = fan_from_before takes c g order (k + 1) i bs (omega arith) in
    let other : (k == i) ≡ false = ground arith in
    elim (Bool-cases (takes b)) [ inl e ↦ rw (e, other) rest | inr e ↦ rw e rest ]

fan_from-share :
    (takes : Binding → Bool) (c g : ℕ) (order : Order) (k i : ℕ) (bs : List Binding)
    → i < length bs
    → orders_to (k + i) (fan_from takes (to_binding c g order) k bs)
      ≡ share (takes (get_or bs i no_binding)) (to_binding c g order (k + i))
unfolding fan_from orders_to
fan_from-share takes c g order k i [] h = absurd (omega arith)
fan_from-share takes c g order k zero (b ∷ bs) h =
    let rest = fan_from_before takes c g order (k + 1) k bs (omega arith) in
    let same : (k == k) ≡ true = ground arith in
    let at : k + 0 ≡ k = omega arith in
    rw at (elim (Bool-cases (takes b)) [
      | inl e ↦ rw (e, same) (ap (◌∷◌ (to_binding c g order k)) rest)
      | inr e ↦ rw e rest
    ])
fan_from-share takes c g order k (suc i) (b ∷ bs) h =
    let rest = fan_from-share takes c g order (k + 1) i bs (omega arith) in
    let at : k + 1 + i ≡ k + suc i = omega arith in
    let other : (k == k + suc i) ≡ false = ground arith in
    let moved : orders_to (k + suc i) (fan_from takes (to_binding c g order) (k + 1) bs)
        ≡ share (takes (get_or bs i no_binding)) (to_binding c g order (k + suc i)) =
      subst
        (λ j.
          orders_to j (fan_from takes (to_binding c g order) (k + 1) bs)
          ≡ share (takes (get_or bs i no_binding)) (to_binding c g order j))
        at rest in
    elim (Bool-cases (takes b)) [ inl e ↦ rw (e, other) moved | inr e ↦ rw e moved ]

fan_out_share :
    (takes : Binding → Bool) (c g : ℕ) (order : Order) (i : ℕ) (bs : List Binding)
    → i < length bs
    → orders_to i (fan_from takes (to_binding c g order) 0 bs)
      ≡ share (takes (get_or bs i no_binding)) (to_binding c g order i)
fan_out_share takes c g order i bs h =
    let at : 0 + i ≡ i = omega arith in
    subst
      (λ j.
        orders_to j (fan_from takes (to_binding c g order) 0 bs)
        ≡ share (takes (get_or bs i no_binding)) (to_binding c g order j))
      at (fan_from-share takes c g order 0 i bs h)

share_split :
    (now addressed : Bool) (call : LumeCall)
    → share (now && addressed) call ++ share (not now && addressed) call ≡ share addressed call
share_split true true call = refl
share_split true false call = refl
share_split false true call = refl
share_split false false call = refl

-- Of the two parts of a pulse, the one at once and the one of the tick, each binding gets one.
pulse_shared :
    (frame : Bytes) (hdr : Header) (s : Lume) (p : LightPulsePayload) (i : ℕ)
    → same_type hdr.message_type light_pulse ≡ true
    → length frame ≡ header_size + light_pulse_payload_len
    → decode_light_pulse hdr (drop header_size frame) (length frame - header_size) no_light_pulse
      ≡ (ok, p)
    → i < length s.bindings
    → let (s1, at_once) = render_pulse frame hdr s in
      orders_to i (at_once ++ (drain_light s1).1)
      ≡ share
          (addressed p.target_class p.target_group s.group (get_or s.bindings i no_binding))
          (to_binding p.target_class p.target_group (do_pulse p) i)
unfolding render_pulse drain_light fan_out_light_pulse fan_out_light_pulse_inline
pulse_shared frame hdr s p i type size read h =
    let whole : not (
          same_type hdr.message_type light_pulse
          && length frame == header_size + light_pulse_payload_len)
        ≡ false =
      ground (arith, type, size) in
    let b = get_or s.bindings i no_binding in
    let hit = addressed p.target_class p.target_group s.group in
    let call = to_binding p.target_class p.target_group (do_pulse p) in
    let c = p.target_class in
    let g = p.target_group in
    rw (whole, read)
      (orders_to-append i (fan_from (λ b. b.in_callback && hit b) call 0 s.bindings)
          (fan_from (λ b. not b.in_callback && hit b) call 0 s.bindings)
        ∙ ap₂ ◌++◌ (fan_out_share (λ b. b.in_callback && hit b) c g (do_pulse p) i s.bindings h)
            (fan_out_share (λ b. not b.in_callback && hit b) c g (do_pulse p) i s.bindings h)
        ∙ share_split b.in_callback (hit b) (call i))

-- The group under which a binding is told: a relay, which hears of every group, gets the low byte.
unfoldable pub told_group : Binding → ℕ → ℕ
told_group b target_group = if b.is_relay then target_group % 2 ^ 8 else target_group

share-told :
    (target_class target_group group : ℕ) (order : Order) (b : Binding) (i : ℕ)
    → IsByte group
    → share
        (addressed target_class target_group group b)
        (to_binding target_class target_group order i)
      ≡ share
          (addressed target_class target_group group b)
          (ordered i target_class (told_group b target_group) order)
unfolding addressed told_group
share-told target_class target_group group order b i w = elim (Bool-cases b.is_relay) [
  | inl relay ↦ rw relay refl
  | inr filtered ↦ elim (Bool-cases (in_group target_group group)) [
    | inl hit ↦
        let fits : target_group % 2 ^ 8 ≡ target_group = ground (arith, hit, w) in
        rw (filtered, fits) refl
    | inr miss ↦ rw (filtered, miss) (ground arith)
  ]
]

-- A pulse that is received and drained by the next tick, with no other pulse in between, reaches each active
-- binding that it addresses exactly once, at once or with the tick, and no other binding. The binding is
-- told the class and the payload as they were sent, and the group as well, if it is no relay. A relay is
-- not filtered by group and is told the low byte of the group, so a group of 256 or more reaches it as
-- another one: 0x0100 as 0, which is every group.
pub pulse_once :
    (frame : Bytes) (hdr : Header) (s : Lume) (p : LightPulsePayload) (i : ℕ)
    → same_type hdr.message_type light_pulse ≡ true
    → length frame ≡ header_size + light_pulse_payload_len
    → decode_light_pulse hdr (drop header_size frame) (length frame - header_size) no_light_pulse
      ≡ (ok, p)
    → i < length s.bindings
    → IsByte s.group
    → let (s1, at_once) = render_pulse frame hdr s in
      let b = get_or s.bindings i no_binding in
      orders_to i (at_once ++ (drain_light s1).1)
      ≡ share
          (addressed p.target_class p.target_group s.group b)
          (ordered i p.target_class (told_group b p.target_group) (do_pulse p))
pulse_once frame hdr s p i type size read h w =
    pulse_shared frame hdr s p i type size read h
    ∙ share-told p.target_class p.target_group s.group (do_pulse p) (get_or s.bindings i no_binding)
        i w
