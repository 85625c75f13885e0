-- ===== src/Repeater/Probing.antt =====
-- modes/repeater_mode.cpp: a scan that hears nothing comes to every channel.
use nocturnation_stickc.Repeater.Scanning.{IsFleetChannel}
use nocturnation_stickc.Repeater.Contract.{run, ticked}
use nocturnation_stickc.Repeater.{
  flush_relay, poll_button, emit_census, service_scan, scan_channel, census_frame, start_radio,
  loop_tick,
}
use nocturnation_stickc.Prelude.{
  leb, if◌then◌else◌, Option-cases, elapsed, ℕ, suc, ◌+◌, ◌%◌, ◌<◌, ◌≡◌, ◌≢◌, ◌⊎◌, inl, inr, true,
  false, none, some, List, [], ◌∷◌, arith, Bool-cases, take, All, ◌≤◌, refl, sym, ap, ◌∙◌, map,
  ◌==◌, ==_iff, ◌-◌,
}
use nocturnation_stickc.Repeater.Types.{RepeaterMode, Radio, TickInput, scan_dwell_ms}

-- Auto and not locked, with the cursor on a candidate.
pub record IsScanning (s : RepeaterMode) : Type 0 where
  pub auto : s.channel_setting ≡ 0
  pub unlocked : s.locked ≡ false
  pub cursor_range : s.scan_idx < 3

-- A tick with a radio and no click.
abbrev pub IsCalm : TickInput → Type 0
IsCalm input = (input.was_clicked ≡ false) × (input.radio ≢ none)

-- How many dwells of 700 ms end among the ticks, the first having begun at `since`.
abbrev pub dwells : ℕ → List TickInput → ℕ
dwells since [] = 0
dwells since (input ∷ inputs) =
    if leb scan_dwell_ms (elapsed input.now_ms since)
    then suc (dwells input.now_ms inputs)
    else dwells since inputs

-- One scan step: the dwell goes on, or the next channel is probed.
record ProbeStep (input : TickInput) (s s' : RepeaterMode) : Type 0 where
  still : IsScanning s'
  probe :
      ((leb scan_dwell_ms (elapsed input.now_ms s.scan_probe_started_ms) ≡ false)
        × ((s'.scan_idx ≡ s.scan_idx) × (s'.scan_probe_started_ms ≡ s.scan_probe_started_ms)))
      ⊎ ((leb scan_dwell_ms (elapsed input.now_ms s.scan_probe_started_ms) ≡ true)
          × ((s'.scan_idx ≡ (s.scan_idx + 1) % 3)
              × ((s'.scan_probe_started_ms ≡ input.now_ms)
                  × (s'.active_channel ≡ scan_channel s'.scan_idx))))

-- What the other parts of a tick keep.
record KeepsScan (s s' : RepeaterMode) : Type 0 where
  setting_kept : s'.channel_setting ≡ s.channel_setting
  locked_kept : s'.locked ≡ s.locked
  idx_kept : s'.scan_idx ≡ s.scan_idx
  started_kept : s'.scan_probe_started_ms ≡ s.scan_probe_started_ms
  active_kept : s'.active_channel ≡ s.active_channel

flush-KeepsScan :
    (radio : Radio) (now : ℕ) (s : RepeaterMode) → KeepsScan s (flush_relay radio now s).0
unfolding flush_relay
flush-KeepsScan radio now s = ground arith

button-KeepsScan :
    (input : TickInput) (s : RepeaterMode)
    → input.was_clicked ≡ false
    → KeepsScan s (poll_button input s).0
unfolding poll_button
button-KeepsScan input s h = ground arith

census-KeepsScan :
    (radio : Radio) (now : ℕ) (s : RepeaterMode) → KeepsScan s (emit_census radio now s).0
unfolding emit_census census_frame
census-KeepsScan none now s = ground arith
census-KeepsScan (some radio) now s = ground arith

scan_step :
    (input : TickInput) (s : RepeaterMode)
    → IsScanning s
    → input.radio ≢ none
    → ProbeStep input s (service_scan input.radio input.now_ms s).0
unfolding service_scan start_radio
scan_step input s h on = elim (Option-cases input.radio) [
  | inl off ↦ absurd (on off)
  | inr (radio, up) ↦
      elim (Bool-cases (leb scan_dwell_ms (elapsed input.now_ms s.scan_probe_started_ms))) [
        | inl over ↦
            rw (up, h.auto, h.unlocked, over)
              (record {
                still = record { auto = refl; unlocked = refl; cursor_range = omega arith };
                probe = inr (over, (refl, (refl, refl)));
              })
        | inr during ↦
            rw (up, h.auto, h.unlocked, during)
              (record {
                still = record { auto = refl; unlocked = refl; cursor_range = h.cursor_range };
                probe = inl (during, (refl, refl));
              })
      ]
]

tick_step :
    (input : TickInput) (s : RepeaterMode)
    → IsScanning s
    → IsCalm input
    → ProbeStep input s (loop_tick input s).0
unfolding loop_tick
tick_step input s h (idle, on) =
    let s1 = (flush_relay input.radio input.now_ms s).0 in
    let s2 = (poll_button input s1).0 in
    let s3 = (service_scan input.radio input.now_ms s2).0 in
    let k1 = flush-KeepsScan input.radio input.now_ms s in
    let k2 = button-KeepsScan input s1 idle in
    let k4 = census-KeepsScan input.radio input.now_ms s3 in
    let h2 : IsScanning s2 = record {
      auto = k2.setting_kept ∙ k1.setting_kept ∙ h.auto;
      unlocked = k2.locked_kept ∙ k1.locked_kept ∙ h.unlocked;
      cursor_range = omega (arith, k2.idx_kept, k1.idx_kept, h.cursor_range);
    } in
    let p = scan_step input s2 h2 on in
    let began : s2.scan_probe_started_ms ≡ s.scan_probe_started_ms =
      k2.started_kept ∙ k1.started_kept in
    let at : s2.scan_idx ≡ s.scan_idx = k2.idx_kept ∙ k1.idx_kept in
    record {
      still = record {
        auto = k4.setting_kept ∙ p.still.auto;
        unlocked = k4.locked_kept ∙ p.still.unlocked;
        cursor_range = omega (arith, k4.idx_kept, p.still.cursor_range);
      };
      probe = elim p.probe [
        | inl (during, (same, since)) ↦ inl (
          ap (λ t. leb scan_dwell_ms (elapsed input.now_ms t)) (sym began) ∙ during,
          (k4.idx_kept ∙ same ∙ at, k4.started_kept ∙ since ∙ began),
        )
        | inr (over, (next, (since, on_air))) ↦ inr (
          ap (λ t. leb scan_dwell_ms (elapsed input.now_ms t)) (sym began) ∙ over,
          (
            k4.idx_kept ∙ next ∙ ap (λ i. (i + 1) % 3) at,
            (k4.started_kept ∙ since, k4.active_kept ∙ on_air ∙ ap scan_channel (sym k4.idx_kept)),
          ),
        )
      ];
    }

during_dwells :
    (input : TickInput) (inputs : List TickInput) (since k : ℕ)
    → leb scan_dwell_ms (elapsed input.now_ms since) ≡ false
    → k ≤ dwells since (input ∷ inputs)
    → k ≤ dwells since inputs
during_dwells input inputs since k d = rw d (λ h. h)

over_dwells :
    (input : TickInput) (inputs : List TickInput) (since k : ℕ)
    → leb scan_dwell_ms (elapsed input.now_ms since) ≡ true
    → k ≤ dwells since (input ∷ inputs)
    → k - 1 ≤ dwells input.now_ms inputs
over_dwells input inputs since k d = rw d (λ h. omega (arith, h))

-- After as many ticks as it takes, `k` dwells are over and the channel is `k` candidates further on.
probed :
    (s : RepeaterMode) (inputs : List TickInput) (k : ℕ)
    → IsScanning s
    → All IsCalm inputs
    → 0 < k
    → k ≤ dwells s.scan_probe_started_ms inputs
    → (n : ℕ) × ((run s (take n (map ticked inputs))).0.active_channel
        ≡ scan_channel ((s.scan_idx + k) % 3))
unfolding run
probed s [] k h calm some_k enough = absurd (omega (arith, some_k, enough))
probed s (input ∷ inputs) k h (calm, calms) some_k enough =
    let s1 = (loop_tick input s).0 in
    let p = tick_step input s h calm in
    elim p.probe [
      | inl (during, (same, since)) ↦
          let fewer : k ≤ dwells s1.scan_probe_started_ms inputs =
            rw since (during_dwells input inputs s.scan_probe_started_ms k during enough) in
          let (n, e) = probed s1 inputs k p.still calms some_k fewer in
          (suc n, e ∙ ap (λ i. scan_channel ((i + k) % 3)) same)
      | inr (over, (next, (since, on_air))) ↦ elim (Bool-cases (k == 1)) [
        | inl one ↦ (
          1,
          on_air
              ∙ ap scan_channel (next ∙ ap (λ j. (s.scan_idx + j) % 3) (sym ((==_iff k 1).0 one))),
        )
        | inr more ↦
            let fewer : k - 1 ≤ dwells s1.scan_probe_started_ms inputs =
              rw since (over_dwells input inputs s.scan_probe_started_ms k over enough) in
            let (n, e) =
              probed s1 inputs (k - 1) p.still calms (ground (arith, more, some_k)) fewer in
            let further : (s1.scan_idx + (k - 1)) % 3 ≡ (s.scan_idx + k) % 3 =
              omega (arith, next, some_k) in
            (suc n, e ∙ ap scan_channel further)
      ]
    ]

-- Where a fleet channel stands among the candidates.
candidate : (c : ℕ) → IsFleetChannel c → (i : ℕ) × (i < 3) × (scan_channel i ≡ c)
candidate c (inl one) = (0, omega arith, sym one)
candidate c (inr (inl six)) = (1, omega arith, sym six)
candidate c (inr (inr eleven)) = (2, omega arith, sym eleven)

-- A scanning repeater that hears nothing, is not clicked and has a radio is on every fleet channel at
-- some time up to the tick that ends the third dwell.
pub scan-reaches :
    (s : RepeaterMode) (inputs : List TickInput) (c : ℕ)
    → IsScanning s
    → All IsCalm inputs
    → 3 ≤ dwells s.scan_probe_started_ms inputs
    → IsFleetChannel c
    → (n : ℕ) × ((run s (take n (map ticked inputs))).0.active_channel ≡ c)
scan-reaches s inputs c h calm enough fleet =
    let (i, range, on) = candidate c fleet in
    let k = (i + 2 - s.scan_idx) % 3 + 1 in
    let at : (s.scan_idx + k) % 3 ≡ i = omega (arith, range, h.cursor_range) in
    let (n, e) = probed s inputs k h calm (omega arith) (omega (arith, enough)) in
    (n, e ∙ ap scan_channel at ∙ on)
