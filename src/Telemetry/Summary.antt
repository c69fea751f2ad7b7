-- ===== src/Telemetry/Summary.antt =====
-- `Qos::summary` of core/src/telemetry.rs. The arithmetic of floats is a parameter, on bit patterns.
use strym_core.Common.{
  ℕ, ◌-◌, Bool, Option, none, some, List, [], ◌∷◌, if◌then◌else◌, ltb, length, add_u32,
}
use strym_core.Common.Int.{ℤ, pos, max_ℤ}
use strym_core.Telemetry.Collector.{Text, QosSample, Qos, samples}

pub record QosSummary : Type 0 where
  pub samples : ℕ
  pub span_secs : ℕ
  pub avg_bitrate_out_bps : ℕ
  pub peak_bitrate_out_bps : ℕ
  pub avg_throughput_bps : ℕ
  pub peak_throughput_bps : ℕ
  pub avg_buffer_ms : ℕ
  pub max_buffer_ms : ℤ
  pub drop_ratio : ℕ
  pub avg_rtt_ms : Option ℕ
  pub max_rtt_ms : Option ℕ
  pub reconnects : ℕ
  pub reconnect_attempts : ℕ
  pub pushed : ℕ
  pub muxed : ℕ
  pub dropped : ℕ
  pub last_error : Option Text

-- `f64` of the language, by bit patterns.
pub record F64 : Type 0 where
  pub of_unsigned : ℕ → ℕ
  pub of_signed : ℤ → ℕ
  pub add : ℕ → ℕ → ℕ
  pub div : ℕ → ℕ → ℕ
  pub max : ℕ → ℕ → ℕ
  pub gt : ℕ → ℕ → Bool

-- The running values of the loop; 0 is the pattern of 0.0.
pub record Totals : Type 0 where
  pub bitrate : ℕ
  pub peak_bitrate : ℕ
  pub throughput : ℕ
  pub peak_throughput : ℕ
  pub buffer : ℕ
  pub max_buffer : ℤ
  pub rtt_sum : ℕ
  pub rtt_count : ℕ
  pub max_rtt : ℕ

abbrev pub no_totals : Totals
no_totals = record {
  bitrate = 0;
  peak_bitrate = 0;
  throughput = 0;
  peak_throughput = 0;
  buffer = 0;
  max_buffer = pos 0;
  rtt_sum = 0;
  rtt_count = 0;
  max_rtt = 0;
}

unfoldable pub last_sample : List QosSample → Option QosSample
last_sample [] = none
last_sample (s ∷ []) = some s
last_sample (s ∷ t ∷ rest) = last_sample (t ∷ rest)

abbrev pub map_or {ℓ} : {A : Type ℓ} → Option QosSample → A → (QosSample → A) → A
map_or none d f = d
map_or (some s) d f = f s

module _ (f64 : F64) where
  unfoldable pub add_rtt : Option ℕ → Totals → Totals
  add_rtt none t = t
  add_rtt (some rtt) t = record t {
    rtt_sum = f64.add t.rtt_sum rtt;
    rtt_count = add_u32 t.rtt_count 1;
    max_rtt = f64.max t.max_rtt rtt;
  }

  unfoldable pub add_sample : QosSample → Totals → Totals
  add_sample s t = add_rtt s.rtt_ms (record t {
    bitrate = f64.add t.bitrate s.bitrate_out_bps;
    peak_bitrate = f64.max t.peak_bitrate s.bitrate_out_bps;
    throughput = f64.add t.throughput s.throughput_bps;
    peak_throughput = f64.max t.peak_throughput s.throughput_bps;
    buffer = f64.add t.buffer (f64.of_signed s.buffer_ms);
    max_buffer = max_ℤ t.max_buffer s.buffer_ms;
  })

  unfoldable pub totals : List QosSample → Totals → Totals
  totals [] t = t
  totals (s ∷ rest) t = totals rest (add_sample s t)

  unfoldable pub mean : ℕ → ℕ → ℕ
  mean count total = if f64.gt count 0 then f64.div total count else 0

  -- `saturating_sub` of the uptimes of the last_sample and the first sample.
  unfoldable pub span_secs : List QosSample → ℕ
  span_secs [] = 0
  span_secs (s ∷ []) = 0
  span_secs (s ∷ t ∷ rest) =
      f64.div (f64.of_unsigned (map_or (last_sample (t ∷ rest)) 0 (λ l. l.uptime_ms - s.uptime_ms)))
        (f64.of_unsigned 1000)

  unfoldable pub summary_of : List QosSample → Qos → QosSummary
  summary_of ss q =
      let t = totals ss no_totals in
      let count = f64.of_unsigned (length ss) in
      let some_rtt = ltb 0 t.rtt_count in
      record {
        samples = length ss;
        span_secs = span_secs ss;
        avg_bitrate_out_bps = mean count t.bitrate;
        peak_bitrate_out_bps = t.peak_bitrate;
        avg_throughput_bps = mean count t.throughput;
        peak_throughput_bps = t.peak_throughput;
        avg_buffer_ms = mean count t.buffer;
        max_buffer_ms = t.max_buffer;
        drop_ratio = map_or (last_sample ss) 0 (λ s. s.drop_ratio);
        avg_rtt_ms =
            if some_rtt then some (f64.div t.rtt_sum (f64.of_unsigned t.rtt_count)) else none;
        max_rtt_ms = if some_rtt then some t.max_rtt else none;
        reconnects = q.reconnects;
        reconnect_attempts = q.reconnect_attempts;
        pushed = map_or (last_sample ss) 0 (λ s. s.pushed);
        muxed = map_or (last_sample ss) 0 (λ s. s.muxed);
        dropped = map_or (last_sample ss) 0 (λ s. s.dropped);
        last_error = q.last_error;
      }

  unfoldable pub summary : Qos → Option QosSummary
  summary q = elim (samples q) [ none ↦ none | some ss ↦ some (summary_of ss q) ]
