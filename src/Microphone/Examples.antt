-- ===== src/Microphone/Examples.antt =====
-- A microphone whose samples are numbers, and whose encoder counts its frames.
use voices.Common.{
  zero, suc, ℕ, ◌+◌, ◌*◌, ◌/◌, ◌≡◌, ◌++◌, refl, true, some, none, List, [], ◌∷◌, arith, ltb,
}
use voices.Microphone.{Receiver, Audio, Input, received, data_callback}
use voices.Microphone.Chunks.{IsChunked}
use voices.Microphone.Denoise.{outcome, with_rest, encode_all, data_callback-plain}
use voices.Microphone.Best.{Range, IsFound, find_best_input, find_best_input-IsFound}

abbrev counting : Audio
counting = record {
  Sample = ℕ;
  Filter = ℕ;
  Resampler = ℕ;
  Encoder = ℕ;
  silence = 0;
  times_32767 = λ s. s * 32767;
  over_32767 = λ s. s / 32767;
  process_frame = λ f frame. (f + 1, frame);
  resample = λ r split. some (r, split.0, split.1);
  encode_float = λ e c. some (e + 1, c);
}

abbrev mic : Input counting
mic = record {
  input_buf = 5 ∷ [];
  work = record { filters = (0, 0); resampler = none; encoder = 0; resampled = []; sent = [] };
  channels = 2;
  sample_rate = 48000;
}

ramp : ℕ → List ℕ
ramp zero = []
ramp (suc n) = n ∷ ramp n

-- More than two periods.
abbrev spoken : List ℕ
spoken = ramp 4000

-- The receiver is gone after the first frame.
abbrev one_frame : Receiver counting
one_frame n = ltb n 1

data_callback-plain_example :
    (r : List (List ℕ) × List ℕ) × IsChunked 1920
      (mic.input_buf ++ received counting mic.channels spoken)
      r
    × (outcome counting (data_callback counting one_frame mic spoken)
        ≡ with_rest counting r.1 (encode_all counting one_frame r.0 mic.work.encoder mic.work.sent))
data_callback-plain_example = data_callback-plain counting one_frame mic spoken refl refl

abbrev ranges : List Range
ranges =
    record { channels = 1; min_sample_rate = 8000; max_sample_rate = 44100; is_f32 = true }
    ∷ record { channels = 2; min_sample_rate = 8000; max_sample_rate = 96000; is_f32 = true }
    ∷ []

find_best_input-IsFound_example : IsFound ranges (find_best_input ranges)
unfolding find_best_input
find_best_input-IsFound_example = find_best_input-IsFound ranges (omega arith)
