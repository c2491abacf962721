-- ===== src/Microphone.antt =====
-- client/src/mic.rs: what a client makes of the samples of its microphone. Samples and what the
-- libraries do with them are parameters; `none` is a panic.
pub mod Best
pub mod Chunks
pub mod Weave
pub mod Denoise
mod Examples
use voices.Common.{
  ℕ, zero, suc, ◌+◌, ◌*◌, ◌/◌, Bool, true, false, Option, none, some, List, [], ◌∷◌, ◌++◌, map,
  length, ltb, ◌==◌, if◌then◌else◌,
}

-- The samples, the noise filter of one channel, the resampler of two, and the encoder, each with its
-- state. A frame of the filter has 480 samples.
pub record Audio : Type 1 where
  pub Sample : Type 0
  pub Filter : Type 0
  pub Resampler : Type 0
  pub Encoder : Type 0
  pub silence : Sample
  pub times_32767 : Sample → Sample
  pub over_32767 : Sample → Sample
  pub process_frame : Filter → List Sample → Filter × List Sample
  pub resample :
      Resampler → List Sample × List Sample → Option (Resampler × List Sample × List Sample)
  pub encode_float : Encoder → List Sample → Option (Encoder × List ℕ)

module _ {A : Type 0} where
  abbrev pub take : ℕ → List A → List A
  take zero xs = []
  take (suc n) [] = []
  take (suc n) (x ∷ xs) = x ∷ take n xs

  abbrev pub drop : ℕ → List A → List A
  drop zero xs = xs
  drop (suc n) [] = []
  drop (suc n) (x ∷ xs) = drop n xs

  abbrev pub concat : List (List A) → List A
  concat [] = []
  concat (xs ∷ xss) = xs ++ concat xss

  abbrev pub chunk_first : ℕ → List A → List (List A) × List A → List (List A) × List A
  chunk_first size xs (chunks, rest) = (take size xs ∷ chunks, rest)

  -- `chunks_exact` and its remainder, with fuel.
  unfoldable pub chunks_exact : ℕ → ℕ → List A → List (List A) × List A
  chunks_exact zero size xs = ([], xs)
  chunks_exact (suc fuel) size xs =
      let rest = chunks_exact fuel size (drop size xs) in
      if ltb (length xs) size then ([], xs) else chunk_first size xs rest

  -- An index out of bounds is a panic.
  abbrev pub put_pair : A → A → Option (List A) → Option (List A)
  put_pair a b none = none
  put_pair a b (some out) = some (a ∷ b ∷ out)

  unfoldable pub weave : List A → List A → List A → Option (List A)
  weave [] r out = some out
  weave (a ∷ l) [] out = none
  weave (a ∷ l) (b ∷ r) [] = none
  weave (a ∷ l) (b ∷ r) (x ∷ []) = none
  weave (a ∷ l) (b ∷ r) (x ∷ y ∷ out) = put_pair a b (weave l r out)

  -- `interleave` of two inputs into `out`
  unfoldable pub interleave : List A → List A → List A → Option (List A)
  unfolding weave
  interleave l r out = if length l + length r == length out then weave l r out else none

  abbrev pub put_each : A → A → Option (List A × List A) → Option (List A × List A)
  put_each a b none = none
  put_each a b (some (l, r)) = some (a ∷ l, b ∷ r)

  unfoldable pub unweave : List A → List A → List A → Option (List A × List A)
  unweave input [] r = some ([], r)
  unweave input (x ∷ l) [] = none
  unweave [] (x ∷ l) (y ∷ r) = none
  unweave (a ∷ []) (x ∷ l) (y ∷ r) = none
  unweave (a ∷ b ∷ input) (x ∷ l) (y ∷ r) = put_each a b (unweave input l r)

  -- `deinterleave` of an input into two buffers
  unfoldable pub deinterleave : List A → List A → List A → Option (List A × List A)
  unfolding unweave
  deinterleave input l r = if length input == length l + length r then unweave input l r else none

  -- A microphone with one channel gives each sample twice.
  unfoldable pub twice : List A → List A
  twice [] = []
  twice (x ∷ xs) = x ∷ x ∷ twice xs

-- `samples_per_period`
abbrev pub samples_per_period : ℕ → ℕ
samples_per_period sample_rate = (2 * sample_rate) / 50

module _ (audio : Audio) where
  open audio use {
    Sample, Filter, Resampler, Encoder, silence, times_32767, over_32767, process_frame, resample,
    encode_float,
  }

  abbrev pub Filters : Type 0
  Filters = Filter × Filter

  -- A chunk after the filters, or after the resampler and the filters.
  abbrev pub Denoised : Type 0
  Denoised = Option (Filters × List Sample)

  abbrev pub silent : ℕ → List Sample
  silent zero = []
  silent (suc n) = silence ∷ silent n

  abbrev pub before_chunk : List Sample → Denoised → Denoised
  before_chunk c none = none
  before_chunk c (some (fs, cs)) = some (fs, c ++ cs)

  -- What the filters make of a frame, for the left and the right.
  abbrev pub process_frames :
      Filters → List Sample → List Sample → Filters × List Sample × List Sample
  process_frames (fl, fr) l r =
      let (fl', l') = process_frame fl l in
      let (fr', r') = process_frame fr r in ((fl', fr'), l', r')

  abbrev pub put_back : List Sample → Option (List Sample × List Sample) → Option (List Sample)
  put_back c none = none
  put_back c (some (l, r)) = interleave l r c

  abbrev pub put_first : Option (List Sample) → Denoised → Denoised
  put_first none rest = none
  put_first (some c) rest = before_chunk c rest

  abbrev pub filtered : Filters → Option (List Sample × List Sample) → Filters
  filtered fs none = fs
  filtered fs (some (l, r)) = (process_frames fs l r).0

  -- The branch of `data_callback` without a resampler. What the filters give is not put back.
  unfoldable pub denoise : Filters → List (List Sample) → List Sample → Denoised
  denoise fs [] rest = some (fs, rest)
  denoise fs (c ∷ cs) rest =
      let split = deinterleave c (silent 480) (silent 480) in
      put_first (put_back c split) (denoise (filtered fs split) cs rest)

  -- The branch with a resampler, on its output in frames and the frames of `resampled`. The zip stops
  -- where one of the three ends.
  unfoldable pub denoise_resampled :
      Filters
      → List (List Sample)
      → List (List Sample)
      → List (List Sample)
      → List Sample
      → Denoised
  denoise_resampled fs [] rs outs rest = some (fs, concat outs ++ rest)
  denoise_resampled fs (l ∷ ls) [] outs rest = some (fs, concat outs ++ rest)
  denoise_resampled fs (l ∷ ls) (r ∷ rs) [] rest = some (fs, rest)
  denoise_resampled fs (l ∷ ls) (r ∷ rs) (out ∷ outs) rest =
      let (fs', l', r') = process_frames fs l r in
      put_first (interleave l' r' out) (denoise_resampled fs' ls rs outs rest)

  -- `resize`
  abbrev pub resize : ℕ → List Sample → List Sample
  resize zero xs = []
  resize (suc n) [] = silence ∷ resize n []
  resize (suc n) (x ∷ xs) = x ∷ resize n xs

  abbrev pub frames_of : ℕ → List Sample → List (List Sample) × List Sample
  frames_of size xs = chunks_exact (length xs) size xs

  -- What changes from chunk to chunk.
  pub record Work : Type 0 where
    pub filters : Filters
    pub resampler : Option Resampler
    pub encoder : Encoder
    pub resampled : List Sample
    pub sent : List (List ℕ)

  abbrev pub with_chunk : Work → Option Resampler → Denoised → Option (Work × List Sample)
  with_chunk w r none = none
  with_chunk w r (some (fs, c)) = some (record w { filters = fs; resampler = r }, c)

  abbrev pub keep_resampled : Option (Work × List Sample) → Option (Work × List Sample)
  keep_resampled none = none
  keep_resampled (some (w, c)) = some (record w { resampled = c }, c)

  abbrev pub on_resampled :
      Work → Option (Resampler × List Sample × List Sample) → Option (Work × List Sample)
  on_resampled w none = none
  on_resampled w (some (r, l, right)) =
      let (outs, rest) = frames_of 960 (resize (2 * length l) w.resampled) in
      keep_resampled (
        with_chunk w (some r)
          (denoise_resampled w.filters (frames_of 480 l).0 (frames_of 480 right).0 outs rest))

  abbrev pub resample_split :
      Resampler → Work → Option (List Sample × List Sample) → Option (Work × List Sample)
  resample_split r w none = none
  resample_split r w (some split) = on_resampled w (resample r split)

  -- A chunk up to its encoding; the buffers of the resampler hold a fiftieth of a second.
  abbrev pub clean : ℕ → Work → Option Resampler → List Sample → Option (Work × List Sample)
  clean rate w none c =
      let (cs, rest) = frames_of 960 c in with_chunk w none (denoise w.filters cs rest)
  clean rate w (some r) c =
      resample_split r w (deinterleave c (silent (rate / 50)) (silent (rate / 50)))

  -- Whether the receiver of the frames is still there when so many frames were sent.
  abbrev pub Receiver : Type 0
  Receiver = ℕ → Bool

  -- `self.tx.send`, which is expected to succeed.
  abbrev pub add_frame : Receiver → Work → Option (Encoder × List ℕ) → Option Work
  add_frame alive w none = none
  add_frame alive w (some (e, frame)) =
      if alive (length w.sent)
      then some (record w { encoder = e; sent = w.sent ++ frame ∷ [] })
      else none

  abbrev pub encode_clean : Receiver → Option (Work × List Sample) → Option Work
  encode_clean alive none = none
  encode_clean alive (some (w, c)) = add_frame alive w (encode_float w.encoder (map over_32767 c))

  unfoldable pub on_chunk : Receiver → ℕ → Work → List Sample → Option Work
  unfolding denoise denoise_resampled
  on_chunk alive rate w c = encode_clean alive (clean rate w w.resampler (map times_32767 c))

  abbrev pub and_then : Option Work → (Work → Option Work) → Option Work
  and_then none f = none
  and_then (some w) f = f w

  unfoldable pub on_chunks : Receiver → ℕ → Work → List (List Sample) → Option Work
  unfolding on_chunk
  on_chunks alive rate w [] = some w
  on_chunks alive rate w (c ∷ cs) =
      and_then (on_chunk alive rate w c) (λ w'. on_chunks alive rate w' cs)

  -- `Input` and what it has sent.
  pub record Input : Type 0 where
    pub input_buf : List Sample
    pub work : Work
    pub channels : ℕ
    pub sample_rate : ℕ

  abbrev pub received : ℕ → List Sample → List Sample
  received channels samples = if channels == 2 then samples else twice samples

  abbrev pub with_work : Input → List Sample → Option Work → Option Input
  with_work i rest none = none
  with_work i rest (some w) = some (record i { input_buf = rest; work = w })

  -- A call of the closure of `data_callback`, on the work with a new `resampled`. The period is not
  -- empty.
  unfoldable pub data_callback : Receiver → Input → List Sample → Option Input
  unfolding on_chunks twice
  data_callback alive i samples =
      let buf = i.input_buf ++ received i.channels samples in
      let (chunks, rest) = frames_of (samples_per_period i.sample_rate) buf in
      with_work i rest (on_chunks alive i.sample_rate (record i.work { resampled = [] }) chunks)
