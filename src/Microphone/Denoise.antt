-- ===== src/Microphone/Denoise.antt =====
-- client/src/mic.rs: a microphone at 48 kHz, whose frames go through the filters only.
use voices.Common.{
  zero, ℕ, suc, ◌≡◌, Option, none, some, List, [], ◌∷◌, ◌++◌, map, length, All, refl, ap, sym, ◌∙◌,
  arith, if◌then◌else◌, Bool-cases, inl, inr,
}
use mathlib.Core.List.{append_assoc}
use voices.Microphone.{
  Receiver, Audio, concat, deinterleave, silent, Filters, put_back, put_first, filtered, denoise,
  frames_of, Work, with_chunk, clean, add_frame, encode_clean, on_chunk, and_then, on_chunks, Input,
  received, with_work, data_callback, samples_per_period,
}
use voices.Microphone.Weave.{interleave-deinterleave}
use voices.Microphone.Chunks.{IsChunked, chunks_exact-IsChunked}

module _ (audio : Audio) where
  open audio use {Sample, Resampler, Encoder, times_32767, over_32767, encode_float}

  length-silent : (n : ℕ) → length (silent audio n) ≡ n
  length-silent zero = refl
  length-silent (suc n) = ap suc (length-silent n)

  -- A frame comes out of the filters as it went in.
  frame-same :
      (c : List Sample)
      → length c ≡ 960
      → (split : List Sample × List Sample) × (deinterleave c (silent audio 480) (silent audio 480)
          ≡ some split)
        × (put_back audio c (some split) ≡ some c)
  frame-same c e =
      let n : length (silent audio 480) ≡ 480 = length-silent 480 in
      let (l, r, d, m, k, i) =
        interleave-deinterleave c (silent audio 480) (silent audio 480) c refl (omega (arith, e, n))
          refl in
      ((l, r), d, i)

  denoise-same :
      (fs : Filters audio) (cs : List (List Sample)) (rest : List Sample)
      → All (λ c. length c ≡ 960) cs
      → (fs' : Filters audio) × (denoise audio fs cs rest ≡ some (fs', concat cs ++ rest))
  unfolding denoise
  denoise-same fs [] rest a = (fs, refl)
  denoise-same fs (c ∷ cs) rest (e, a) =
      let (split, d, p) = frame-same c e in
      let (fs', h) = denoise-same (filtered audio fs (some split)) cs rest a in
      (
        fs',
        ap (λ o. put_first audio (put_back audio c o) (denoise audio (filtered audio fs o) cs rest))
              d
            ∙ ap (λ o. put_first audio o (denoise audio (filtered audio fs (some split)) cs rest)) p
            ∙ ap (put_first audio (some c)) h
            ∙ ap (λ x. some (fs', x)) (sym (append_assoc c (concat cs) rest)),
      )

  clean-same :
      (rate : ℕ) (w : Work audio) (c : List Sample)
      → (fs : Filters audio) × (clean audio rate w none c
          ≡ some (record w { filters = fs; resampler = none }, c))
  clean-same rate w c =
      let k : IsChunked 960 c (frames_of audio 960 c) =
        chunks_exact-IsChunked (length c) 960 c (omega arith) (omega arith) in
      let (fs, d) =
        denoise-same w.filters (frames_of audio 960 c).0 (frames_of audio 960 c).1 k.whole in
      (
        fs,
        ap (with_chunk audio w none) d
            ∙ ap (λ x. some (record w { filters = fs; resampler = none }, x)) k.same,
      )

  abbrev pub Encoded : Type 0
  Encoded = Option (Encoder × List (List ℕ))

  -- The encoder alone, on the samples scaled up and down again, as long as it does not fail and the
  -- receiver is there.
  abbrev pub and_frame :
      Receiver audio
      → List (List ℕ)
      → (Encoder → List (List ℕ) → Encoded)
      → Option (Encoder × List ℕ)
      → Encoded
  and_frame alive sent f none = none
  and_frame alive sent f (some (e, frame)) =
      if alive (length sent) then f e (sent ++ frame ∷ []) else none

  abbrev pub scaled : List Sample → List Sample
  scaled c = map over_32767 (map times_32767 c)

  unfoldable pub encode_all :
      Receiver audio → List (List Sample) → Encoder → List (List ℕ) → Encoded
  encode_all alive [] e sent = some (e, sent)
  encode_all alive (c ∷ cs) e sent =
      and_frame alive sent (encode_all alive cs) (encode_float e (scaled c))

  abbrev pub frames_sent : Option (Work audio) → Encoded
  frames_sent none = none
  frames_sent (some w) = some (w.encoder, w.sent)

  encoded :
      (alive : Receiver audio) (rate : ℕ) (cs : List (List Sample)) (w : Work audio)
      (o : Option (Encoder × List ℕ))
      → ((x : Work audio)
          → x.resampler ≡ none
          → frames_sent (on_chunks audio alive rate x cs) ≡ encode_all alive cs x.encoder x.sent)
      → w.resampler ≡ none
      → frames_sent
          (and_then audio (add_frame audio alive w o) (λ x. on_chunks audio alive rate x cs))
        ≡ and_frame alive w.sent (encode_all alive cs) o
  encoded alive rate cs w none ih f = refl
  encoded alive rate cs w (some (e, frame)) ih f = elim (Bool-cases (alive (length w.sent))) [
    | inl h ↦ rw (h) (ih (record w { encoder = e; sent = w.sent ++ frame ∷ [] }) f)
    | inr h ↦ rw (h) refl
  ]

  on_chunks-plain :
      (alive : Receiver audio) (rate : ℕ) (cs : List (List Sample)) (w : Work audio)
      → w.resampler ≡ none
      → frames_sent (on_chunks audio alive rate w cs) ≡ encode_all alive cs w.encoder w.sent
  unfolding on_chunks on_chunk encode_all
  on_chunks-plain alive rate [] w e = refl
  on_chunks-plain alive rate (c ∷ cs) w e =
      let up : List Sample = map times_32767 c in
      let (fs, s) = clean-same rate w up in
      let w' : Work audio = record w { filters = fs; resampler = none } in
      let step = λ (o : Option (Work audio)).
        frames_sent (and_then audio o (λ x. on_chunks audio alive rate x cs)) in
      ap (λ r. step (encode_clean audio alive (clean audio rate w r up))) e
      ∙ ap (λ o. step (encode_clean audio alive o)) s
      ∙ encoded alive rate cs w' (encode_float w.encoder (scaled c))
          (λ x. on_chunks-plain alive rate cs x) refl

  -- What a call leaves in the buffer, with the encoder and all frames that were sent.
  abbrev pub outcome : Option (Input audio) → Option (List Sample × Encoder × List (List ℕ))
  outcome none = none
  outcome (some i) = some (i.input_buf, i.work.encoder, i.work.sent)

  abbrev pub with_rest : List Sample → Encoded → Option (List Sample × Encoder × List (List ℕ))
  with_rest rest none = none
  with_rest rest (some (e, sent)) = some (rest, e, sent)

  outcome-work :
      (i : Input audio) (rest : List Sample) (o : Option (Work audio))
      → outcome (with_work audio i rest o) ≡ with_rest rest (frames_sent o)
  outcome-work i rest none = refl
  outcome-work i rest (some w) = refl

-- At 48 kHz, where there is no resampler, the filters change nothing: on any buffer and any samples, a call cuts what it has into
-- chunks of 1920 samples, a fiftieth of a second of two channels, and a rest that is shorter, in order,
-- keeps the rest, and sends what the encoder makes of the chunks as they were recorded, each sample
-- scaled up and down again; it panics exactly where the encoder fails or the receiver of the frames is
-- gone when a frame is sent.
pub data_callback-plain :
    (audio : Audio) (alive : Receiver audio) (i : Input audio) (samples : List audio.Sample)
    → i.sample_rate ≡ 48000
    → i.work.resampler ≡ none
    → (r : List (List audio.Sample) × List audio.Sample) × IsChunked 1920
        (i.input_buf ++ received audio i.channels samples)
        r
      × (outcome audio (data_callback audio alive i samples)
          ≡ with_rest audio r.1 (encode_all audio alive r.0 i.work.encoder i.work.sent))
unfolding data_callback
data_callback-plain audio alive i samples rate plain =
    let buf : List audio.Sample = i.input_buf ++ received audio i.channels samples in
    let r : List (List audio.Sample) × List audio.Sample = frames_of audio 1920 buf in
    let w : Work audio = record i.work { resampled = [] } in
    (
      r,
      chunks_exact-IsChunked (length buf) 1920 buf (omega arith) (omega arith),
      ap
            (λ n.
              let f = frames_of audio (samples_per_period n) buf in
              outcome audio (with_work audio i f.1 (on_chunks audio alive i.sample_rate w f.0)))
            rate
          ∙ outcome-work audio i r.1 (on_chunks audio alive i.sample_rate w r.0)
          ∙ ap (with_rest audio r.1) (on_chunks-plain audio alive i.sample_rate r.0 w plain),
    )
