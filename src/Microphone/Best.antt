-- ===== src/Microphone/Best.antt =====
-- client/src/mic.rs: `find_best_input`, the choice among the configurations of a device. Its library
-- panics where the rate that is asked for is out of the range of the configuration.
use voices.Common.{
  leb→le, All, ℕ, ◌≤◌, ◌<◌, ◌≡◌, ◌⊎◌, Bool, true, Option, none, some, List, [], ◌∷◌, leb, ltb, ◌&&◌,
  ◌||◌, ◌==◌, if◌then◌else◌, refl, arith, Bool-cases, inl, inr, both_branches,
}

-- `SupportedStreamConfigRange`
pub record Range : Type 0 where
  pub channels : ℕ
  pub min_sample_rate : ℕ
  pub max_sample_rate : ℕ
  pub is_f32 : Bool

-- `StreamConfig` with the sample format.
pub record Config : Type 0 where
  pub channels : ℕ
  pub sample_rate : ℕ
  pub is_f32 : Bool

pub data Found : Type 0 where
  config : Config → Found
  no_config panicked : Found

abbrev pub is_candidate : Range → Bool
is_candidate cfg = cfg.is_f32 || leb cfg.channels 2

unfoldable pub filter_candidates : List Range → List Range
filter_candidates [] = []
filter_candidates (cfg ∷ cfgs) =
    if is_candidate cfg then cfg ∷ filter_candidates cfgs else filter_candidates cfgs

-- `with_sample_rate`
unfoldable pub with_sample_rate : Range → ℕ → Found
with_sample_rate cfg rate =
    if leb cfg.min_sample_rate rate && leb rate cfg.max_sample_rate
    then config (record { channels = cfg.channels; sample_rate = rate; is_f32 = cfg.is_f32 })
    else panicked

unfoldable pub is_ideal : Range → Bool
is_ideal cfg = ltb 48000 cfg.max_sample_rate && ltb cfg.min_sample_rate 48000 && cfg.channels == 2

-- The next fallback.
abbrev pub better : Option Range → Range → Range
better none cfg = cfg
better (some v) cfg =
    if leb v.channels cfg.channels && ltb v.max_sample_rate cfg.max_sample_rate then cfg else v

abbrev pub min : ℕ → ℕ → ℕ
min a b = if leb a b then a else b

abbrev pub fall_back : Option Range → Found
fall_back none = no_config
fall_back (some cfg) = with_sample_rate cfg (min cfg.max_sample_rate 48000)

unfoldable pub find_among : Option Range → List Range → Found
unfolding is_ideal with_sample_rate
find_among fallback [] = fall_back fallback
find_among fallback (cfg ∷ cfgs) =
    let rest = find_among (some (better fallback cfg)) cfgs in
    if is_ideal cfg then with_sample_rate cfg 48000 else rest

unfoldable pub find_best_input : List Range → Found
unfolding filter_candidates find_among
find_best_input cfgs = find_among none (filter_candidates cfgs)

abbrev pub Some : (Range → Type 0) → List Range → Type 0
Some P [] = ⊥
Some P (cfg ∷ cfgs) = P cfg ⊎ Some P cfgs

-- A configuration of the device that passes the filter.
abbrev pub IsOffered : List Range → Range → Type 0
IsOffered cfgs cfg = Some (λ x. x ≡ cfg) cfgs × (is_candidate cfg ≡ true)

-- The channels and the format of a range, at a rate that it has and that is 48 kHz at most.
abbrev pub Fits : Config → Range → Type 0
Fits c cfg =
    (c.channels ≡ cfg.channels)
    × (c.is_f32 ≡ cfg.is_f32)
    × (cfg.min_sample_rate ≤ c.sample_rate)
    × (c.sample_rate ≤ cfg.max_sample_rate)
    × (c.sample_rate ≤ 48000)

-- A result is taken from a range that is offered; the library panics over a range that is offered and
-- starts above 48 kHz; and what holds where there is no result.
abbrev pub IsFoundOr : List Range → Type 0 → Found → Type 0
IsFoundOr cfgs None (config c) = (cfg : Range) × IsOffered cfgs cfg × Fits c cfg
IsFoundOr cfgs None no_config = None
IsFoundOr cfgs None panicked = (cfg : Range) × IsOffered cfgs cfg × (48000 < cfg.min_sample_rate)

abbrev pub IsFound : List Range → Found → Type 0
IsFound cfgs = IsFoundOr cfgs (filter_candidates cfgs ≡ [])

abbrev pub IsStereo48 : Found → Type 0
IsStereo48 (config c) = (c.sample_rate ≡ 48000) × (c.channels ≡ 2)
IsStereo48 no_config = ⊥
IsStereo48 panicked = ⊥

module _ (cfgs : List Range) where
  abbrev IsGood : Range → Type 0
  IsGood cfg = IsOffered cfgs cfg × (cfg.min_sample_rate ≤ cfg.max_sample_rate)

  rate-IsFound :
      (None : Type 0) (cfg : Range) (rate : ℕ)
      → IsOffered cfgs cfg
      → rate ≤ 48000
      → rate ≤ cfg.max_sample_rate
      → (rate < cfg.min_sample_rate → 48000 < cfg.min_sample_rate)
      → IsFoundOr cfgs None (with_sample_rate cfg rate)
  unfolding with_sample_rate
  rate-IsFound None cfg rate o h m low = elim (Bool-cases (leb cfg.min_sample_rate rate)) [
    | inl a ↦
        let b : leb rate cfg.max_sample_rate ≡ true = ground arith in
        rw (a) (rw (b) (cfg, o, (refl, refl, leb→le _ _ a, m, h)))
    | inr a ↦ rw (a) (cfg, o, low (ground arith))
  ]

  -- A state of the loop: the fallback is offered.
  abbrev IsFallback : Option Range → Type 0
  IsFallback none = Unit
  IsFallback (some v) = IsGood v

  abbrev Nothing : Option Range → List Range → Type 0
  Nothing none rest = rest ≡ []
  Nothing (some v) rest = ⊥

  fall_back-IsFound :
      (fallback : Option Range)
      → IsFallback fallback
      → IsFoundOr cfgs (Nothing fallback []) (fall_back fallback)
  fall_back-IsFound none g = refl
  fall_back-IsFound (some v) (o, m) =
      rate-IsFound ⊥ v (min v.max_sample_rate 48000) o (ground arith) (ground arith)
        (λ h. ground (arith, h))

  better-IsGood :
      (fallback : Option Range) (cfg : Range)
      → IsFallback fallback
      → IsGood cfg
      → IsGood (better fallback cfg)
  better-IsGood none cfg g h = h
  better-IsGood (some v) cfg g h =
      both_branches IsGood
        (leb v.channels cfg.channels && ltb v.max_sample_rate cfg.max_sample_rate) h g

  -- An ideal configuration has 48 kHz in its range.
  ideal-IsFound :
      (None : Type 0) (cfg : Range)
      → IsOffered cfgs cfg
      → is_ideal cfg ≡ true
      → IsFoundOr cfgs None (with_sample_rate cfg 48000)
  unfolding is_ideal
  ideal-IsFound None cfg o e = rate-IsFound None cfg 48000 o (omega arith) (ground arith) (λ h. h)

  weaken : (None : Type 0) (f : Found) → IsFoundOr cfgs ⊥ f → IsFoundOr cfgs None f
  weaken None (config c) h = h
  weaken None no_config h = absurd h
  weaken None panicked h = h

  among-IsFound :
      (fallback : Option Range) (rest : List Range)
      → IsFallback fallback
      → All IsGood rest
      → IsFoundOr cfgs (Nothing fallback rest) (find_among fallback rest)
  unfolding find_among
  among-IsFound fallback [] g a = fall_back-IsFound fallback g
  among-IsFound fallback (cfg ∷ rest) g (h, a) = elim (Bool-cases (is_ideal cfg)) [
    | inl e ↦ rw (e) (ideal-IsFound (Nothing fallback (cfg ∷ rest)) cfg h.0 e)
    | inr e ↦ rw (e) (
        weaken (Nothing fallback (cfg ∷ rest)) (find_among (some (better fallback cfg)) rest)
          (among-IsFound (some (better fallback cfg)) rest (better-IsGood fallback cfg g h) a))
  ]

  filter-IsGood :
      (some_of : List Range)
      → ((cfg : Range) → Some (λ x. x ≡ cfg) some_of → Some (λ x. x ≡ cfg) cfgs)
      → All (λ cfg. cfg.min_sample_rate ≤ cfg.max_sample_rate) some_of
      → All IsGood (filter_candidates some_of)
  unfolding filter_candidates
  filter-IsGood [] f a = tt
  filter-IsGood (cfg ∷ later) f (m, a) =
      let rest : All IsGood (filter_candidates later) =
        filter-IsGood later (λ c h. f c (inr h)) a in
      elim (Bool-cases (is_candidate cfg)) [
        | inl e ↦ rw (e) (((f cfg (inl refl), e), m), rest)
        | inr e ↦ rw (e) rest
      ]

-- An ideal configuration is taken at 48 kHz, whatever comes before it.
ideal-IsStereo48 : (cfg : Range) → is_ideal cfg ≡ true → IsStereo48 (with_sample_rate cfg 48000)
unfolding is_ideal with_sample_rate
ideal-IsStereo48 cfg e =
    let a : leb cfg.min_sample_rate 48000 ≡ true = ground arith in
    let b : leb 48000 cfg.max_sample_rate ≡ true = ground arith in
    rw (a) (rw (b) (refl, ground arith))

among-IsStereo48 :
    (fallback : Option Range) (rest : List Range)
    → Some (λ cfg. is_ideal cfg ≡ true) rest
    → IsStereo48 (find_among fallback rest)
unfolding find_among
among-IsStereo48 fallback [] h = absurd h
among-IsStereo48 fallback (cfg ∷ rest) h = elim (Bool-cases (is_ideal cfg)) [
  | inl e ↦ rw (e) (ideal-IsStereo48 cfg e)
  | inr e ↦ rw (e) (
      among-IsStereo48 (some (better fallback cfg)) rest
        (elim h [ inl f ↦ absurd (cc (e, f)) | inr k ↦ k ]))
]

filter-ideal :
    (cfgs : List Range)
    → Some (λ cfg. (is_candidate cfg ≡ true) × (is_ideal cfg ≡ true)) cfgs
    → Some (λ cfg. is_ideal cfg ≡ true) (filter_candidates cfgs)
unfolding filter_candidates
filter-ideal [] h = h
filter-ideal (cfg ∷ cfgs) (inl (c, i)) = rw (c) (inl i)
filter-ideal (cfg ∷ cfgs) (inr h) =
    both_branches (Some (λ cfg. is_ideal cfg ≡ true)) (is_candidate cfg) (inr (filter-ideal cfgs h))
      (filter-ideal cfgs h)

-- If a range that is offered has two channels and goes from below to above 48 kHz, the result has two
-- channels and 48 kHz.
pub find_best_input-IsStereo48 :
    (cfgs : List Range)
    → Some (λ cfg. (is_candidate cfg ≡ true) × (is_ideal cfg ≡ true)) cfgs
    → IsStereo48 (find_best_input cfgs)
unfolding find_best_input
find_best_input-IsStereo48 cfgs h =
    among-IsStereo48 none (filter_candidates cfgs) (filter-ideal cfgs h)

-- The configuration that a microphone gets is one of the device's ranges that have samples of 32-bit
-- floats or at most two channels, at a rate in that range and at most 48 kHz; there is none only where
-- the device has no such range; and the library panics only where one of them starts above 48 kHz.
-- Each range is assumed not to be empty.
pub find_best_input-IsFound :
    (cfgs : List Range)
    → All (λ cfg. cfg.min_sample_rate ≤ cfg.max_sample_rate) cfgs
    → IsFound cfgs (find_best_input cfgs)
unfolding find_best_input
find_best_input-IsFound cfgs a =
    among-IsFound cfgs none (filter_candidates cfgs) tt (filter-IsGood cfgs cfgs (λ c h. h) a)
