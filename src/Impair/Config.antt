-- ===== src/Impair/Config.antt =====
-- internal/impair/pipeline.go: the configuration of a direction, and what `Validate` accepts.
-- A duration or an int64 is a ℤ. A float64 probability is used only in comparisons with 0, with 1
-- and with draws of `rng.Float64`, which are whole multiples of 2^-53: it stands for itself times
-- 2^53, rounded away from 0, or for NaN, which no comparison accepts.
pub mod Valid
use quixiot.Prelude.{
  ℕ, ◌^◌, ◌≡◌, ◌==◌, Bool, true, false, ◌||◌, ◌&&◌, Bytes, [], is_empty, Result, ok, err, ◌>>◌,
  ◌>>=◌, guard, if◌then◌else◌, not, ◌∷◌,
}
use quixiot.Prelude.Int.{ℤ, pos, negsuc, ltb_ℤ}

pub data Probability : Type 0 where
  nan : Probability
  scaled : ℤ → Probability

abbrev pub one : ℤ
one = pos (2 ^ 53)

-- `<` on floats.
abbrev pub lt_float : Probability → Probability → Bool
lt_float (scaled a) (scaled b) = ltb_ℤ a b
lt_float _ _ = false

pub record DirectionConfig : Type 0 where
  pub drop_probability : Probability
  pub duplicate_probability : Probability
  pub reorder_probability : Probability
  pub reorder_hold : ℤ
  pub latency : ℤ
  pub jitter : ℤ
  pub bandwidth_bytes_per_sec : ℤ

pub record Profile : Type 0 where
  pub name : Bytes
  pub seed : ℤ
  pub to_server : DirectionConfig
  pub to_client : DirectionConfig

-- Which field `Validate` complains of.
pub data Field : Type 0 where
  drop_field duplicate_field reorder_field hold_field latency_field jitter_field : Field
  bandwidth_field : Field

pub data ConfigError : Type 0 where
  in_direction in_to_server in_to_client : Field → ConfigError

outside : Probability → Bool
outside p = lt_float p (scaled (pos 0)) || lt_float (scaled one) p

negative : ℤ → Bool
negative d = ltb_ℤ d (pos 0)

-- The cases of the switch in turn; `field` makes the error.
unfoldable pub validate_direction :
    (Field → ConfigError) → DirectionConfig → Result ConfigError (Unit {0})
unfolding outside negative
validate_direction field c =
    if outside c.drop_probability
    then err (field drop_field)
    else if outside c.duplicate_probability
    then err (field duplicate_field)
    else if outside c.reorder_probability
    then err (field reorder_field)
    else if negative c.reorder_hold
    then err (field hold_field)
    else if negative c.latency
    then err (field latency_field)
    else if negative c.jitter
    then err (field jitter_field)
    else if negative c.bandwidth_bytes_per_sec
    then err (field bandwidth_field)
    else ok tt

unfoldable pub validate : Profile → Result ConfigError (Unit {0})
unfolding validate_direction
validate p = do
  validate_direction in_to_server p.to_server
  validate_direction in_to_client p.to_client

abbrev pub zero_direction : DirectionConfig
zero_direction = record {
  drop_probability = scaled (pos 0);
  duplicate_probability = scaled (pos 0);
  reorder_probability = scaled (pos 0);
  reorder_hold = pos 0;
  latency = pos 0;
  jitter = pos 0;
  bandwidth_bytes_per_sec = pos 0;
}

abbrev pub zero_profile : Profile
zero_profile = record {
  name = [];
  seed = pos 0;
  to_server = zero_direction;
  to_client = zero_direction;
}

-- "passthrough"
abbrev pub passthrough_name : Bytes
passthrough_name = b'p' ∷ b'a' ∷ b's' ∷ b's' ∷ b't' ∷ b'h' ∷ b'r' ∷ b'o' ∷ b'u' ∷ b'g' ∷ b'h' ∷ []

-- "custom"
abbrev pub custom_name : Bytes
custom_name = b'c' ∷ b'u' ∷ b's' ∷ b't' ∷ b'o' ∷ b'm' ∷ []

abbrev pub passthrough_profile : Profile
passthrough_profile = record zero_profile { name = passthrough_name }

is_zero : ℤ → Bool
is_zero (pos n) = n == 0
is_zero (negsuc _) = false

is_zero_probability : Probability → Bool
is_zero_probability nan = false
is_zero_probability (scaled p) = is_zero p

is_zero_direction : DirectionConfig → Bool
is_zero_direction c =
    is_zero_probability c.drop_probability
    && (is_zero_probability c.duplicate_probability
        && (is_zero_probability c.reorder_probability
            && (is_zero c.reorder_hold
                && (is_zero c.latency && (is_zero c.jitter && is_zero c.bandwidth_bytes_per_sec)))))

-- `profile == (Profile{})`.
is_zero_profile : Profile → Bool
unfolding is_zero is_zero_probability is_zero_direction
is_zero_profile p =
    is_empty p.name
    && (is_zero p.seed && (is_zero_direction p.to_server && is_zero_direction p.to_client))

named : Profile → Profile
named p = if is_empty p.name then record p { name = custom_name } else p

unfoldable pub normalize_profile : Profile → Result ConfigError Profile
unfolding is_zero_profile named
normalize_profile p = do
  let q = named (if is_zero_profile p then passthrough_profile else p)
  validate q
  ok q
