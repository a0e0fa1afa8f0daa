-- ===== src/Benchmark/Args.antt =====
-- `parse_args` of src/bin/opus_benchmark.rs, without its warnings; the arguments are those behind
-- the program's name.
use media_api.Base.{
  ℕ, ◌≤◌, ◌≡◌, refl, List, [], ◌∷◌, Bytes, codes, text_eq, if◌then◌else◌, unwrap_or, parse_uint,
  parse_uint-le, u8_max, u32_max, arith, ◌||◌, Option-cases, inl, inr,
}
use media_api.Base.Texts.Decimal.{decimal, parse_uint-decimal}

pub record Config : Type 0 where
  pub source_dir : Bytes
  pub sample_rate : ℕ
  pub channels : ℕ
  pub bitrate : ℕ

pub data Outcome : Type 0 where
  parsed : Config → Outcome
  -- the help is printed, and the process exits with code 0
  helped : Outcome
  panicked : Outcome

pub data Arg : Type 0 where
  help source_dir sample_rate channels bitrate other : Arg

unfoldable pub classify : Bytes → Arg
classify arg =
    if text_eq arg (codes "-h") || text_eq arg (codes "--help")
    then help
    else if text_eq arg (codes "--source-dir")
    then source_dir
    else if text_eq arg (codes "--sample-rate")
    then sample_rate
    else if text_eq arg (codes "--channels")
    then channels
    else if text_eq arg (codes "--bitrate")
    then bitrate
    else other

abbrev pub default_config : Config
default_config = record {
  source_dir = codes "/Users/jamie/Downloads/Lori Asha - Lori Asha Album Premix";
  sample_rate = 48000;
  channels = 2;
  bitrate = 96000;
}

-- The last argument, behind which there is no value.
pub last_arg : Arg → Config → Outcome
last_arg help c = helped
last_arg source_dir c = panicked
last_arg _ c = parsed c

-- An argument with one behind it. A value that does not parse sets the default, not what was there
-- before. The rest of the loop is given from the next argument on, and from the one after that.
pub on_arg : Arg → (Config → Outcome) → (Config → Outcome) → Bytes → Config → Outcome
on_arg help next next2 value c = helped
on_arg source_dir next next2 value c = next2 (record c { source_dir = value })
on_arg sample_rate next next2 value c =
    next2 (record c { sample_rate = unwrap_or (parse_uint u32_max value) 48000 })
on_arg channels next next2 value c =
    next2 (record c { channels = unwrap_or (parse_uint u8_max value) 2 })
on_arg bitrate next next2 value c =
    next2 (record c { bitrate = unwrap_or (parse_uint u32_max value) 96000 })
on_arg other next next2 value c = next c

pub parse_loop : List Bytes → Config → Outcome
unfolding last_arg on_arg classify
parse_loop [] c = parsed c
parse_loop (arg ∷ []) c = last_arg (classify arg) c
parse_loop (arg ∷ value ∷ args) c =
    on_arg (classify arg) (parse_loop (value ∷ args)) (parse_loop args) value c

unfoldable pub parse_args : List Bytes → Outcome
unfolding parse_loop
parse_args args = parse_loop args default_config

-- What a configuration may hold.
abbrev pub Fits : Config → Type 0
Fits c = (c.sample_rate ≤ u32_max) × (c.channels ≤ u8_max) × (c.bitrate ≤ u32_max)

abbrev pub OutcomeFits : Outcome → Type 0
OutcomeFits (parsed c) = Fits c
OutcomeFits _ = Unit {0}

unwrap_or-le :
    (most default : ℕ) (value : Bytes)
    → default ≤ most
    → unwrap_or (parse_uint most value) default ≤ most
unwrap_or-le most default value h = elim (Option-cases (parse_uint most value)) [
  | inl e ↦ rw e h
  | inr (n, e) ↦ rw e (parse_uint-le most value e)
]

on_arg-Fits :
    (arg : Arg) (next next2 : Config → Outcome) (value : Bytes) (c : Config)
    → ((c : Config) → Fits c → OutcomeFits (next c))
    → ((c : Config) → Fits c → OutcomeFits (next2 c))
    → Fits c
    → OutcomeFits (on_arg arg next next2 value c)
unfolding on_arg
on_arg-Fits help next next2 value c k k2 h = tt
on_arg-Fits source_dir next next2 value c k k2 h = k2 _ h
on_arg-Fits sample_rate next next2 value c k k2 (hr, hc, hb) =
    k2 _ (unwrap_or-le u32_max 48000 value (omega arith), hc, hb)
on_arg-Fits channels next next2 value c k k2 (hr, hc, hb) =
    k2 _ (hr, unwrap_or-le u8_max 2 value (omega arith), hb)
on_arg-Fits bitrate next next2 value c k k2 (hr, hc, hb) =
    k2 _ (hr, hc, unwrap_or-le u32_max 96000 value (omega arith))
on_arg-Fits other next next2 value c k k2 h = k c h

last_arg-Fits : (arg : Arg) (c : Config) → Fits c → OutcomeFits (last_arg arg c)
unfolding last_arg
last_arg-Fits help c h = tt
last_arg-Fits source_dir c h = tt
last_arg-Fits sample_rate c h = h
last_arg-Fits channels c h = h
last_arg-Fits bitrate c h = h
last_arg-Fits other c h = h

parse_loop-Fits : (args : List Bytes) (c : Config) → Fits c → OutcomeFits (parse_loop args c)
unfolding parse_loop
parse_loop-Fits [] c h = h
parse_loop-Fits (arg ∷ []) c h = last_arg-Fits (classify arg) c h
parse_loop-Fits (arg ∷ value ∷ args) c h =
    on_arg-Fits (classify arg) _ _ value c (parse_loop-Fits (value ∷ args)) (parse_loop-Fits args) h

-- The arguments that ask for a configuration.
unfoldable pub args_of : Config → List Bytes
args_of c =
    codes "--source-dir"
    ∷ c.source_dir
    ∷ codes "--sample-rate"
    ∷ decimal c.sample_rate
    ∷ codes "--channels"
    ∷ decimal c.channels
    ∷ codes "--bitrate"
    ∷ decimal c.bitrate
    ∷ []

-- A configuration that fits its types is read back from the arguments that ask for it, whatever its
-- directory is called; and whatever the arguments, a configuration that is read fits its types.
pub parse_args-args_of :
    (c : Config) (args : List Bytes)
    → Fits c
    → (parse_args (args_of c) ≡ parsed c) × OutcomeFits (parse_args args)
unfolding parse_args args_of
parse_args-args_of c args (hr, hc, hb) = (
  rw
      (
        parse_uint-decimal u32_max c.sample_rate hr,
        parse_uint-decimal u8_max c.channels hc,
        parse_uint-decimal u32_max c.bitrate hb,
      )
      refl,
  parse_loop-Fits args default_config (omega arith, omega arith, omega arith),
)
