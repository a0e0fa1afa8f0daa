-- ===== src/Router.antt =====
-- src/router.rs: the routes, and the options of a request. A response's body, which the source prints
-- as JSON, is kept as the value that is printed.
pub mod State
pub mod Stream
pub mod Safety
mod Tests
use media_api.Base.{
  ℕ, ◌≡◌, ◌≢◌, ◌⊎◌, inl, inr, refl, Bool, true, false, ◌||◌, Option, none, some, Bytes, codes,
  text_eq, text_eq-cases, if◌then◌else◌, or_else, Result, ok, err, arith, Bool-cases,
}
use media_api.Soundkit.{DecodeOptions}
use media_api.Config.{MediaApiConfig}
use media_api.Stats.{Stats, Report, to_json}

-- The query's options, each with the configured default behind it.
unfoldable pub merge_options : MediaApiConfig → DecodeOptions → DecodeOptions
merge_options config query_options = record {
  output_sample_rate = or_else query_options.output_sample_rate config.default_output_sample_rate;
  output_bits_per_sample = or_else query_options.output_bits_per_sample config.default_output_bits;
  output_channels = or_else query_options.output_channels config.default_output_channels;
}

pub data Body : Type 0 where
  -- "status", "service" and "version"
  status_body : Body
  stats_body : Report → Body
  -- "error": "Not found"
  not_found_body : Body

pub record HandlerResponse : Type 0 where
  pub status : ℕ
  pub body : Body
  pub content_type : Bytes

abbrev json_response : ℕ → Body → HandlerResponse
json_response status body = record {
  status = status;
  body = body;
  content_type = codes "application/json";
}

pub handle_status : HandlerResponse
handle_status = json_response 200 status_body

pub handle_stats : ℕ → Stats → HandlerResponse
handle_stats now stats = json_response 200 (stats_body (to_json now stats))

unfoldable pub route : ℕ → Stats → Bytes → HandlerResponse
unfolding handle_status handle_stats
route now stats path =
    if text_eq path (codes "/status") || text_eq path (codes "/health")
    then handle_status
    else if text_eq path (codes "/stats")
    then handle_stats now stats
    else json_response 404 not_found_body

abbrev pub has_body_handler : Bytes → Bool
has_body_handler path = false

abbrev pub is_streaming : Bytes → Bool
is_streaming path = false

unfoldable pub is_body_streaming : Bytes → Bool
is_body_streaming path = text_eq path (codes "/decode")

-- The errors of the handlers.
pub data ServerError : Type 0 where
  not_found : ServerError
  unsupported : ServerError
  no_decoder : Bytes → ServerError
  write_failed : ServerError
  -- a loop of the model used up its fuel
  out_of_fuel : ServerError

-- `route_body_stream`, with the outcome of `handle_decode_stream` given.
unfoldable pub route_body_stream {ℓ} :
    {A : Type ℓ} → Bytes → Result A ServerError → Result A ServerError
route_body_stream path decoded = if text_eq path (codes "/decode") then decoded else err not_found

pub route_stream {ℓ} : {A : Type ℓ} → Result A ServerError
route_stream = err unsupported

-- What the plain routes answer to a path.
abbrev pub Routed : ℕ → Stats → Bytes → Type 0
Routed now stats path =
    let answer = route now stats path in
    (((path ≡ codes "/status") ⊎ (path ≡ codes "/health"))
      × (answer.status ≡ 200)
      × (answer.body ≡ status_body))
    ⊎ (((path ≡ codes "/stats")
          × (answer.status ≡ 200)
          × (answer.body ≡ stats_body (to_json now stats)))
        ⊎ ((path ≢ codes "/status")
            × (path ≢ codes "/health")
            × (path ≢ codes "/stats")
            × (answer.status ≡ 404)
            × (answer.body ≡ not_found_body)))

-- The two tables of paths agree: the path that is announced as streaming, /decode, reaches the decode
-- handler, and every other path is not found there. The plain routes answer the status, with 200, on
-- /status and /health alone, the statistics, with 200, on /stats alone, and 404 with the body that says
-- so on every other path.
pub route_tables {ℓ} :
    {A : Type ℓ} (now : ℕ) (stats : Stats) (path : Bytes) (decoded : Result A ServerError)
    → (((is_body_streaming path ≡ true)
          × (path ≡ codes "/decode")
          × (route_body_stream path decoded ≡ decoded))
        ⊎ ((is_body_streaming path ≡ false)
            × (path ≢ codes "/decode")
            × (route_body_stream path decoded ≡ err not_found)))
      × Routed now stats path
unfolding is_body_streaming route_body_stream route handle_status handle_stats
route_tables now stats path decoded = ground (
  arith,
  text_eq-cases path (codes "/decode"),
  text_eq-cases path (codes "/status"),
  text_eq-cases path (codes "/health"),
  text_eq-cases path (codes "/stats"),
)
