-- ===== src/Lib.antt =====
-- media-api: a service that decodes audio streams.
--
-- Clients send encoded audio over HTTP (src/router.rs), gRPC (src/grpc.rs) or a framed TCP protocol
-- (src/tcp_handler.rs). Each handler acquires a decoder from a pool of worker threads (src/pool.rs),
-- feeds it the client's chunks, and writes the audio that it gives. src/decode.rs reads the options
-- of a query, src/config.rs the environment, and src/stats.rs counts connections. src/main.rs starts the
-- servers; src/bin/opus_benchmark.rs is a tool that compares two Opus libraries.
--
-- Base, with Base/Tests, Base/Lists and Base/Texts, holds what all parts share: Boolean tests and
-- lists over the native numbers, and texts as lists of character codes, with `parse_uint` for
-- `str::parse` of an unsigned type; Base/Integers has signed integers and the wrap-around of `i16`.
-- Effects is the monad of the handlers: a step returns a value with a state, or fails with a fault and
-- the state it failed in; `Ensures` is a postcondition.
--
-- Soundkit is what the source uses of crates it does not hold: audio data, a decode pipeline
-- (`Pipeline`) and, as an interface between the handlers and the pool, decoders (`Decoders`).
-- Its records are parameters. `Decoders` has no law; the theorems that a handler comes to an end take
-- `Bounded` as a hypothesis, by which a receive that brings a result leaves fewer results to come, at
-- most `backlog` of them. Its calls return: what is said of the handlers is said of runs in which no
-- call of a decoder waits forever, and Pool/Worker/Deadlock is about when `send` does. Fixtures has
-- concrete instances.
--
-- Decode        `parse_decode_options` of src/decode.rs; Decode/Pipeline the other functions
-- Config        `MediaApiConfig::from_env` of src/config.rs, as a function of the environment
-- Stats         `Stats` of src/stats.rs. Averages are exact fractions. Stats/Load runs connections
--               on any number of threads, with the counter's update and its sample as two steps
-- Router        `MediaRouter` of src/router.rs: the routes; Router/Stream its `handle_decode_stream`
-- Pool/Jobs     the pool's threads and its job channel; Pool/Worker one job: the thread in
--               `process_job` and the client with its `PooledDecoder`, step by step, over two
--               channels; Pool/Pipe is what a job promises, two queues around the pipeline;
--               Pool/Metrics the arithmetic at the end of `process_job`
-- Tcp/Session   `TcpDecodeServer::handle_decode_stream`; Tcp/Meta the metadata's codec; Tcp/Server the
--               rest of `TcpDecodeServer`: its accept loop and the choice of TLS
-- Grpc/Stream   the task of `GrpcDecodeService::decode`, with `drain_decoder_sync`; Grpc/Options
--               its options, Grpc/State the fields of the service
-- Service       src/main.rs: the command line's values, the configuration that `main` builds and the
--               servers that it sets up
-- Benchmark     src/bin/opus_benchmark.rs: Benchmark/Args its arguments, Benchmark/Source the source
--               tracks, Benchmark/Packets the packet streams that it writes and reads,
--               Benchmark/Quality `compare_pcm`, Benchmark/Engine `run_engine` and `print_row`,
--               Benchmark/Summary `summarize` and Benchmark/Main `main`; the Opus libraries, `f64`,
--               the files and the clock are parameters
--
-- The input of a handler is the list of its frames, messages or chunks with the way it ends. Its state
-- is what it has written and a history of its decoder calls, newest first, in which a receive notes
-- what it brings before the handler sees it; whether a write gets through is a parameter. Threads
-- interleave as steps of a relation with a `Reach`.
--
-- Loops over a decoder's output run on fuel. In Tcp/Session and Grpc/Stream the fuel comes from the
-- backlog of the decoder (twelve rounds for each result in `drain_decoder_sync`, which gives up
-- after eleven polls), which is enough if each result leaves fewer; the last loop of the HTTP
-- handler polls until the decoder closes, however long that takes, and its fuel is an argument. The
-- reader of packet streams has one more than the number of bytes, and a source track of the
-- benchmark is read in one round more than its pipeline has results.
--
-- Not modelled: the parser of main's arguments, the handling of its signals and the HTTP and gRPC servers
-- of other crates, the JSON text of responses, log lines, the text of the benchmark's tables and
-- help, clocks (times are arguments) and sleeps, the code that build.rs generates, and the programs
-- in benches and tests.
pub mod Base
pub mod Benchmark
pub mod Config
pub mod Decode
pub mod Effects
pub mod Fixtures
pub mod Grpc
pub mod Pool
pub mod Router
pub mod Service
pub mod Soundkit
pub mod Stats
pub mod Tcp
