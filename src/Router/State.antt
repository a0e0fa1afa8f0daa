-- ===== src/Router/State.antt =====
-- `MediaRouter` of src/router.rs: its fields and `new`.
use media_api.Base.{ℕ, ◌*◌}
use media_api.Config.{MediaApiConfig}
use media_api.Pool.Jobs
use media_api.Pool.Jobs.{Pool}
use media_api.Stats
use media_api.Stats.{Stats}

pub record MediaRouter : Type 0 where
  pub config : MediaApiConfig
  pub decoder_pool : Pool
  pub stats : Stats

-- `MediaRouter::new` on a host with so many CPUs.
unfoldable pub new : ℕ → MediaApiConfig → MediaRouter
new cpus config =
    let stats = Stats.new cpus in
    record { config = config; decoder_pool = Jobs.new (stats.num_cpus * 2); stats = stats }
