-- ===== src/Worker/Lifecycle/Tests.antt =====
-- Tests and witnesses of the start and the stop.
use yirang_taskforge.Prelude.{false, ◌≡◌, refl, true, [], ◌∷◌, Text, bytes, ok, has_value}
use yirang_taskforge.Json.Tree.{tree_json}
use yirang_taskforge.Worker.Lifecycle.{
  Library, TaskForgeWorker, constructed, thread_workers, stop, start,
}
use yirang_taskforge.Worker.Lifecycle.Stop.{IsReleased, stop-start}
use yirang_taskforge.Samples.{services, config, world}

abbrev pub library : Library
library = record {
  JobPriorities = Text;
  high = bytes "high";
  normal = bytes "normal";
  low = bytes "low";
  long_term = bytes "long";
  pool_start = λ w workers. ok tt;
  client_defaults = record {
    region = bytes "us-east-1";
    endpoint_override = [];
    http = false;
    verify_ssl = true;
  };
  pool_push = λ w. ok tt;
  register_consume_handler = λ w service. ok tt;
  consumer_start = λ w service. ok tt;
  start_consume = λ w service. ok tt;
}

workers :
    thread_workers library config
    ≡ (library.high ∷ [])
      ∷ (library.normal ∷ library.high ∷ [])
      ∷ (library.normal ∷ library.high ∷ [])
      ∷ (library.low ∷ library.normal ∷ [])
      ∷ (library.long_term ∷ [])
      ∷ []
unfolding thread_workers
workers = refl

abbrev started : TaskForgeWorker
started = (start tree_json services config library constructed world).0.1

stop-start_example :
    IsReleased (stop started)
    × (stop (stop started) ≡ stop started)
    × (has_value (start tree_json services config library constructed world).0.0 ≡ true
        → (stop (stop started)).stops ≡ 1)
stop-start_example = stop-start tree_json services config library world
