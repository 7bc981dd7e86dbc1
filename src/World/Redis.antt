-- ===== src/World/Redis.antt =====
-- What Redis promises: a read gives the value of the last write of the key.
use yirang_taskforge.Prelude.{
  ◌≡◌, Option, none, some, List, [], ◌∷◌, Text, text_eq, ok, unexpected, if◌then◌else◌,
}
use yirang_taskforge.World.{World, Services, Event, redis_set, redis_put}

-- The value that an event writes at a key.
abbrev pub written : Text → Event → Option Text
written key (redis_set k value ttl) = if text_eq k key then some value else none
written key (redis_put k value) = if text_eq k key then some value else none
written key _ = none

abbrev pub or_later : Option Text → Option Text → Option Text
or_later (some value) earlier = some value
or_later none earlier = earlier

-- The value of the last write of a key; the trace has the latest event first.
abbrev pub last_written : Text → List Event → Option Text
last_written key [] = none
last_written key (e ∷ es) = or_later (written key e) (last_written key es)

-- Redis as it is documented, while it neither fails nor drops the key at the end of its lifetime.
abbrev pub Durable : Services → Type 0
Durable services =
    (w : World) (key value : Text)
    → last_written key w.trace ≡ some value
    → services.get w key ≡ ok value

-- A key that was never written is not there.
abbrev pub Unwritten : Services → Type 0
Unwritten services =
    (w : World) (key : Text)
    → last_written key w.trace ≡ none
    → (error : Text) × (services.get w key ≡ unexpected error)
