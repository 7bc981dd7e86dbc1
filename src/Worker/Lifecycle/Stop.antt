-- ===== src/Worker/Lifecycle/Stop.antt =====
-- What the worker holds after a start, however it ended, and after a stop.
use yirang_taskforge.Prelude.{
  suc, ◌≡◌, refl, ap, true, false, Bool-cases, inl, inr, Option, some, List, [], ◌∷◌, Text, bytes,
  map, Expected, ok, unexpected, has_value,
}
use yirang_taskforge.Json.{Json, string_at, array_at}
use yirang_taskforge.World.{World, Services, Act, pure, ◌>>=◌}
use yirang_taskforge.TaskExecutor.{TaskDefinition}
use yirang_taskforge.Configurations.{Configurations, validate_required}
use yirang_taskforge.Worker.Transfer.{object_of, list_at}
use yirang_taskforge.Worker.Lifecycle.{
  TaskForgeWorker, constructed, Library, step, start, stop, catalog_entry, catalog_document,
}

-- No object of a library is held.
pub record IsReleased (worker : TaskForgeWorker) : Type 0 where
  pub no_pool : worker.thread_pool ≡ false
  pub no_redis : worker.redis_client ≡ false
  pub no_s3 : worker.s3_client ≡ false
  pub no_publisher : worker.sqs_publisher ≡ false
  pub no_consumer : worker.sqs_consumer ≡ false

-- Only a running worker holds objects, and it has not been stopped before.
pub record IsOwned (worker : TaskForgeWorker) : Type 0 where
  pub idle : worker.running ≡ false → IsReleased worker
  pub unstopped : worker.stops ≡ 0

abbrev Outcome : Type 0
Outcome = Expected (Unit {0}) × TaskForgeWorker

-- A start that succeeds leaves the worker running.
abbrev IsStart : Outcome → Type 0
IsStart (r, worker) = IsOwned worker × (has_value r ≡ true → worker.running ≡ true)

constructed-IsOwned : IsOwned constructed
constructed-IsOwned = record {
  idle = λ e. record {
    no_pool = refl;
    no_redis = refl;
    no_s3 = refl;
    no_publisher = refl;
    no_consumer = refl;
  };
  unstopped = refl;
}

running-IsOwned :
    (worker : TaskForgeWorker) → worker.running ≡ true → worker.stops ≡ 0 → IsOwned worker
running-IsOwned worker h k = record { idle = λ e. absurd (cc); unstopped = k }

record Ends (m : Act Outcome) : Type 0 where
  at : (w : World) → IsStart (m w).0

bind-Ends {ℓ} :
    {A : Type ℓ} (m : Act A) (f : A → Act Outcome) → ((a : A) → Ends (f a)) → Ends (m >>= f)
unfolding ◌>>=◌
bind-Ends m f h = record { at = λ w. (h (m w).0).at (m w).1 }

step-Ends :
    (what : Text) (r : Expected (Unit {0})) (worker : TaskForgeWorker) (next : Act Outcome)
    → IsOwned worker
    → Ends next
    → Ends (step what r worker next)
unfolding step pure
step-Ends what (ok _) worker next owned h = h
step-Ends what (unexpected e) worker next owned h = record { at = λ w. (owned, λ f. absurd (cc)) }

started-Ends :
    (worker : TaskForgeWorker)
    → worker.running ≡ true
    → worker.stops ≡ 0
    → Ends (pure (ok tt, worker))
unfolding pure
started-Ends worker h k = record { at = λ w. (running-IsOwned worker h k, λ e. h) }

module _ (json : Json) (services : Services) (config : Configurations) (library : Library) where
  start-Ends : Ends (start json services config library constructed)
  unfolding start
  start-Ends = step-Ends _ (validate_required config) constructed _ constructed-IsOwned (
      bind-Ends _ _ λ created. bind-Ends _ _ λ pool.
        step-Ends _ pool _ _ (running-IsOwned _ refl refl) (
          bind-Ends _ _ λ connected. step-Ends _ connected _ _ (running-IsOwned _ refl refl) (
            bind-Ends _ _ λ uploaded. step-Ends _ uploaded _ _ (running-IsOwned _ refl refl) (
              bind-Ends _ _ λ consuming. step-Ends _ consuming _ _ (running-IsOwned _ refl refl) (
                bind-Ends _ _ λ monitored.
                  step-Ends _ monitored _ _ (running-IsOwned _ refl refl)
                    (started-Ends _ refl refl))))))

  -- However the start of a constructed worker ends, a stop then releases every object that it holds,
  -- and a second stop, such as the destructor's, changes nothing; after a start that succeeded, the
  -- waiting for the stop is released exactly once.
  pub stop-start :
      (w : World)
      → IsReleased (stop (start json services config library constructed w).0.1)
        × (stop (stop (start json services config library constructed w).0.1)
            ≡ stop (start json services config library constructed w).0.1)
        × (has_value (start json services config library constructed w).0.0 ≡ true
            → (stop (stop (start json services config library constructed w).0.1)).stops ≡ 1)
  unfolding stop
  stop-start w =
      let (owned, success) = start-Ends.at w in
      let worker = (start json services config library constructed w).0.1 in
      elim (Bool-cases worker.running) [
        | inl on ↦
            rw (on, stop)
              (
                record {
                  no_pool = refl;
                  no_redis = refl;
                  no_s3 = refl;
                  no_publisher = refl;
                  no_consumer = refl;
                },
                refl,
                λ e. ap suc owned.unstopped,
              )
        | inr off ↦
            rw (off, stop) (owned.idle off, rw off refl, λ h. absurd (let on = success h in cc))
      ]

module _ (json : Json) where
  open json use {Value, Object, find-put}

  -- The name and the description that an entry of the catalogue holds.
  abbrev pub listed : Value → Option Text × Option Text
  listed v = (
    string_at json (object_of json v) (bytes "name"),
    string_at json (object_of json v) (bytes "description"),
  )

  object_of-of_object : (o : Object) → object_of json (json.of_object o) ≡ o
  unfolding object_of
  object_of-of_object o = rw (json.as_object?-of_object, object_of)

  listed-catalog_entry :
      (definition : TaskDefinition)
      → listed (catalog_entry json definition) ≡ (some definition.name, some definition.description)
  unfolding catalog_entry string_at
  listed-catalog_entry definition = simp (object_of-of_object, find-put, json.as_string?-of_string)

  listed-map :
      (whitelist : List TaskDefinition)
      → map listed (map (catalog_entry json) whitelist)
        ≡ map (λ d. (some d.name, some d.description)) whitelist
  listed-map [] = refl
  listed-map (d ∷ rest) = rw (listed-catalog_entry d, listed-map rest)

  catalog_tasks :
      (whitelist : List TaskDefinition) (now : Text)
      → array_at json (catalog_document json whitelist now) (bytes "tasks")
        ≡ some (map (catalog_entry json) whitelist)
  unfolding catalog_document array_at
  catalog_tasks whitelist now = simp (find-put, json.as_array?-of_array)

  -- The catalogue lists the tasks of the whitelist, in its order, with their names and descriptions.
  catalog_document_lem :
      (whitelist : List TaskDefinition) (now : Text)
      → map listed (list_at json (catalog_document json whitelist now) (bytes "tasks"))
        ≡ map (λ d. (some d.name, some d.description)) whitelist
  unfolding list_at
  catalog_document_lem whitelist now =
      rw (catalog_tasks whitelist now, list_at) (listed-map whitelist)
