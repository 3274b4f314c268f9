-- ===== src/Lifecycle/Tests.antt =====
-- Runs of the drivers' lifecycle. The world is the list of the functions that ran, the last first.
use doom_os.Base.{ℕ, ◌≡◌, refl, true, List, [], ◌∷◌, some, none}
use doom_os.Lifecycle.{
  single, DriverId, CapabilityKey, Registry, Lifecycle, DriverCode, ok, visited, same_chars,
  string_equal, find_id_from, find_node_by_id, find_name_from, find_node_by_name,
  provider_record_count, validate_provider_count,
}
use doom_os.Lifecycle.Records.{
  add_driver, add_drivers, attach_init, attach_init_records, attach_exit, attach_exit_records,
  validate_driver_dependency, validate_capability_dependency, validate_provider,
  validate_provider_records, validate_dependency_records, build_nodes, build_registry,
}
use doom_os.Lifecycle.Visit.{
  returned, set_visit, set_initialized, register_capability, register_capabilities, run_init_of,
  run_driver, visit_providers, visit_capability_providers, visit_driver_dependencies,
  visit_capability_dependencies, visit_new, visit, visit_all, init_all, exit_all,
}
use doom_os.Lifecycle.Initialise.{IsReady, at_start, Initialises}
use doom_os.Lifecycle.Between.{starts, inits, IsBetween-IsReady, init_all_lem}
use doom_os.Lifecycle.Exit.{Left, exit_all_lem}
use doom_os.Lifecycle.Restart.{init_all-exit_all}

abbrev recording : DriverCode (List ℕ)
recording = record {
  run_init = λ f cs w. (ok, f ∷ w);
  run_exit = λ f cs w. f ∷ w;
  run_resolve = λ f cs w. (some 7, w);
}

abbrev disk : DriverId
disk = record { address = 1; name = some (100 ∷ []) }

abbrev bus : DriverId
bus = record { address = 2; name = some (98 ∷ []) }

abbrev clock : DriverId
clock = record { address = 3; name = some (99 ∷ []) }

abbrev ticks : CapabilityKey
ticks = record { name = some (116 ∷ []); multiplicity = single }

-- The disk requires the bus by name, and the clock by its capability.
abbrev three_drivers : Registry
three_drivers = record {
  drivers = disk ∷ bus ∷ clock ∷ [];
  init_records =
      record { driver = some disk; init = some 10 }
      ∷ record { driver = some bus; init = some 20 }
      ∷ record { driver = some clock; init = some 30 }
      ∷ [];
  exit_records =
      record { driver = some disk; exit = some 11 }
      ∷ record { driver = some bus; exit = some 21 }
      ∷ [];
  provide_records = record { driver = some clock; capability = some ticks; resolve = some 31 } ∷ [];
  require_driver_records = record { driver = some disk; dependency_name = some (98 ∷ []) } ∷ [];
  require_capability_records = record { driver = some disk; capability = some ticks } ∷ [];
}

abbrev started : Lifecycle (List ℕ)
started = record {
  nodes =
      record { id = disk; init = some 10; exit = some 11; visit = visited; initialized = true }
      ∷ record { id = bus; init = some 20; exit = some 21; visit = visited; initialized = true }
      ∷ record { id = clock; init = some 30; exit = none; visit = visited; initialized = true }
      ∷ [];
  initialized = 1 ∷ 2 ∷ 0 ∷ [];
  capabilities = record { key = some ticks; driver = clock; api = 7 } ∷ [];
  built = true;
  initialized_all = true;
  world = 10 ∷ 30 ∷ 20 ∷ [];
}

-- The bus and the clock start before the disk, which stands first in the registry.
starts_three : init_all recording three_drivers (at_start []) ≡ returned ok started
unfolding same_chars string_equal find_id_from find_node_by_id find_name_from find_node_by_name
    provider_record_count validate_provider_count add_driver add_drivers attach_init
    attach_init_records attach_exit attach_exit_records validate_driver_dependency
    validate_capability_dependency validate_provider validate_provider_records
    validate_dependency_records build_nodes build_registry set_visit set_initialized
    register_capability register_capabilities run_init_of run_driver visit_providers
    visit_capability_providers visit_driver_dependencies visit_capability_dependencies visit_new
    visit visit_all init_all
starts_three = refl

init_all_example :
    Initialises recording three_drivers [] (init_all recording three_drivers (at_start []))
init_all_example = init_all_lem recording three_drivers [] (at_start []) (starts [])

started-IsReady : IsReady three_drivers [] started
started-IsReady =
    IsBetween-IsReady recording three_drivers [] started
      (inits [] (at_start []) started ok (starts []) starts_three)

exit_all_example : Left recording three_drivers started (exit_all recording three_drivers started)
exit_all_example = exit_all_lem recording three_drivers started (started-IsReady.ordered refl)

restart_example :
    init_all recording three_drivers (exit_all recording three_drivers started)
    ≡ returned ok (record (exit_all recording three_drivers started) { initialized_all = true })
restart_example = init_all-exit_all recording three_drivers started started-IsReady refl refl
