-- ===== src/Tests/Modules.antt =====
-- src/module/manager.rs: the theorems on a manager with one module.
use delta_os.Base.{ℕ, ◌≡◌, ◌⊎◌, none, some, arith}
use delta_os.Kernel.Result.{ok, err, module_not_found, invalid_argument}
use delta_os.Module.{
  ModuleInfo, Manager, loaded, running, start_up, load_module, init_module, unload_module,
  get_module_info,
}
use delta_os.Module.Calls.{Reach, started, was_loaded, module_life}

abbrev no_code : ℕ → ℕ
no_code addr = 0

abbrev one : Manager
one = (load_module (start_up 16 32 48 64) "disk").1

one-Reach : Reach no_code one
unfolding start_up
one-Reach = was_loaded "disk" (omega arith) (started 16 32 48 64)

module_life_example :
    ((get_module_info one 1 ≡ none)
      × (init_module no_code one 1 ≡ (err module_not_found, one))
      × (unload_module one 1 ≡ (err module_not_found, one)))
    ⊎ ((info : ModuleInfo) × (get_module_info one 1 ≡ some info)
        × (info.state ≡ loaded)
        × ((init_module no_code one 1).0 ≡ ok tt)
        × (get_module_info (init_module no_code one 1).1 1 ≡ some (record info { state = running }))
        × (unload_module one 1 ≡ (err invalid_argument, one)))
    ⊎ ((info : ModuleInfo) × (get_module_info one 1 ≡ some info)
        × (info.state ≡ running)
        × (init_module no_code one 1 ≡ (err invalid_argument, one))
        × ((unload_module one 1).0 ≡ ok tt)
        × (get_module_info (unload_module one 1).1 1 ≡ none))
module_life_example = module_life no_code one 1 one-Reach
