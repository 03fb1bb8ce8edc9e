-- ===== src/Module/Calls.antt =====
-- src/module/manager.rs: the life of modules over all sequences of calls.
use Prim.Native.String.{String}
use text.Mathlib.Text.{◌==◌ as str_eq}
use delta_os.Base.{
  ℕ, ◌+◌, ◌^◌, ◌<◌, ◌≡◌, refl, sym, ap, subst, ◌∙◌, ◌⊎◌, inl, inr, not, ◌&&◌, Option, none, some,
  Option-cases, if_elim, arith,
}
use delta_os.Base.Map.{nat_key, get, remove, get-insert_self, get-remove_self}
use delta_os.Kernel.Result.{KernelResult, ok, err, module_not_found, invalid_argument}
use delta_os.Module.{
  loaded, running, ModuleInfo, Manager, start_up, set_ramdisk, any_module, is_running, is_stopped,
  load_module, dependencies_run, set_state, init_found, init_module, unload_found, unload_module,
  get_module_info, register_symbol,
}
use delta_os.Module.Life.{
  Plain, AllPlain, Distinct, IsManager, IsManager-remove, IsManager-run, IsManager-add,
}

-- The managers after any sequence of calls, with fewer than 2 ^ 64 modules loaded.
pub data Reach (run_init : ℕ → ℕ) : Manager → Type 0 where
  started : (inb outb in_long out_long : ℕ) → Reach run_init (start_up inb outb in_long out_long)
  was_loaded :
      {m : Manager} (name : String)
      → m.next_module_id + 1 < 2 ^ 64
      → Reach run_init m
      → Reach run_init (load_module m name).1
  inited : {m : Manager} (id : ℕ) → Reach run_init m → Reach run_init (init_module run_init m id).1
  unloaded : {m : Manager} (id : ℕ) → Reach run_init m → Reach run_init (unload_module m id).1
  registered :
      {m : Manager} (name : String) (addr : ℕ)
      → Reach run_init m
      → Reach run_init (register_symbol m name addr)
  given_ramdisk :
      {m : Manager} (addr size : ℕ) → Reach run_init m → Reach run_init (set_ramdisk m addr size)

init_loaded :
    (run_init : ℕ → ℕ) (m : Manager) (id next : ℕ) (info : ModuleInfo)
    → Plain next id info
    → info.state ≡ loaded
    → init_found run_init m id (some info) ≡ (ok tt, set_state m id info running)
unfolding init_found Plain dependencies_run
init_loaded run_init m id next info (_, _, _, deps, init) e = rw (e, deps, init) refl

init_running :
    (run_init : ℕ → ℕ) (m : Manager) (id : ℕ) (info : ModuleInfo)
    → info.state ≡ running
    → init_found run_init m id (some info) ≡ (err invalid_argument, m)
unfolding init_found
init_running run_init m id info e = rw e refl

init_missing :
    (run_init : ℕ → ℕ) (m : Manager) (id : ℕ)
    → init_found run_init m id none ≡ (err module_not_found, m)
unfolding init_found
init_missing run_init m id = refl

abbrev manager : KernelResult (Unit {0}) × Manager → Manager
manager r = r.1

module _ (run_init : ℕ → ℕ) where
  IsManager-init :
      (m : Manager) (id : ℕ) (o : Option ModuleInfo)
      → get m.modules id ≡ o
      → IsManager m
      → IsManager (init_found run_init m id o).1
  unfolding IsManager AllPlain Plain
  IsManager-init m id none e g = subst IsManager (sym (ap manager (init_missing run_init m id))) g
  IsManager-init m id (some info) e g =
      let plain = g.0 id info e in
      elim (plain.2) [
        | inl s ↦
            subst IsManager
              (sym (ap manager (init_loaded run_init m id m.next_module_id info plain s)))
              (IsManager-run m id info e g)
        | inr s ↦ subst IsManager (sym (ap manager (init_running run_init m id info s))) g
      ]

  IsManager-unload :
      (m : Manager) (id : ℕ) (o : Option ModuleInfo)
      → IsManager m
      → IsManager (unload_found m id o).1
  unfolding unload_found
  IsManager-unload m id none g = g
  IsManager-unload m id (some info) g =
      if_elim (λ (r : KernelResult (Unit {0}) × Manager). IsManager r.1)
        (not (is_running info.state) && not (is_stopped info.state)) (λ _. g)
        (λ _. IsManager-remove m id g)

  IsManager-load :
      (m : Manager) (name : String)
      → m.next_module_id + 1 < 2 ^ 64
      → IsManager m
      → IsManager (load_module m name).1
  unfolding load_module
  IsManager-load m name bound g =
      if_elim (λ (r : KernelResult ℕ × Manager). IsManager r.1)
        (any_module (λ (info : ModuleInfo). str_eq info.name name) m.modules) (λ _. g)
        (λ fresh. IsManager-add m name bound fresh g)

  IsManager-start : (inb outb in_long out_long : ℕ) → IsManager (start_up inb outb in_long out_long)
  unfolding IsManager AllPlain Distinct start_up get
  IsManager-start inb outb in_long out_long =
      (λ k info h. absurd (grind (arith, h)), λ j k a b h g n. absurd (grind (arith, h)))

  pub Reach-IsManager : {m : Manager} → Reach run_init m → IsManager m
  unfolding init_module unload_module register_symbol set_ramdisk IsManager
  Reach-IsManager (started inb outb in_long out_long) = IsManager-start inb outb in_long out_long
  Reach-IsManager (was_loaded {m = m} name bound r) =
      IsManager-load m name bound (Reach-IsManager r)
  Reach-IsManager (inited {m = m} id r) = IsManager-init m id _ refl (Reach-IsManager r)
  Reach-IsManager (unloaded {m = m} id r) = IsManager-unload m id _ (Reach-IsManager r)
  Reach-IsManager (registered name addr r) = Reach-IsManager r
  Reach-IsManager (given_ramdisk addr size r) = Reach-IsManager r

  unload_missing : (m : Manager) (id : ℕ) → unload_found m id none ≡ (err module_not_found, m)
  unfolding unload_found
  unload_missing m id = refl

  get_running :
      (m : Manager) (id : ℕ) (info : ModuleInfo)
      → get (set_state m id info running).modules id ≡ some (record info { state = running })
  unfolding set_state
  get_running m id info = get-insert_self m.modules id (record info { state = running })

  unload_loaded :
      (m : Manager) (id : ℕ) (info : ModuleInfo)
      → info.state ≡ loaded
      → unload_found m id (some info) ≡ (err invalid_argument, m)
  unfolding unload_found
  unload_loaded m id info e = rw e refl

  unload_running :
      (m : Manager) (id : ℕ) (info : ModuleInfo)
      → info.state ≡ running
      → unload_found m id (some info) ≡ (ok tt, record m { modules = remove m.modules id })
  unfolding unload_found
  unload_running m id info e = rw e refl

  -- In every manager that calls lead to, fewer than 2 ^ 64 modules loaded, whatever the code of modules
  -- would return: an id of no module is ModuleNotFound to `init_module` and `unload_module`. A module
  -- that is loaded is made running by `init_module` and refused by `unload_module`; one that is running
  -- is refused by `init_module` and removed by `unload_module`. The refusals are InvalidArgument, and
  -- the manager is then as before.
  pub module_life :
      (m : Manager) (id : ℕ)
      → Reach run_init m
      → ((get_module_info m id ≡ none)
          × (init_module run_init m id ≡ (err module_not_found, m))
          × (unload_module m id ≡ (err module_not_found, m)))
        ⊎ ((info : ModuleInfo) × (get_module_info m id ≡ some info)
            × (info.state ≡ loaded)
            × ((init_module run_init m id).0 ≡ ok tt)
            × (get_module_info (init_module run_init m id).1 id
                ≡ some (record info { state = running }))
            × (unload_module m id ≡ (err invalid_argument, m)))
        ⊎ ((info : ModuleInfo) × (get_module_info m id ≡ some info)
            × (info.state ≡ running)
            × (init_module run_init m id ≡ (err invalid_argument, m))
            × ((unload_module m id).0 ≡ ok tt)
            × (get_module_info (unload_module m id).1 id ≡ none))
  unfolding init_module unload_module get_module_info IsManager AllPlain Plain
  module_life m id r = elim (Option-cases (get m.modules id)) [
    | inl e ↦ inl (
      e,
      ap (init_found run_init m id) e ∙ init_missing run_init m id,
      ap (unload_found m id) e ∙ unload_missing m id,
    )
    | inr (info, e) ↦
        let plain = (Reach-IsManager r).0 id info e in
        let init = ap (init_found run_init m id) e in
        let unload = ap (unload_found m id) e in
        elim (plain.2) [
          | inl s ↦
              let i = init ∙ init_loaded run_init m id m.next_module_id info plain s in
              inr (
                inl (
                  info,
                  e,
                  s,
                  ap (λ (x : KernelResult (Unit {0}) × Manager). x.0) i,
                  ap (λ (x : KernelResult (Unit {0}) × Manager). get x.1.modules id) i
                      ∙ get_running m id info,
                  unload ∙ unload_loaded m id info s,
                ))
          | inr s ↦
              let u = unload ∙ unload_running m id info s in
              inr (
                inr (
                  info,
                  e,
                  s,
                  init ∙ init_running run_init m id info s,
                  ap (λ (x : KernelResult (Unit {0}) × Manager). x.0) u,
                  ap (λ (x : KernelResult (Unit {0}) × Manager). get x.1.modules id) u
                      ∙ get-remove_self m.modules id,
                ))
        ]
  ]
