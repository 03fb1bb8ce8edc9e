-- ===== src/Module.antt =====
-- src/module/manager.rs: kernel modules and exported symbols. The code at a module's `init_addr` and
-- `cleanup_addr` is not in the sources: what its run returns is the parameter `run_init`, and a clean-up
-- returns nothing. The addresses of the kernel's port functions are parameters as well.
pub mod Life
pub mod Calls
use Prim.Native.String.{String}
use text.Mathlib.Text.{◌==◌ as str_eq}
use delta_os.Base.{
  ℕ, Bool, true, false, not, ◌&&◌, ◌||◌, List, [], ◌∷◌, map, Option, none, some, if◌then◌else◌,
  ◌==◌,
}
use delta_os.Base.Word.{add64}
use delta_os.Base.Map.{Map, Key, nat_key, string_key, get, insert, remove}
use delta_os.Kernel.Result.{
  KernelResult, ok, err, page_already_mapped, module_not_found, invalid_argument, general_fault,
}

pub data ModuleState : Type 0 where
  loaded running stopped error : ModuleState

pub data ModuleType : Type 0 where
  driver file_system network extension unknown : ModuleType

pub data SymbolType : Type 0 where
  function object bss unknown_symbol : SymbolType

abbrev pub is_loaded : ModuleState → Bool
is_loaded loaded = true
is_loaded _ = false

abbrev pub is_running : ModuleState → Bool
is_running running = true
is_running _ = false

abbrev pub is_stopped : ModuleState → Bool
is_stopped stopped = true
is_stopped _ = false

pub record ModuleInfo : Type 0 where
  pub id : ℕ
  pub name : String
  pub version : ℕ × ℕ × ℕ
  pub module_type : ModuleType
  pub state : ModuleState
  pub dependencies : List String
  pub size : ℕ
  pub init_addr : ℕ
  pub cleanup_addr : ℕ

pub record ModuleSymbol : Type 0 where
  pub name : String
  pub addr : ℕ
  pub symbol_type : SymbolType

pub record SymbolTable : Type 0 where
  pub symbols : Map String ℕ

-- `SymbolTable::register`, `lookup` and `all_symbols`.
unfoldable pub register : SymbolTable → String → ℕ → SymbolTable
register t name addr = record { symbols = insert t.symbols name addr }

unfoldable pub lookup : SymbolTable → String → Option ℕ
lookup t name = get t.symbols name

unfoldable pub all_symbols : SymbolTable → List ModuleSymbol
all_symbols t =
    map (λ (e : String × ℕ). record { name = e.0; addr = e.1; symbol_type = unknown_symbol })
      t.symbols

-- `ModuleManager`, with the static `NEXT_MODULE_ID`.
pub record Manager : Type 0 where
  pub modules : Map ℕ ModuleInfo
  pub symbol_table : SymbolTable
  pub ramdisk_addr : ℕ
  pub ramdisk_size : ℕ
  pub next_module_id : ℕ

unfoldable pub register_all : List (String × ℕ) → SymbolTable → SymbolTable
register_all [] t = t
register_all ((name, addr) ∷ rest) t = register_all rest (register t name addr)

-- What `register_kernel_symbols` registers, in order.
abbrev pub kernel_symbols : ℕ → ℕ → ℕ → ℕ → List (String × ℕ)
kernel_symbols inb outb in_long out_long =
    ("kprint", 0)
    ∷ ("inb", inb)
    ∷ ("outb", outb)
    ∷ ("inl", in_long)
    ∷ ("outl", out_long)
    ∷ ("kmalloc", 0)
    ∷ ("kfree", 0)
    ∷ ("schedule", 0)
    ∷ ("yield", 0)
    ∷ ("vfs_open", 0)
    ∷ ("vfs_read", 0)
    ∷ ("vfs_write", 0)
    ∷ ("vfs_close", 0)
    ∷ []

-- `ModuleManager::new`
unfoldable pub start_up : ℕ → ℕ → ℕ → ℕ → Manager
start_up inb outb in_long out_long = record {
  modules = [];
  symbol_table = register_all (kernel_symbols inb outb in_long out_long) (record { symbols = [] });
  ramdisk_addr = 0;
  ramdisk_size = 0;
  next_module_id = 1;
}

unfoldable pub set_ramdisk : Manager → ℕ → ℕ → Manager
set_ramdisk m addr size = record m { ramdisk_addr = addr; ramdisk_size = size }

-- Whether some module passes a test: the loops of `load_module` and `init_module`.
unfoldable pub any_module : (ModuleInfo → Bool) → Map ℕ ModuleInfo → Bool
any_module p [] = false
any_module p ((_, info) ∷ rest) = p info || any_module p rest

unfoldable pub fresh_info : ℕ → String → ModuleInfo
fresh_info id name = record {
  id = id;
  name = name;
  version = (0, 1, 0);
  module_type = driver;
  state = loaded;
  dependencies = [];
  size = 0;
  init_addr = 0;
  cleanup_addr = 0;
}

unfoldable pub add_module : Manager → String → Manager
add_module m name = record m {
  modules = insert m.modules m.next_module_id (fresh_info m.next_module_id name);
  next_module_id = add64 m.next_module_id 1;
}

unfoldable pub load_module : Manager → String → KernelResult ℕ × Manager
load_module m name =
    if any_module (λ (info : ModuleInfo). str_eq info.name name) m.modules
    then (err page_already_mapped, m)
    else (ok m.next_module_id, add_module m name)

-- The loop over the dependencies.
unfoldable pub dependencies_run : Map ℕ ModuleInfo → List String → Bool
dependencies_run modules [] = true
dependencies_run modules (dep_name ∷ rest) =
    any_module (λ (m : ModuleInfo). str_eq m.name dep_name && is_running m.state) modules
    && dependencies_run modules rest

-- `get_mut(id)` is not none: `info` was found under the id.
unfoldable pub set_state : Manager → ℕ → ModuleInfo → ModuleState → Manager
set_state m id info state = record m {
  modules = insert m.modules id (record info { state = state });
}

module _ (run_init : ℕ → ℕ) where
  unfoldable pub init_found : Manager → ℕ → Option ModuleInfo → KernelResult (Unit {0}) × Manager
  init_found m id none = (err module_not_found, m)
  init_found m id (some info) =
      if not (is_loaded info.state)
      then (err invalid_argument, m)
      else if not (dependencies_run m.modules info.dependencies)
      then (err module_not_found, m)
      else if not (info.init_addr == 0) && not (run_init info.init_addr == 0)
      then (err general_fault, set_state m id info error)
      else (ok tt, set_state m id info running)

  unfoldable pub init_module : Manager → ℕ → KernelResult (Unit {0}) × Manager
  unfolding init_found
  init_module m id = init_found m id (get m.modules id)

unfoldable pub unload_found : Manager → ℕ → Option ModuleInfo → KernelResult (Unit {0}) × Manager
unload_found m id none = (err module_not_found, m)
unload_found m id (some info) =
    if not (is_running info.state) && not (is_stopped info.state)
    then (err invalid_argument, m)
    else (ok tt, record m { modules = remove m.modules id })

unfoldable pub unload_module : Manager → ℕ → KernelResult (Unit {0}) × Manager
unfolding unload_found
unload_module m id = unload_found m id (get m.modules id)

unfoldable pub get_module_info : Manager → ℕ → Option ModuleInfo
get_module_info m id = get m.modules id

unfoldable pub list_modules : Manager → List ModuleInfo
list_modules m = map (λ (e : ℕ × ModuleInfo). e.1) m.modules

unfoldable pub resolve_symbol : Manager → String → Option ℕ
unfolding lookup
resolve_symbol m name = lookup m.symbol_table name

unfoldable pub register_symbol : Manager → String → ℕ → Manager
unfolding register
register_symbol m name addr = record m { symbol_table = register m.symbol_table name addr }
