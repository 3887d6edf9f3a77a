-- ===== src/Plugins/Loading.antt =====
-- The plugin manager (fairmq/PluginManager.h, fairmq/PluginManager.cxx): where it looks for plugins,
-- which it has loaded, and which it has made.
pub mod Paths
pub mod Sound
pub mod Loaded
pub mod Made
pub mod Reloading
use Prim.Native.String.{String, ◌++◌ as append}
use text.Mathlib.Text.{◌==◌ as str_eq}
use fair_mq.Prelude.{
  Bool, true, false, not, ◌&&◌, ◌||◌, Option, none, some, List, [], ◌∷◌, ◌++◌, if◌then◌else◌, find,
  put,
}
use fair_mq.Channel.Endpoint.{strip}

-- fSearchPaths, fPluginFactories with false for an empty function, the keys of fPluginProgOptions and
-- of fPlugins, and fPluginOrder
pub record PluginManager : Type 0 where
  pub search_paths : List String
  pub factories : List (String × Bool)
  pub options : List String
  pub order : List String
  pub plugins : List String

-- How a call ends.
pub data Ending : Type 0 where
  done bad_search_path plugin_load_error plugin_instantiation_error : Ending

-- Where LoadSymbols finds a library: in a file, in the folders of the system, in the program
pub data Location : Type 0 where
  file in_system : String → Location
  program : Location

-- What boost::dll makes of a library: it or its function that makes the plugin is not there, or the
-- one that gives its options is not there, or this gives none or some.
pub data Symbols : Type 0 where
  no_factory no_options_function without_options with_options : Symbols

-- The file system, boost::dll, and the plugins, each of which may throw when it is made. `join` is
-- `/` of paths and `suffix` that of libraries.
pub record Host : Type 0 where
  pub exists : String → Bool
  pub is_directory : String → Bool
  pub join : String → String → String
  pub suffix : String
  pub symbols : String → Location → Symbols
  pub makes : String → Bool

-- A key is there.
unfoldable pub member : String → List String → Bool
member k [] = false
member k (j ∷ js) = str_eq j k || member k js

unfoldable pub has_factory : String → PluginManager → Bool
has_factory name m = elim (find name m.factories) [ none ↦ false | some b ↦ true ]

abbrev pub is_builtin : String → Bool
is_builtin name = str_eq "control" name || str_eq "config" name

-- A loop over calls, which an exception ends.
unfoldable pub for_each :
    (String → PluginManager → PluginManager × Ending)
    → List String
    → PluginManager
    → PluginManager × Ending
for_each f [] m = (m, done)
for_each f (x ∷ xs) m =
    let (m', r) = f x m in elim r [ done ↦ for_each f xs m' | other ↦ (m', other) ]

-- The search paths of the options: those after "<", those after ">", and the others
unfoldable pub prepended : List String → List String
prepended [] = []
prepended (p ∷ ps) =
    let rest = prepended ps in elim (strip "<" p) [ some r ↦ r ∷ rest | none ↦ rest ]

unfoldable pub appended : List String → List String
appended [] = []
appended (p ∷ ps) =
    let rest = appended ps in
    elim (strip "<" p) [
      | some r ↦ rest
      | none ↦ elim (strip ">" p) [ some r ↦ r ∷ rest | none ↦ rest ]
    ]

unfoldable pub plain_paths : List String → List String
plain_paths [] = []
plain_paths (p ∷ ps) =
    let rest = plain_paths ps in
    elim (strip "<" p) [
      | some r ↦ rest
      | none ↦ elim (strip ">" p) [ some r ↦ rest | none ↦ p ∷ rest ]
    ]

abbrev pub push_order : String → PluginManager → PluginManager
push_order name m = record m { order = m.order ++ name ∷ [] }

-- The two prefixes of libraries
abbrev pub lib_prefix : String
lib_prefix = "fairmq-plugin-"

abbrev pub lib_prefix_alt : String
lib_prefix_alt = "FairMQPlugin_"

-- ForEachPlugin: the plugins that the function is called with, false for a null pointer
unfoldable pub for_each_plugin : List String → PluginManager → List (String × Bool)
for_each_plugin [] m = []
for_each_plugin (p ∷ ps) m = (p, member p m.plugins) ∷ for_each_plugin ps m

module _ (host : Host) where
  -- ValidateSearchPath, false where it throws
  unfoldable pub valid_path : String → Bool
  valid_path path = not (str_eq path "") && not (host.exists path && not (host.is_directory path))

  unfoldable pub all_valid : List String → Bool
  all_valid [] = true
  all_valid (p ∷ ps) = valid_path p && all_valid ps

  unfoldable pub set_search_paths : List String → PluginManager → PluginManager × Ending
  set_search_paths ps m =
      if all_valid ps then (record m { search_paths = ps }, done) else (m, bad_search_path)

  unfoldable pub append_search_path : String → PluginManager → PluginManager × Ending
  append_search_path p m =
      if valid_path p
      then (record m { search_paths = m.search_paths ++ p ∷ [] }, done)
      else (m, bad_search_path)

  unfoldable pub prepend_search_path : String → PluginManager → PluginManager × Ending
  prepend_search_path p m =
      if valid_path p
      then (record m { search_paths = p ∷ m.search_paths }, done)
      else (m, bad_search_path)

  -- The constructor up to the plugins
  unfoldable pub configure_paths : List String → PluginManager → PluginManager × Ending
  configure_paths ps m =
      let (m', r) = set_search_paths (plain_paths ps) m in
      elim r [
        | done ↦
            let (m'', r') = for_each prepend_search_path (prepended ps) m' in
            elim r' [ done ↦ for_each append_search_path (appended ps) m'' | other ↦ (m'', other) ]
        | other ↦ (m', other)
      ]

  -- LoadSymbols, false where it throws system_error
  unfoldable pub load_symbols : String → Location → PluginManager → PluginManager × Bool
  load_symbols name location m =
      let m' = record m { factories = put name true m.factories } in
      elim (host.symbols name location) [
        | no_factory ↦ (m, false)
        | no_options_function ↦ (m', false)
        | without_options ↦ (m', true)
        | with_options ↦ (record m' { options = name ∷ m.options }, true)
      ]

  unfoldable pub load_plugin_prelinked_dynamic : String → PluginManager → PluginManager × Ending
  load_plugin_prelinked_dynamic name m =
      if has_factory name m
      then (m, done)
      else (let (m', ok) = load_symbols name program m in
          if ok then (push_order name m', done) else (m', plugin_load_error))

  abbrev pub file_name : String → String → String
  file_name prefix name = append "lib" (append prefix (append name host.suffix))

  -- SearchPluginFile over the search paths, none where it throws PluginNotFound
  unfoldable pub search_plugin_file : String → List String → Option String
  search_plugin_file name [] = none
  search_plugin_file name (p ∷ ps) =
      let rest = search_plugin_file name ps in
      let one = host.join p (file_name lib_prefix name) in
      let other = host.join p (file_name lib_prefix_alt name) in
      if host.exists one then some one else if host.exists other then some other else rest

  -- The search with the system's logic
  unfoldable pub search_system : String → List String → PluginManager → PluginManager × Ending
  search_system name [] m = (m, plugin_load_error)
  search_system name (prefix ∷ ps) m =
      let (m', ok) = load_symbols name (in_system (file_name prefix name)) m in
      let rest = search_system name ps m' in if ok then (push_order name m', done) else rest

  unfoldable pub load_plugin_dynamic : String → PluginManager → PluginManager × Ending
  load_plugin_dynamic name m =
      let prefixes = lib_prefix ∷ lib_prefix_alt ∷ [] in
      if has_factory name m then (m, done) else elim (search_plugin_file name m.search_paths) [
        | none ↦ search_system name prefixes m
        | some path ↦
            let (m', ok) = load_symbols name (file path) m in
            if ok then (push_order name m', done) else search_system name prefixes m'
      ]

  -- Both builtin plugins declare options.
  unfoldable pub load_plugin_static : String → PluginManager → PluginManager × Ending
  load_plugin_static name m =
      if has_factory name m
      then (m, done)
      else if is_builtin name
      then (push_order name (record m { options = name ∷ m.options }), done)
      else (let (m', ok) = load_symbols name program m in
          if ok then (push_order name m', done) else (m', plugin_load_error))

  unfoldable pub load_plugin : String → PluginManager → PluginManager × Ending
  load_plugin name m = elim (strip "p:" name) [
    | some rest ↦ load_plugin_prelinked_dynamic rest m
    | none ↦ elim (strip "d:" name) [
      | some rest ↦ load_plugin_dynamic rest m
      | none ↦ elim (strip "s:" name) [
        | some rest ↦ load_plugin_static rest m
        | none ↦ load_plugin_dynamic name m
      ]
    ]
  ]

  unfoldable pub load_plugins : List String → PluginManager → PluginManager × Ending
  load_plugins = for_each load_plugin

  -- InstantiatePlugin, with the exceptions that InstantiatePlugins catches. An empty factory throws.
  unfoldable pub instantiate_plugin : String → PluginManager → PluginManager × Ending
  instantiate_plugin name m =
      let made = record m { plugins = name ∷ m.plugins } in
      if member name m.plugins
      then (m, done)
      else if is_builtin name
      then (if host.makes name then (made, done) else (m, plugin_instantiation_error))
      else elim (find name m.factories) [
        | none ↦ (record m { factories = put name false m.factories }, plugin_instantiation_error)
        | some false ↦ (m, plugin_instantiation_error)
        | some true ↦ if host.makes name then (made, done) else (m, plugin_instantiation_error)
      ]

  unfoldable pub instantiate_plugins : PluginManager → PluginManager × Ending
  instantiate_plugins m = for_each instantiate_plugin m.order m
