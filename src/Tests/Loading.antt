-- ===== src/Tests/Loading.antt =====
-- The plugin manager (fairmq/PluginManager.cxx) with concrete files and plugins.
use Prim.Native.String.{String, ◌++◌ as append}
use text.Mathlib.Text.{◌==◌ as str_eq}
use fair_mq.Prelude.{◌≡◌, refl, Bool, true, false, List, [], ◌∷◌, ◌++◌}
use fair_mq.Channel.Endpoint.{strip}
use fair_mq.Plugins.Loading.{
  PluginManager, Host, with_options, prepended, plain_paths, appended, load_plugins,
  instantiate_plugins,
}
use fair_mq.Plugins.Loading.Paths.{onto}
use fair_mq.Plugins.Loading.Sound.{Sound}
use fair_mq.Plugins.Loading.Loaded.{load_plugins-Sound}
use fair_mq.Plugins.Loading.Made.{Made, instantiate_plugins_lem}

-- The plugin dds is installed in /opt/lib; only the plugin broken throws when it is made.
abbrev host : Host
host = record {
  exists = λ f. str_eq f "/opt/lib/libfairmq-plugin-dds.so";
  is_directory = λ f. true;
  join = λ p f. append p (append "/" f);
  suffix = ".so";
  symbols = λ n l. with_options;
  makes = λ n. if_not (str_eq n "broken");
}
  where
    if_not : Bool → Bool
    if_not true = false
    if_not false = true

abbrev new_manager : PluginManager
new_manager = record { search_paths = []; factories = []; options = []; order = []; plugins = [] }

new_manager-Sound : Sound new_manager
new_manager-Sound = record { loadable = tt; once = tt }

abbrev paths : List String
paths = "/usr/lib" ∷ ">/lib" ∷ "</home/user/lib" ∷ "/usr/local/lib" ∷ []

-- The order of the directories, where the text of the option has /usr/local/lib before /usr/lib
paths_searched :
    onto (prepended paths) (plain_paths paths) ++ appended paths
    ≡ "/home/user/lib" ∷ "/usr/lib" ∷ "/usr/local/lib" ∷ "/lib" ∷ []
unfolding prepended plain_paths appended strip
paths_searched = refl

abbrev two_paths : List String
two_paths = "/usr/lib" ∷ "/opt/lib" ∷ []

abbrev requested : List String
requested = "s:config" ∷ "dds" ∷ "p:own" ∷ "dds" ∷ []

load_plugins-Sound_example : Sound (load_plugins host requested new_manager).0
load_plugins-Sound_example = load_plugins-Sound host requested new_manager new_manager-Sound

instantiate_plugins_lem_example :
    Made host
      (load_plugins host requested new_manager).0.order
      (instantiate_plugins host (load_plugins host requested new_manager).0)
instantiate_plugins_lem_example =
    instantiate_plugins_lem host (load_plugins host requested new_manager).0
      (load_plugins-Sound host requested new_manager new_manager-Sound)
