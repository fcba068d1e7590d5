-- ===== src/Plugins/Unload.antt =====
-- plugin_manager.c: `antd_plugin_entry_drop` and `antd_unload_all_plugin`.
use mathlib.Core.List.{flatten}
use ant_http.Dictionary.{Chain}
use ant_http.Prelude.{ℕ, if◌then◌else◌, none, some, List, [], ◌∷◌, ◌++◌, replicate}
use ant_http.Plugins.{Context, PluginEntry, PluginTable, PluginCall, dropped, closed, hash_size}

-- The loop of `antd_plugin_entry_drop` over the nodes: each context's own node becomes NULL, which no
-- later node needs.
unfoldable pub drop_contexts : ℕ → Chain Context → List PluginCall
drop_contexts library [] = []
drop_contexts library ((k, none) ∷ c) = drop_contexts library c
drop_contexts library ((k, some ctx) ∷ c) =
    let later = drop_contexts library c in
    if ctx.has_drop then dropped library ctx.name ∷ later else later

unfoldable pub antd_plugin_entry_drop : PluginEntry → List PluginCall
unfolding drop_contexts
antd_plugin_entry_drop np =
    drop_contexts np.library (flatten np.instances.map) ++ (closed np.library ∷ [])

unfoldable pub unload_chain : List PluginEntry → List PluginCall
unfolding antd_plugin_entry_drop
unload_chain [] = []
unload_chain (np ∷ c) = antd_plugin_entry_drop np ++ unload_chain c

unfoldable pub unload_chains : PluginTable → List PluginCall
unfolding unload_chain
unload_chains [] = []
unload_chains (c ∷ table) = unload_chain c ++ unload_chains table

-- The empty table, and the calls.
unfoldable pub antd_unload_all_plugin : PluginTable → PluginTable × List PluginCall
unfolding unload_chains
antd_unload_all_plugin table = (replicate hash_size [], unload_chains table)
