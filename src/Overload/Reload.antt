-- ===== src/Overload/Reload.antt =====
-- molten.c: the functions of curl are put in and taken out of PHP's function table, as it is for PHP 7.
-- `F` are the functions, and `internal` tells those of ZEND_INTERNAL_FUNCTION.
use molten.Common.{
  Bool, Option, none, some, List, [], ◌∷◌, Bytes, bytes_eq, codes, length, take, if◌then◌else◌,
  Result, ok, fault, ◌>>=◌,
}

pub record ReloadDef : Type 0 where
  pub orig_func : Bytes
  pub over_func : Bytes
  pub save_func : Bytes

abbrev pub setopt_def : ReloadDef
setopt_def = record {
  orig_func = codes "curl_setopt";
  over_func = codes "molten_curl_setopt";
  save_func = codes "origin_molten_curl_setopt";
}

abbrev pub exec_def : ReloadDef
exec_def = record {
  orig_func = codes "curl_exec";
  over_func = codes "molten_curl_exec";
  save_func = codes "origin_molten_curl_exec";
}

abbrev pub setopt_array_def : ReloadDef
setopt_array_def = record {
  orig_func = codes "curl_setopt_array";
  over_func = codes "molten_curl_setopt_array";
  save_func = codes "origin_molten_curl_setopt_array";
}

abbrev pub reset_def : ReloadDef
reset_def = record {
  orig_func = codes "curl_reset";
  over_func = codes "molten_curl_reset";
  save_func = codes "origin_molten_curl_reset";
}

-- `prd`
unfoldable pub prd : List ReloadDef
prd = setopt_def ∷ exec_def ∷ setopt_array_def ∷ reset_def ∷ []

-- `function_table`
abbrev pub Table : Type 0 → Type 0
Table F = Bytes → Option F

module _ {F : Type 0} where
  -- `zend_hash_str_update_mem`, `zend_hash_str_del`
  unfoldable pub update : Bytes → F → Table F → Table F
  update name f t = λ other. if bytes_eq other name then some f else t other

  unfoldable pub delete : Bytes → Table F → Table F
  delete name t = λ other. if bytes_eq other name then none else t other

  -- `zend_hash_str_add_mem` keeps what is there.
  abbrev pub add_new : Option F → Bytes → F → Table F → Table F
  add_new none name f t = update name f t
  add_new (some g) name f t = t

  -- `ZEND_STRS` of a pointer gives the size of the pointer as the length of the name.
  abbrev pub clear_saved : Option F → ReloadDef → Table F → Table F
  clear_saved none p t = t
  clear_saved (some orig) p t = delete (take 8 p.save_func) (update p.orig_func orig t)

  -- `molten_clear_reload_function`
  unfoldable pub clear_reload_function : List ReloadDef → Table F → Table F
  clear_reload_function [] t = t
  clear_reload_function (p ∷ more) t = clear_reload_function more (clear_saved (t p.save_func) p t)

module _ {F : Type 0} (internal : F → Bool) where
  -- Copying from NULL is a fault.
  abbrev pub replace_by : Option F → F → ReloadDef → Table F → Result (Table F)
  replace_by none orig p t = fault
  replace_by (some replace) orig p t =
      ok (update p.orig_func replace (add_new (t p.save_func) p.save_func orig t))

  abbrev pub reload_found : Option F → Option F → ReloadDef → Table F → Result (Table F)
  reload_found replace none p t = ok t
  reload_found replace (some orig) p t = if internal orig then replace_by replace orig p t else ok t

  abbrev pub reload_unsaved : Option F → ReloadDef → Table F → Result (Table F)
  reload_unsaved (some saved) p t = ok t
  reload_unsaved none p t = reload_found (t p.over_func) (t p.orig_func) p t

  -- The loop of `molten_reload_curl_function`. The saved function is looked up by as many bytes of its
  -- name as the name of the original one has.
  unfoldable pub reload_curl_function : List ReloadDef → Table F → Result (Table F)
  reload_curl_function [] t = ok t
  reload_curl_function (p ∷ more) t = do
    t' ← reload_unsaved (t (take (length p.orig_func) p.save_func)) p t
    reload_curl_function more t'

-- `origin_curl_setopt` and its like, `none` for NULL.
pub record Origins (F : Type 0) : Type 0 where
  pub curl_setopt : Option F
  pub curl_exec : Option F
  pub curl_setopt_array : Option F
  pub curl_reset : Option F

abbrev or_old {ℓ} : {A : Type ℓ} → Option A → Option A → Option A
or_old none old = old
or_old (some a) old = some a

-- The end of `molten_reload_curl_function`.
unfoldable pub retrieve_origins : {F : Type 0} → Table F → Origins F → Origins F
retrieve_origins t o = record {
  curl_setopt = or_old (t (codes "origin_molten_curl_setopt")) o.curl_setopt;
  curl_exec = or_old (t (codes "origin_molten_curl_exec")) o.curl_exec;
  curl_setopt_array = or_old (t (codes "origin_molten_curl_setopt_array")) o.curl_setopt_array;
  curl_reset = or_old (t (codes "origin_molten_curl_reset")) o.curl_reset;
}
