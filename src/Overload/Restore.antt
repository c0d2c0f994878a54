-- ===== src/Overload/Restore.antt =====
-- molten.c: curl's functions while molten's stand in their place, and after molten has left.
use molten.Common.{
  ◌≡◌, refl, Bool, true, none, some, List, [], ◌∷◌, bytes_eq, codes, length, take, Result, ok,
}
use molten.Overload.Reload.{
  ReloadDef, setopt_def, exec_def, setopt_array_def, reset_def, prd, Table, update, delete,
  reload_unsaved, reload_curl_function, clear_reload_function, Origins, retrieve_origins,
}

module _ {F : Type 0} where
  abbrev pub Four : Table F → (setopt exec setopt_array reset : F) → Type 0
  Four t setopt exec setopt_array reset =
      (t setopt_def.orig_func ≡ some setopt)
      × (t exec_def.orig_func ≡ some exec)
      × (t setopt_array_def.orig_func ≡ some setopt_array)
      × (t reset_def.orig_func ≡ some reset)

  abbrev pub originals : (a b c d : F) → Origins F
  originals a b c d = record {
    curl_setopt = some a;
    curl_exec = some b;
    curl_setopt_array = some c;
    curl_reset = some d;
  }

  abbrev fresh : ReloadDef → F → F → Table F → Table F
  fresh p orig over t = update p.orig_func over (update p.save_func orig t)

  abbrev reloaded : Table F → (a b c d a' b' c' d' : F) → Table F
  reloaded t a b c d a' b' c' d' =
      fresh reset_def d d'
        (fresh setopt_array_def c c' (fresh exec_def b b' (fresh setopt_def a a' t)))

  clear-step :
      (p : ReloadDef) (orig : F) (more : List ReloadDef) (t t' : Table F)
      → t p.save_func ≡ some orig
      → clear_reload_function more (delete (take 8 p.save_func) (update p.orig_func orig t)) ≡ t'
      → clear_reload_function (p ∷ more) t ≡ t'
  unfolding clear_reload_function
  clear-step p orig more t t' e rest = rw e rest

  abbrev placed : ReloadDef → F → Table F → Table F
  placed p over t = update p.orig_func over t

  abbrev reloaded_twice : Table F → (a b c d a' b' c' d' : F) → Table F
  reloaded_twice t a b c d a' b' c' d' = placed reset_def d' (
      placed setopt_array_def c'
        (placed exec_def b' (placed setopt_def a' (reloaded t a b c d a' b' c' d'))))

  abbrev cleared_one : ReloadDef → F → Table F → Table F
  cleared_one p orig t = delete (take 8 p.save_func) (update p.orig_func orig t)

  abbrev cleared : Table F → (a b c d : F) → Table F
  cleared t a b c d =
      cleared_one reset_def d
        (cleared_one setopt_array_def c (cleared_one exec_def b (cleared_one setopt_def a t)))

  -- The table once the originals are saved.
  clear-saved :
      (t : Table F) (a b c d : F)
      → t (codes "origin_molten_curl_setopt") ≡ some a
      → t (codes "origin_molten_curl_exec") ≡ some b
      → t (codes "origin_molten_curl_setopt_array") ≡ some c
      → t (codes "origin_molten_curl_reset") ≡ some d
      → clear_reload_function prd t ≡ cleared t a b c d
  unfolding clear_reload_function prd update delete bytes_eq
  clear-saved t a b c d sa sb sc sd =
      let t1 : Table F = cleared_one setopt_def a t in
      let t2 : Table F = cleared_one exec_def b t1 in
      let t3 : Table F = cleared_one setopt_array_def c t2 in
      clear-step setopt_def a (exec_def ∷ setopt_array_def ∷ reset_def ∷ []) t _ sa (
        clear-step exec_def b (setopt_array_def ∷ reset_def ∷ []) t1 _ sb (
          clear-step setopt_array_def c (reset_def ∷ []) t2 _ sc
            (clear-step reset_def d [] t3 _ sd refl)))

  cleared-Four : (t : Table F) (a b c d : F) → Four (cleared t a b c d) a b c d
  unfolding update delete bytes_eq
  cleared-Four t a b c d = (refl, refl, refl, refl)

module _ {F : Type 0} (internal : F → Bool) where
  -- Before the reload: the two functions of a row are there and internal, and there is none under the name
  -- for saving, nor under what is looked up for it.
  pub record Loaded (t : Table F) (p : ReloadDef) (orig over : F) : Type 0 where
    pub has_orig : t p.orig_func ≡ some orig
    pub has_over : t p.over_func ≡ some over
    pub internal_orig : internal orig ≡ true
    pub internal_over : internal over ≡ true
    pub cut : t (take (length p.orig_func) p.save_func) ≡ none
    pub unsaved : t p.save_func ≡ none

  reload_unsaved-first :
      (p : ReloadDef) (orig over : F) (t : Table F)
      → t (take (length p.orig_func) p.save_func) ≡ none
      → t p.over_func ≡ some over
      → t p.orig_func ≡ some orig
      → internal orig ≡ true
      → t p.save_func ≡ none
      → reload_unsaved internal (t (take (length p.orig_func) p.save_func)) p t
        ≡ ok (fresh p orig over t)
  reload_unsaved-first p orig over t cut has_over has_orig inner unsaved =
      rw (cut, has_over, has_orig, inner, unsaved) refl

  reload_unsaved-again :
      (p : ReloadDef) (orig over : F) (t : Table F)
      → t (take (length p.orig_func) p.save_func) ≡ none
      → t p.over_func ≡ some over
      → t p.orig_func ≡ some over
      → internal over ≡ true
      → t p.save_func ≡ some orig
      → reload_unsaved internal (t (take (length p.orig_func) p.save_func)) p t
        ≡ ok (update p.orig_func over t)
  reload_unsaved-again p orig over t cut has_over has_orig inner saved =
      rw (cut, has_over, has_orig, inner, saved) refl

  reload-step :
      (p : ReloadDef) (more : List ReloadDef) (t t' : Table F) (r : Result (Table F))
      → reload_unsaved internal (t (take (length p.orig_func) p.save_func)) p t ≡ ok t'
      → reload_curl_function internal more t' ≡ r
      → reload_curl_function internal (p ∷ more) t ≡ r
  unfolding reload_curl_function
  reload-step p more t t' r e rest = rw e rest

  reload-first :
      (t : Table F) (a b c d a' b' c' d' : F)
      → Loaded t setopt_def a a'
      → Loaded t exec_def b b'
      → Loaded t setopt_array_def c c'
      → Loaded t reset_def d d'
      → reload_curl_function internal prd t ≡ ok (reloaded t a b c d a' b' c' d')
  unfolding reload_curl_function prd update bytes_eq
  reload-first t a b c d a' b' c' d' la lb lc ld =
      let t1 : Table F = fresh setopt_def a a' t in
      let t2 : Table F = fresh exec_def b b' t1 in
      let t3 : Table F = fresh setopt_array_def c c' t2 in
      let t4 : Table F = fresh reset_def d d' t3 in
      reload-step setopt_def (exec_def ∷ setopt_array_def ∷ reset_def ∷ []) t t1 _
        (reload_unsaved-first setopt_def a a' t la.cut la.has_over la.has_orig la.internal_orig
          la.unsaved)
        (reload-step exec_def (setopt_array_def ∷ reset_def ∷ []) t1 t2 _
          (reload_unsaved-first exec_def b b' t1 lb.cut lb.has_over lb.has_orig lb.internal_orig
            lb.unsaved)
          (reload-step setopt_array_def (reset_def ∷ []) t2 t3 _
            (reload_unsaved-first setopt_array_def c c' t2 lc.cut lc.has_over lc.has_orig
              lc.internal_orig lc.unsaved)
            (reload-step reset_def [] t3 t4 _
              (reload_unsaved-first reset_def d d' t3 ld.cut ld.has_over ld.has_orig
                ld.internal_orig ld.unsaved)
              refl)))

  reload-again :
      (t : Table F) (a b c d a' b' c' d' : F)
      → Loaded t setopt_def a a'
      → Loaded t exec_def b b'
      → Loaded t setopt_array_def c c'
      → Loaded t reset_def d d'
      → reload_curl_function internal prd (reloaded t a b c d a' b' c' d')
        ≡ ok (reloaded_twice t a b c d a' b' c' d')
  unfolding reload_curl_function prd update bytes_eq
  reload-again t a b c d a' b' c' d' la lb lc ld =
      let t0 : Table F = reloaded t a b c d a' b' c' d' in
      let t1 : Table F = placed setopt_def a' t0 in
      let t2 : Table F = placed exec_def b' t1 in
      let t3 : Table F = placed setopt_array_def c' t2 in
      let t4 : Table F = placed reset_def d' t3 in
      reload-step setopt_def (exec_def ∷ setopt_array_def ∷ reset_def ∷ []) t0 t1 _
        (reload_unsaved-again setopt_def a a' t0 la.cut la.has_over refl la.internal_over refl)
        (reload-step exec_def (setopt_array_def ∷ reset_def ∷ []) t1 t2 _
          (reload_unsaved-again exec_def b b' t1 lb.cut lb.has_over refl lb.internal_over refl)
          (reload-step setopt_array_def (reset_def ∷ []) t2 t3 _
            (reload_unsaved-again setopt_array_def c c' t2 lc.cut lc.has_over refl lc.internal_over
              refl)
            (reload-step reset_def [] t3 t4 _
              (reload_unsaved-again reset_def d d' t3 ld.cut ld.has_over refl ld.internal_over refl)
              refl)))

  -- In a PHP with curl and molten, whose functions are internal and that has no function under the names
  -- for saving or those cut from them: the reload succeeds and puts molten's four functions in the place
  -- of curl's, a second reload succeeds and changes none of them, and the clearing puts curl's back, after
  -- one reload as after two. The pointers to the originals are set to curl's functions by both.
  pub reload_curl_function-cleared :
      (t : Table F) (a b c d a' b' c' d' : F) (o : Origins F)
      → Loaded t setopt_def a a'
      → Loaded t exec_def b b'
      → Loaded t setopt_array_def c c'
      → Loaded t reset_def d d'
      → (t1 : Table F) × (t2 : Table F) × (reload_curl_function internal prd t ≡ ok t1)
        × (reload_curl_function internal prd t1 ≡ ok t2)
        × (Four t1 a' b' c' d')
        × (Four t2 a' b' c' d')
        × (Four (clear_reload_function prd t1) a b c d)
        × (Four (clear_reload_function prd t2) a b c d)
        × (retrieve_origins t1 o ≡ originals a b c d)
        × (retrieve_origins t2 o ≡ originals a b c d)
  unfolding update bytes_eq retrieve_origins
  reload_curl_function-cleared t a b c d a' b' c' d' o la lb lc ld =
      let t1 : Table F = reloaded t a b c d a' b' c' d' in
      let t2 : Table F = reloaded_twice t a b c d a' b' c' d' in
      (
        t1,
        t2,
        reload-first t a b c d a' b' c' d' la lb lc ld,
        reload-again t a b c d a' b' c' d' la lb lc ld,
        (refl, refl, refl, refl),
        (refl, refl, refl, refl),
        rw (clear-saved t1 a b c d refl refl refl refl) (cleared-Four t1 a b c d),
        rw (clear-saved t2 a b c d refl refl refl refl) (cleared-Four t2 a b c d),
        refl,
        refl,
      )
