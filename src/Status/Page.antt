-- ===== src/Status/Page.antt =====
-- When the page of molten_status.c changes the settings.
use molten.Common.{
  ◌≡◌, refl, ◌⊎◌, inl, inr, Bool, true, false, Option, none, some, List, [], ◌∷◌, ◌++◌, Bytes,
  codes, has_prefix,
}
use molten.Control.{Settings, Counts, Decoded, no_array, array, update_sampling}
use molten.Status.{Answer, success, on_get, on_post, on_page, has_infix, request_handle}

-- The settings are what they were, or the answers end with the one for success.
abbrev Settled : List Answer × Settings → Settings → Type 0
Settled r mcm = (r.1 ≡ mcm) ⊎ ((before : List Answer) × (r.0 ≡ before ++ (success ∷ [])))

on_post-Settled :
    (post : Bool) (before : List Answer) (body : Option Decoded) (mcm : Settings)
    → Settled (before ++ (on_post post body mcm).0, (on_post post body mcm).1) mcm
unfolding update_sampling
on_post-Settled false before body mcm = inl refl
on_post-Settled true before none mcm = inl refl
on_post-Settled true before (some no_array) mcm = inl refl
on_post-Settled true before (some (array field)) mcm = inr (before, refl)

on_page-Settled :
    (page : Bool) (version method : Bytes) (body : Option Decoded) (mcm : Settings) (mri : Counts)
    → Settled (on_page page version method body mcm mri) mcm
on_page-Settled false version method body mcm mri = inl refl
on_page-Settled true version method body mcm mri =
    on_post-Settled (has_prefix (codes "POST") method)
      (on_get (has_prefix (codes "GET") method) version mcm mri) body mcm

-- Whatever a request is, its address, method and body: the settings are afterwards what they were, or the
-- last answer is the one for success, with the code 200.
pub request_handle-settings :
    (version status_uri : Bytes) (uri method : Option Bytes) (body : Option Decoded)
    (mcm : Settings) (mri : Counts)
    → let (answers, mcm') = request_handle version status_uri uri method body mcm mri in
      (mcm' ≡ mcm) ⊎ ((before : List Answer) × (answers ≡ before ++ (success ∷ [])))
unfolding request_handle
request_handle-settings version status_uri none method body mcm mri = inl refl
request_handle-settings version status_uri (some uri) none body mcm mri = inl refl
request_handle-settings version status_uri (some uri) (some method) body mcm mri =
    on_page-Settled (has_infix status_uri uri) version method body mcm mri
