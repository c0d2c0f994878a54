-- ===== src/Status.antt =====
-- molten_status.c: the page that shows the metrics and changes the settings, and the text of the metrics
-- from molten_ctrl.c.
pub mod Page
use molten.Common.{
  ℕ, zero, suc, Bool, true, false, Option, none, some, List, [], ◌∷◌, ◌++◌, ◌||◌, Bytes, codes,
  has_prefix, decimal, decimal_ℤ, if◌then◌else◌, ℤ, pos, negsuc, ◌&&◌,
}
use molten.Control.{Settings, Counts, Decoded, update_sampling}

-- `strstr`, as a test.
unfoldable pub has_infix : Bytes → Bytes → Bool
has_infix needle [] = has_prefix needle []
has_infix needle (c ∷ s) = has_prefix needle (c ∷ s) || has_infix needle s

-- `mo_ctrl_serialize_msg`
unfoldable pub serialize_msg : Bytes → Settings → Counts → Bytes
serialize_msg version mcm mri =
    codes
      "# HELP molten_request_all Number of all request.\n# TYPE molten_request_all counter\nmolten_request_all "
    ++ decimal mri.request_all
    ++ codes
        "\n# HELP molten_request_capture Number of request be capture.\n# TYPE molten_request_capture counter\nmolten_request_capture "
    ++ decimal mri.request_capture
    ++ codes
        "\n# HELP molten_sampling_type the type of sampling.\n# TYPE molten_sampling_type gauge\nmolten_sampling_type "
    ++ decimal mcm.sampling_type
    ++ codes
        "\n# HELP molten_sampling_rate the rate of sampling.\n# TYPE molten_sampling_rate gauge\nmolten_sampling_rate "
    ++ decimal_ℤ mcm.sampling_rate
    ++ codes
        "\n# HELP molten_sampling_request the request be capture one min.\n# TYPE molten_sampling_request gauge\nmolten_sampling_request "
    ++ decimal_ℤ mcm.sampling_request
    ++ codes
        "\n# HELP molten_version current molten span version.\n# TYPE molten_version gauge\nmolten_version "
    ++ version
    ++ codes "\n"

-- What the page sends: the code and the text.
pub record Answer : Type 0 where
  pub http_response_code : ℕ
  pub output : Bytes

abbrev pub success : Answer
success = record { http_response_code = 200; output = codes "[molten] update sampling success!!!" }

abbrev pub failure : Answer
failure = record { http_response_code = 400; output = codes "[molten] update sampling error!!!" }

-- The answer to the code that `mo_ctrl_update_sampling` returns: only -1 is an error.
abbrev pub answer_to : ℤ → Answer
answer_to (negsuc zero) = failure
answer_to (negsuc (suc n)) = success
answer_to (pos n) = success

-- The part for GET, and the part for POST, which may change the settings.
abbrev pub on_get : Bool → Bytes → Settings → Counts → List Answer
on_get false version mcm mri = []
on_get true version mcm mri =
    record { http_response_code = 200; output = serialize_msg version mcm mri } ∷ []

abbrev pub on_post : Bool → Option Decoded → Settings → List Answer × Settings
on_post false body mcm = ([], mcm)
on_post true body mcm = (answer_to (update_sampling body mcm).0 ∷ [], (update_sampling body mcm).1)

abbrev pub on_page :
    Bool → Bytes → Bytes → Option Decoded → Settings → Counts → List Answer × Settings
on_page false version method body mcm mri = ([], mcm)
on_page true version method body mcm mri = (
  on_get (has_prefix (codes "GET") method) version mcm mri
      ++ (on_post (has_prefix (codes "POST") method) body mcm).0,
  (on_post (has_prefix (codes "POST") method) body mcm).1,
)

-- `mo_request_handle`: the answers of the page of address `status_uri`, and the settings. `none` is NULL;
-- the body of the request comes as what PHP decodes of it.
unfoldable pub request_handle :
    Bytes
    → Bytes
    → Option Bytes
    → Option Bytes
    → Option Decoded
    → Settings
    → Counts
    → List Answer × Settings
request_handle version status_uri (some uri) (some method) body mcm mri =
    on_page (has_infix status_uri uri) version method body mcm mri
request_handle version status_uri (some uri) none body mcm mri = ([], mcm)
request_handle version status_uri none method body mcm mri = ([], mcm)
