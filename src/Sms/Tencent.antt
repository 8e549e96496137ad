-- ===== src/Sms/Tencent.antt =====
-- internal/service/provider/sms/client/tencent.go: the client of Tencent Cloud. Its SDK is a
-- parameter; a pointer to a text is `none` where it is nil. A response of the SDK is taken to have
-- all its parts.
pub mod Numbers
use Prim.Native.String.{◌++◌}
use text.Mathlib.Text.{starts_with}
use mathlib.Core.List
use jotify.Prelude.{
  ℕ, Bool, if◌then◌else◌, String, List, [], ◌∷◌, Option, none, some, length, replicate,
}
use jotify.Prelude.Text.{trim_prefix}
use jotify.Prelude.TextMaps.{put}
use jotify.Errs.{Result, ok, err, Error, invalid_param, other, Run, returned}
use jotify.Sms.{SendReq, SendResp, SendRespStatus}

-- sms.SendSmsRequest
pub record Request : Type 0 where
  pub phone_number_set : List (Option String)
  pub sms_sdk_app_id : String
  pub template_id : String
  pub sign_name : String
  pub template_param_set : List (Option String)

pub record SendStatus : Type 0 where
  pub phone_number : String
  pub code : String
  pub message : String

pub record Response : Type 0 where
  pub request_id : String
  pub send_status_set : List SendStatus

abbrev pub Sdk : Type 0 → Type 0
Sdk C = Request → C → Result Response × C

unfoldable pub full_phone_num : String → String
full_phone_num phone_number =
    if starts_with phone_number "+" then phone_number else "+86" ++ phone_number

-- The loop over the phone numbers, which appends to the set.
unfoldable pub append_numbers : List String → List (Option String) → List (Option String)
unfolding full_phone_num
append_numbers [] set = set
append_numbers (phone_number ∷ ps) set =
    append_numbers ps (List.◌++◌ set (some (full_phone_num phone_number) ∷ []))

-- The loop over the parameters, in the order in which the map gives them.
unfoldable pub append_params : List (String × String) → List (Option String) → List (Option String)
append_params [] set = set
append_params ((k, param) ∷ params) set = append_params params (List.◌++◌ set (some param ∷ []))

-- Both sets are made with as many elements as are then appended.
unfoldable pub request_of : String → SendReq → Request
unfolding append_numbers append_params
request_of app_id req = record {
  phone_number_set = append_numbers req.phone_numbers (replicate (length req.phone_numbers) none);
  sms_sdk_app_id = app_id;
  template_id = req.template_id;
  sign_name = req.sign_name;
  template_param_set =
      append_params req.template_params (replicate (length req.template_params) none);
}

-- The loop over the statuses of the response.
unfoldable pub statuses :
    List SendStatus → List (String × SendRespStatus) → List (String × SendRespStatus)
unfolding trim_prefix put
statuses [] m = m
statuses (st ∷ sts) m =
    statuses sts
      (put (trim_prefix st.phone_number "+86") (record { code = st.code; message = st.message }) m)

abbrev pub failed_to_send_sms : String → Error
failed_to_send_sms why = other ("[jotify] failed to send sms: " ++ why)

abbrev pub text_of : Error → String
text_of (other t) = t
text_of _ = ""

abbrev pub answer_of : Result Response → Result SendResp
answer_of (err e) = err (failed_to_send_sms (text_of e))
answer_of (ok res) = elim res.send_status_set [
  | [] ↦ err (failed_to_send_sms "no response from tencent")
  | st ∷ sts ↦ ok (record { request_id = res.request_id; phone_numbers = statuses (st ∷ sts) [] })
]

unfoldable pub send : {C : Type 0} → Sdk C → String → SendReq → C → Run SendResp × C
unfolding request_of statuses
send sdk app_id req c =
    let (res, c₁) = sdk (request_of app_id req) c in
    elim req.phone_numbers [
      | [] ↦ (returned (err (invalid_param "phone number should not be empty")), c)
      | p ∷ ps ↦ (returned (answer_of res), c₁)
    ]
