-- ===== src/Sms/Tencent/Numbers.antt =====
-- The phone numbers and the parameters of a request.
use Prim.Native.String.{◌++◌}
use text.Mathlib.Text.{starts_with}
use text.Mathlib.TextPositions.{starts_with-append}
use text.Mathlib.TextLemmas.{append_assoc as text_assoc}
use mathlib.Core.List
use mathlib.Core.List.{append_assoc, append-nil}
use jotify.Prelude.{
  ◌≡◌, sym, ap, ◌∙◌, Bool, false, if◌then◌else◌, String, List, [], ◌∷◌, map, Option, none, some,
  length, replicate,
}
use jotify.Prelude.Text.{trim_prefix, trim_prefix-append}
use jotify.Sms.{SendReq}
use jotify.Sms.Tencent.{full_phone_num, append_numbers, append_params, request_of}

append_numbers_lem :
    (ps : List String) (set : List (Option String))
    → append_numbers ps set ≡ List.◌++◌ set (map (λ (p : String). some (full_phone_num p)) ps)
unfolding append_numbers
append_numbers_lem [] set = sym (append-nil set)
append_numbers_lem (p ∷ ps) set = append_numbers_lem ps _ ∙ append_assoc set _ _

append_params_lem :
    (params : List (String × String)) (set : List (Option String))
    → append_params params set ≡ List.◌++◌ set (map (λ (p : String × String). some p.1) params)
unfolding append_params
append_params_lem [] set = sym (append-nil set)
append_params_lem ((k, v) ∷ params) set = append_params_lem params _ ∙ append_assoc set _ _

-- The request has the numbers and the parameters in their order, and before each of the two lists
-- as many nil pointers as it has elements.
pub request_of-doubled :
    (app_id : String) (req : SendReq)
    → ((request_of app_id req).phone_number_set
        ≡ List.◌++◌
            (replicate (length req.phone_numbers) none)
            (map (λ (p : String). some (full_phone_num p)) req.phone_numbers))
      × ((request_of app_id req).template_param_set
          ≡ List.◌++◌
              (replicate (length req.template_params) none)
              (map (λ (p : String × String). some p.1) req.template_params))
unfolding request_of
request_of-doubled app_id req =
    (append_numbers_lem req.phone_numbers _, append_params_lem req.template_params _)

full_phone_num-local : (p : String) → starts_with p "+" ≡ false → full_phone_num p ≡ "+86" ++ p
unfolding full_phone_num
full_phone_num-local p h = ap (λ (b : Bool). if b then p else "+86" ++ p) h

full_phone_num-chinese : (p : String) → full_phone_num ("+86" ++ p) ≡ "+86" ++ p
unfolding full_phone_num
full_phone_num-chinese p =
    ap (λ (b : Bool). if b then "+86" ++ p else "+86" ++ "+86" ++ p)
      (ap (λ (t : String). starts_with t "+") (text_assoc "+" "86" p)
        ∙ starts_with-append "+" ("86" ++ p))

-- A number without a country code, sent as a Chinese one, is the key of its status again; one that
-- came with +86 loses it.
trim_prefix-full_phone_num :
    (p : String)
    → (starts_with p "+" ≡ false → trim_prefix (full_phone_num p) "+86" ≡ p)
      × (trim_prefix (full_phone_num ("+86" ++ p)) "+86" ≡ p)
trim_prefix-full_phone_num p = (
  λ (h : starts_with p "+" ≡ false).
      ap (λ (t : String). trim_prefix t "+86") (full_phone_num-local p h)
      ∙ trim_prefix-append "+86" p,
  ap (λ (t : String). trim_prefix t "+86") (full_phone_num-chinese p) ∙ trim_prefix-append "+86" p,
)
